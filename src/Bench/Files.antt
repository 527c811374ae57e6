-- ===== src/Bench/Files.antt =====
-- What `generate_files` of tools/gear_bench_tool.cc makes, on a little-endian machine.
use native.Mathlib.Nat.{mod-eq_of_lt}
use compaction_test.Base.{
  ℕ, zero, suc, ◌+◌, ◌-◌, ◌*◌, ◌%◌, ◌^◌, ◌<◌, ◌≤◌, some, List, [], ◌∷◌, ◌++◌, append_assoc,
  append-nil, map, true, false, leb, ltb, Bytes, length, take, drop, replicate, get_elem?,
  get_elem?-some, drop-get_elem?, ◌≡◌, refl, sym, ap, ◌∙◌, inl, inr, ◌⊎◌, arith,
}
use compaction_test.Coding.Fixed.{put_fixed64-le}
use compaction_test.KeyGenerator.{
  KeyGenerator, incremental_random, next_listed, next_in_mode, next_value, next_string,
  generate_key_from_int,
}
use compaction_test.KeyGenerator.Order.{key_bytes, length-key_bytes, generate_lem}
use compaction_test.InternalKey.{
  append_internal_key, pack_sequence_and_type, type_value, max_sequence_number,
}
use compaction_test.InternalKey.RoundTrip.{key_of}
use compaction_test.InternalKey.Comparator.{internal_key}
use compaction_test.Bench.{Filling, value_text, add_entry, fill_table}

-- The word of the sequence number and the type that every key gets.
abbrev pub bench_word : ℕ
bench_word = (2 ^ 56 - 2) * 256 + 1

-- The key that is made of a value, out of `range` values.
abbrev pub made_key : ℕ → ℕ → Bytes
made_key range v = key_of (key_bytes (v % range) 8) bench_word

internal_lem :
    (u : Bytes)
    → internal_key true u (max_sequence_number - 1) type_value ≡ some (key_of u bench_word)
unfolding internal_key append_internal_key pack_sequence_and_type
internal_lem u = ap some (put_fixed64-le true u bench_word)

-- A generator of listed values that has given out `n` of them.
pub record IsGenerator (range n : ℕ) (g : KeyGenerator) : Type 0 where
  pub mode : g.mode ≡ incremental_random
  pub distinct : g.distinct_num ≡ range
  pub size : g.key_size ≡ 8
  pub count : length g.values ≡ range
  pub next : g.next ≡ n

module _ (Rand : Type 0) (draw : Rand → ℕ × Rand) (range : ℕ) (small : range < 2 ^ 64) where
  value_lem :
      (n v : ℕ) (g : KeyGenerator) (rand : Rand)
      → IsGenerator range n g
      → n < range
      → get_elem? g.values n ≡ some v
      → next_value Rand draw g rand ≡ some (v, rand, record g { next = n + 1 })
  unfolding next_value next_listed
  value_lem n v g rand ok h e =
      let inside : ltb g.next g.distinct_num ≡ true = ground (arith, ok.next, ok.distinct) in
      let after : (g.next + 1) % 2 ^ 64 ≡ n + 1 =
        mod-eq_of_lt (omega (arith, ok.next)) ∙ omega (arith, ok.next) in
      let found = ap (λ k. get_elem? g.values k) ok.next ∙ e in
      ap (λ mode. next_in_mode Rand draw mode g rand) ok.mode ∙ simp (inside, found, after)

  key_lem :
      (v : ℕ) (g : KeyGenerator) (buffer : Bytes)
      → g.distinct_num ≡ range
      → g.key_size ≡ 8
      → length buffer ≡ 8
      → 0 < range
      → generate_key_from_int true v g.distinct_num buffer g.key_size
        ≡ some (key_bytes (v % range) 8)
  key_lem v g buffer distinct size eight pos =
      (λ i. generate_key_from_int true v (distinct i) buffer ((size ∙ sym eight) i))
      ∙ generate_lem v range buffer pos
      ∙ ap (λ k. some (key_bytes (v % range) k)) eight

  next_lem :
      (n v : ℕ) (g : KeyGenerator) (rand : Rand) (buffer : Bytes)
      → IsGenerator range n g
      → length buffer ≡ 8
      → n < range
      → get_elem? g.values n ≡ some v
      → next_string Rand draw true buffer g rand
        ≡ some (key_bytes (v % range) 8, rand, record g { next = n + 1 })
  unfolding next_string
  next_lem n v g rand buffer ok eight h e =
      simp (value_lem n v g rand ok h e, key_lem v g buffer ok.distinct ok.size eight (omega arith))

  abbrev pub state : ℕ → KeyGenerator → Rand → Bytes → List Bytes → List Bytes → Filling Rand
  state n g rand buffer keys values = record {
    generated_entries = n;
    generator = g;
    rand = rand;
    key_buffer = buffer;
    keys = keys;
    values = values;
  }

  add_lem :
      (n v : ℕ) (g : KeyGenerator) (rand : Rand) (buffer : Bytes) (keys values : List Bytes)
      → IsGenerator range n g
      → length buffer ≡ 8
      → n < range
      → get_elem? g.values n ≡ some v
      → add_entry Rand draw true (state n g rand buffer keys values)
        ≡ some (
            state
              (n + 1)
              (record g { next = n + 1 })
              rand
              (key_bytes (v % range) 8)
              (keys ++ made_key range v ∷ [])
              (values ++ value_text ∷ []))
  unfolding add_entry
  add_lem n v g rand buffer keys values ok eight h e =
      let after : (n + 1) % 2 ^ 64 ≡ n + 1 = mod-eq_of_lt (omega arith) in
      simp (next_lem n v g rand buffer ok eight h e, internal_lem (key_bytes (v % range) 8), after)

  right : (n : ℕ) → n ≡ n + 0
  right n = omega arith

  stop_lem :
      (extra n : ℕ) (g : KeyGenerator) (rand : Rand) (buffer : Bytes) (keys values : List Bytes)
      → IsGenerator range n g
      → n + 0 ≤ range
      → (extra ≡ 0) ⊎ (n + 0 ≡ range)
      → fill_table Rand draw true range (zero + extra) (state n g rand buffer keys values)
        ≡ some (state n g rand buffer keys values)
  unfolding fill_table
  stop_lem zero n g rand buffer keys values ok le done = refl
  stop_lem (suc extra) n g rand buffer keys values ok le done = ground arith

  step_lem :
      (left n v : ℕ) (g : KeyGenerator) (rand : Rand) (buffer : Bytes) (keys values : List Bytes)
      → IsGenerator range n g
      → length buffer ≡ 8
      → n < range
      → get_elem? g.values n ≡ some v
      → fill_table Rand draw true range (suc left) (state n g rand buffer keys values)
        ≡ fill_table Rand draw true range left (
            state
              (n + 1)
              (record g { next = n + 1 })
              rand
              (key_bytes (v % range) 8)
              (keys ++ made_key range v ∷ [])
              (values ++ value_text ∷ []))
  unfolding fill_table
  step_lem left n v g rand buffer keys values ok eight h e =
      let one = add_lem n v g rand buffer keys values ok eight h e in
      let inside : leb range n ≡ false = ground arith in simp (one, inside)

  -- Rounds that go on as long as there is a value: `m` of them, and `extra` that are not needed.
  pub fill_lem :
      (m extra n : ℕ) (g : KeyGenerator) (rand : Rand) (buffer : Bytes) (keys values : List Bytes)
      → IsGenerator range n g
      → length buffer ≡ 8
      → n + m ≤ range
      → (extra ≡ 0) ⊎ (n + m ≡ range)
      → (b : Bytes) × (length b ≡ 8)
        × (fill_table Rand draw true range (m + extra) (state n g rand buffer keys values)
            ≡ some (
                state
                  (n + m)
                  (record g { next = n + m })
                  rand
                  b
                  (keys ++ map (made_key range) (take m (drop n g.values)))
                  (values ++ replicate m value_text)))
  fill_lem zero extra n g rand buffer keys values ok eight le done = (
    buffer,
    eight,
    stop_lem extra n g rand buffer keys values ok le done ∙ (λ i. some (
        state (right n i) (record g { next = (ok.next ∙ right n) i }) rand buffer
          (sym (append-nil keys) i) (sym (append-nil values) i))),
  )
  fill_lem (suc m) extra n g rand buffer keys values ok eight le done =
      let (v, e) = get_elem?-some g.values n (omega (arith, ok.count)) in
      let one = step_lem (m + extra) n v g rand buffer keys values ok eight (omega arith) e in
      let rounds : suc m + extra ≡ suc (m + extra) = omega arith in
      let g1 : KeyGenerator = record g { next = n + 1 } in
      let ok1 : IsGenerator range (n + 1) g1 = record {
        mode = ok.mode;
        distinct = ok.distinct;
        size = ok.size;
        count = ok.count;
        next = refl;
      } in
      let (b, eb, rest) =
        fill_lem m extra (n + 1) g1 rand (key_bytes (v % range) 8) (keys ++ made_key range v ∷ [])
          (values ++ value_text ∷ []) ok1 (length-key_bytes (v % range) 8) (omega arith)
          (elim done [ inl none_left ↦ inl none_left | inr whole ↦ inr (omega (arith, whole)) ]) in
      let sum : n + 1 + m ≡ n + suc m = omega arith in
      let next : n + 1 ≡ suc n = omega arith in
      let all : v ∷ take m (drop (n + 1) g.values) ≡ take (suc m) (drop n g.values) =
        ap (λ k. v ∷ take m (drop k g.values)) next
        ∙ ap (take (suc m)) (sym (drop-get_elem? g.values n v e)) in
      (
        b,
        eb,
        ap (λ k. fill_table Rand draw true range k (state n g rand buffer keys values)) rounds
            ∙ one
            ∙ rest
            ∙ (λ i. some (
                state (sum i) (record g { next = sum i }) rand b
                  ((append_assoc keys (made_key range v ∷ [])
                        (map (made_key range) (take m (drop (n + 1) g.values)))
                      ∙ ap (λ vs. keys ++ map (made_key range) vs) all)
                    i)
                  (append_assoc values (value_text ∷ []) (replicate m value_text) i))),
      )
