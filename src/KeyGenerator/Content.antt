-- ===== src/KeyGenerator/Content.antt =====
-- What `SpanningKeyGenerator::GenerateContent` of include/gear_bench_classes.h puts in its map, on a
-- little-endian machine.
use Prim.Native.Nat.{Ordering}
use native.Mathlib.Nat.{mod-eq_of_lt}
use compaction_test.Base.{
  ℕ, suc, ◌+◌, ◌*◌, ◌%◌, ◌^◌, ◌<◌, ◌≤◌, some, List, [], ◌∷◌, true, Bytes, All, length, ◌≡◌, ◌≢◌,
  refl, sym, ap, ◌∙◌, arith,
}
use compaction_test.Coding.Fixed.{put_fixed64-le}
use compaction_test.KeyGenerator.{KeyGenerator, generate_key_from_int}
use compaction_test.KeyGenerator.Order.{key_bytes, length-key_bytes, generate_lem}
use compaction_test.KeyGenerator.Spanning.{
  SpanningKeyGenerator, content_value, content_loop, generate_content,
}
use compaction_test.InternalKey.{
  append_internal_key, pack_sequence_and_type, is_extended_value_type, max_sequence_number,
  extract_internal_key_footer,
}
use compaction_test.InternalKey.Pack.{pack_lem}
use compaction_test.InternalKey.RoundTrip.{key_of}
use compaction_test.InternalKey.Comparator.{internal_key}
use compaction_test.InternalKey.Comparator.Order.{footer-key_of}
use compaction_test.Comparator.{Comparator, KvMap, emplace}
use compaction_test.Comparator.Laws.{
  IsLawful, IsKvMap, emplace-IsKvMap, emplace-All, emplace_new, emplace_other, find,
}

value_key :
    (u : Bytes) (seq : ℕ)
    → seq ≤ max_sequence_number
    → internal_key true u seq 1 ≡ some (key_of u (seq * 256 + 1))
unfolding internal_key append_internal_key pack_sequence_and_type is_extended_value_type
value_key u seq h = ground (arith, pack_lem seq 1, put_fixed64-le true u (seq * 256 + 1))

-- An encoded key is of one word.
same_word : (u v : Bytes) (w x : ℕ) → w < 2 ^ 64 → x < 2 ^ 64 → key_of u w ≡ key_of v x → w ≡ x
same_word u v w x hw hx e =
    let read =
      sym (footer-key_of true u w hw)
      ∙ ap (extract_internal_key_footer true) e
      ∙ footer-key_of true v x hx in
    ground (arith, read)

-- An encoded key with a word below the bound.
abbrev IsOld : ℕ → Bytes → Type 0
IsOld bound j = (u : Bytes) × (w : ℕ) × (j ≡ key_of u w) × (w < bound)

abbrev pub expected : ℕ → ℕ → ℕ → List ℕ → List Bytes
expected num size seqno [] = []
expected num size seqno (key ∷ keys) =
    key_of (key_bytes (key % num) size) ((seqno + 1) * 256 + 1) ∷ expected num size (seqno + 2) keys

no_more : (n : ℕ) → n ≡ n + 2 * 0
no_more n = omega arith

module _ (c : Comparator) (laws : IsLawful c)
    (bytewise : (a b : Bytes) → c.compare a b ≡ Ordering.eq → a ≡ b) (g : KeyGenerator)
    (pos : 0 < g.distinct_num) where
  fresh :
      (bound : ℕ) (u : Bytes) (w : ℕ) (j : Bytes)
      → bound ≤ w
      → w < 2 ^ 64
      → IsOld bound j
      → (c.compare (key_of u w) j ≢ Ordering.eq) × (c.compare j (key_of u w) ≢ Ordering.eq)
  fresh bound u w j h hw (v, x, e, below) = (
    λ same. omega (arith, same_word u v w x hw (omega arith) (bytewise (key_of u w) j same ∙ e)),
    λ same.
        omega (arith, same_word v u x w (omega arith) hw (sym e ∙ bytewise j (key_of u w) same)),
  )

  new_key :
      (bound : ℕ) (u : Bytes) (w : ℕ) (m : KvMap)
      → bound ≤ w
      → w < 2 ^ 64
      → All (λ e. IsOld bound e.0) m
      → All (λ e. c.compare (key_of u w) e.0 ≢ Ordering.eq) m
  new_key bound u w [] h hw a = tt
  new_key bound u w (e ∷ m) h hw (old, a) =
      ((fresh bound u w e.0 h hw old).0, new_key bound u w m h hw a)

  older : (a b : ℕ) (m : KvMap) → a ≤ b → All (λ e. IsOld a e.0) m → All (λ e. IsOld b e.0) m
  older a b [] h all = tt
  older a b (e ∷ m) h ((u, w, eq, below), all) = ((u, w, eq, omega arith), older a b m h all)

  -- What the loop does from a map of older keys: it adds an entry for each key and leaves the others.
  loop_lem :
      (keys : List ℕ) (seqno : ℕ) (buffer : Bytes) (m : KvMap)
      → length buffer ≡ g.key_size
      → seqno + 2 * length keys ≤ max_sequence_number
      → IsKvMap c m
      → All (λ e. IsOld ((seqno + 1) * 256) e.0) m
      → (content : KvMap) × (last : Bytes) × (content_loop true c g keys seqno buffer m
          ≡ some (content, seqno + 2 * length keys, last))
        × (length content ≡ length m + length keys)
        × IsKvMap c content
        × ((j : Bytes) → IsOld ((seqno + 1) * 256) j → find c laws j content ≡ find c laws j m)
        × All
            (λ k. find c laws k content ≡ some content_value)
            (expected g.distinct_num g.key_size seqno keys)
  unfolding content_loop
  loop_lem [] seqno buffer m size fits sorted old = (
    m,
    buffer,
    ap (λ k. some (m, k, buffer)) (no_more seqno),
    omega arith,
    sorted,
    (λ j o. refl),
    tt,
  )
  loop_lem (key ∷ keys) seqno buffer m size fits sorted old =
      let text = key_bytes (key % g.distinct_num) g.key_size in
      let w = (seqno + 1) * 256 + 1 in
      let made = key_of text w in
      let m1 : KvMap = emplace c made content_value m in
      let new = new_key ((seqno + 1) * 256) text w m (omega arith) (omega arith) old in
      let (grown, found) = emplace_new c laws made content_value m new in
      let old1 : All (λ e. IsOld ((seqno + 2 + 1) * 256) e.0) m1 =
        emplace-All c laws (λ e. IsOld ((seqno + 2 + 1) * 256) e.0) made content_value m
          (text, w, refl, omega arith)
          (older ((seqno + 1) * 256) ((seqno + 2 + 1) * 256) m (omega arith) old) in
      let (content, last, run, count, sorted1, kept, there) =
        loop_lem keys (seqno + 2) text m1 (length-key_bytes (key % g.distinct_num) g.key_size)
          (omega arith) (emplace-IsKvMap c laws made content_value m sorted) old1 in
      let first : (seqno + 1) % 2 ^ 64 ≡ seqno + 1 = mod-eq_of_lt (omega arith) in
      let second : (seqno + 1 + 1) % 2 ^ 64 ≡ seqno + 2 =
        mod-eq_of_lt (omega arith) ∙ omega arith in
      let total : seqno + 2 + 2 * length keys ≡ seqno + 2 * suc (length keys) = omega arith in
      let generated : generate_key_from_int true key g.distinct_num buffer g.key_size ≡ some text =
        ap (generate_key_from_int true key g.distinct_num buffer) (sym size)
        ∙ generate_lem key g.distinct_num buffer pos
        ∙ ap (λ k. some (key_bytes (key % g.distinct_num) k)) size in
      (
        content,
        last,
        simp (generated, first, value_key text (seqno + 1) (omega arith), second)
            (run ∙ ap (λ k. some (content, k, last)) total),
        omega (arith, count, grown),
        sorted1,
        (λ j o.
            let (u, x, e, below) = o in
            kept j (u, x, e, omega arith)
            ∙ emplace_other c laws made content_value j m
                ((fresh ((seqno + 1) * 256) text w j (omega arith) (omega arith) o).1)),
        (kept made (text, w, refl, omega arith) ∙ found, there),
      )

  -- On a little-endian machine, from a set of any numbers, with sequence numbers that stay in their range and a
  -- lawful comparator that tells different bytes apart: the map gets one entry for each number of the
  -- set, though numbers may agree up to the number of keys, since no two entries have one sequence
  -- number. It is in order, the entry of each number is found under its key, and the sequence number
  -- has gone up by two for each.
  pub generate_content_lem :
      (spanning : SpanningKeyGenerator) (seqno : ℕ) (buffer : Bytes)
      → length buffer ≡ g.key_size
      → seqno + 2 * length spanning.result_list ≤ max_sequence_number
      → (content : KvMap) × (last : Bytes) × (generate_content true c g spanning seqno buffer
          ≡ some (content, seqno + 2 * length spanning.result_list, last))
        × (length content ≡ length spanning.result_list)
        × IsKvMap c content
        × All
            (λ k. find c laws k content ≡ some content_value)
            (expected g.distinct_num g.key_size seqno spanning.result_list)
  unfolding generate_content
  generate_content_lem spanning seqno buffer size fits =
      let (content, last, run, count, sorted, kept, there) =
        loop_lem spanning.result_list seqno buffer [] size fits tt tt in
      (content, last, run, omega (arith, count), sorted, there)
