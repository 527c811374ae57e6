-- ===== src/Bench/Generate.antt =====
-- What `generate_files` of tools/gear_bench_tool.cc leaves behind, on a little-endian machine: the
-- files of one thread.
use compaction_test.Base.{
  ℕ, zero, suc, ◌+◌, ◌-◌, ◌*◌, ◌%◌, ◌^◌, ◌<◌, ◌≤◌, min, Option, some, List, [], ◌∷◌, map, true,
  false, Bytes, All, length, length-replicate, concat, take, replicate, ◌≡◌, refl, ap, ◌∙◌, ◌⊎◌,
  ◌==◌, leb, Bool-cases, inl, inr, arith,
}
use compaction_test.Block.{key_content_length}
use compaction_test.KeyGenerator.{
  KeyGenerator, incremental_random, set_elem, incremental_loop, listed_values, new_key_generator,
}
use compaction_test.Merger.FileNames.{FileNameCreator, names_from}
use compaction_test.Bench.{value_text, generate_files}
use compaction_test.Bench.Files.{made_key, IsGenerator}
use compaction_test.Bench.Loop.{Tables, loop_lem}

set_elem-some :
    (P : ℕ → Type 0) (i v : ℕ) (xs : List ℕ)
    → i < length xs
    → P v
    → All P xs
    → (ys : List ℕ) × (set_elem i v xs ≡ some ys) × (length ys ≡ length xs) × All P ys
set_elem-some P i v [] h p a = absurd (omega arith)
set_elem-some P zero v (x ∷ xs) h p (px, a) = (v ∷ xs, refl, refl, (p, a))
set_elem-some P (suc i) v (x ∷ xs) h p (px, a) =
    let (ys, e, n, b) = set_elem-some P i v xs (omega arith) p a in
    (x ∷ ys, simp e refl, ap suc n, (px, b))

All-replicate : (P : ℕ → Type 0) (n a : ℕ) → P a → All P (replicate n a)
All-replicate P zero a p = tt
All-replicate P (suc n) a p = (p, All-replicate P n a p)

abbrev pub made_generator : ℕ → ℕ → List ℕ → KeyGenerator
made_generator low num values = record {
  mode = incremental_random;
  min_value = low;
  distinct_num = num;
  next = 0;
  key_size = 8;
  values = values;
}

rounds_fit : (num low : ℕ) → (num - low + low ≡ num) ⊎ (num - low ≡ 0)
rounds_fit num low = elim (Bool-cases (leb low num)) [
  | inl fits ↦ inl (ground (arith, fits))
  | inr over ↦ inr (ground (arith, over))
]

module _ (Rand : Type 0) (draw : Rand → ℕ × Rand) where
  incremental_some :
      (P : ℕ → Type 0) (left i num low : ℕ) (rand : Rand) (values : List ℕ)
      → ((d : ℕ) → P ((d % num + low) % 2 ^ 64))
      → 0 < num
      → left + i ≤ length values
      → All P values
      → (rand1 : Rand) × (ys : List ℕ) × (incremental_loop Rand draw left i num low rand values
          ≡ some (rand1, ys))
        × (length ys ≡ length values)
        × All P ys
  unfolding incremental_loop
  incremental_some P zero i num low rand values p pos h a = (rand, values, refl, refl, a)
  incremental_some P (suc left) i num low rand values p pos h a =
      let v : ℕ = ((draw rand).0 % num + low) % 2 ^ 64 in
      let (ys, e, n, b) = set_elem-some P i v values (omega arith) (p (draw rand).0) a in
      let (rand1, zs, e1, n1, b1) =
        incremental_some P left (suc i) num low (draw rand).1 ys p pos (omega arith) b in
      let test : (num == 0) ≡ false = ground arith in (rand1, zs, simp (test, e) e1, n1 ∙ n, b1)

  -- The constructor, with values that `P` holds for.
  generator_some :
      (P : ℕ → Type 0) (shuffle : ℕ → List ℕ → List ℕ) (sort : List ℕ → List ℕ) (num seed low : ℕ)
      (rand : Rand)
      → ((xs : List ℕ) → length (sort xs) ≡ length xs)
      → ((d : ℕ) → P ((d % num + low) % 2 ^ 64))
      → P 0
      → 0 < num
      → (rand1 : Rand) × (drawn : List ℕ) × (new_key_generator Rand draw shuffle sort
            incremental_random num seed key_content_length low rand
          ≡ some (rand1, made_generator low num (sort drawn)))
        × (length drawn ≡ num)
        × All P drawn
  unfolding new_key_generator listed_values
  generator_some P shuffle sort num seed low rand same p zero_ok pos =
      let size = length-replicate {A = ℕ} num 0 in
      elim (rounds_fit num low) [
        | inl fit ↦
            let (rand1, ys, e, n, b) =
              incremental_some P (num - low) low num low rand (replicate num 0) p pos
                (omega (arith, fit, size)) (All-replicate P num 0 zero_ok) in
            (rand1, ys, simp e refl, n ∙ size, b)
        | inr none_left ↦
            (rand, replicate num 0, rw none_left refl, size, All-replicate P num 0 zero_ok)
      ]

  module _ (shuffle : ℕ → List ℕ → List ℕ) (sort : List ℕ → List ℕ)
      (same : (xs : List ℕ) → length (sort xs) ≡ length xs) (freed : List Bytes → List Bytes)
      (format : List Bytes → List Bytes → Option Bytes) (disk : List Bytes → Bytes)
      (total : (keys : List Bytes)
        → format (freed keys) (replicate (length keys) value_text) ≡ some (disk keys)) where
    pub generate_some :
        (P : ℕ → Type 0) (fuel seed entries_per_file start_key range : ℕ) (small : range < 2 ^ 64)
        (one : 1 ≤ entries_per_file) (buffer : Bytes) (rand : Rand) (creator : FileNameCreator)
        → ((d : ℕ) → P ((d % range + start_key) % 2 ^ 64))
        → P 0
        → 0 < range
        → range < fuel
        → length buffer ≡ 8
        → (tables : List (List Bytes)) × (creator1 : FileNameCreator) × (rand1 : Rand)
          × (drawn : List ℕ) × (generate_files Rand draw true freed format shuffle sort fuel buffer
                seed entries_per_file start_key range rand creator
              ≡ some (
                creator1,
                rand1,
                record {
                  names = names_from (length tables) creator;
                  tables = tables;
                  contents = map disk tables;
                },
              ))
          × (length drawn ≡ range)
          × All P drawn
          × Tables Rand draw range small freed format disk total entries_per_file one
              (made_generator start_key range (sort drawn))
              0
              tables
    unfolding generate_files
    generate_some P fuel seed entries_per_file start_key range small one buffer rand creator p
          zero_ok pos f eight =
        let (rand1, drawn, made, size, ok) =
          generator_some P shuffle sort range seed start_key rand same p zero_ok pos in
        let g = made_generator start_key range (sort drawn) in
        let is_new : IsGenerator range 0 g = record {
          mode = refl;
          distinct = refl;
          size = refl;
          count = same drawn ∙ size;
          next = refl;
        } in
        let (tables, creator1, run, listed) =
          loop_lem Rand draw range small freed format disk total entries_per_file one g rand1 fuel 0
            creator buffer [] [] (record { names = []; tables = []; contents = [] }) is_new eight
            pos (omega arith) in
        (tables, creator1, rand1, drawn, simp made run, size, ok, listed)

    -- The files of one thread, on a little-endian machine, for a range of at least one and below 2^64,
    -- at least one entry to a file, a buffer of 8 bytes and more fuel than the range: the loop ends.
    -- It writes one file at least, and otherwise the fewest that hold all keys but one. The files
    -- together hold the keys of the sorted values in order, as many of the range as they have room
    -- for, and no file has more than the entries of a file. The names are those that the creator
    -- gives, one for each file. Sorting keeps the length, and the format of the files accepts what it
    -- is given.
    pub generate_files_lem :
        (fuel seed entries_per_file start_key range : ℕ) (small : range < 2 ^ 64)
        (one : 1 ≤ entries_per_file) (buffer : Bytes) (rand : Rand) (creator : FileNameCreator)
        → 0 < range
        → range < fuel
        → length buffer ≡ 8
        → (tables : List (List Bytes)) × (creator1 : FileNameCreator) × (rand1 : Rand)
          × (drawn : List ℕ) × (generate_files Rand draw true freed format shuffle sort fuel buffer
                seed entries_per_file start_key range rand creator
              ≡ some (
                creator1,
                rand1,
                record {
                  names = names_from (length tables) creator;
                  tables = tables;
                  contents = map disk tables;
                },
              ))
          × (length drawn ≡ range)
          × (concat tables
              ≡ map
                  (made_key range)
                  (take (min range (length tables * entries_per_file)) (sort drawn)))
          × All (λ t. length t ≤ entries_per_file) tables
          × (range ≤ length tables * entries_per_file + 1)
          × ((length tables ≡ 1) ⊎ ((length tables - 1) * entries_per_file + 1 < range))
    generate_files_lem fuel seed entries_per_file start_key range small one buffer rand creator pos
          f eight =
        let (tables, creator1, rand1, drawn, run, size, any, (all, sizes, near, last)) =
          generate_some (λ v. Unit) fuel seed entries_per_file start_key range small one buffer rand
            creator (λ d. tt) tt pos f eight in
        (
          tables,
          creator1,
          rand1,
          drawn,
          run,
          size,
          all
              ∙ ap
                  (λ k.
                    map (made_key range)
                      (take (min k (length tables * entries_per_file)) (sort drawn)))
                  (omega arith),
          sizes,
          omega (arith, near),
          elim last [ inl e ↦ inl e | inr e ↦ inr (omega (arith, e)) ],
        )
