-- ===== src/Bench/Ordered.antt =====
-- The order of the keys that `generate_files` of tools/gear_bench_tool.cc makes from the key 0 on.
use Prim.Native.Nat.{Ordering, compare}
use native.Mathlib.Nat.{mod-lt, mod-eq_of_lt}
use compaction_test.Base.{
  ℕ, zero, suc, ◌+◌, ◌-◌, ◌*◌, ◌%◌, ◌^◌, ◌<◌, ◌≤◌, min, Option, some, List, [], ◌∷◌, map, true,
  Bytes, All, All-take, length, concat, take, replicate, ◌≡◌, ◌≢◌, sym, ap, subst, ◌∙◌, arith,
}
use compaction_test.Slice.{Sign, compare_slice}
use compaction_test.Slice.Order.{compare_slice-lex}
use compaction_test.KeyGenerator.Layout.{lex-fill_loop}
use compaction_test.InternalKey.Comparator.{compare_encoded, or_else}
use compaction_test.InternalKey.Comparator.Order.{compare-key_of}
use compaction_test.KeyGenerator.Order.{key_bytes}
use compaction_test.Merger.FileNames.{FileNameCreator, names_from}
use compaction_test.Bench.{Written, value_text, generate_files}
use compaction_test.Bench.Files.{made_key, bench_word}
use compaction_test.Bench.Generate.{generate_some}

abbrev pub Ascending : List ℕ → Type 0
Ascending [] = Unit
Ascending (x ∷ []) = Unit
Ascending (x ∷ y ∷ xs) = (x ≤ y) × Ascending (y ∷ xs)

-- What `std::sort` does.
pub record IsSort (sort : List ℕ → List ℕ) : Type 1 where
  pub same : (xs : List ℕ) → length (sort xs) ≡ length xs
  pub keeps : (P : ℕ → Type 0) (xs : List ℕ) → All P xs → All P (sort xs)
  pub sorted : (xs : List ℕ) → Ascending (sort xs)

-- No key comes after the next one.
abbrev pub AreOrdered : List Bytes → Type 0
AreOrdered [] = Unit
AreOrdered (x ∷ []) = Unit
AreOrdered (x ∷ y ∷ xs) =
    ((s : Sign) × (compare_encoded compare_slice true x y ≡ some s) × (s ≢ Ordering.gt))
    × AreOrdered (y ∷ xs)

Ascending-take : (n : ℕ) (xs : List ℕ) → Ascending xs → Ascending (take n xs)
Ascending-take zero xs h = tt
Ascending-take (suc n) [] h = tt
Ascending-take (suc zero) (x ∷ []) h = tt
Ascending-take (suc (suc n)) (x ∷ []) h = tt
Ascending-take (suc zero) (x ∷ y ∷ xs) h = tt
Ascending-take (suc (suc n)) (x ∷ y ∷ xs) (h, hs) = (h, Ascending-take (suc n) (y ∷ xs) hs)

module _ (range : ℕ) (small : range < 2 ^ 64) where
  made_compare :
      (v w : ℕ)
      → v < range
      → w < range
      → compare_encoded compare_slice true (made_key range v) (made_key range w)
        ≡ some (or_else (compare v w) Ordering.eq)
  made_compare v w hv hw =
      let x = v % range in
      let y = w % range in
      let number : (z : ℕ) → z < range → z % range % 2 ^ 64 ≡ z =
        λ z h. mod-eq_of_lt (omega (arith, mod-eq_of_lt h)) ∙ mod-eq_of_lt h in
      (compare-key_of compare_slice true (key_bytes x 8) (key_bytes y 8) bench_word bench_word
        (omega arith) (omega arith)).0
      ∙ ap (λ s. some (or_else s Ordering.eq))
          (compare_slice-lex (key_bytes x 8) (key_bytes y 8)
            ∙ lex-fill_loop 8 x y []
            ∙ (λ i. compare (number v hv i) (number w hw i)))

  map-AreOrdered :
      (vs : List ℕ) → Ascending vs → All (λ v. v < range) vs → AreOrdered (map (made_key range) vs)
  map-AreOrdered [] h a = tt
  map-AreOrdered (v ∷ []) h a = tt
  map-AreOrdered (v ∷ w ∷ vs) (h, hs) (a, (b, others)) = (
    (or_else (compare v w) Ordering.eq, made_compare v w a b, λ e. ground (arith, h, e)),
    map-AreOrdered (w ∷ vs) hs (b, others),
  )

module _ (Rand : Type 0) (draw : Rand → ℕ × Rand) (shuffle : ℕ → List ℕ → List ℕ)
    (sort : List ℕ → List ℕ) (is_sort : IsSort sort) (freed : List Bytes → List Bytes)
    (format : List Bytes → List Bytes → Option Bytes) (disk : List Bytes → Bytes)
    (total : (keys : List Bytes)
      → format (freed keys) (replicate (length keys) value_text) ≡ some (disk keys)) where
  -- The files that a thread starts from the key 0, which is the only start that the program uses: with
  -- a library that sorts, the keys that are made for all the files, one file after another, never
  -- come down in the order of internal keys. The conditions are those of the loop's end.
  pub generate_files-AreOrdered :
      (fuel seed entries_per_file range : ℕ) (buffer : Bytes) (rand : Rand)
      (creator : FileNameCreator)
      → range < 2 ^ 64
      → 1 ≤ entries_per_file
      → 0 < range
      → range < fuel
      → length buffer ≡ 8
      → (w : Written) × (creator1 : FileNameCreator) × (rand1 : Rand) × (generate_files Rand draw
            true freed format shuffle sort fuel buffer seed entries_per_file 0 range rand creator
          ≡ some (creator1, rand1, w))
        × AreOrdered (concat w.tables)
  generate_files-AreOrdered fuel seed entries_per_file range buffer rand creator small one pos f
        eight =
      let below : (d : ℕ) → (d % range + 0) % 2 ^ 64 < range = λ d. omega (arith, mod-lt d pos) in
      let (tables, creator1, rand1, drawn, run, size, ok, listed) =
        generate_some Rand draw shuffle sort is_sort.same freed format disk total (λ v. v < range)
          fuel seed entries_per_file 0 range small one buffer rand creator below pos pos f eight in
      let count = min (range - 0) (length tables * entries_per_file) in
      (
        record {
          names = names_from (length tables) creator;
          tables = tables;
          contents = map disk tables;
        },
        creator1,
        rand1,
        run,
        subst AreOrdered (sym listed.0) (
            map-AreOrdered range small (take count (sort drawn))
              (Ascending-take count (sort drawn) (is_sort.sorted drawn))
              (All-take _ count (sort drawn) (is_sort.keeps _ drawn ok))),
      )
