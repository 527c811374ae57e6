-- ===== src/Bench/Runs.antt =====
-- What the threads of tools/gear_bench_tool.cc write together, and the names of a run that only merges.
use compaction_test.Base.{
  ltb, none, if◌then◌else◌, Option-cases, ℕ, zero, suc, ◌+◌, ◌/◌, ◌^◌, ◌<◌, ◌≤◌, Option, some, List,
  [], ◌∷◌, ◌++◌, append_assoc, append-nil, true, false, ◌==◌, Bool-cases, inl, inr, ◌>>=◌, Bytes,
  replicate, get_elem?, ◌≡◌, refl, sym, ap, ◌∙◌, arith,
}
use compaction_test.Merger.FileNames.{FileNameCreator}
use compaction_test.Bench.{Written}
use compaction_test.Bench.Driver.{thread_loop, create_files}

at_zero : (n i : ℕ) (xs : List ℕ) → i < n → get_elem? (replicate n 0 ++ xs) i ≡ some 0
at_zero zero i xs h = absurd (omega arith)
at_zero (suc n) zero xs h = refl
at_zero (suc n) (suc i) xs h = at_zero n i xs (omega arith)

module _ (Rand : Type 0)
    (generate : ℕ → ℕ → Rand → FileNameCreator → Option (FileNameCreator × Rand × Written)) where
  -- So many runs of `generate_files` one after another, each of them from the key 0.
  abbrev pub all_from_zero :
      ℕ → ℕ → Rand → FileNameCreator → List Bytes → Option (List Bytes × Rand × FileNameCreator)
  all_from_zero zero range_step rand creator input_files = some (input_files, rand, creator)
  all_from_zero (suc left) range_step rand creator input_files = do
    (creator1, rand1, w) ← generate 0 range_step rand creator
    all_from_zero left range_step rand1 creator1 (input_files ++ w.names)

  start_lem :
      (n i range_step : ℕ) (xs : List ℕ)
      → i < n
      → get_elem? ((replicate n 0 ++ xs) ++ range_step ∷ []) i ≡ some 0
  start_lem n i range_step xs h =
      ap (λ ps. get_elem? ps i) (append_assoc (replicate n 0) xs (range_step ∷ []))
      ∙ at_zero n i (xs ++ range_step ∷ []) h

  loop_from_zero :
      (n left i range_step : ℕ) (xs : List ℕ) (rand : Rand) (creator : FileNameCreator)
      (input_files : List Bytes)
      → left + i ≡ n
      → n < 2 ^ 31
      → thread_loop Rand generate left i range_step (replicate n 0 ++ xs) rand creator input_files
        ≡ all_from_zero left range_step rand creator input_files
  unfolding thread_loop
  loop_from_zero n zero i range_step xs rand creator input_files e few = refl
  loop_from_zero n (suc left) i range_step xs rand creator input_files e few =
      let start = start_lem n i range_step xs (omega arith) in
      let counts : ltb (suc i) (2 ^ 31) ≡ true = ground arith in
      let step : (x : FileNameCreator × Rand × Written)
          → thread_loop Rand generate left (suc i) range_step
              ((replicate n 0 ++ xs) ++ range_step ∷ []) x.1 x.0 (input_files ++ x.2.names)
            ≡ all_from_zero left range_step x.1 x.0 (input_files ++ x.2.names) =
        λ x.
          ap
            (λ ps.
              thread_loop Rand generate left (suc i) range_step ps x.1 x.0
                (input_files ++ x.2.names))
            (append_assoc (replicate n 0) xs (range_step ∷ []))
          ∙ loop_from_zero n left (suc i) range_step (xs ++ range_step ∷ []) x.1 x.0
              (input_files ++ x.2.names) (omega arith) few in
      simp (start, counts)
        (λ j.
          generate 0 range_step rand creator >>= λ (x : FileNameCreator × Rand × Written). step x j)

  -- The counter overflows before that many rounds are done, if nothing else fails.
  loop_overflows :
      (left i range_step : ℕ) (start_posi : List ℕ) (rand : Rand) (creator : FileNameCreator)
      (input_files : List Bytes)
      → i < 2 ^ 31
      → 2 ^ 31 ≤ left + i
      → thread_loop Rand generate left i range_step start_posi rand creator input_files ≡ none
  unfolding thread_loop
  loop_overflows zero i range_step start_posi rand creator input_files h k = absurd (omega arith)
  loop_overflows (suc left) i range_step start_posi rand creator input_files h k =
      elim (Option-cases (get_elem? (start_posi ++ range_step ∷ []) i)) [
        | inl e ↦ simp e refl
        | inr (start, e) ↦ elim (Option-cases (generate start range_step rand creator)) [
          | inl g ↦ simp (e, g) refl
          | inr (x, g) ↦ elim (Bool-cases (ltb (suc i) (2 ^ 31))) [
            | inl t ↦
                simp (e, g, t)
                  (loop_overflows left (suc i) range_step (start_posi ++ range_step ∷ []) x.1 x.0
                    (input_files ++ x.2.names) (ground (arith, t)) (omega arith))
            | inr t ↦ simp (e, g, t) refl
          ]
        ]
      ]

  -- The files are written as by runs that all start from the key 0: no thread is given the start
  -- that is pushed for it. There is a thread at least; with 2^31 threads or more the counter of the
  -- loop, an `int`, overflows, and the behaviour is not defined.
  pub create_files_lem :
      (bench_threads distinct_num : ℕ) (rand : Rand) (creator : FileNameCreator)
      → 1 ≤ bench_threads
      → create_files Rand generate bench_threads distinct_num rand creator ≡ (
          if ltb bench_threads (2 ^ 31)
          then all_from_zero bench_threads (distinct_num / bench_threads) rand creator []
          else none)
  unfolding create_files
  create_files_lem bench_threads distinct_num rand creator h =
      let test : (bench_threads == 0) ≡ false = ground arith in
      let range_step = distinct_num / bench_threads in
      elim (Bool-cases (ltb bench_threads (2 ^ 31))) [
        | inl e ↦
            simp (test, e)
              (ap (λ ps. thread_loop Rand generate bench_threads 0 range_step ps rand creator [])
                  (sym (append-nil (replicate bench_threads 0)))
                ∙ loop_from_zero bench_threads bench_threads 0 range_step [] rand creator []
                    (omega arith) (ground (arith, e)))
        | inr e ↦
            simp (test, e)
              (loop_overflows bench_threads 0 range_step (replicate bench_threads 0) rand creator []
                (omega arith) (ground (arith, e)))
      ]
