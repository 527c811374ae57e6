-- ===== src/Bench/Driver.antt =====
-- The benchmarks of tools/gear_bench_tool.cc: the choice of a table format, the threads that write
-- the files, the names that a run without writing takes, and the command line.
use compaction_test.Base.{
  ℕ, zero, suc, ◌+◌, ◌/◌, Option, some, none, List, [], ◌∷◌, ◌++◌, Bool, true, false, leb, ltb,
  assert, ◌^◌, ◌==◌, ◌&&◌, if◌then◌else◌, ◌>>=◌, Bytes, replicate, get_elem?,
}
use compaction_test.Strings.Split.{split_loop}
use compaction_test.Merger.FileNames.{FileNameCreator, next_file_name}
use compaction_test.Bench.{Written}

pub data TableFormat : Type 0 where
  gear block_based plain cuckoo : TableFormat

-- `strcasecmp` of the C library: whether two texts are the same up to the case of ASCII letters.
abbrev to_lower : ℕ → ℕ
to_lower c = if leb b'A' c && leb c b'Z' then c + 32 else c

unfoldable pub same_letters : Bytes → Bytes → Bool
same_letters [] [] = true
same_letters [] (d ∷ t) = false
same_letters (c ∷ s) [] = false
same_letters (c ∷ s) (d ∷ t) = to_lower c == to_lower d && same_letters s t

abbrev pub gear_text : Bytes
gear_text = b'g' ∷ b'e' ∷ b'a' ∷ b'r' ∷ []

abbrev pub block_based_text : Bytes
block_based_text = b'b' ∷ b'l' ∷ b'o' ∷ b'c' ∷ b'k' ∷ b'_' ∷ b'b' ∷ b'a' ∷ b's' ∷ b'e' ∷ b'd' ∷ []

abbrev pub plain_text : Bytes
plain_text = b'p' ∷ b'l' ∷ b'a' ∷ b'i' ∷ b'n' ∷ []

abbrev pub cuckoo_text : Bytes
cuckoo_text = b'c' ∷ b'u' ∷ b'c' ∷ b'k' ∷ b'o' ∷ b'o' ∷ []

-- `StringToRepFactory`; the message that it prints is left out.
unfoldable pub string_to_rep_factory : Bytes → TableFormat
unfolding same_letters
string_to_rep_factory ctype =
    if same_letters ctype gear_text
    then gear
    else if same_letters ctype block_based_text
    then block_based
    else if same_letters ctype plain_text
    then plain
    else if same_letters ctype cuckoo_text
    then cuckoo
    else gear

-- What the threads share: the generator of random numbers, the creator of names, and the list of
-- names. `generate start range` is `generate_files` on them.
module _ (Rand : Type 0)
    (generate : ℕ → ℕ → Rand → FileNameCreator → Option (FileNameCreator × Rand × Written)) where
  -- The loop over the threads at `i`, with the rounds that are left. A thread is joined before the
  -- next one starts. The counter is an `int`, and `none` where it would go beyond 2 ^ 31 - 1.
  unfoldable pub thread_loop :
      ℕ
      → ℕ
      → ℕ
      → List ℕ
      → Rand
      → FileNameCreator
      → List Bytes
      → Option (List Bytes × Rand × FileNameCreator)
  thread_loop zero i range_step start_posi rand creator input_files =
      some (input_files, rand, creator)
  thread_loop (suc left) i range_step start_posi rand creator input_files = do
    let start_posi1 = start_posi ++ range_step ∷ []
    start ← get_elem? start_posi1 i
    (creator1, rand1, w) ← generate start range_step rand creator
    assert (ltb (suc i) (2 ^ 31))
        (thread_loop left (suc i) range_step start_posi1 rand1 creator1 (input_files ++ w.names))

  -- The part of `FPGAMerger` and `BaselineMergeTask` that writes the files. The vector of starting
  -- positions is made with one place, which holds 0, for each thread.
  unfoldable pub create_files :
      ℕ → ℕ → Rand → FileNameCreator → Option (List Bytes × Rand × FileNameCreator)
  unfolding thread_loop
  create_files bench_threads distinct_num rand creator =
      if bench_threads == 0
      then none
      else thread_loop bench_threads 0 (distinct_num / bench_threads) (replicate bench_threads 0)
          rand creator []

-- The names that `BaselineMergeTask(true)` takes without writing files: the loop at `i`, with the
-- rounds that are left. The counter is an `int` here too.
unfoldable pub name_loop : ℕ → ℕ → FileNameCreator → List Bytes → Option (List Bytes)
unfolding next_file_name
name_loop zero i c input_files = some input_files
name_loop (suc left) i c input_files =
    assert (ltb (suc i) (2 ^ 31))
      (name_loop left (suc i) (next_file_name c).1 (input_files ++ (next_file_name c).0 ∷ []))

unfoldable pub merge_only_names : ℕ → ℕ → FileNameCreator → Option (List Bytes)
unfolding name_loop
merge_only_names distinct_num entries_per_file c =
    if entries_per_file == 0 then none else name_loop (distinct_num / entries_per_file) 0 c []

pub data Benchmark : Type 0 where
  fpga_merger : Benchmark
  baseline_merge_task : (merge_only : Bool) → Benchmark

abbrev same_name : Bytes → Bytes → Bool
same_name [] [] = true
same_name [] (d ∷ t) = false
same_name (c ∷ s) [] = false
same_name (c ∷ s) (d ∷ t) = c == d && same_name s t

abbrev pub baseline_text : Bytes
baseline_text = b'b' ∷ b'a' ∷ b's' ∷ b'e' ∷ b'l' ∷ b'i' ∷ b'n' ∷ b'e' ∷ []

abbrev pub baseline_full_text : Bytes
baseline_full_text = baseline_text ++ b'_' ∷ b'f' ∷ b'u' ∷ b'l' ∷ b'l' ∷ []

-- The loop of `main`: the functions that it calls.
unfoldable pub run_benchmarks : List Bytes → List Benchmark
run_benchmarks [] = []
run_benchmarks (benchmark ∷ benchmarks) =
    let rest = run_benchmarks benchmarks in
    if same_name benchmark gear_text
    then fpga_merger ∷ rest
    else if same_name benchmark baseline_full_text
    then baseline_merge_task false ∷ rest
    else if same_name benchmark baseline_text
    then baseline_merge_task true ∷ rest
    else rest

-- `split`, the same code as `StringSplit`.
unfoldable pub split : Bytes → ℕ → List Bytes
unfolding split_loop
split s delim = split_loop delim [] s

unfoldable pub main_benchmarks : Bytes → List Benchmark
unfolding run_benchmarks split
main_benchmarks benchmark = run_benchmarks (split benchmark b',')
