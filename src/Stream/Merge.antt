-- ===== src/Stream/Merge.antt =====
-- `BaselineMerger::MergeEntries` and `DoCompaction` of include/stream_merger.cc, whole: the files are
-- read, their entries are put on the heap, and each that the heap gives out is arbitrated. Also the
-- constructor of `FPGA_Stream_Merger`.
use compaction_test.Base.{
  ℕ, zero, suc, ◌+◌, ◌*◌, ◌/◌, ◌<◌, ◌≤◌, Option, some, none, List, [], ◌∷◌, ◌++◌, map, reverse,
  Bool, ltb, if◌then◌else◌, ◌>>=◌, Bytes, All, All-append, length, length-append, take, drop,
  take_all, u32, ◌≡◌, refl, ap, ◌∙◌, arith,
}
use mathlib.Core.List.{reverse-reverse}
use compaction_test.Stream.{
  PlainTable, BaselineMerger, entry_length, next_entry, strlen, merge_loop,
}
use compaction_test.Stream.Arbitration.{merge_loop_lem}

abbrev pub read_length : ℕ
read_length = 512 * 1024 * 1024

-- `ReadFromDisk` into a new buffer that holds `before`, then the two calls of `std::reverse`.
unfoldable pub load_file : Bytes × Bytes → PlainTable
load_file (file, before) =
    let got = take read_length file in
    record {
      file_content = reverse (reverse (got ++ drop (length got) before));
      file_size = length got;
      readed_entries = 0;
    }

-- The loop that adds the entries of a table to the heap, on fuel. A slice on the heap is the memory
-- from the entry on: a string has a byte 0 behind its last one.
unfoldable pub add_file_entries : ℕ → ℕ → PlainTable → Option (List Bytes)
unfolding next_entry
add_file_entries zero readed_len table = none
add_file_entries (suc fuel) readed_len table =
    let more = (do
      (entry, rest, readed) ← next_entry table
      others ← add_file_entries fuel readed rest
      some (drop (table.readed_entries * entry_length) (table.file_content ++ 0 ∷ []) ∷ others)) in
    if ltb readed_len table.file_size then more else some []

unfoldable pub add_tables : ℕ → List PlainTable → Option (List Bytes)
unfolding add_file_entries
add_tables fuel [] = some []
add_tables fuel (table ∷ tables) = do
  entries ← add_file_entries fuel 0 table
  others ← add_tables fuel tables
  some (entries ++ others)

-- `in_order` puts the entries in the order in which the heap gives them out.
unfoldable pub merge_files :
    Bool
    → ℕ
    → (List Bytes → List Bytes)
    → ℕ
    → List (Bytes × Bytes)
    → BaselineMerger
    → Option BaselineMerger
unfolding load_file add_tables merge_loop
merge_files little unset in_order fuel files m = do
  heap ← add_tables fuel (map load_file files)
  merge_loop little unset (in_order heap) m

-- The block count and the window that the constructor of `FPGA_Stream_Merger` computes; the macro
-- `BLOCK_SIZE` is `8*1024` without parentheses. The window stays in the parameter.
unfoldable pub window_of : ℕ → ℕ × ℕ
window_of file_window_size =
    let block_num = u32 (file_window_size / 8 * 1024) in (block_num, u32 (8 * 1024 * block_num))

-- A string with a 0 in it has an end.
abbrev IsText : Bytes → Type 0
IsText entry = (n : ℕ) × (strlen entry ≡ some n)

strlen-append : (s : Bytes) → IsText (s ++ 0 ∷ [])
unfolding strlen
strlen-append [] = (0, refl)
strlen-append (zero ∷ s) = (0, refl)
strlen-append (suc c ∷ s) = let (n, e) = strlen-append s in (n + 1, ground (arith, e))

drop-IsText : (k : ℕ) (s : Bytes) → k ≤ length s → IsText (drop k (s ++ 0 ∷ []))
drop-IsText zero s h = strlen-append s
drop-IsText (suc k) [] h = absurd (omega arith)
drop-IsText (suc k) (c ∷ s) h = drop-IsText k s (omega arith)

add_file_entries-IsText :
    (n fuel : ℕ) (table : PlainTable)
    → n < fuel
    → table.file_size ≡ (table.readed_entries + n) * 26
    → table.file_size ≤ length table.file_content
    → (entries : List Bytes) × (add_file_entries fuel (table.readed_entries * 26) table
        ≡ some entries)
      × All IsText entries
unfolding add_file_entries next_entry
add_file_entries-IsText n zero table f e h = absurd (omega arith)
add_file_entries-IsText zero (suc fuel) table f e h = ([], ground arith, tt)
add_file_entries-IsText (suc n) (suc fuel) table f e h =
    let (entries, rest, texts) =
      add_file_entries-IsText n fuel (record table { readed_entries = table.readed_entries + 1 })
        (omega arith) (omega arith) h in
    (
      drop (table.readed_entries * 26) (table.file_content ++ 0 ∷ []) ∷ entries,
      ground (arith, rest),
      (drop-IsText (table.readed_entries * 26) table.file_content (omega arith), texts),
    )

-- A file of whole entries, fewer than `fuel`, and a buffer that is as long as the read.
abbrev pub IsPlainFile : ℕ → Bytes × Bytes → Type 0
IsPlainFile fuel (file, before) =
    ((n : ℕ) × (n < fuel) × (length file ≡ n * 26))
    × (length file ≤ read_length)
    × (length before ≡ read_length)

load_lem :
    (file before : Bytes)
    → length file ≤ read_length
    → load_file (file, before) ≡ record {
      file_content = file ++ drop (length file) before;
      file_size = length file;
      readed_entries = 0;
    }
unfolding load_file
load_lem file before h =
    let all = take_all read_length file h in
    λ i. record {
      file_content =
          (reverse-reverse (take read_length file ++ drop (length (take read_length file)) before)
              ∙ ap (λ got. got ++ drop (length got) before) all)
            i;
      file_size = length (all i);
      readed_entries = 0;
    }

load-IsText :
    (fuel : ℕ) (file : Bytes × Bytes)
    → IsPlainFile fuel file
    → (entries : List Bytes) × (add_file_entries fuel 0 (load_file file) ≡ some entries)
      × All IsText entries
load-IsText fuel (file, before) ((n, few, size), fits, room) =
    let table : PlainTable = record {
      file_content = file ++ drop (length file) before;
      file_size = length file;
      readed_entries = 0;
    } in
    let (entries, run, texts) =
      add_file_entries-IsText n fuel table few (omega (arith, size))
        (omega (arith, length-append file (drop (length file) before))) in
    (entries, ap (add_file_entries fuel 0) (load_lem file before fits) ∙ run, texts)

add_tables-IsText :
    (fuel : ℕ) (files : List (Bytes × Bytes))
    → All (IsPlainFile fuel) files
    → (entries : List Bytes) × (add_tables fuel (map load_file files) ≡ some entries)
      × All IsText entries
unfolding add_tables
add_tables-IsText fuel [] h = ([], refl, tt)
add_tables-IsText fuel (file ∷ files) (h, hs) =
    let (entries, run, texts) = load-IsText fuel file h in
    let (others, runs, more) = add_tables-IsText fuel files hs in
    (entries ++ others, simp (run, runs) refl, All-append _ entries others texts more)

-- `MergeEntries` on files of whole entries that one read takes in, whatever the order in which the
-- heap gives the entries out, from a state without a last entry: it comes to its end, and leaves the
-- state as it was: no entry is abandoned, whatever the filter, and no last entry is set. The fuel is
-- more than a file has entries, the buffers have the size of the read, and the heap gives out
-- entries of its own.
pub merge_files_lem :
    (little : Bool) (unset : ℕ) (in_order : List Bytes → List Bytes) (fuel : ℕ)
    (files : List (Bytes × Bytes)) (m : BaselineMerger)
    → ((P : Bytes → Type 0) (entries : List Bytes) → All P entries → All P (in_order entries))
    → m.last_entry ≡ []
    → All (IsPlainFile fuel) files
    → merge_files little unset in_order fuel files m ≡ some m
unfolding merge_files
merge_files_lem little unset in_order fuel files m keeps e h =
    let (entries, run, texts) = add_tables-IsText fuel files h in
    simp run (merge_loop_lem little unset (in_order entries) m e (keeps IsText entries texts))
