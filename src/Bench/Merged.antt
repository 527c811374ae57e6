-- ===== src/Bench/Merged.antt =====
-- The files that `generate_files` of tools/gear_bench_tool.cc writes as plain tables, merged by
-- `BaselineMerger` of include/stream_merger.cc.
use compaction_test.Base.{
  ℕ, zero, suc, ◌*◌, ◌%◌, ◌^◌, ◌<◌, ◌≤◌, Option, some, List, [], ◌∷◌, map, true, Bool, Bytes, All,
  length, length-replicate, concat, replicate, ◌≡◌, refl, sym, ap, subst, ◌∙◌, arith,
}
use compaction_test.KeyGenerator.Order.{length-key_bytes}
use compaction_test.InternalKey.RoundTrip.{length-key_of}
use compaction_test.KeyGenerator.Order.{key_bytes}
use compaction_test.Table.{plain_to_disk_format}
use compaction_test.Stream.{BaselineMerger}
use compaction_test.Stream.Plain.{
  AreOfSize, paired, disk_lem, length-concat_of, paired-AreOfSize, length-paired,
}
use compaction_test.Stream.Merge.{merge_files, read_length, IsPlainFile, merge_files_lem}
use compaction_test.Merger.FileNames.{FileNameCreator}
use compaction_test.Bench.{Written, value_text, generate_files}
use compaction_test.Bench.Files.{made_key, bench_word}
use compaction_test.Bench.Generate.{generate_files_lem}

abbrev pub plain_format : List Bytes → List Bytes → Option Bytes
plain_format keys values = plain_to_disk_format keys values []

made-AreOfSize : (range : ℕ) (vs : List ℕ) → AreOfSize 16 (map (made_key range) vs)
made-AreOfSize range [] = tt
made-AreOfSize range (v ∷ vs) = (
  omega (arith, length-key_of (key_bytes (v % range) 8) bench_word, length-key_bytes (v % range) 8),
  made-AreOfSize range vs,
)

-- The pieces of a list of pieces.
pieces-AreOfSize :
    (tables : List (List Bytes)) → AreOfSize 16 (concat tables) → All (AreOfSize 16) tables
pieces-AreOfSize [] h = tt
pieces-AreOfSize ([] ∷ tables) h = (tt, pieces-AreOfSize tables h)
pieces-AreOfSize ((key ∷ keys) ∷ tables) (h, hs) =
    let (front, back) = pieces-AreOfSize (keys ∷ tables) hs in ((h, front), back)

values-AreOfSize : (n : ℕ) → AreOfSize 10 (replicate n value_text)
values-AreOfSize zero = tt
values-AreOfSize (suc n) = (refl, values-AreOfSize n)

-- The memory of a slice may change when its string is gone, its size does not.
pub record KeepsSizes (freed : List Bytes → List Bytes) : Type 0 where
  pub count : (keys : List Bytes) → length (freed keys) ≡ length keys
  pub sizes : (keys : List Bytes) → AreOfSize 16 keys → AreOfSize 16 (freed keys)

module _ (freed : List Bytes → List Bytes) (keeps : KeepsSizes freed) where
  abbrev pub plain_disk : List Bytes → Bytes
  plain_disk keys = concat (paired (freed keys) (replicate (length keys) value_text))

  pub plain_total :
      (keys : List Bytes)
      → plain_format (freed keys) (replicate (length keys) value_text) ≡ some (plain_disk keys)
  plain_total keys =
      disk_lem (freed keys) (replicate (length keys) value_text) []
        (keeps.count keys ∙ sym (length-replicate {A = Bytes} (length keys) value_text))

  plain_file :
      (fuel : ℕ) (before : Bytes) (keys : List Bytes)
      → length before ≡ read_length
      → length keys < fuel
      → length keys * 26 ≤ read_length
      → AreOfSize 16 keys
      → IsPlainFile fuel (plain_disk keys, before)
  plain_file fuel before keys room few fits sizes =
      let values = replicate (length keys) value_text in
      let read = freed keys in
      let count = length-replicate {A = Bytes} (length keys) value_text in
      let pieces =
        paired-AreOfSize read values (keeps.sizes keys sizes) (values-AreOfSize (length keys)) in
      let size : length (plain_disk keys) ≡ length keys * 26 =
        length-concat_of (paired read values) pieces
        ∙ ap (λ n. n * 26)
            (length-paired read values (keeps.count keys ∙ sym count) ∙ keeps.count keys) in
      ((length keys, few, size), omega (arith, size), room)

  plain_files :
      (fuel most : ℕ) (before : Bytes) (tables : List (List Bytes))
      → length before ≡ read_length
      → most < fuel
      → most * 26 ≤ read_length
      → All (AreOfSize 16) tables
      → All (λ t. length t ≤ most) tables
      → All (IsPlainFile fuel) (map (λ content. (content, before)) (map plain_disk tables))
  plain_files fuel most before [] room few fits sizes short = tt
  plain_files fuel most before (keys ∷ tables) room few fits (h, hs) (s, ss) = (
    plain_file fuel before keys room (omega arith) (omega arith) h,
    plain_files fuel most before tables room few fits hs ss,
  )

  module _ (Rand : Type 0) (draw : Rand → ℕ × Rand) (shuffle : ℕ → List ℕ → List ℕ)
      (sort : List ℕ → List ℕ) (same : (xs : List ℕ) → length (sort xs) ≡ length xs) where
    -- The files of one thread, written as plain tables on a little-endian machine, come to be, and
    -- `MergeEntries` on them comes to its end, in whatever order the heap gives the entries out. If the
    -- merger starts without a last entry, its state is as before, whatever the filter: no entry is
    -- abandoned. That holds though the keys are read from memory that was freed, of which only the
    -- sizes of the slices are kept. A file and a buffer fit one read of the merger, and the heap
    -- gives out entries of its own; the other conditions are those of the loop that writes the files.
    pub merge_files-generate_files :
        (fuel seed entries_per_file start_key range : ℕ) (buffer : Bytes) (rand : Rand)
        (creator : FileNameCreator) (little : Bool) (unset : ℕ) (in_order : List Bytes → List Bytes)
        (before : Bytes) (m : BaselineMerger)
        → range < 2 ^ 64
        → 1 ≤ entries_per_file
        → 0 < range
        → range < fuel
        → length buffer ≡ 8
        → ((P : Bytes → Type 0) (entries : List Bytes) → All P entries → All P (in_order entries))
        → length before ≡ read_length
        → entries_per_file * 26 ≤ read_length
        → m.last_entry ≡ []
        → (w : Written) × (creator1 : FileNameCreator) × (rand1 : Rand) × (generate_files Rand draw
              true freed plain_format shuffle sort fuel buffer seed entries_per_file start_key range
              rand creator
            ≡ some (creator1, rand1, w))
          × (merge_files little unset in_order
                (suc entries_per_file)
                (map (λ content. (content, before)) w.contents)
                m
              ≡ some m)
    merge_files-generate_files fuel seed entries_per_file start_key range buffer rand creator little
          unset in_order before m small one pos f eight keeps_all room fits none_yet =
        let (tables, creator1, rand1, drawn, run, size, all, short, near, last) =
          generate_files_lem Rand draw shuffle sort same freed plain_format plain_disk plain_total
            fuel seed entries_per_file start_key range small one buffer rand creator pos f eight in
        let sizes =
          pieces-AreOfSize tables (subst (AreOfSize 16) (sym all) (made-AreOfSize range _)) in
        (
          _,
          creator1,
          rand1,
          run,
          merge_files_lem little unset in_order (suc entries_per_file)
              (map (λ content. (content, before)) (map plain_disk tables)) m keeps_all none_yet
              (plain_files (suc entries_per_file) entries_per_file before tables room (omega arith)
                fits sizes short),
        )
