-- ===== src/Stream/Entries.antt =====
-- `NextEntry` and the loop that adds the entries of a file to the heap, in include/stream_merger.cc.
use compaction_test.Base.{
  ℕ, zero, suc, ◌+◌, ◌*◌, ◌≤◌, some, List, [], ◌∷◌, ◌++◌, Bytes, All, length, take, drop, concat,
  ◌<◌, length-take, length-drop, ◌≡◌, refl, sym, ap, ◌∙◌, arith,
}
use compaction_test.Base.Parts.{drop-drop, take-add}
use compaction_test.Stream.{PlainTable, next_entry, read_entries}

-- The entries from the `k`-th on.
abbrev pub slices : ℕ → ℕ → Bytes → List Bytes
slices zero k content = []
slices (suc n) k content = take 26 (drop (k * 26) content) ∷ slices n (k + 1) content

read_slices :
    (n fuel : ℕ) (table : PlainTable)
    → n ≤ fuel
    → table.file_size ≡ (table.readed_entries + n) * 26
    → table.file_size ≤ length table.file_content
    → read_entries (suc fuel) (table.readed_entries * 26) table
      ≡ some (slices n table.readed_entries table.file_content)
unfolding read_entries next_entry
read_slices zero fuel table f e h = ground arith
read_slices (suc n) zero table f e h = absurd (omega arith)
read_slices (suc n) (suc fuel) table f e h = ground (
  arith,
  read_slices n fuel (record table { readed_entries = table.readed_entries + 1 }) (omega arith)
      (omega arith) h,
)

length-slices : (n k : ℕ) (content : Bytes) → length (slices n k content) ≡ n
length-slices zero k content = refl
length-slices (suc n) k content = ap suc (length-slices n (k + 1) content)

slices-All :
    (n k : ℕ) (content : Bytes)
    → (k + n) * 26 ≤ length content
    → All (λ s. length s ≡ 26) (slices n k content)
slices-All zero k content h = tt
slices-All (suc n) k content h =
    let d = length-drop (k * 26) content in
    (
      omega (arith, length-take 26 (drop (k * 26) content)),
      slices-All n (k + 1) content (omega arith),
    )

concat-slices :
    (n k : ℕ) (content : Bytes)
    → concat (slices n k content) ≡ take (n * 26) (drop (k * 26) content)
concat-slices zero k content = refl
concat-slices (suc n) k content =
    ap (λ t. take 26 (drop (k * 26) content) ++ t)
      (concat-slices n (k + 1) content
        ∙ ap (λ j. take (n * 26) (drop j content)) (omega arith)
        ∙ ap (take (n * 26)) (sym (drop-drop 26 (k * 26) content)))
    ∙ sym (take-add 26 (n * 26) (drop (k * 26) content))
    ∙ ap (λ j. take j (drop (k * 26) content)) (omega arith)

-- A file of whole entries, in a buffer that is long enough, and not yet read: with fuel for one round more than it has
-- entries, the loop ends, and what it adds to the heap are the entries of 26 bytes that make up
-- the file, in order, each once.
pub read_entries_lem :
    (n fuel : ℕ) (table : PlainTable)
    → n < fuel
    → table.readed_entries ≡ 0
    → table.file_size ≡ n * 26
    → table.file_size ≤ length table.file_content
    → (entries : List Bytes) × (read_entries fuel 0 table ≡ some entries)
      × (concat entries ≡ take table.file_size table.file_content)
      × All (λ s. length s ≡ 26) entries
      × (length entries ≡ n)
read_entries_lem n zero table f z e h = absurd (omega arith)
read_entries_lem n (suc fuel) table f z e h =
    let content = table.file_content in
    (
      slices n 0 content,
      ap (λ r. read_entries (suc fuel) r table) (omega arith)
          ∙ read_slices n fuel table (omega arith) (omega arith) h
          ∙ ap (λ k. some (slices n k content)) z,
      concat-slices n 0 content ∙ ap (λ j. take j content) (sym e),
      slices-All n 0 content (omega arith),
      length-slices n 0 content,
    )
