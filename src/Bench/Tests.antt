-- ===== src/Bench/Tests.antt =====
-- The theorems on the bench tool at concrete inputs. The generator of the library counts down, the
-- shuffle does nothing, and the sort inserts.
use compaction_test.Base.{
  ltb, none, ◌^◌, ℕ, suc, ◌+◌, ◌-◌, ◌*◌, ◌/◌, ◌<◌, ◌≤◌, min, Option, some, List, [], ◌∷◌, map, true,
  leb, if◌then◌else◌, ◌⊎◌, Bytes, All, length, length-replicate, concat, take, replicate, ◌≡◌, refl,
  ap, ◌∙◌, arith,
}
use compaction_test.Merger.FileNames.{FileNameCreator, names_from}
use compaction_test.Bench.{Written, value_text, generate_files}
use compaction_test.Bench.Files.{made_key}
use compaction_test.Bench.Generate.{generate_files_lem}
use compaction_test.Bench.Ordered.{Ascending, IsSort, AreOrdered, generate_files-AreOrdered}
use compaction_test.Merger.{remove_redundant}
use compaction_test.Stream.{BaselineMerger}
use compaction_test.Stream.Merge.{merge_files, read_length}
use compaction_test.Bench.Merged.{
  plain_format, KeepsSizes, plain_disk, plain_total, merge_files-generate_files,
}
use compaction_test.Bench.Driver.{create_files}
use compaction_test.Bench.Runs.{all_from_zero, create_files_lem}

abbrev counting : ℕ → ℕ × ℕ
counting n = (n, n - 1)

abbrev as_given : ℕ → List ℕ → List ℕ
as_given seed xs = xs

abbrev put_in : ℕ → List ℕ → List ℕ
put_in x [] = x ∷ []
put_in x (y ∷ ys) = if leb x y then x ∷ y ∷ ys else y ∷ put_in x ys

abbrev sort : List ℕ → List ℕ
sort [] = []
sort (x ∷ xs) = put_in x (sort xs)

length-put_in : (x : ℕ) (ys : List ℕ) → length (put_in x ys) ≡ suc (length ys)
length-put_in x [] = refl
length-put_in x (y ∷ ys) = ground (arith, length-put_in x ys)

All-put_in : (P : ℕ → Type 0) (x : ℕ) (ys : List ℕ) → P x → All P ys → All P (put_in x ys)
All-put_in P x [] p a = (p, tt)
All-put_in P x (y ∷ ys) p (q, a) = ground (arith, All-put_in P x ys p a)

put_in-Ascending : (x : ℕ) (ys : List ℕ) → Ascending ys → Ascending (put_in x ys)
put_in-Ascending x [] h = tt
put_in-Ascending x (y ∷ []) h = ground arith
put_in-Ascending x (y ∷ z ∷ ys) (h, hs) = ground (arith, put_in-Ascending x (z ∷ ys) hs)

length-sort : (xs : List ℕ) → length (sort xs) ≡ length xs
length-sort [] = refl
length-sort (x ∷ xs) = length-put_in x (sort xs) ∙ ap suc (length-sort xs)

All-sort : (P : ℕ → Type 0) (xs : List ℕ) → All P xs → All P (sort xs)
All-sort P [] a = tt
All-sort P (x ∷ xs) (p, a) = All-put_in P x (sort xs) p (All-sort P xs a)

sort-Ascending : (xs : List ℕ) → Ascending (sort xs)
sort-Ascending [] = tt
sort-Ascending (x ∷ xs) = put_in-Ascending x (sort xs) (sort-Ascending xs)

sort-IsSort : IsSort sort
sort-IsSort = record { same = length-sort; keeps = All-sort; sorted = sort-Ascending }

abbrev as_made : List Bytes → List Bytes
as_made keys = keys

as_made-KeepsSizes : KeepsSizes as_made
as_made-KeepsSizes = record { count = λ keys. refl; sizes = λ keys h. h }

abbrev disk : List Bytes → Bytes
disk = plain_disk as_made as_made-KeepsSizes

total :
    (keys : List Bytes)
    → plain_format (as_made keys) (replicate (length keys) value_text) ≡ some (disk keys)
total = plain_total as_made as_made-KeepsSizes

abbrev creator : FileNameCreator
creator = record { file_number = 0; base_dir = 47 ∷ 116 ∷ [] }

abbrev blank : Bytes
blank = replicate 8 0

-- Five keys, two in a file: the last one is left out.
generate_files_lem_example :
    (tables : List (List Bytes)) × (creator1 : FileNameCreator) × (rand1 : ℕ) × (drawn : List ℕ)
    × (generate_files ℕ counting true as_made plain_format as_given sort 6 blank 0 2 0 5 9 creator
        ≡ some (
          creator1,
          rand1,
          record {
            names = names_from (length tables) creator;
            tables = tables;
            contents = map disk tables;
          },
        ))
    × (length drawn ≡ 5)
    × (concat tables ≡ map (made_key 5) (take (min 5 (length tables * 2)) (sort drawn)))
    × All (λ t. length t ≤ 2) tables
    × (5 ≤ length tables * 2 + 1)
    × ((length tables ≡ 1) ⊎ ((length tables - 1) * 2 + 1 < 5))
generate_files_lem_example =
    generate_files_lem ℕ counting as_given sort length-sort as_made plain_format disk total 6 0 2 0
      5 (omega arith) (omega arith) blank 9 creator (omega arith) (omega arith) refl

generate_files-AreOrdered_example :
    (w : Written) × (creator1 : FileNameCreator) × (rand1 : ℕ) × (generate_files ℕ counting true
        as_made plain_format as_given sort 6 blank 0 2 0 5 9 creator
      ≡ some (creator1, rand1, w))
    × AreOrdered (concat w.tables)
generate_files-AreOrdered_example =
    generate_files-AreOrdered ℕ counting as_given sort sort-IsSort as_made plain_format disk total 6
      0 2 5 blank 9 creator (omega arith) (omega arith) (omega arith) (omega arith) refl

abbrev generate : ℕ → ℕ → ℕ → FileNameCreator → Option (FileNameCreator × ℕ × Written)
generate = generate_files ℕ counting true as_made plain_format as_given sort 6 blank 0 2

create_files_lem_example :
    create_files ℕ generate 3 15 9 creator
    ≡ (if ltb 3 (2 ^ 31) then all_from_zero ℕ generate 3 (15 / 3) 9 creator [] else none)
create_files_lem_example = create_files_lem ℕ generate 3 15 9 creator (omega arith)

abbrev merger : BaselineMerger
merger = record {
  last_entry = [];
  abandoned_entries = [];
  logic = remove_redundant;
  bound = record { seq = 0; prefix = [] };
}

abbrev before : Bytes
before = replicate read_length 0

merge_files-generate_files_example :
    (w : Written) × (creator1 : FileNameCreator) × (rand1 : ℕ) × (generate_files ℕ counting true
        as_made plain_format as_given sort 6 blank 0 2 0 5 9 creator
      ≡ some (creator1, rand1, w))
    × (merge_files true 0
          (λ entries. entries)
          3
          (map (λ content. (content, before)) w.contents)
          merger
        ≡ some merger)
merge_files-generate_files_example =
    merge_files-generate_files as_made as_made-KeepsSizes ℕ counting as_given sort length-sort 6 0 2
      0 5 blank 9 creator true 0 (λ entries. entries) before merger (omega arith) (omega arith)
      (omega arith) (omega arith) refl (λ P entries a. a) (length-replicate {A = ℕ} read_length 0)
      (omega arith) refl
