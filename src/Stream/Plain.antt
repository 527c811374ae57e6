-- ===== src/Stream/Plain.antt =====
-- What `PlainTable::ToDiskFormat` of tables/plain_table/plain_table.cc writes, read again by the
-- merger of include/stream_merger.cc.
use compaction_test.Base.{
  ℕ, suc, ◌*◌, some, List, [], ◌∷◌, ◌++◌, append_assoc, append-nil, Bytes, All, length,
  length-append, take, drop, take-append_left, drop-append_left, concat, ◌≡◌, refl, sym, ap, ◌∙◌,
  arith,
}
use mathlib.Core.Path.{ap₂}
use compaction_test.Table.{plain_to_disk_format}
use compaction_test.Stream.{PlainTable, read_entries}
use compaction_test.Stream.Entries.{read_entries_lem}

-- The keys with their values.
abbrev pub paired : List Bytes → List Bytes → List Bytes
paired [] values = []
paired (key ∷ keys) [] = []
paired (key ∷ keys) (value ∷ values) = (key ++ value) ∷ paired keys values

pub disk_lem :
    (keys values : List Bytes) (buffer : Bytes)
    → length keys ≡ length values
    → plain_to_disk_format keys values buffer ≡ some (buffer ++ concat (paired keys values))
unfolding plain_to_disk_format
disk_lem [] values buffer h = ap some (sym (append-nil buffer))
disk_lem (key ∷ keys) [] buffer h = absurd (omega arith)
disk_lem (key ∷ keys) (value ∷ values) buffer h =
    disk_lem keys values (buffer ++ key ++ value) (omega arith)
    ∙ ap some (
        ap (λ t. t ++ concat (paired keys values)) (append_assoc buffer key value)
        ∙ append_assoc buffer (key ++ value) (concat (paired keys values)))

abbrev pub AreOfSize : ℕ → List Bytes → Type 0
AreOfSize n xs = All (λ s. length s ≡ n) xs

pub paired-AreOfSize :
    (keys values : List Bytes)
    → AreOfSize 16 keys
    → AreOfSize 10 values
    → AreOfSize 26 (paired keys values)
paired-AreOfSize [] values h k = tt
paired-AreOfSize (key ∷ keys) [] h k = tt
paired-AreOfSize (key ∷ keys) (value ∷ values) (h, hs) (k, ks) =
    (omega (arith, length-append key value), paired-AreOfSize keys values hs ks)

pub length-paired :
    (keys values : List Bytes)
    → length keys ≡ length values
    → length (paired keys values) ≡ length keys
length-paired [] values h = refl
length-paired (key ∷ keys) [] h = absurd (omega arith)
length-paired (key ∷ keys) (value ∷ values) h = ap suc (length-paired keys values (omega arith))

pub length-concat_of : (xs : List Bytes) → AreOfSize 26 xs → length (concat xs) ≡ length xs * 26
length-concat_of [] h = refl
length-concat_of (x ∷ xs) (h, hs) =
    omega (arith, length-append x (concat xs), length-concat_of xs hs)

-- Pieces of one size are known by the text that they make.
same_pieces :
    (xs ys : List Bytes)
    → AreOfSize 26 xs
    → AreOfSize 26 ys
    → length xs ≡ length ys
    → concat xs ≡ concat ys
    → xs ≡ ys
same_pieces [] [] h k n e = refl
same_pieces [] (y ∷ ys) h k n e = absurd (omega arith)
same_pieces (x ∷ xs) [] h k n e = absurd (omega arith)
same_pieces (x ∷ xs) (y ∷ ys) (h, hs) (k, ks) n e =
    let front =
      sym (take-append_left 26 x (concat xs) (sym h))
      ∙ ap (take 26) e
      ∙ take-append_left 26 y (concat ys) (sym k) in
    let back =
      sym (drop-append_left 26 x (concat xs) (sym h))
      ∙ ap (drop 26) e
      ∙ drop-append_left 26 y (concat ys) (sym k) in
    ap₂ (λ (p : Bytes) ps. p ∷ ps) front (same_pieces xs ys hs ks (omega arith) back)

-- Keys of 16 bytes and as many values of 10 are written to a plain table, and the merger reads each
-- key with its value again, in order, from a buffer that has what was written at its front.
pub read_entries-plain_to_disk_format :
    (keys values : List Bytes) (rest : Bytes)
    → AreOfSize 16 keys
    → AreOfSize 10 values
    → length keys ≡ length values
    → (content : Bytes) × (plain_to_disk_format keys values [] ≡ some content)
      × (read_entries (suc (length keys)) 0 (record {
        file_content = content ++ rest;
        file_size = length content;
        readed_entries = 0;
      })
          ≡ some (paired keys values))
read_entries-plain_to_disk_format keys values rest h k n =
    let pieces = paired keys values in
    let sizes = paired-AreOfSize keys values h k in
    let content = concat pieces in
    let size : length content ≡ length keys * 26 =
      length-concat_of pieces sizes ∙ ap (λ c. c * 26) (length-paired keys values n) in
    let table : PlainTable = record {
      file_content = content ++ rest;
      file_size = length content;
      readed_entries = 0;
    } in
    let (entries, run, text, each, count) =
      read_entries_lem (length keys) (suc (length keys)) table (omega arith) refl size
        (omega (arith, length-append content rest)) in
    let whole : concat entries ≡ concat pieces =
      text ∙ take-append_left (length content) content rest refl in
    (
      content,
      disk_lem keys values [] n,
      run
          ∙ ap some (
              same_pieces entries pieces each sizes (count ∙ sym (length-paired keys values n))
                whole),
    )
