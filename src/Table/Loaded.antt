-- ===== src/Table/Loaded.antt =====
-- What a table loads from blocks.
use compaction_test.Base.{
  ℕ, zero, suc, ◌+◌, ◌-◌, ◌*◌, ◌≤◌, ◌<◌, some, List, [], ◌∷◌, ◌++◌, append_assoc, append-nil, Bool,
  true, false, ltb, leb, Bytes, length, drop, ◌≡◌, refl, sym, ap, ◌∙◌, arith,
}
use compaction_test.Table.{
  Reference, Table, read_header, entry_loop, blocks_loop, from_on_board_blocks,
}

-- The references to the keys and the values of one block, and of so many blocks.
abbrev pub key_references : ℕ → ℕ → List Reference
key_references zero j = []
key_references (suc n) j = record { place = 8192 - j * 16; size = 16 } ∷ key_references n (suc j)

abbrev pub value_references : ℕ → ℕ → List Reference
value_references zero j = []
value_references (suc n) j = record { place = j * 10; size = 10 } ∷ value_references n (suc j)

module _ (counts : ℕ → ℕ) where
  abbrev pub all_references : (ℕ → ℕ → List Reference) → ℕ → ℕ → List Reference
  all_references references zero b = []
  all_references references (suc left) b =
      references (counts b) 0 ++ all_references references left (suc b)

  abbrev pub total : ℕ → ℕ → ℕ
  total zero b = 0
  total (suc left) b = counts b + total left (suc b)

-- A table that more references were added to.
abbrev added : List Reference → List Reference → Table → Table
added keys values t = record t {
  key_list = t.key_list ++ keys;
  value_list = t.value_list ++ values;
}

added_more :
    (k v : Reference) (keys values : List Reference) (t : Table)
    → added keys values (added (k ∷ []) (v ∷ []) t) ≡ added (k ∷ keys) (v ∷ values) t
added_more k v keys values t = λ i. record t {
  key_list = append_assoc t.key_list (k ∷ []) keys i;
  value_list = append_assoc t.value_list (v ∷ []) values i;
}

entry_loop_lem :
    (n j : ℕ) (t : Table)
    → n + j ≤ 513
    → entry_loop n j t ≡ some (added (key_references n j) (value_references n j) t)
unfolding entry_loop
entry_loop_lem zero j t h = λ i. some (record t {
  key_list = sym (append-nil t.key_list) i;
  value_list = sym (append-nil t.value_list) i;
})
entry_loop_lem (suc n) j t h =
    let inside : leb (j * 16) 8192 ≡ true = ground arith in
    let k : Reference = record { place = 8192 - j * 16; size = 16 } in
    let v : Reference = record { place = j * 10; size = 10 } in
    simp inside (
      entry_loop_lem n (suc j) (added (k ∷ []) (v ∷ []) t) (omega arith)
      ∙ ap some (added_more k v (key_references n (suc j)) (value_references n (suc j)) t))

-- The table after so many more blocks.
abbrev loaded : (ℕ → ℕ) → ℕ → ℕ → Table → Table
loaded counts left b t =
    record (added (all_references counts key_references left b)
      (all_references counts value_references left b) t) { num_of_blocks = t.num_of_blocks + left }

loaded_more :
    (counts : ℕ → ℕ) (left b : ℕ) (t : Table)
    → loaded counts left
        (suc b)
        (record (added (key_references (counts b) 0) (value_references (counts b) 0) t) {
          num_of_blocks = suc t.num_of_blocks;
        })
      ≡ loaded counts (suc left) b t
loaded_more counts left b t =
    let more : suc t.num_of_blocks + left ≡ t.num_of_blocks + suc left = omega arith in
    λ i. record {
      key_list =
          append_assoc t.key_list (key_references (counts b) 0)
            (all_references counts key_references left (suc b)) i;
      value_list =
          append_assoc t.value_list (value_references (counts b) 0)
            (all_references counts value_references left (suc b)) i;
      num_of_blocks = more i;
    }

blocks_loop_lem :
    (little : Bool) (pack : Bytes) (counts : ℕ → ℕ) (left b fuel seen last : ℕ) (t : Table)
    → ((i : ℕ) → i < b + left → read_header little (drop (i * 8192) pack) ≡ some (counts i))
    → ((i : ℕ) → counts i ≤ 513)
    → length pack ≡ (b + left) * 8192
    → left < fuel
    → (last2 : ℕ) × (blocks_loop little pack fuel (b * 8192) seen last t
        ≡ some (seen + total counts left b, last2, loaded counts left b t))
unfolding blocks_loop
blocks_loop_lem little pack counts left b zero seen last t heads small size enough =
    absurd (omega arith)
blocks_loop_lem little pack counts zero b (suc fuel) seen last t heads small size enough =
    let done : ltb (b * 8192) (length pack) ≡ false = ground arith in
    let none_more : seen ≡ seen + 0 = omega arith in
    let blocks : t.num_of_blocks ≡ t.num_of_blocks + 0 = omega arith in
    let same : t ≡ loaded counts 0 b t = λ i. record {
      key_list = sym (append-nil t.key_list) i;
      value_list = sym (append-nil t.value_list) i;
      num_of_blocks = blocks i;
    } in
    (last, simp done (λ i. some (none_more i, last, same i)))
blocks_loop_lem little pack counts (suc left) b (suc fuel) seen last t heads small size enough =
    let goes : ltb (b * 8192) (length pack) ≡ true = ground arith in
    let n = counts b in
    let head = heads b (omega arith) in
    let entries =
      entry_loop_lem n 0 (record t { num_of_blocks = suc t.num_of_blocks })
        (omega (arith, small b)) in
    let next : b * 8192 + 8192 ≡ suc b * 8192 = omega arith in
    let t1 : Table = record (added (key_references n 0) (value_references n 0) t) {
      num_of_blocks = suc t.num_of_blocks;
    } in
    let (last2, rest) =
      blocks_loop_lem little pack counts left (suc b) fuel (seen + n) n t1
        (λ i h. heads i (omega arith)) small (omega arith) (omega arith) in
    let counted : seen + n + total counts left (suc b) ≡ seen + (n + total counts left (suc b)) =
      omega arith in
    (
      last2,
      simp (goes, head, entries, next, rest)
          (λ i. some (counted i, last2, loaded_more counts left b t i)),
    )

-- From whole blocks that note at most 513 entries each, `FromOnBoardBlocks` returns the number of
-- all entries and counts the blocks, and the table has a key and a value more for each entry. In
-- every block alike, the entry `j` is a key of 16 bytes at the place 8192 - 16 j and a value of 10
-- bytes at the place 10 j, both from the front of the first block.
pub from_on_board_blocks_lem :
    (little : Bool) (pack : Bytes) (counts : ℕ → ℕ) (blocks last : ℕ) (t : Table)
    → ((i : ℕ) → i < blocks → read_header little (drop (i * 8192) pack) ≡ some (counts i))
    → ((i : ℕ) → counts i ≤ 513)
    → length pack ≡ blocks * 8192
    → (last2 : ℕ) × (t2 : Table) × (from_on_board_blocks little pack last t
        ≡ some (total counts blocks 0, last2, t2))
      × (t2.num_of_blocks ≡ blocks)
      × (t2.key_list ≡ t.key_list ++ all_references counts key_references blocks 0)
      × (t2.value_list ≡ t.value_list ++ all_references counts value_references blocks 0)
unfolding from_on_board_blocks
from_on_board_blocks_lem little pack counts blocks last t heads small size =
    let start : Table = record t { num_of_blocks = 0 } in
    let all : blocks ≡ 0 + blocks = omega arith in
    let (last2, e) =
      blocks_loop_lem little pack counts blocks 0 (suc (length pack)) 0 last start
        (λ i h. heads i (omega arith)) small (omega arith) (omega arith) in
    let counted : 0 + total counts blocks 0 ≡ total counts blocks 0 = omega arith in
    (
      last2,
      loaded counts blocks 0 start,
      e ∙ (λ i. some (counted i, last2, loaded counts blocks 0 start)),
      sym all,
      refl,
      refl,
    )
