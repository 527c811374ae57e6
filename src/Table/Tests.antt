-- ===== src/Table/Tests.antt =====
-- A table that loads one block of two entries.
use compaction_test.Base.{
  ℕ, zero, suc, ◌*◌, ◌<◌, some, [], ◌∷◌, ◌++◌, true, Bytes, length-append, length-replicate,
  replicate, drop, ◌≡◌, refl, arith,
}
use compaction_test.Coding.{get_fixed32, decode_fixed32, advance, object_value, le_value}
use compaction_test.Table.{Table, read_header, from_on_board_blocks}
use compaction_test.Table.Loaded.{
  key_references, value_references, all_references, total, from_on_board_blocks_lem,
}

abbrev front : Bytes
front = replicate 4 0 ++ (2 ∷ 0 ∷ 0 ∷ 0 ∷ []) ++ replicate 12 0

abbrev pack : Bytes
pack = front ++ replicate 8172 0

abbrev two : ℕ → ℕ
two i = 2

abbrev empty_table : Table
empty_table = record { key_list = []; value_list = []; num_of_blocks = 0 }

heads : (i : ℕ) → i < 1 → read_header true (drop (i * 8192) pack) ≡ some (two i)
unfolding read_header get_fixed32 advance decode_fixed32 object_value le_value
heads zero h = refl
heads (suc i) h = absurd (omega arith)

from_on_board_blocks_lem_example :
    (last2 : ℕ) × (t2 : Table) × (from_on_board_blocks true pack 7 empty_table
      ≡ some (total two 1 0, last2, t2))
    × (t2.num_of_blocks ≡ 1)
    × (t2.key_list ≡ [] ++ all_references two key_references 1 0)
    × (t2.value_list ≡ [] ++ all_references two value_references 1 0)
from_on_board_blocks_lem_example =
    from_on_board_blocks_lem true pack two 1 7 empty_table heads (λ i. omega arith)
      (omega (arith, length-append front (replicate 8172 0), length-replicate {A = ℕ} 8172 0))
