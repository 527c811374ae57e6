-- ===== src/Table.antt =====
-- `Table` of include/tables/table.h and tables/table_builder.cc: the entries that it takes from blocks
-- and gives to blocks. A slice that it keeps is a reference into the blocks that were read: a place
-- and a length. `none` is a read past the end of the blocks or a reference to before them.
pub mod Loaded
mod Tests
use compaction_test.Base.{
  assert, ℕ, zero, suc, ◌+◌, ◌-◌, ◌*◌, ◌/◌, Option, none, some, List, [], ◌∷◌, ◌++◌, Bool, true,
  false, ltb, leb, if◌then◌else◌, ◌>>=◌, Bytes, length, drop, concat, map,
}
use compaction_test.Coding.{get_fixed32}
use compaction_test.Block.{
  Block, block_size, key_content_length, key_suffix_length, value_length, compose_on_board_block,
}

pub record Reference : Type 0 where
  pub place : ℕ
  pub size : ℕ

pub record Table : Type 0 where
  pub key_list : List Reference
  pub value_list : List Reference
  pub num_of_blocks : ℕ

-- The five words at the front of a block; the second one is the number of its entries.
unfoldable pub read_header : Bool → Bytes → Option ℕ
read_header little temp = do
  position ← get_fixed32 little temp
  last ← get_fixed32 little position.1
  key_length ← get_fixed32 little last.1
  value_length ← get_fixed32 little key_length.1
  placeholder_length ← get_fixed32 little value_length.1
  some last.0

-- The loop over the entries of a block. Both places are counted from the front of all the blocks.
unfoldable pub entry_loop : ℕ → ℕ → Table → Option Table
entry_loop zero j t = some t
entry_loop (suc left) j t = assert (leb (j * (key_content_length + key_suffix_length)) block_size) (
    entry_loop left (suc j) (record t {
      key_list =
          t.key_list
          ++ (record {
            place = block_size - j * (key_content_length + key_suffix_length);
            size = key_suffix_length + key_content_length;
          }
              ∷ []);
      value_list = t.value_list ++ (record { place = j * value_length; size = value_length } ∷ []);
    }))

-- The loop over the blocks at the place `i`, with the entries that were counted and `*last`.
unfoldable pub blocks_loop : Bool → Bytes → ℕ → ℕ → ℕ → ℕ → Table → Option (ℕ × ℕ × Table)
unfolding read_header entry_loop
blocks_loop little pack zero i num_entries last t = none
blocks_loop little pack (suc fuel) i num_entries last t =
    if ltb i (length pack)
    then (do
      last ← read_header little (drop i pack)
      t1 ← entry_loop last 0 (record t { num_of_blocks = suc t.num_of_blocks })
      blocks_loop little pack fuel (i + block_size) (num_entries + last) last t1)
    else some (num_entries, last, t)

-- The entries that were counted, `*last_entry_count`, and the table.
unfoldable pub from_on_board_blocks : Bool → Bytes → ℕ → Table → Option (ℕ × ℕ × Table)
unfolding blocks_loop
from_on_board_blocks little pack last t =
    blocks_loop little pack (suc (length pack)) 0 0 last (record t { num_of_blocks = 0 })

-- The keys and the values that the references stand for are those that the caller reads from them.
unfoldable pub to_on_board_format : Bool → List Bytes → List Bytes → Bytes → Option Bytes
unfolding compose_on_board_block
to_on_board_format little keys values result_buffer = do
  result_list ← compose_on_board_block little keys values
  some (result_buffer ++ concat (map (λ b. b.content_block) result_list))

-- `PlainTable::ToDiskFormat` of tables/plain_table/plain_table.cc, on the bytes that the slices hold.
unfoldable pub plain_to_disk_format : List Bytes → List Bytes → Bytes → Option Bytes
plain_to_disk_format [] values buffer = some buffer
plain_to_disk_format (key ∷ keys) [] buffer = none
plain_to_disk_format (key ∷ keys) (value ∷ values) buffer =
    plain_to_disk_format keys values (buffer ++ key ++ value)
