-- ===== src/Block.antt =====
-- The fixed-size blocks that hold sorted entries: `OnBoardBlock` and the loops of
-- db_format/on_board_format.h and db_format/on_board_fomat.cc, and `GearBlock` of
-- tables/gear_table/gear_table.cc. Keys grow from the end of a block and values from its front.
-- `none` is a failed assertion or a read out of range.
pub mod Chunks
pub mod Entries
pub mod Layout
pub mod Vector
mod Tests
use compaction_test.Base.{
  ℕ, zero, suc, ◌+◌, ◌-◌, ◌*◌, ◌^◌, Option, none, some, List, [], ◌∷◌, ◌++◌, Bool, true, false, ltb,
  leb, ◌==◌, if◌then◌else◌, ◌>>=◌, Bytes, length, take, drop, get_elem?, replicate, u32, u64,
}
use compaction_test.Coding.{put_fixed32, get_fixed32}

-- The macros. `BLOCK_SIZE` is `8*1024` without parentheses, and `FULL_KEY_LENGTH` a sum without them.
abbrev pub block_size : ℕ
block_size = 8 * 1024

abbrev pub header_length : ℕ
header_length = 64

abbrev pub key_content_length : ℕ
key_content_length = 8

abbrev pub key_suffix_length : ℕ
key_suffix_length = 8

abbrev pub value_length : ℕ
value_length = 10

abbrev pub full_key_length : ℕ
full_key_length = key_content_length + key_suffix_length

abbrev pub max_entry_in_block : ℕ
max_entry_in_block = 312

pub record Block : Type 0 where
  pub content_block : Bytes
  pub key_content : Bytes
  pub value_content : Bytes
  pub num_of_entries : ℕ
  pub block_id : ℕ

-- `GearBlock` has the same fields.
abbrev pub GearBlock : Type 0
GearBlock = Block

unfoldable pub new_block : ℕ → Block
new_block id = record {
  content_block = [];
  key_content = [];
  value_content = [];
  num_of_entries = 0;
  block_id = id;
}

-- The loop of both `AddBlock` functions at `i`, with `left` rounds to go.
unfoldable pub add_entries : List Bytes → List Bytes → ℕ → ℕ → Block → Option Block
add_entries keys values zero i b = some b
add_entries keys values (suc left) i b = do
  key ← get_elem? keys (length keys - i - 1)
  value ← get_elem? values i
  add_entries keys values left (i + 1)
      (record b { key_content = b.key_content ++ key; value_content = b.value_content ++ value })

-- `BLOCK_SIZE - (HEADER_LENGTH + key_content.size() + value_content.size())` in `size_t`, cut to
-- 32 bits.
unfoldable pub placeholder_length : Block → ℕ
placeholder_length b = u32 (
    u64 (block_size + 2 ^ 64 - u64 (header_length + length b.key_content + length b.value_content)))

unfoldable pub put_words : Bool → Bytes → List ℕ → Bytes
put_words little dst [] = dst
put_words little dst (w ∷ ws) = put_words little (put_fixed32 little dst w) ws

-- The sixteen words at the front: five fields, and zeros.
unfoldable pub put_header : Bool → Block → Bytes
put_header little b = put_words little b.content_block (
    u32 b.block_id
    ∷ u32 b.num_of_entries
    ∷ u32 (length b.key_content)
    ∷ u32 (length b.value_content)
    ∷ placeholder_length b
    ∷ replicate 11 0)

-- `OnBoardBlock::ComposeResults`: a placeholder is made, and not written.
unfoldable pub compose_on_board : Bool → Block → Block
compose_on_board little b = record b {
  content_block = put_header little b ++ b.value_content ++ b.key_content;
}

-- `GearBlock::ComposeResults`.
unfoldable pub compose_gear : Bool → Block → Block
compose_gear little b = record b {
  content_block =
      put_header little b
      ++ b.value_content
      ++ replicate (placeholder_length b) b'h'
      ++ b.key_content;
}

abbrev same_size : List Bytes → List Bytes → Option Block → Option Block
same_size keys values m = if length keys == length values then m else none

-- `AddBlock` of both classes. The sizes fit an `int`.
unfoldable pub add_block : (Block → Block) → List Bytes → List Bytes → Block → Option Block
add_block compose keys values b = same_size keys values (do
  filled ← add_entries keys values (length keys) 0 (record b { num_of_entries = length keys })
  some (compose filled))

unfoldable pub on_board_add_block : Bool → List Bytes → List Bytes → Block → Option Block
on_board_add_block little keys values b = add_block (compose_on_board little) keys values b

unfoldable pub gear_add_block : Bool → List Bytes → List Bytes → Block → Option Block
gear_add_block little keys values b = add_block (compose_gear little) keys values b

-- The bytes that `AppendToFile` hands to `write`: `BLOCK_SIZE` of them from `c_str()`, which has
-- one byte more than the string.
unfoldable pub append_to_file : Block → Option Bytes
append_to_file b =
    if leb block_size (length b.content_block + 1)
    then some (take block_size (b.content_block ++ (0 ∷ [])))
    else none

-- `for (i = 0; i < keys.size(); i += MAX_ENTRY_IN_BLOCK)` with the body's work as `emit`, on fuel;
-- `none` is also that the fuel ran out.
unfoldable pub chunk_loop {ℓ} :
    {S : Type ℓ}
    → (S → List Bytes → List Bytes → Option S)
    → ℕ
    → List Bytes
    → List Bytes
    → ℕ
    → S
    → Option S
chunk_loop emit zero keys values i s = none
chunk_loop emit (suc fuel) keys values i s =
    let end_posi =
      if ltb (length keys) (i + max_entry_in_block) then length keys else i + max_entry_in_block in
    let next = (do
      s' ← emit s (take (end_posi - i) (drop i keys)) (take (end_posi - i) (drop i values))
      chunk_loop emit fuel keys values (i + max_entry_in_block) s') in
    if ltb i (length keys) then (if length keys == length values then next else none) else some s

-- `ComposeOnBoardBlock`. The block id of the loop stays 0.
abbrev emit_block : Bool → List Block → List Bytes → List Bytes → Option (List Block)
emit_block little blocks keys values = do
  block ← on_board_add_block little keys values (new_block 0)
  some (blocks ++ (block ∷ []))

unfoldable pub compose_on_board_block : Bool → List Bytes → List Bytes → Option (List Block)
compose_on_board_block little keys values =
    chunk_loop (emit_block little) (suc (length keys)) keys values 0 []

-- `GearTable::ToDiskFormat`; the id stays 0 here too.
abbrev emit_gear : Bool → Bytes → List Bytes → List Bytes → Option Bytes
emit_gear little buffer keys values = do
  block ← gear_add_block little keys values (new_block 0)
  some (buffer ++ block.content_block)

unfoldable pub gear_to_disk_format : Bool → List Bytes → List Bytes → Bytes → Option Bytes
gear_to_disk_format little keys values buffer =
    chunk_loop (emit_gear little) (suc (length keys)) keys values 0 buffer
