-- ===== src/Block/Tests.antt =====
-- The theorems on blocks at concrete inputs.
use compaction_test.Base.{
  ℕ, ◌+◌, ◌*◌, none, some, List, [], ◌∷◌, true, Bytes, length, replicate, ◌≡◌, refl, arith,
}
use compaction_test.Block.{
  Block, new_block, on_board_add_block, append_to_file, block_size, gear_to_disk_format,
}
use compaction_test.Block.Layout.{IsEntries, on_board_block_short}
use compaction_test.Block.Chunks.{IsTable, blocks_for, gear_to_disk_format_size}
use compaction_test.Base.{◌*◌, ◌-◌, ◌<◌, ◌%◌, ◌^◌, get_elem?, ◌==◌, if◌then◌else◌}
use compaction_test.Block.Vector.{
  compose_entry_vector, read_entry_count, EntryReference, compose_entry_vector_lem,
}

abbrev two_keys : List Bytes
two_keys = replicate 16 1 ∷ replicate 16 2 ∷ []

abbrev two_values : List Bytes
two_values = replicate 10 3 ∷ replicate 10 4 ∷ []

two-IsEntries : IsEntries two_keys two_values
two-IsEntries = record {
  paired = refl;
  few = omega arith;
  key_sizes = (refl, (refl, tt));
  value_sizes = (refl, (refl, tt));
}

two-IsTable : IsTable two_keys two_values
two-IsTable = record {
  paired = refl;
  key_sizes = (refl, (refl, tt));
  value_sizes = (refl, (refl, tt));
}

on_board_block_short_example :
    (b : Block) × (on_board_add_block true two_keys two_values (new_block 0) ≡ some b)
    × (length b.content_block ≡ 64 + 26 * length two_keys)
    × (append_to_file b ≡ none)
on_board_block_short_example = on_board_block_short two_keys two_values two-IsEntries true 0

gear_to_disk_format_size_example :
    (out : Bytes) × (gear_to_disk_format true two_keys two_values [] ≡ some out)
    × (length out ≡ length {A = ℕ} [] + blocks_for (length two_keys) * block_size)
gear_to_disk_format_size_example = gear_to_disk_format_size true two_keys two_values two-IsTable []

-- A block whose header counts two entries.
abbrev block_of_two : Bytes
block_of_two = 0 ∷ 0 ∷ 0 ∷ 0 ∷ 2 ∷ 0 ∷ 0 ∷ 0 ∷ replicate 8184 0

compose_entry_vector_lem_example :
    (keys : List EntryReference) × (values : List EntryReference) × (compose_entry_vector true 5
        block_of_two
        ([], [])
      ≡ (if 2 == (5 + 2) % 2 ^ 32 then some (keys, values) else none))
    × (length keys ≡ 2)
    × (length values ≡ 2)
    × ((j : ℕ)
        → j < 2
        → (get_elem? keys j ≡ some (record { place = 8248 - 8 * j; size = 16 }))
          × (get_elem? values j ≡ some (record { place = 48 + 10 * j; size = 10 })))
unfolding read_entry_count compaction_test.Coding.get_fixed32 compaction_test.Coding.advance
    compaction_test.Coding.decode_fixed32 compaction_test.Coding.object_value
    compaction_test.Coding.le_value
compose_entry_vector_lem_example =
    compose_entry_vector_lem true 5 2 block_of_two refl (omega arith) refl
