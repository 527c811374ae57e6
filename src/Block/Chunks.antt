-- ===== src/Block/Chunks.antt =====
-- The loop over chunks of 312 entries, and the size of a gear table on disk.
use compaction_test.Base.{
  ℕ, zero, suc, ◌+◌, ◌-◌, ◌*◌, ◌/◌, ◌≤◌, ◌<◌, some, List, ◌++◌, Bool, true, false, ltb, ◌==◌,
  if◌then◌else◌, Bytes, All, All-take, All-drop, length, length-append, length-take, length-drop,
  take, drop, min, ◌≡◌, refl, ◌∙◌, arith,
}
use native.Mathlib.Decide.{dec_lt}
use compaction_test.Block.{
  block_size, max_entry_in_block, full_key_length, value_length, chunk_loop, gear_to_disk_format,
  emit_gear,
}
use compaction_test.Block.Layout.{IsEntries, gear_block_size}

-- The number of blocks for `n` entries.
abbrev pub blocks_for : ℕ → ℕ
blocks_for n = (n + 311) / 312

-- Entries of the sizes that the format fixes, in any number.
pub record IsTable (keys values : List Bytes) : Type 0 where
  pub paired : length keys ≡ length values
  pub key_sizes : All (λ k. length k ≡ full_key_length) keys
  pub value_sizes : All (λ v. length v ≡ value_length) values

module _ (little : Bool) (keys values : List Bytes) (table : IsTable keys values) where
  abbrev chunk : ℕ → ℕ → List Bytes → List Bytes
  chunk n i xs = take n (drop i xs)

  chunk-IsEntries :
      (n i : ℕ) → n ≤ 312 → i + n ≤ length keys → IsEntries (chunk n i keys) (chunk n i values)
  chunk-IsEntries n i few fits = record {
    paired = omega (
      arith,
      length-take n (drop i keys),
      length-take n (drop i values),
      length-drop i keys,
      length-drop i values,
      table.paired,
    );
    few = omega (arith, length-take n (drop i keys));
    key_sizes = All-take _ n (drop i keys) (All-drop _ i keys table.key_sizes);
    value_sizes = All-take _ n (drop i values) (All-drop _ i values table.value_sizes);
  }

  -- One round appends a block.
  gear_round :
      (n i fuel : ℕ) (buffer : Bytes)
      → i < length keys
      → n ≡ min 312 (length keys - i)
      → (out : Bytes) × (chunk_loop (emit_gear little) (suc fuel) keys values i buffer
          ≡ chunk_loop (emit_gear little) fuel keys values (i + 312) out)
        × (length out ≡ length buffer + 8192)
  unfolding chunk_loop
  gear_round n i fuel buffer hi hn =
      let (b, e, size) =
        gear_block_size (chunk n i keys) (chunk n i values)
          (chunk-IsEntries n i (omega arith) (omega arith)) little 0 in
      let more : ltb i (length keys) ≡ true = ground arith in
      let paired : (length keys == length values) ≡ true = ground (arith, table.paired) in
      let end : (if ltb (length keys) (i + max_entry_in_block)
              then length keys
              else i + max_entry_in_block)
            - i
          ≡ n =
        ground arith in
      (
        buffer ++ b.content_block,
        rw (more, paired, end, e),
        omega (arith, length-append buffer b.content_block, size),
      )

  -- With `n` entries to go the loop ends, after a block for each 312 of them or part of that.
  gear_loop :
      (fuel i : ℕ) (buffer : Bytes)
      → length keys - i < fuel
      → (out : Bytes) × (chunk_loop (emit_gear little) fuel keys values i buffer ≡ some out)
        × (length out ≡ length buffer + blocks_for (length keys - i) * 8192)
  gear_loop zero i buffer h = absurd (omega arith)
  gear_loop (suc fuel) i buffer h = elim (dec_lt i (length keys)) [
    | no done ↦
        let stop : ltb i (length keys) ≡ false = ground arith in
        (buffer, unfold chunk_loop in rw stop, omega arith)
    | yes more ↦
        let (out, e, size) = gear_round (min 312 (length keys - i)) i fuel buffer more refl in
        let (out', e', size') = gear_loop fuel (i + 312) out (omega arith) in
        (out', e ∙ e', omega (arith, size, size'))
  ]

  -- `GearTable::ToDiskFormat` returns on every table of keys of 16 and values of 10 bytes, whatever
  -- their number, and appends a whole block for each 312 entries or part of that.
  pub gear_to_disk_format_size :
      (buffer : Bytes)
      → (out : Bytes) × (gear_to_disk_format little keys values buffer ≡ some out)
        × (length out ≡ length buffer + blocks_for (length keys) * block_size)
  unfolding gear_to_disk_format
  gear_to_disk_format_size buffer =
      let (out, e, size) = gear_loop (suc (length keys)) 0 buffer (omega arith) in
      (out, e, omega (arith, size))
