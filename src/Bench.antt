-- ===== src/Bench.antt =====
-- tools/gear_bench_tool.cc: the program that writes tables of generated keys and merges them. The
-- flags are parameters. `none` is a failed assertion or a read out of range, or that the fuel ran
-- out.
pub mod Files
pub mod Loop
pub mod Generate
pub mod Ordered
pub mod Driver
pub mod Runs
pub mod Merged
mod Tests
use compaction_test.Base.{
  ℕ, zero, suc, ◌+◌, ◌-◌, ◌%◌, ◌^◌, Option, none, some, List, [], ◌∷◌, ◌++◌, Bool, true, false, leb,
  if◌then◌else◌, ◌>>=◌, Bytes, length, replicate, get_elem?, concat,
}
use compaction_test.KeyGenerator.{KeyGenerator, incremental_random, new_key_generator, next_string}
use compaction_test.InternalKey.{type_value, max_sequence_number}
use compaction_test.InternalKey.Comparator.{internal_key}
use compaction_test.Block.{key_content_length}
use compaction_test.Merger.FileNames.{FileNameCreator, next_file_name}

-- The text "v1v2v3v4v5", the value of every entry.
abbrev pub value_text : Bytes
value_text = 118 ∷ 49 ∷ 118 ∷ 50 ∷ 118 ∷ 51 ∷ 118 ∷ 52 ∷ 118 ∷ 53 ∷ []

-- The state of `generate_files` in its inner loop. `key_buffer` is the memory of the generator's
-- `key_slice_`. `keys` holds what each slice of `key_list` pointed to when it was made.
pub record Filling (Rand : Type 0) : Type 0 where
  pub generated_entries : ℕ
  pub generator : KeyGenerator
  pub rand : Rand
  pub key_buffer : Bytes
  pub keys : List Bytes
  pub values : List Bytes

-- What `generate_files` leaves: the names that it pushed, the keys that it made for each file, and
-- what it wrote to each.
pub record Written : Type 0 where
  pub names : List Bytes
  pub tables : List (List Bytes)
  pub contents : List Bytes

module _ (Rand : Type 0) (draw : Rand → ℕ × Rand) (little : Bool) where
  -- One entry: the key of the next value, and the value.
  unfoldable pub add_entry : Filling Rand → Option (Filling Rand)
  unfolding next_string internal_key
  add_entry s = do
    (bytes, rand1, generator1) ← next_string Rand draw little s.key_buffer s.generator s.rand
    ikey ← internal_key little bytes (max_sequence_number - 1) type_value
    some (record {
      generated_entries = (s.generated_entries + 1) % 2 ^ 64;
      generator = generator1;
      rand = rand1;
      key_buffer = bytes;
      keys = s.keys ++ ikey ∷ [];
      values = s.values ++ value_text ∷ [];
    })

  -- The loop over the entries of a file, with the rounds that are left.
  unfoldable pub fill_table : ℕ → ℕ → Filling Rand → Option (Filling Rand)
  unfolding add_entry
  fill_table range zero s = some s
  fill_table range (suc left) s =
      let more = add_entry s >>= fill_table range left in
      if leb range s.generated_entries then some s else more

  -- The slices of `key_list` point into the strings of keys that are gone when `ToDiskFormat` reads
  -- them: `freed` gives what it reads then for the keys as they were made. `format` is
  -- `ToDiskFormat` of the class that the flag asks for.
  module _ (freed : List Bytes → List Bytes) (format : List Bytes → List Bytes → Option Bytes) where
    unfoldable pub write_loop :
        ℕ
        → ℕ
        → ℕ
        → FileNameCreator
        → Filling Rand
        → Written
        → Option (FileNameCreator × Rand × Written)
    unfolding fill_table next_file_name
    write_loop zero entries_per_file range creator s w = none
    write_loop (suc fuel) entries_per_file range creator s w =
        let (target_file_name, creator1) = next_file_name creator in
        do
          t ← fill_table range entries_per_file (record s { keys = []; values = [] })
          disk_format ← format (freed t.keys) t.values
          let w1 : Written = record {
            names = w.names ++ target_file_name ∷ [];
            tables = w.tables ++ t.keys ∷ [];
            contents = w.contents ++ disk_format ∷ [];
          }
          let more = write_loop fuel entries_per_file range creator1 t w1
          if leb ((range + 2 ^ 64 - 1) % 2 ^ 64) t.generated_entries
              then some (creator1, t.rand, w1)
              else more

    -- `generate_files`; `buffer` is the new memory of the generator's key, and `shuffle` and `sort`
    -- are the library's.
    unfoldable pub generate_files :
        (ℕ → List ℕ → List ℕ)
        → (List ℕ → List ℕ)
        → ℕ
        → Bytes
        → ℕ
        → ℕ
        → ℕ
        → ℕ
        → Rand
        → FileNameCreator
        → Option (FileNameCreator × Rand × Written)
    unfolding write_loop new_key_generator
    generate_files shuffle sort fuel buffer seed entries_per_file start_key range rand creator = do
      (rand1, key_gen) ←
          new_key_generator Rand draw shuffle sort incremental_random range seed key_content_length
            start_key rand
      write_loop fuel entries_per_file range creator
          (record {
            generated_entries = 0;
            generator = key_gen;
            rand = rand1;
            key_buffer = buffer;
            keys = [];
            values = [];
          })
          (record { names = []; tables = []; contents = [] })
