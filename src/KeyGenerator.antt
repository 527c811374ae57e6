-- ===== src/KeyGenerator.antt =====
-- `KeyGenerator` and `SeqKeyGenerator` of include/gear_bench_classes.h and
-- tools/gear_bench_classes.cc: the keys of the benchmark. `none` is a failed assertion, a remainder
-- by 0, or a write past the end of a key.
pub mod Layout
pub mod Order
pub mod Draws
pub mod Spanning
pub mod Content
mod Tests
use compaction_test.Base.{
  assert, ℕ, zero, suc, ◌+◌, ◌-◌, ◌*◌, ◌/◌, ◌%◌, ◌^◌, min, max, Option, none, some, List, [], ◌∷◌,
  ◌++◌, Bool, true, false, ltb, leb, ◌==◌, not, if◌then◌else◌, ◌>>=◌, Bytes, length, take, drop,
  replicate, get_elem?, bit_and, ◌>>>◌,
}
use compaction_test.Coding.{object_bytes}

pub data WriteMode : Type 0 where
  random sequential unique_random incremental_random : WriteMode

pub record KeyGenerator : Type 0 where
  pub mode : WriteMode
  pub min_value : ℕ
  pub distinct_num : ℕ
  pub next : ℕ
  pub key_size : ℕ
  pub values : List ℕ

-- The loop that fills the key on a little-endian machine, with the bytes that are still to fill.
unfoldable pub fill_loop : ℕ → ℕ → Bytes
fill_loop v zero = []
fill_loop v (suc left) = bit_and (v >>> (left * 8)) 0xff ∷ fill_loop v left

-- The bytes that the key holds afterwards; `key` are those that it holds before.
unfoldable pub generate_key_from_int : Bool → ℕ → ℕ → Bytes → ℕ → Option Bytes
unfolding fill_loop object_bytes
generate_key_from_int little v num_keys key key_size = do
  v ← if num_keys == 0 then none else some (v % num_keys)
  let bytes_to_fill = min key_size 8
  let filled =
      if little then fill_loop v bytes_to_fill else take bytes_to_fill (object_bytes false 8 v)
  let written = filled ++ replicate (key_size - bytes_to_fill) b'0'
  if leb key_size (length key) then some (written ++ drop key_size key) else none

-- Without a key the function takes an empty one.
unfoldable pub generate_key_without_key : Bool → ℕ → ℕ → ℕ → Option Bytes
unfolding generate_key_from_int
generate_key_without_key little v num_keys key_size =
    generate_key_from_int little v num_keys [] key_size

abbrev pub set_elem : ℕ → ℕ → List ℕ → Option (List ℕ)
set_elem i v [] = none
set_elem zero v (x ∷ xs) = some (v ∷ xs)
set_elem (suc i) v (x ∷ xs) = do rest ← set_elem i v xs; some (x ∷ rest)

-- The loops of the constructor, from `i` on, with the number of rounds that are left.
unfoldable pub unique_loop : ℕ → ℕ → List ℕ → Option (List ℕ)
unique_loop zero i values = some values
unique_loop (suc left) i values = do values1 ← set_elem i i values; unique_loop left (suc i) values1

-- A generator of the library: its states, and its draws. `shuffle seed` and `sort` are
-- `RandomShuffle` and `std::sort` on the values.
module _ (Rand : Type 0) (draw : Rand → ℕ × Rand) where
  unfoldable pub incremental_loop : ℕ → ℕ → ℕ → ℕ → Rand → List ℕ → Option (Rand × List ℕ)
  incremental_loop zero i num low rand values = some (rand, values)
  incremental_loop (suc left) i num low rand values =
      let drawn = draw rand in
      do
        v ← if num == 0 then none else some ((drawn.0 % num + low) % 2 ^ 64)
        values1 ← set_elem i v values
        incremental_loop left (suc i) num low drawn.1 values1

  -- The values that the constructor puts on the list, by its mode.
  unfoldable pub listed_values :
      (ℕ → List ℕ → List ℕ)
      → (List ℕ → List ℕ)
      → WriteMode
      → ℕ
      → ℕ
      → ℕ
      → Rand
      → Option (Rand × List ℕ)
  unfolding unique_loop incremental_loop
  listed_values shuffle sort unique_random num seed low rand = do
    values ← unique_loop (num - low) low (replicate num 0)
    some (rand, shuffle (seed % 2 ^ 32) values)
  listed_values shuffle sort incremental_random num seed low rand = do
    pair ← incremental_loop (num - low) low num low rand (replicate num 0)
    some (pair.0, sort pair.1)
  listed_values shuffle sort random num seed low rand = some (rand, [])
  listed_values shuffle sort sequential num seed low rand = some (rand, [])

  unfoldable pub new_key_generator :
      (ℕ → List ℕ → List ℕ)
      → (List ℕ → List ℕ)
      → WriteMode
      → ℕ
      → ℕ
      → ℕ
      → ℕ
      → Rand
      → Option (Rand × KeyGenerator)
  unfolding listed_values
  new_key_generator shuffle sort mode num seed key_size low rand = do
    pair ← listed_values shuffle sort mode num seed low rand
    some (
      pair.0,
      record {
        mode = mode;
        min_value = low;
        distinct_num = num;
        next = 0;
        key_size = key_size;
        values = pair.1;
      },
    )

  abbrev pub advanced : KeyGenerator → KeyGenerator
  advanced g = record g { next = (g.next + 1) % 2 ^ 64 }

  unfoldable pub next_listed : KeyGenerator → Rand → Option (ℕ × Rand × KeyGenerator)
  next_listed g rand =
      assert (ltb g.next g.distinct_num)
        (do v ← get_elem? g.values g.next; some (v, rand, advanced g))

  unfoldable pub next_in_mode : WriteMode → KeyGenerator → Rand → Option (ℕ × Rand × KeyGenerator)
  unfolding next_listed
  next_in_mode sequential g rand = some ((g.min_value + g.next) % 2 ^ 64, rand, advanced g)
  next_in_mode random g rand =
      let drawn = draw rand in
      if g.distinct_num == 0 then none else some (drawn.0 % g.distinct_num, drawn.1, g)
  next_in_mode unique_random g rand = next_listed g rand
  next_in_mode incremental_random g rand = next_listed g rand

  unfoldable pub next_value : KeyGenerator → Rand → Option (ℕ × Rand × KeyGenerator)
  unfolding next_in_mode
  next_value g rand = next_in_mode g.mode g rand

  -- The key of the next value, of the generator's own size; `key` are the bytes before.
  unfoldable pub next_string :
      Bool → Bytes → KeyGenerator → Rand → Option (Bytes × Rand × KeyGenerator)
  unfolding next_value generate_key_from_int
  next_string little key g rand = do
    t ← next_value g rand
    bytes ← generate_key_from_int little t.0 g.distinct_num key g.key_size
    some (bytes, t.1, t.2)

unfoldable pub set_next : ℕ → KeyGenerator → KeyGenerator
set_next next g = record g { next = next }

-- `SeqKeyGenerator::Next`, in place of the one above.
unfoldable pub seq_next : KeyGenerator → ℕ × KeyGenerator
seq_next g =
    let next = (g.next + 1) % 2 ^ 64 in
    (max ((g.min_value + next) % 2 ^ 64) (2 ^ 64 - 1), record g { next = next })
