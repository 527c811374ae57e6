-- ===== src/KeyGenerator/Order.antt =====
-- The order of generated keys.
use Prim.Native.Nat.{compare}
use native.Mathlib.Nat.{mod-eq_of_lt, mod-lt}
use compaction_test.Base.{
  ℕ, ◌-◌, ◌*◌, ◌%◌, ◌^◌, ◌<◌, ◌≤◌, min, some, ◌++◌, true, Bytes, length, replicate,
  length-replicate, length-append, append-nil, drop_all, ◌≡◌, ap, ◌∙◌, arith,
}
use compaction_test.Slice.{compare_slice}
use compaction_test.Slice.Order.{compare_slice-lex}
use compaction_test.KeyGenerator.{fill_loop, generate_key_from_int}
use compaction_test.KeyGenerator.Layout.{lex-fill_loop, length-fill_loop}

-- The key of a number on a little-endian machine.
abbrev pub key_bytes : ℕ → ℕ → Bytes
key_bytes v key_size = fill_loop v (min key_size 8) ++ replicate (key_size - min key_size 8) b'0'

pub length-key_bytes : (v key_size : ℕ) → length (key_bytes v key_size) ≡ key_size
length-key_bytes v key_size = omega (
  arith,
  length-append (fill_loop v (min key_size 8)) (replicate (key_size - min key_size 8) b'0'),
  length-fill_loop v (min key_size 8),
  length-replicate {A = ℕ} (key_size - min key_size 8) b'0',
)

pub generate_lem :
    (v num_keys : ℕ) (key : Bytes)
    → 0 < num_keys
    → generate_key_from_int true v num_keys key (length key)
      ≡ some (key_bytes (v % num_keys) (length key))
unfolding generate_key_from_int
generate_lem v num_keys key h = ground (
  arith,
  drop_all (length key) key (omega arith),
  append-nil (key_bytes (v % num_keys) (length key)),
)

-- On a little-endian machine, a key is filled whole. Two keys of one size compare as the numbers,
-- reduced by the number of keys, that they are made from, when all these numbers fit the bytes that
-- the key has for them, at most eight.
pub generated_key_order :
    (v w num_keys : ℕ) (key other : Bytes)
    → 0 < num_keys
    → num_keys ≤ 2 ^ (min (length key) 8 * 8)
    → length other ≡ length key
    → (a : Bytes) × (b : Bytes) × (generate_key_from_int true v num_keys key (length key) ≡ some a)
      × (generate_key_from_int true w num_keys other (length other) ≡ some b)
      × (length a ≡ length key)
      × (compare_slice a b ≡ compare (v % num_keys) (w % num_keys))
generated_key_order v w num_keys key other pos fits same =
    let size = length key in
    let x = v % num_keys in
    let y = w % num_keys in
    let small : (z : ℕ) → z % num_keys < 2 ^ (min size 8 * 8) = λ z. omega (arith, mod-lt z pos) in
    let pad = replicate (size - min size 8) b'0' in
    (
      key_bytes x size,
      key_bytes y size,
      generate_lem v num_keys key pos,
      generate_lem w num_keys other pos ∙ ap (λ n. some (key_bytes y n)) same,
      length-key_bytes x size,
      compare_slice-lex (key_bytes x size) (key_bytes y size)
          ∙ lex-fill_loop (min size 8) x y pad
          ∙ (λ i. compare (mod-eq_of_lt (small v) i) (mod-eq_of_lt (small w) i)),
    )
