-- ===== src/Base/Masks.antt =====
-- The masks and disjoint fields that the code uses, as arithmetic.
use native.Mathlib.Nat.{pow-suc, one-le-pow}
use compaction_test.Base.Bits.{bit_and_step, bit_or_step, bit_and-zero, bit_or-zero, zero-bit_or}
use compaction_test.Base.Split.{bit_or_split, bit_and_split}
use Prim.Native.Nat.{ℕ, zero, suc, ◌+◌, ◌-◌, ◌*◌, ◌/◌, ◌%◌, ◌^◌, ◌<◌, bit_and, bit_or}
use mathlib.Core.Path.{◌≡◌}
use native.Mathlib.Omega.{arith}

-- `(q << k) | s` and `s | (q << k)`, where `s` fits `k` bits.
pub bit_or_low : (k q s : ℕ) → s < 2 ^ k → bit_or (q * 2 ^ k) s ≡ q * 2 ^ k + s
bit_or_low k q s h =
    ground (arith, bit_or_split k q 0 0 s, bit_or-zero q, zero-bit_or s, one-le-pow k 2)

pub bit_or_high : (k r p : ℕ) → r < 2 ^ k → bit_or r (p * 2 ^ k) ≡ p * 2 ^ k + r
bit_or_high k r p h =
    ground (arith, bit_or_split k 0 r p 0, bit_or-zero r, zero-bit_or p, one-le-pow k 2)

bit_and_ones : (k r : ℕ) → r < 2 ^ k → bit_and r (2 ^ k - 1) ≡ r
bit_and_ones zero r h = ground (arith, bit_and-zero 0)
bit_and_ones (suc k) r h = ground (
  arith,
  bit_and_step r (2 ^ suc k - 1),
  pow-suc 2 k,
  one-le-pow k 2,
  bit_and_ones k (r / 2) (omega (arith, pow-suc 2 k)),
)

bit_and_ones_high : (k q r : ℕ) → r < 2 ^ k → bit_and (q * 2 ^ k + r) (2 ^ k - 1) ≡ r
bit_and_ones_high k q r h =
    ground
      (arith, bit_and_split k q r 0 (2 ^ k - 1), bit_and-zero q, bit_and_ones k r h, one-le-pow k 2)

-- A mask of `k` low bits is the remainder by `2 ^ k`.
pub bit_and_mask : (k a : ℕ) → bit_and a (2 ^ k - 1) ≡ a % 2 ^ k
bit_and_mask k a = ground (arith, one-le-pow k 2, bit_and_ones_high k (a / 2 ^ k) (a % 2 ^ k))

bit_and-one : (a : ℕ) → bit_and a 1 ≡ a % 2
bit_and-one a = bit_and_mask 1 a

bit_or-one : (a : ℕ) → bit_or a 1 ≡ a / 2 * 2 + 1
bit_or-one a = omega (arith, bit_or_step a 1, bit_or-zero (a / 2))

-- `byte & 128`, `v & 127`, `v & 0xff` and `v | 128`.
pub top_bit : (a : ℕ) → bit_and a 128 ≡ a / 128 % 2 * 128
top_bit a =
    ground (
      arith,
      bit_and_split 7 (a / 128) (a % 128) 1 0,
      bit_and-one (a / 128),
      bit_and-zero (a % 128),
    )

pub low_seven : (a : ℕ) → bit_and a 127 ≡ a % 128
low_seven a = bit_and_mask 7 a

pub low_byte : (a : ℕ) → bit_and a 255 ≡ a % 256
low_byte a = bit_and_mask 8 a

pub set_top_bit : (a : ℕ) → bit_or a 128 % 256 ≡ a % 128 + 128
set_top_bit a =
    ground
      (arith, bit_or_split 7 (a / 128) (a % 128) 1 0, bit_or-one (a / 128), bit_or-zero (a % 128))

-- `|` does not pass the width of its arguments.
pub bit_or-lt : (k a b : ℕ) → a < 2 ^ k → b < 2 ^ k → bit_or a b < 2 ^ k
bit_or-lt zero a b ha hb = ground (arith, bit_or-zero 0)
bit_or-lt (suc k) a b ha hb = omega (
  arith,
  bit_or_step a b,
  pow-suc 2 k,
  bit_or-lt k (a / 2) (b / 2) (omega (arith, pow-suc 2 k)) (omega (arith, pow-suc 2 k)),
)
