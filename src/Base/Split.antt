-- ===== src/Base/Split.antt =====
-- Bit operations on numbers that are put together from a high and a low part, at every width.
use native.Mathlib.Nat.{pow-suc}
use compaction_test.Base.Bits.{bit_and_step, bit_or_step, bit_and-zero, bit_or-zero}
use Prim.Native.Nat.{ℕ, zero, suc, ◌+◌, ◌*◌, ◌/◌, ◌^◌, ◌<◌, bit_and, bit_or}
use mathlib.Core.Path.{◌≡◌, ap}
use native.Mathlib.Omega.{arith}

pub mul-two-pow : (q k : ℕ) → q * 2 ^ suc k ≡ 2 * (q * 2 ^ k)
mul-two-pow q k = omega (arith, ap (λ (t : ℕ). q * t) (pow-suc 2 k))

-- Both operations work on the two parts apart.
pub bit_or_split :
    (k q r p s : ℕ)
    → r < 2 ^ k
    → s < 2 ^ k
    → bit_or (q * 2 ^ k + r) (p * 2 ^ k + s) ≡ bit_or q p * 2 ^ k + bit_or r s
bit_or_split zero q r p s hr hs = ground (arith, bit_or-zero 0)
bit_or_split (suc k) q r p s hr hs = ground (
  arith,
  bit_or_step (q * 2 ^ suc k + r) (p * 2 ^ suc k + s),
  bit_or_step r s,
  mul-two-pow q k,
  mul-two-pow p k,
  mul-two-pow (bit_or q p) k,
  pow-suc 2 k,
  bit_or_split k q (r / 2) p (s / 2) (omega (arith, pow-suc 2 k)) (omega (arith, pow-suc 2 k)),
)

pub bit_and_split :
    (k q r p s : ℕ)
    → r < 2 ^ k
    → s < 2 ^ k
    → bit_and (q * 2 ^ k + r) (p * 2 ^ k + s) ≡ bit_and q p * 2 ^ k + bit_and r s
bit_and_split zero q r p s hr hs = ground (arith, bit_and-zero 0)
bit_and_split (suc k) q r p s hr hs = ground (
  arith,
  bit_and_step (q * 2 ^ suc k + r) (p * 2 ^ suc k + s),
  bit_and_step r s,
  mul-two-pow q k,
  mul-two-pow p k,
  mul-two-pow (bit_and q p) k,
  pow-suc 2 k,
  bit_and_split k q (r / 2) p (s / 2) (omega (arith, pow-suc 2 k)) (omega (arith, pow-suc 2 k)),
)
