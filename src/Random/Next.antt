-- ===== src/Random/Next.antt =====
-- `Next` of include/random.h is the multiplicative generator modulo 2 ^ 31 - 1.
use compaction_test.Base.{
  ℕ, zero, suc, ◌+◌, ◌*◌, ◌/◌, ◌%◌, ◌^◌, ◌≤◌, ◌<◌, ◌≡◌, refl, ap, ◌∙◌, arith,
}
use native.Mathlib.Nat.{mul_assoc, pow-suc}
use compaction_test.Base.Masks.{bit_and_mask}
use compaction_test.Random.{modulus, multiplier, good_seed, next, next_times}

-- M does not divide A times a smaller number.
not_divided : (seed : ℕ) → 1 ≤ seed → seed < 2147483647 → 1 ≤ seed * 16807 % 2147483647
not_divided seed h n = omega arith

folded : (a : ℕ) → a % 2147483647 ≡ (a / 2147483648 + a % 2147483648) % 2147483647
folded a = omega arith

-- The reduction with a shift and a mask, for seeds that are neither 0 nor the modulus.
pub next_lem :
    (seed : ℕ)
    → 1 ≤ seed
    → seed < modulus
    → (next seed ≡ seed * multiplier % modulus) × (1 ≤ next seed) × (next seed < modulus)
unfolding next
next_lem seed h n =
    let mask = bit_and_mask 31 (seed * multiplier) in
    ground (arith, mask, not_divided seed h n, folded (seed * 16807))

-- The two seeds that the code must avoid stay what they are.
pub next_stuck : (next 0 ≡ 0) × (next modulus ≡ modulus)
unfolding next
next_stuck = (refl, refl)

pub good_seed_lem : (s : ℕ) → (1 ≤ good_seed s) × (good_seed s ≤ modulus)
unfolding good_seed
good_seed_lem s = ground (arith, bit_and_mask 31 s)

step : (a t : ℕ) → a ≡ t % modulus → a * multiplier % modulus ≡ t * multiplier % modulus
step a t e = omega arith

power : (seed n : ℕ) → seed * multiplier ^ n * multiplier ≡ seed * multiplier ^ suc n
power seed n =
    mul_assoc seed (multiplier ^ n) multiplier
    ∙ ap (λ t. seed * t) (omega (arith, pow-suc multiplier n))

-- After `n` calls of `Next` from a seed between 1 and M - 1, the seed is the first one times A ^ n
-- modulo M, where M is 2 ^ 31 - 1 and A is 16807, and still between 1 and M - 1.
pub next_times_lem :
    (n seed : ℕ)
    → 1 ≤ seed
    → seed < modulus
    → (next_times n seed ≡ seed * multiplier ^ n % modulus)
      × (1 ≤ next_times n seed)
      × (next_times n seed < modulus)
unfolding next_times
next_times_lem zero seed h b = (omega arith, h, b)
next_times_lem (suc n) seed h b =
    let (e, low, high) = next_times_lem n seed h b in
    let (e2, low2, high2) = next_lem (next_times n seed) low high in
    (
      e2
          ∙ step (next_times n seed) (seed * multiplier ^ n) e
          ∙ ap (λ t. t % modulus) (power seed n),
      low2,
      high2,
    )
