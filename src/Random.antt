-- ===== src/Random.antt =====
-- The generator `Random` of include/random.h. Each draw returns its value and the seed afterwards;
-- an argument of an `int` below 0 acts as 0. The other two generators are the standard library's.
pub mod Next
pub mod Draws
pub mod Library
mod Tests
use compaction_test.Base.{
  ℕ, zero, suc, ◌+◌, ◌-◌, ◌*◌, ◌%◌, ◌^◌, Bool, true, false, not, ltb, ◌==◌, if◌then◌else◌, u32,
  bit_and, ◌>>>◌, ◌<<<◌,
}

-- `M` and `A`.
abbrev pub modulus : ℕ
modulus = 2147483647

abbrev pub multiplier : ℕ
multiplier = 16807

unfoldable pub good_seed : ℕ → ℕ
good_seed s = if not (bit_and s modulus == 0) then bit_and s modulus else 1

unfoldable pub next : ℕ → ℕ
next seed =
    let product = seed * multiplier in
    let sum = u32 ((product >>> 31) + bit_and product modulus) in
    if ltb modulus sum then sum - modulus else sum

-- The seed after `n` calls of `Next`.
unfoldable pub next_times : ℕ → ℕ → ℕ
unfolding next
next_times zero seed = seed
next_times (suc n) seed = next (next_times n seed)

unfoldable pub uniform : ℕ → ℕ → ℕ × ℕ
unfolding next
uniform n seed = (next seed % n, next seed)

unfoldable pub one_in : ℕ → ℕ → Bool × ℕ
unfolding uniform
one_in n seed = let (value, after) = uniform n seed in (value == 0, after)

unfoldable pub one_in_opt : ℕ → ℕ → Bool × ℕ
unfolding one_in
one_in_opt n seed = if ltb 0 n then one_in n seed else (false, seed)

unfoldable pub percent_true : ℕ → ℕ → Bool × ℕ
unfolding uniform
percent_true percentage seed =
    let (value, after) = uniform 100 seed in (ltb value percentage, after)

unfoldable pub skewed : ℕ → ℕ → ℕ × ℕ
unfolding uniform
skewed max_log seed = let (bits, after) = uniform (max_log + 1) seed in uniform (1 <<< bits) after
