-- ===== src/Random/Draws.antt =====
-- The ranges of the draws of include/random.h.
use compaction_test.Base.{ℕ, zero, suc, ◌+◌, ◌%◌, ◌^◌, ◌≤◌, ◌<◌, arith}
use native.Mathlib.Nat.{pow-suc, mod-lt}
use compaction_test.Random.{next, uniform, skewed}

-- The value drawn lies below `n`.
pub uniform-lt : (n seed : ℕ) → 1 ≤ n → (uniform n seed).0 < n
unfolding uniform
uniform-lt n seed h = mod-lt (next seed) h

pub one-le-two-pow : (k : ℕ) → 1 ≤ 2 ^ k
one-le-two-pow zero = omega arith
one-le-two-pow (suc k) = omega (arith, one-le-two-pow k, pow-suc 2 k)

pub two-pow-le : (k j : ℕ) → k ≤ j → 2 ^ k ≤ 2 ^ j
two-pow-le zero j h = one-le-two-pow j
two-pow-le (suc k) zero h = absurd (omega arith)
two-pow-le (suc k) (suc j) h = omega (arith, two-pow-le k j (omega arith), pow-suc 2 k, pow-suc 2 j)

-- `Skewed(max_log)` draws a number below 2 ^ max_log.
pub skewed-lt : (max_log seed : ℕ) → (skewed max_log seed).0 < 2 ^ max_log
unfolding skewed
skewed-lt max_log seed =
    let bits = next seed % (max_log + 1) in
    let few = mod-lt (next seed) {m = max_log + 1} (omega arith) in
    let value = mod-lt (next (next seed)) {m = 2 ^ bits} (one-le-two-pow bits) in
    let most = two-pow-le bits max_log (omega arith) in omega arith
