-- ===== src/Random/Library.antt =====
-- `Random32`, `Random64` and `RandomShuffle` of include/random.h, over the generators of the standard
-- library, which are parameters: a state, the number that it gives, the state of a seed, and a draw
-- of `std::uniform_int_distribution` between two bounds.
use native.Mathlib.Nat.{mod-eq_of_lt}
use compaction_test.Base.{
  ℕ, suc, ◌+◌, ◌-◌, ◌*◌, ◌^◌, ◌<◌, ◌≤◌, Bool, ◌==◌, List, u32, u64, ◌<<<◌, ◌>>>◌, ◌≡◌, ap, ◌∙◌,
  arith,
}
use compaction_test.Random.Draws.{one-le-two-pow, two-pow-le}

module _ (Generator : Type 0) (draw : Generator → ℕ × Generator)
    (distribute : ℕ → ℕ → Generator → ℕ × Generator) where
  -- `Random32`.
  unfoldable pub next32 : Generator → ℕ × Generator
  next32 s = (u32 (draw s).0, (draw s).1)

  unfoldable pub uniform32 : ℕ → Generator → ℕ × Generator
  uniform32 n s = let drawn = distribute 0 (u32 (n + 2 ^ 32 - 1)) s in (u32 drawn.0, drawn.1)

  unfoldable pub uniformish32 : ℕ → Generator → ℕ × Generator
  uniformish32 n s = (u32 (u64 ((draw s).0 * n) >>> 32), (draw s).1)

  unfoldable pub one_in32 : ℕ → Generator → Bool × Generator
  unfolding uniform32
  one_in32 n s = let drawn = uniform32 n s in (drawn.0 == 0, drawn.1)

  unfoldable pub skewed32 : ℕ → Generator → ℕ × Generator
  skewed32 max_log s = let bits = uniform32 (max_log + 1) s in uniform32 (u32 (1 <<< bits.0)) bits.1

  -- `Random64`.
  unfoldable pub next64 : Generator → ℕ × Generator
  next64 s = draw s

  unfoldable pub uniform64 : ℕ → Generator → ℕ × Generator
  uniform64 n s = distribute 0 (u64 (n + 2 ^ 64 - 1)) s

  unfoldable pub one_in64 : ℕ → Generator → Bool × Generator
  unfolding uniform64
  one_in64 n s = let drawn = uniform64 n s in (drawn.0 == 0, drawn.1)

  unfoldable pub skewed64 : ℕ → Generator → ℕ × Generator
  skewed64 max_log s = let bits = uniform64 (max_log + 1) s in uniform64 (u64 (1 <<< bits.0)) bits.1

  module _
      (within : (low high : ℕ) (s : Generator)
        → low ≤ high
        → (distribute low high s).0 ≤ high) where
    uniform32-lt : (n : ℕ) (s : Generator) → 1 ≤ n → n < 2 ^ 32 → (uniform32 n s).0 < n
    unfolding uniform32
    uniform32-lt n s one h =
        let high : u32 (n + 2 ^ 32 - 1) ≡ n - 1 = omega arith in
        let drawn = within 0 (u32 (n + 2 ^ 32 - 1)) s (omega arith) in omega arith

    uniformish32-lt :
        (n : ℕ) (s : Generator)
        → (draw s).0 < 2 ^ 32
        → 1 ≤ n
        → n < 2 ^ 32
        → (uniformish32 n s).0 < n
    unfolding uniformish32
    uniformish32-lt n s below one h =
        let d = (draw s).0 in
        let product : d * n < 2 ^ 32 * n =
          let step : suc d * n ≤ 2 ^ 32 * n = grind arith in
          let row : suc d * n ≡ n + d * n = grind arith in omega arith in
        omega arith

    uniform64-lt : (n : ℕ) (s : Generator) → 1 ≤ n → n < 2 ^ 64 → (uniform64 n s).0 < n
    unfolding uniform64
    uniform64-lt n s one h =
        let high : u64 (n + 2 ^ 64 - 1) ≡ n - 1 = omega arith in
        let drawn = within 0 (u64 (n + 2 ^ 64 - 1)) s (omega arith) in omega arith

    skewed32-lt :
        (max_log : ℕ) (s : Generator) → max_log < 32 → (skewed32 max_log s).0 < 2 ^ max_log
    unfolding skewed32
    skewed32-lt max_log s h =
        let bits = (uniform32 (max_log + 1) s).0 in
        let rest = (uniform32 (max_log + 1) s).1 in
        let few = uniform32-lt (max_log + 1) s (omega arith) (omega arith) in
        let most = two-pow-le bits max_log (omega arith) in
        let top = two-pow-le max_log 31 (omega arith) in
        let value = uniform32-lt (2 ^ bits) rest (one-le-two-pow bits) (omega arith) in
        let shifted : u32 (1 <<< bits) ≡ 2 ^ bits = mod-eq_of_lt (omega arith) ∙ omega arith in
        let drawn = ap (λ k. (uniform32 k rest).0) shifted in omega arith

    skewed64-lt :
        (max_log : ℕ) (s : Generator) → max_log < 64 → (skewed64 max_log s).0 < 2 ^ max_log
    unfolding skewed64
    skewed64-lt max_log s h =
        let bits = (uniform64 (max_log + 1) s).0 in
        let rest = (uniform64 (max_log + 1) s).1 in
        let few = uniform64-lt (max_log + 1) s (omega arith) (omega arith) in
        let most = two-pow-le bits max_log (omega arith) in
        let top = two-pow-le max_log 63 (omega arith) in
        let value = uniform64-lt (2 ^ bits) rest (one-le-two-pow bits) (omega arith) in
        let shifted : u64 (1 <<< bits) ≡ 2 ^ bits = mod-eq_of_lt (omega arith) ∙ omega arith in
        let drawn = ap (λ k. (uniform64 k rest).0) shifted in omega arith

    -- Where a draw of the library lies between its bounds and the numbers of `Random32` fit 32 bits: the draws of both
    -- classes below a bound of one or more lie below it, the quick one too, and a skewed draw lies
    -- below its power of two, as far as the shift fits the word.
    pub draws-lt :
        (n max_log : ℕ) (s : Generator)
        → (draw s).0 < 2 ^ 32
        → 1 ≤ n
        → n < 2 ^ 32
        → max_log < 32
        → ((uniform32 n s).0 < n)
          × ((uniformish32 n s).0 < n)
          × ((skewed32 max_log s).0 < 2 ^ max_log)
          × ((uniform64 n s).0 < n)
          × ((skewed64 max_log s).0 < 2 ^ max_log)
    draws-lt n max_log s small one h few = (
      uniform32-lt n s one h,
      uniformish32-lt n s small one h,
      skewed32-lt max_log s few,
      uniform64-lt n s one (omega arith),
      skewed64-lt max_log s (omega arith),
    )

-- `Random32::Seed`, with the generator of each seed.
module _ (Generator : Type 0) (seeded : ℕ → Generator) where
  unfoldable pub seed32 : Generator → ℕ → Generator
  seed32 s new_seed = seeded new_seed

-- `RandomShuffle` with a seed, and with a seed of `std::random_device`: `seeded` is the generator of
-- a seed, and `shuffle` is `std::shuffle`.
module _ {ℓ} (Generator : Type 0) (seeded : ℕ → Generator) {A : Type ℓ}
    (shuffle : Generator → List A → List A) where
  unfoldable pub random_shuffle : List A → ℕ → List A
  random_shuffle items seed = shuffle (seeded seed) items

  unfoldable pub random_shuffle_any : List A → (random_device : ℕ) → List A
  unfolding random_shuffle
  random_shuffle_any items random_device = random_shuffle items random_device
