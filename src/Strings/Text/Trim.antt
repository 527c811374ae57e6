-- ===== src/Strings/Text/Trim.antt =====
-- What `trim` leaves.
use compaction_test.Base.{
  ℕ, zero, suc, ◌+◌, ◌-◌, ◌≤◌, ◌<◌, ◌⊎◌, inl, inr, Bool, true, false, leb, ◌==◌, Bytes, length,
  take, drop, ◌≡◌, ap, ◌∙◌, arith,
}
use compaction_test.Strings.Text.{is_space_at, skip_front, skip_back, trim}

module _ (is_space : ℕ → Bool) where
  skip_front_lem :
      (n left start stop : ℕ) (str : Bytes)
      → start + n ≡ stop
      → n ≤ left
      → ((i : ℕ) → start ≤ i → i < stop → is_space_at is_space str i ≡ true)
      → (is_space_at is_space str stop ≡ false) ⊎ (left ≡ n)
      → skip_front is_space left start str ≡ stop
  unfolding skip_front
  skip_front_lem zero zero start stop str e le all ends = omega arith
  skip_front_lem zero (suc left) start stop str e le all (inr same) = absurd (omega arith)
  skip_front_lem zero (suc left) start stop str e le all (inl other) =
      let here : start ≡ stop = omega arith in
      let stays : is_space_at is_space str start ≡ false =
        ap (is_space_at is_space str) here ∙ other in
      simp stays here
  skip_front_lem (suc n) zero start stop str e le all ends = absurd (omega arith)
  skip_front_lem (suc n) (suc left) start stop str e le all ends =
      let goes = all start (omega arith) (omega arith) in
      simp goes (
        skip_front_lem n left (suc start) stop str (omega arith) (omega arith)
          (λ i h k. all i (omega arith) k)
          (elim ends [ inl other ↦ inl other | inr same ↦ inr (omega (arith, same)) ]))

  skip_back_lem :
      (n left end stop : ℕ) (str : Bytes)
      → stop + n ≡ end
      → n ≤ left
      → ((i : ℕ) → stop < i → i ≤ end → is_space_at is_space str i ≡ true)
      → (is_space_at is_space str stop ≡ false) ⊎ (left ≡ n)
      → skip_back is_space left end str ≡ stop
  unfolding skip_back
  skip_back_lem zero zero end stop str e le all ends = omega arith
  skip_back_lem zero (suc left) end stop str e le all (inr same) = absurd (omega arith)
  skip_back_lem zero (suc left) end stop str e le all (inl other) =
      let here : end ≡ stop = omega arith in
      let stays : is_space_at is_space str end ≡ false =
        ap (is_space_at is_space str) here ∙ other in
      simp stays here
  skip_back_lem (suc n) zero end stop str e le all ends = absurd (omega arith)
  skip_back_lem (suc n) (suc left) end stop str e le all ends =
      let goes = all end (omega arith) (omega arith) in
      simp goes (
        skip_back_lem n left (end - 1) stop str (omega arith) (omega arith)
          (λ i h k. all i h (omega arith))
          (elim ends [ inl other ↦ inl other | inr same ↦ inr (omega (arith, same)) ]))

  -- When all before the place `a` and all behind the place `b` are spaces, and there is none at `a`
  -- and at `b`, `trim` gives the text from `a` to `b`. Of a text that is spaces only, where `a` and
  -- `b` are its last place, it gives the last space.
  pub trim_lem :
      (str : Bytes) (a b : ℕ)
      → a ≤ b
      → b < length str
      → ((i : ℕ) → i < a → is_space_at is_space str i ≡ true)
      → ((i : ℕ) → b < i → i < length str → is_space_at is_space str i ≡ true)
      → ((is_space_at is_space str a ≡ false) × (is_space_at is_space str b ≡ false))
        ⊎ ((a ≡ b) × (suc b ≡ length str))
      → trim is_space str ≡ take (b - a + 1) (drop a str)
  unfolding trim
  trim_lem str a b le inside before behind ends =
      let last = length str - 1 in
      let front : skip_front is_space last 0 str ≡ a =
        skip_front_lem a last 0 a str (omega arith) (omega arith) (λ i h k. before i k)
          (elim ends [ inl (x, y) ↦ inl x | inr (x, y) ↦ inr (omega (arith, x, y)) ]) in
      let back : skip_back is_space (last - a) last str ≡ b =
        skip_back_lem (last - b) (last - a) last b str (omega arith) (omega arith)
          (λ i h k. behind i h (omega arith))
          (elim ends [ inl (x, y) ↦ inl y | inr (x, y) ↦ inr (omega (arith, x, y)) ]) in
      let some_text : (length str == 0) ≡ false = ground arith in
      let order : leb a b ≡ true = ground arith in simp (some_text, front, back, order)
