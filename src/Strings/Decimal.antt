-- ===== src/Strings/Decimal.antt =====
-- `ConsumeDecimalNumber` of utils/string_util.cc, and the number that digits stand for.
use compaction_test.Base.{
  ℕ, ◌+◌, ◌-◌, ◌*◌, ◌^◌, ◌≤◌, ◌<◌, none, some, [], ◌∷◌, ◌++◌, true, false, ltb, leb, if◌then◌else◌,
  Bytes, All, length, ◌≡◌, refl, arith, ◌&&◌, Bool-cases, inl, inr,
}
use compaction_test.Strings.{is_digit, consume_loop, consume_decimal_number}

-- The number that the digits stand for after `v`.
abbrev pub value_from : ℕ → Bytes → ℕ
value_from v [] = v
value_from v (c ∷ cs) = value_from (v * 10 + (c - 48)) cs

value_from-le : (cs : Bytes) (v : ℕ) → v ≤ value_from v cs
value_from-le [] v = omega arith
value_from-le (c ∷ cs) v = omega (arith, value_from-le cs (v * 10 + (c - 48)))

-- What follows the digits.
abbrev pub NoDigit : Bytes → Type 0
NoDigit [] = Unit
NoDigit (c ∷ cs) = is_digit c ≡ false

pub loop_fits :
    (cs rest : Bytes) (v digits : ℕ)
    → All (λ c. is_digit c ≡ true) cs
    → NoDigit rest
    → value_from v cs < 2 ^ 64
    → consume_loop (cs ++ rest) v digits
      ≡ record { returned = ltb 0 (digits + length cs); val = some (value_from v cs); left = rest }
unfolding consume_loop
loop_fits [] [] v digits h n b = ground arith
loop_fits [] (c ∷ rest) v digits h n b = ground arith
loop_fits (c ∷ cs) rest v digits (hc, h) n b = ground (
  arith,
  value_from-le cs (v * 10 + (c - 48)),
  loop_fits cs rest (v * 10 + (c - 48)) (digits + 1) h n b,
)

loop_overflows :
    (cs rest : Bytes) (v digits : ℕ)
    → All (λ c. is_digit c ≡ true) cs
    → v < 2 ^ 64
    → 2 ^ 64 ≤ value_from v cs
    → ((consume_loop (cs ++ rest) v digits).returned ≡ false)
      × ((consume_loop (cs ++ rest) v digits).val ≡ none)
unfolding consume_loop
loop_overflows [] rest v digits h s b = absurd (omega arith)
loop_overflows (c ∷ cs) rest v digits (hc, h) s b =
    let next = v * 10 + (c - 48) in
    elim (Bool-cases (leb (2 ^ 64) next)) [
      | inl e ↦ ground arith
      | inr e ↦ ground (arith, loop_overflows cs rest next (digits + 1) h (ground arith) b)
    ]

-- On digits followed by something that does not begin with a digit: if their number fits a
-- `uint64_t`, it is stored, what follows is left, and the result is true if there is a digit; else
-- nothing is stored and the result is false.
pub consume_decimal_number_lem :
    (cs rest : Bytes)
    → All (λ c. is_digit c ≡ true) cs
    → NoDigit rest
    → let out = consume_decimal_number (cs ++ rest) in
      let fits = ltb (value_from 0 cs) (2 ^ 64) in
      (out.returned ≡ (ltb 0 (length cs) && fits))
      × (out.val ≡ (if fits then some (value_from 0 cs) else none))
      × ((if fits then out.left else rest) ≡ rest)
unfolding consume_decimal_number
consume_decimal_number_lem cs rest h n = elim (Bool-cases (ltb (value_from 0 cs) (2 ^ 64))) [
  | inl e ↦
      let whole = loop_fits cs rest 0 0 h n (ground arith) in
      simp (e, whole) (ground arith, refl, refl)
  | inr e ↦
      let (returned, val) = loop_overflows cs rest 0 0 h (omega arith) (ground arith) in
      simp (e, returned, val) (ground arith, refl, refl)
]
