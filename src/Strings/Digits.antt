-- ===== src/Strings/Digits.antt =====
-- Numbers in decimal digits, as the library prints them for utils/string_util.cc and include/merger.cc.
use compaction_test.Base.{
  ℕ, zero, suc, ◌+◌, ◌-◌, ◌*◌, ◌/◌, ◌%◌, ◌^◌, ◌<◌, ◌≤◌, [], ◌∷◌, ◌++◌, true, ltb, if◌then◌else◌,
  Bytes, length, length-append, All, All-append, Bool-cases, inl, inr, replicate, ◌≡◌, refl, arith,
}
use compaction_test.Strings.{is_digit}
use compaction_test.Strings.Decimal.{value_from}

-- A number in decimal digits, as a stream prints it, on fuel.
unfoldable pub digits : ℕ → ℕ → Bytes
digits zero n = []
digits (suc fuel) n =
    let rest = digits fuel (n / 10) in
    if ltb n 10 then (b'0' + n) ∷ [] else rest ++ (b'0' + n % 10) ∷ []

pub value-append :
    (acc : ℕ) (s t : Bytes) → value_from acc (s ++ t) ≡ value_from (value_from acc s) t
value-append acc [] t = refl
value-append acc (c ∷ s) t = value-append (acc * 10 + (c - 48)) s t

pub value-zeros : (n : ℕ) (s : Bytes) → value_from 0 (replicate n 48 ++ s) ≡ value_from 0 s
value-zeros zero s = refl
value-zeros (suc n) s = value-zeros n s

pub value-digits : (fuel n : ℕ) → n < 10 ^ fuel → value_from 0 (digits fuel n) ≡ n
unfolding digits
value-digits zero n h = omega arith
value-digits (suc fuel) n h = ground (
  arith,
  value-append 0 (digits fuel (n / 10)) ((b'0' + n % 10) ∷ []),
  value-digits fuel (n / 10) (omega arith),
)

pub length-digits : (fuel n : ℕ) → length (digits fuel n) ≤ fuel
unfolding digits
length-digits zero n = omega arith
length-digits (suc fuel) n = ground (
  arith,
  length-digits fuel (n / 10),
  length-append (digits fuel (n / 10)) ((b'0' + n % 10) ∷ []),
)

pub digits-are : (fuel n : ℕ) → All (λ c. is_digit c ≡ true) (digits fuel n)
unfolding digits
digits-are zero n = tt
digits-are (suc fuel) n = elim (Bool-cases (ltb n 10)) [
  | inl e ↦ simp e (ground (arith, e), tt)
  | inr e ↦ simp e (
      All-append _ (digits fuel (n / 10)) ((b'0' + n % 10) ∷ []) (digits-are fuel (n / 10))
        (ground arith, tt))
]

pub length-digits_pos : (fuel n : ℕ) → 1 ≤ length (digits (suc fuel) n)
unfolding digits
length-digits_pos fuel n =
    ground (arith, length-append (digits fuel (n / 10)) ((b'0' + n % 10) ∷ []))
