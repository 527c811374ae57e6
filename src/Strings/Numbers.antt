-- ===== src/Strings/Numbers.antt =====
-- Numbers printed by utils/string_util.cc. `snprintf` of the library prints decimal digits.
use compaction_test.Base.{
  ℕ, zero, suc, ◌+◌, ◌/◌, ◌%◌, ◌^◌, ◌<◌, ◌≤◌, some, [], ◌∷◌, ◌++◌, Bool, true, ltb, if◌then◌else◌,
  Bytes, length, length-append, Bool-cases, inl, inr, ◌≡◌, ◌∙◌, arith,
}
use native.Mathlib.Nat.{pow-suc}
use compaction_test.Strings.{consume_decimal_number}
use compaction_test.Strings.Decimal.{NoDigit, value_from, loop_fits}
use compaction_test.Strings.Digits.{digits, value-digits, digits-are, length-digits_pos}

-- A number of 64 bits has no more than twenty digits.
unfoldable pub append_number_to : Bytes → ℕ → Bytes
append_number_to str num = str ++ digits 20 num

unfoldable pub number_to_string : ℕ → Bytes
unfolding append_number_to
number_to_string num = append_number_to [] num

found_lem : (n : ℕ) → 1 ≤ n → ltb 0 (0 + n) ≡ true
found_lem n h = ground arith

-- A number that is printed is read again by `ConsumeDecimalNumber`, which leaves what follows it, if
-- that does not begin with a digit.
pub consume_decimal_number-number_to_string :
    (num : ℕ) (rest : Bytes)
    → num < 2 ^ 64
    → NoDigit rest
    → consume_decimal_number (number_to_string num ++ rest)
      ≡ record { returned = true; val = some num; left = rest }
unfolding consume_decimal_number number_to_string append_number_to
consume_decimal_number-number_to_string num rest h n =
    let text = digits 20 num in
    let number : value_from 0 text ≡ num = value-digits 20 num (omega arith) in
    let found : ltb 0 (0 + length text) ≡ true =
      found_lem (length text) (length-digits_pos 19 num) in
    let small : value_from 0 text < 2 ^ 64 = omega (arith, number) in
    loop_fits text rest 0 0 (digits-are 20 num) n (small)
    ∙ (λ i. record { returned = found i; val = some (number i); left = rest })

-- A signed number: whether it is below 0, and its distance from 0. Division cuts towards 0.
unfoldable pub print_signed : Bool → ℕ → Bytes
print_signed below n =
    if below then (if ltb 0 n then b'-' ∷ digits 20 n else digits 20 n) else digits 20 n

unfoldable pub number_to_human_string : Bool → ℕ → Bytes
number_to_human_string below absnum =
    if ltb absnum 10000
    then print_signed below absnum
    else if ltb absnum 10000000
    then print_signed below (absnum / 1000) ++ b'K' ∷ []
    else if ltb absnum 10000000000
    then print_signed below (absnum / 1000000) ++ b'M' ∷ []
    else print_signed below (absnum / 1000000000) ++ b'G' ∷ []

length-digits_lt : (k fuel n : ℕ) → 1 ≤ k → n < 10 ^ k → length (digits fuel n) ≤ k
unfolding digits
length-digits_lt k zero n one h = omega arith
length-digits_lt zero (suc fuel) n one h = absurd (omega arith)
length-digits_lt (suc zero) (suc fuel) n one h = ground arith
length-digits_lt (suc (suc k)) (suc fuel) n one h = ground (
  arith,
  length-append (digits fuel (n / 10)) ((b'0' + n % 10) ∷ []),
  length-digits_lt (suc k) fuel (n / 10) (omega arith) (omega (arith, pow-suc 10 (suc k))),
)

length-print_signed :
    (k : ℕ) (below : Bool) (n : ℕ) → 1 ≤ k → n < 10 ^ k → length (print_signed below n) ≤ k + 1
unfolding print_signed
length-print_signed k below n one h = ground (arith, length-digits_lt k 20 n one h)

unit_fits : (below : Bool) (n c : ℕ) → n < 10 ^ 10 → length (print_signed below n ++ c ∷ []) ≤ 12
unit_fits below n c h = omega (
  arith,
  length-append (print_signed below n) (c ∷ []),
  length-print_signed 10 below n (omega arith) h,
)

-- The text of every number of 64 bits with a sign, but for the least one, has 12 characters at most, so none is cut by the
-- buffer of 19 bytes.
pub length-number_to_human_string :
    (below : Bool) (absnum : ℕ)
    → absnum < 2 ^ 63
    → length (number_to_human_string below absnum) ≤ 12
unfolding number_to_human_string
length-number_to_human_string below absnum h = elim (Bool-cases (ltb absnum 10000)) [
  | inl a ↦
      simp a (omega (arith, length-print_signed 4 below absnum (omega arith) (ground (arith, a))))
  | inr a ↦ elim (Bool-cases (ltb absnum 10000000)) [
    | inl b ↦ simp (a, b) (unit_fits below (absnum / 1000) b'K' (ground (arith, b)))
    | inr b ↦ elim (Bool-cases (ltb absnum 10000000000)) [
      | inl d ↦ simp (a, b, d) (unit_fits below (absnum / 1000000) b'M' (ground (arith, d)))
      | inr d ↦ simp (a, b, d) (unit_fits below (absnum / 1000000000) b'G' (omega arith))
    ]
  ]
]
