-- ===== src/Strings/Parse/Tests.antt =====
-- The theorems on numbers at concrete texts. `std::to_string` writes decimal digits with a sign, and
-- `std::stoi` reads them behind spaces, and throws what is no number and what fits no `int`.
use compaction_test.Base.{
  ℕ, suc, ◌+◌, ◌-◌, ◌*◌, ◌%◌, ◌^◌, ◌<◌, ◌≤◌, [], ◌∷◌, Bool, true, false, ltb, leb, ◌==◌, ◌&&◌, ◌||◌,
  if◌then◌else◌, All, Bytes, length, Bool-cases, inl, inr, ◌≡◌, refl, ap, ◌∙◌, arith,
}
use compaction_test.Strings.{is_digit}
use compaction_test.Strings.Decimal.{value_from}
use compaction_test.Strings.Digits.{digits, value-digits, digits-are, length-digits_pos}
use compaction_test.Merger.FileNames.{print_int}
use compaction_test.Strings.Parse.{
  Parsed, parsed, out_of_range, invalid_argument, parse_uint64, parse_uint32, parse_vector_int,
  serialize_int_vector,
}
use compaction_test.Strings.Parse.Units.{IsFactor, parse_unit_lem}
use compaction_test.Strings.Parse.Vector.{NoColon, parse-serialize}

-- The number of the digits at the front, behind the value `v`, and how many they are.
abbrev number_from : ℕ → Bytes → ℕ × ℕ
number_from v [] = (v, 0)
number_from v (c ∷ cs) =
    let (w, n) = number_from (v * 10 + (c - b'0')) cs in if is_digit c then (w, suc n) else (v, 0)

-- What is found behind a sign, after so many characters.
abbrev found : Bool → ℕ → ℕ × ℕ → Parsed (ℕ × ℕ)
found below k (v, n) =
    if n == 0
    then invalid_argument
    else if below
    then (if leb v (2 ^ 31) then parsed ((2 ^ 32 - v) % 2 ^ 32, k + n) else out_of_range)
    else (if ltb v (2 ^ 31) then parsed (v, k + n) else out_of_range)

abbrev stoi_from : ℕ → Bytes → Parsed (ℕ × ℕ)
stoi_from k [] = invalid_argument
stoi_from k (c ∷ s) =
    let rest = stoi_from (suc k) s in
    if c == 32 || leb 9 c && leb c 13
    then rest
    else if c == b'-'
    then found true (suc k) (number_from 0 s)
    else if c == b'+'
    then found false (suc k) (number_from 0 s)
    else found false k (number_from 0 (c ∷ s))

abbrev stoi : Bytes → Parsed (ℕ × ℕ)
stoi = stoi_from 0

number_from-digits :
    (v : ℕ) (s : Bytes)
    → All (λ c. is_digit c ≡ true) s
    → number_from v s ≡ (value_from v s, length s)
number_from-digits v [] h = refl
number_from-digits v (c ∷ s) (hc, h) = ground (arith, number_from-digits (v * 10 + (c - b'0')) s h)

stoi-digits :
    (s : Bytes)
    → All (λ c. is_digit c ≡ true) s
    → 1 ≤ length s
    → stoi s ≡ found false 0 (number_from 0 s)
stoi-digits [] h n = absurd (omega arith)
stoi-digits (c ∷ s) (hc, h) n = ground (arith, hc)

found_positive : (v n : ℕ) → v < 2 ^ 31 → 1 ≤ n → found false 0 (v, n) ≡ parsed (v, n)
found_positive v n h k = ground arith

found_negative :
    (x n : ℕ) → 2 ^ 31 ≤ x → x < 2 ^ 32 → 1 ≤ n → found true 1 (2 ^ 32 - x, n) ≡ parsed (x, suc n)
found_negative x n l h k =
    let back : (2 ^ 32 - (2 ^ 32 - x)) % 2 ^ 32 ≡ x = omega arith in
    let low : leb (2 ^ 32 - x) (2 ^ 31) ≡ true = ground arith in
    let some_digits : (n == 0) ≡ false = ground arith in
    simp (some_digits, low, back) (ap (λ k. parsed (x, k)) (omega arith))

text_number : (n : ℕ) → n ≤ 2 ^ 31 → number_from 0 (digits 10 n) ≡ (n, length (digits 10 n))
text_number n h =
    number_from-digits 0 (digits 10 n) (digits-are 10 n)
    ∙ (λ i. (value-digits 10 n (omega arith) i, length (digits 10 n)))

reads : (x : ℕ) → x < 2 ^ 32 → stoi (print_int x) ≡ parsed (x, length (print_int x))
unfolding print_int
reads x h = elim (Bool-cases (ltb x (2 ^ 31))) [
  | inl e ↦ simp e (
      stoi-digits (digits 10 x) (digits-are 10 x) (length-digits_pos 9 x)
      ∙ ap (found false 0) (text_number x (ground (arith, e)))
      ∙ found_positive x (length (digits 10 x)) (ground (arith, e)) (length-digits_pos 9 x))
  | inr e ↦ simp e (
      ap (found true 1) (text_number (2 ^ 32 - x) (ground (arith, e)))
      ∙ found_negative x (length (digits 10 (2 ^ 32 - x))) (ground (arith, e)) h
          (length-digits_pos 9 (2 ^ 32 - x)))
]

apart : (s : Bytes) → All (λ c. is_digit c ≡ true) s → NoColon s
apart [] h = tt
apart (c ∷ s) (hc, h) = ((λ e. ground (arith, hc, e)), apart s h)

plain : (x : ℕ) → x < 2 ^ 32 → NoColon (print_int x)
unfolding print_int
plain x h = elim (Bool-cases (ltb x (2 ^ 31))) [
  | inl e ↦ simp e (apart (digits 10 x) (digits-are 10 x))
  | inr e ↦ simp e (
    (λ e. absurd (omega (arith, e))),
    apart (digits 10 (2 ^ 32 - x)) (digits-are 10 (2 ^ 32 - x)),
  )
]

not_empty : (x : ℕ) → x < 2 ^ 32 → 0 < length (print_int x)
unfolding print_int
not_empty x h = ground (arith, length-digits_pos 9 x)

three_k : stoi (b'3' ∷ b'k' ∷ []) ≡ parsed (3, 1)
three_k = refl

parse_unit_lem_example :
    (factor : ℕ) × IsFactor b'k' factor
    × (parse_uint64 stoi (b'3' ∷ b'k' ∷ []) ≡ parsed (3 * factor % 2 ^ 64))
    × (parse_uint32 stoi (b'3' ∷ b'k' ∷ []) ≡ (
        if ltb (3 * factor % 2 ^ 64) (2 ^ 32) then parsed (3 * factor % 2 ^ 64) else out_of_range))
parse_unit_lem_example = parse_unit_lem stoi (b'3' ∷ []) [] b'k' 3 three_k

-- The last element is -3.
parse-serialize_example :
    parse_vector_int stoi (serialize_int_vector print_int (4 ∷ 0 ∷ 4294967293 ∷ []))
    ≡ parsed (4 ∷ 0 ∷ 4294967293 ∷ [])
parse-serialize_example =
    parse-serialize stoi print_int reads plain not_empty (4 ∷ 0 ∷ 4294967293 ∷ [])
      (omega arith, (omega arith, (omega arith, tt)))
