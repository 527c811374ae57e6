-- ===== src/Strings/Parse.antt =====
-- utils/string_util.cc: numbers with a unit, and vectors of numbers. Signed numbers are words of
-- their width in two's complement. The functions of the standard library that read a number give it
-- with the place where they stopped.
pub mod Units
pub mod Vector
mod Tests
use compaction_test.Base.{
  ℕ, zero, suc, ◌+◌, ◌-◌, ◌*◌, ◌%◌, ◌^◌, Option, none, some, List, [], ◌∷◌, ◌++◌, Bool, true, false,
  ◌&&◌, ◌||◌, ltb, leb, ◌==◌, if◌then◌else◌, Bytes, length, drop, get_elem?, ◌<<<◌, ◌>>>◌, u32, u64,
}

-- A value, or what is thrown.
pub data Parsed {ℓ} (A : Type ℓ) : Type ℓ where
  parsed : A → Parsed A
  invalid_argument out_of_range : Parsed A

abbrev pub and_then {ℓ ℓ'} : {A : Type ℓ} {B : Type ℓ'} → Parsed A → (A → Parsed B) → Parsed B
and_then (parsed a) f = f a
and_then invalid_argument f = invalid_argument
and_then out_of_range f = out_of_range

abbrev pub same_text : Bytes → Bytes → Bool
same_text [] [] = true
same_text [] (y ∷ ys) = false
same_text (x ∷ xs) [] = false
same_text (x ∷ xs) (y ∷ ys) = x == y && same_text xs ys

abbrev pub true_text : Bytes
true_text = b't' ∷ b'r' ∷ b'u' ∷ b'e' ∷ []

abbrev pub false_text : Bytes
false_text = b'f' ∷ b'a' ∷ b'l' ∷ b's' ∷ b'e' ∷ []

unfoldable pub parse_boolean : Bytes → Parsed Bool
parse_boolean value =
    if same_text value true_text || same_text value (b'1' ∷ [])
    then parsed true
    else if same_text value false_text || same_text value (b'0' ∷ [])
    then parsed false
    else invalid_argument

-- The shift for a unit; only the wider numbers know the last one.
abbrev pub unit_shift : Bool → ℕ → ℕ
unit_shift wide c =
    if c == b'k' || c == b'K'
    then 10
    else if c == b'm' || c == b'M'
    then 20
    else if c == b'g' || c == b'G'
    then 30
    else if wide && (c == b't' || c == b'T')
    then 40
    else 0

-- The number, shifted by the character behind it, and cut to its width.
unfoldable pub with_unit : Bool → ℕ → Bytes → ℕ × ℕ → ℕ
with_unit wide bits value (num, endchar) = elim (get_elem? value endchar) [
  | none ↦ num
  | some c ↦ (num <<< unit_shift wide c) % 2 ^ bits
]

unfoldable pub parse_uint64 : (Bytes → Parsed (ℕ × ℕ)) → Bytes → Parsed ℕ
unfolding with_unit
parse_uint64 stoull value = and_then (stoull value) (λ r. parsed (with_unit true 64 value r))

unfoldable pub parse_int64 : (Bytes → Parsed (ℕ × ℕ)) → Bytes → Parsed ℕ
unfolding with_unit
parse_int64 stoll value = and_then (stoll value) (λ r. parsed (with_unit true 64 value r))

unfoldable pub parse_int : (Bytes → Parsed (ℕ × ℕ)) → Bytes → Parsed ℕ
unfolding with_unit
parse_int stoi value = and_then (stoi value) (λ r. parsed (with_unit false 32 value r))

unfoldable pub parse_uint32 : (Bytes → Parsed (ℕ × ℕ)) → Bytes → Parsed ℕ
unfolding parse_uint64
parse_uint32 stoull value =
    and_then (parse_uint64 stoull value)
      (λ num. if num >>> 32 == 0 then parsed (u32 num) else out_of_range)

-- `kMinInt32 <= num && num <= kMaxInt32`, on words of 64 bits.
abbrev pub fits_int32 : ℕ → Bool
fits_int32 num = ltb num (2 ^ 31) || leb (2 ^ 64 - 2 ^ 31) num

unfoldable pub parse_int32 : (Bytes → Parsed (ℕ × ℕ)) → Bytes → Parsed ℕ
unfolding parse_int64
parse_int32 stoll value =
    and_then (parse_int64 stoll value)
      (λ num. if fits_int32 num then parsed (u32 num) else out_of_range)

unfoldable pub parse_size_t : (Bytes → Parsed (ℕ × ℕ)) → Bytes → Parsed ℕ
unfolding parse_uint64
parse_size_t stoull value = parse_uint64 stoull value

-- The text before the first colon, and what is behind it.
unfoldable pub at_colon : Bytes → Bytes × Option Bytes
at_colon [] = ([], none)
at_colon (c ∷ rest) =
    let (item, behind) = at_colon rest in if c == b':' then ([], some rest) else (c ∷ item, behind)

-- The loop, with the text from `start` on; every round takes a character at least.
unfoldable pub vector_loop : (Bytes → Parsed (ℕ × ℕ)) → ℕ → Bytes → List ℕ → Parsed (List ℕ)
unfolding at_colon parse_int
vector_loop stoi zero value result = parsed result
vector_loop stoi (suc fuel) [] result = parsed result
vector_loop stoi (suc fuel) (c ∷ cs) result =
    let found = at_colon (c ∷ cs) in
    and_then (parse_int stoi found.0) (λ num. elim found.1 [
      | none ↦ parsed (result ++ (num ∷ []))
      | some rest ↦ vector_loop stoi fuel rest (result ++ (num ∷ []))
    ])

unfoldable pub parse_vector_int : (Bytes → Parsed (ℕ × ℕ)) → Bytes → Parsed (List ℕ)
unfolding vector_loop
parse_vector_int stoi value = vector_loop stoi (length value) value []

-- The loop over the elements but the first one.
unfoldable pub serialize_rest : (ℕ → Bytes) → List ℕ → Bytes → Bytes
serialize_rest to_text [] value = value
serialize_rest to_text (x ∷ vec) value =
    serialize_rest to_text vec (value ++ (b':' ∷ []) ++ to_text x)

unfoldable pub serialize_int_vector : (ℕ → Bytes) → List ℕ → Bytes
unfolding serialize_rest
serialize_int_vector to_text [] = []
serialize_int_vector to_text (x ∷ vec) = serialize_rest to_text vec (to_text x)
