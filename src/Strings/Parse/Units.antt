-- ===== src/Strings/Parse/Units.antt =====
-- Numbers with a unit behind them.
use native.Mathlib.Nat.{mod-eq_of_lt}
use compaction_test.Base.{
  ℕ, ◌*◌, ◌/◌, ◌%◌, ◌^◌, ◌<◌, Option, none, some, [], ◌∷◌, ◌++◌, Bool, true, ltb, ◌==◌,
  if◌then◌else◌, Bytes, length, get_elem?, ◌<<<◌, ◌>>>◌, Bool-cases, inl, inr, ◌⊎◌, ◌≡◌, refl, ap,
  ◌∙◌, arith,
}
use compaction_test.Strings.Parse.{
  Parsed, parsed, out_of_range, and_then, unit_shift, with_unit, parse_uint64, parse_uint32,
}

get_elem?-append :
    (front rest : Bytes) (c : ℕ) → get_elem? (front ++ (c ∷ rest)) (length front) ≡ some c
get_elem?-append [] rest c = refl
get_elem?-append (x ∷ front) rest c = get_elem?-append front rest c

with_unit_lem :
    (wide : Bool) (bits : ℕ) (front rest : Bytes) (c num : ℕ)
    → with_unit wide bits (front ++ (c ∷ rest)) (num, length front)
      ≡ (num * 2 ^ unit_shift wide c) % 2 ^ bits
unfolding with_unit
with_unit_lem wide bits front rest c num =
    ap
      (λ (found : Option ℕ). elim found [
        | none ↦ num
        | some c ↦ (num <<< unit_shift wide c) % 2 ^ bits
      ])
      (get_elem?-append front rest c)

narrow :
    (num : ℕ)
    → num < 2 ^ 64
    → ◌≡◌ {A = Parsed ℕ}
        (if num / 2 ^ 32 == 0 then parsed (num % 2 ^ 32) else out_of_range)
        (if ltb num (2 ^ 32) then parsed num else out_of_range)
narrow num h = elim (Bool-cases (ltb num (2 ^ 32))) [
  | inl e ↦ ground (arith, mod-eq_of_lt {n = num} {m = 2 ^ 32})
  | inr e ↦ ground arith
]

abbrev IsLetter : ℕ → ℕ → ℕ → Type 0
IsLetter lower upper c = (c ≡ lower) ⊎ (c ≡ upper)

-- What a letter behind a number multiplies it by.
abbrev pub IsFactor : ℕ → ℕ → Type 0
IsFactor c factor =
    (IsLetter b'k' b'K' c × (factor ≡ 1024))
    ⊎ (IsLetter b'm' b'M' c × (factor ≡ 1024 ^ 2))
    ⊎ (IsLetter b'g' b'G' c × (factor ≡ 1024 ^ 3))
    ⊎ (IsLetter b't' b'T' c × (factor ≡ 1024 ^ 4))
    ⊎ ((¬ IsLetter b'k' b'K' c)
        × (¬ IsLetter b'm' b'M' c)
        × (¬ IsLetter b'g' b'G' c)
        × (¬ IsLetter b't' b'T' c)
        × (factor ≡ 1))

unit_shift-IsFactor : (c : ℕ) → IsFactor c (2 ^ unit_shift true c)
unit_shift-IsFactor c = ground arith

-- A number that the library reads up to a character is multiplied by that character's factor, which
-- is 1024 for k, its square for m, its cube for g, its fourth power for t, in capitals too, and 1 for
-- any other character, and is cut to 64 bits without an error. `ParseUint32` gives the same value
-- when it fits 32 bits, and else throws `out_of_range`.
pub parse_unit_lem :
    (stoull : Bytes → Parsed (ℕ × ℕ)) (front rest : Bytes) (c num : ℕ)
    → stoull (front ++ (c ∷ rest)) ≡ parsed (num, length front)
    → (factor : ℕ) × IsFactor c factor
      × (parse_uint64 stoull (front ++ (c ∷ rest)) ≡ parsed (num * factor % 2 ^ 64))
      × (parse_uint32 stoull (front ++ (c ∷ rest)) ≡ (
          if ltb (num * factor % 2 ^ 64) (2 ^ 32)
          then parsed (num * factor % 2 ^ 64)
          else out_of_range))
unfolding parse_uint64 parse_uint32
parse_unit_lem stoull front rest c num h =
    let scaled = (num * 2 ^ unit_shift true c) % 2 ^ 64 in
    let wide : parse_uint64 stoull (front ++ (c ∷ rest)) ≡ parsed scaled =
      ap (λ r. and_then r (λ r. parsed (with_unit true 64 (front ++ (c ∷ rest)) r))) h
      ∙ ap parsed (with_unit_lem true 64 front rest c num) in
    (
      2 ^ unit_shift true c,
      unit_shift-IsFactor c,
      wide,
      ap (λ r. and_then r (λ num. if num >>> 32 == 0 then parsed (num % 2 ^ 32) else out_of_range))
            wide
          ∙ narrow scaled (omega arith),
    )
