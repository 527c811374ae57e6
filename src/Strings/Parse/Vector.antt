-- ===== src/Strings/Parse/Vector.antt =====
-- Vectors of numbers, written and read back.
use compaction_test.Base.{
  ℕ, zero, suc, ◌≤◌, ◌<◌, ◌≢◌, ◌%◌, ◌^◌, ◌<<<◌, Option, none, some, List, [], ◌∷◌, ◌++◌,
  append_assoc, append-nil, false, ◌==◌, Bytes, All, length, length-append, get_elem?, ◌≡◌, refl,
  sym, ap, ◌∙◌, arith,
}
use compaction_test.Strings.Parse.{
  Parsed, parsed, and_then, unit_shift, with_unit, parse_int, at_colon, vector_loop,
  parse_vector_int, serialize_rest, serialize_int_vector,
}

-- A text without a colon.
abbrev pub NoColon : Bytes → Type 0
NoColon = All (λ c. c ≢ b':')

at_colon-item :
    (item rest : Bytes) → NoColon item → at_colon (item ++ (b':' ∷ rest)) ≡ (item, some rest)
unfolding at_colon
at_colon-item [] rest h = refl
at_colon-item (c ∷ item) rest (h, hs) =
    let apart : (c == b':') ≡ false = ground (arith, h) in simp (apart, at_colon-item item rest hs)

at_colon-last : (item : Bytes) → NoColon item → at_colon item ≡ (item, none)
unfolding at_colon
at_colon-last [] h = refl
at_colon-last (c ∷ item) (h, hs) =
    let apart : (c == b':') ≡ false = ground (arith, h) in simp (apart, at_colon-last item hs)

get_elem?-end : (xs : Bytes) → get_elem? xs (length xs) ≡ none
get_elem?-end [] = refl
get_elem?-end (x ∷ xs) = get_elem?-end xs

-- The text of the elements behind the first one.
abbrev tail_text : (ℕ → Bytes) → List ℕ → Bytes
tail_text to_text [] = []
tail_text to_text (x ∷ vec) = (b':' ∷ to_text x) ++ tail_text to_text vec

serialize_rest_lem :
    (to_text : ℕ → Bytes) (vec : List ℕ) (value : Bytes)
    → serialize_rest to_text vec value ≡ value ++ tail_text to_text vec
unfolding serialize_rest
serialize_rest_lem to_text [] value = sym (append-nil value)
serialize_rest_lem to_text (x ∷ vec) value =
    serialize_rest_lem to_text vec (value ++ (b':' ∷ []) ++ to_text x)
    ∙ append_assoc (value ++ (b':' ∷ [])) (to_text x) (tail_text to_text vec)
    ∙ append_assoc value (b':' ∷ []) (to_text x ++ tail_text to_text vec)

-- What the loop goes on with behind an element.
abbrev go_on : (Bytes → Parsed (ℕ × ℕ)) → ℕ → List ℕ → Option Bytes → ℕ → Parsed (List ℕ)
go_on stoi fuel result none num = parsed (result ++ (num ∷ []))
go_on stoi fuel result (some rest) num = vector_loop stoi fuel rest (result ++ (num ∷ []))

loop_step :
    (stoi : Bytes → Parsed (ℕ × ℕ)) (fuel : ℕ) (value item : Bytes) (behind : Option Bytes)
    (result : List ℕ) (num : ℕ)
    → 0 < length value
    → at_colon value ≡ (item, behind)
    → parse_int stoi item ≡ parsed num
    → vector_loop stoi (suc fuel) value result ≡ go_on stoi fuel result behind num
unfolding vector_loop
loop_step stoi fuel [] item behind result num h e p = absurd (omega arith)
loop_step stoi fuel (c ∷ cs) item none result num h e p = simp (e, p)
loop_step stoi fuel (c ∷ cs) item (some rest) result num h e p = simp (e, p)

module _ (stoi : Bytes → Parsed (ℕ × ℕ)) (to_text : ℕ → Bytes)
    (reads : (x : ℕ) → x < 2 ^ 32 → stoi (to_text x) ≡ parsed (x, length (to_text x)))
    (plain : (x : ℕ) → x < 2 ^ 32 → NoColon (to_text x))
    (not_empty : (x : ℕ) → x < 2 ^ 32 → 0 < length (to_text x)) where
  element : (x : ℕ) → x < 2 ^ 32 → parse_int stoi (to_text x) ≡ parsed x
  unfolding parse_int with_unit
  element x small =
      let last : with_unit false 32 (to_text x) (x, length (to_text x)) ≡ x =
        ap
          (λ (found : Option ℕ). elim found [
            | none ↦ x
            | some c ↦ (x <<< unit_shift false c) % 2 ^ 32
          ])
          (get_elem?-end (to_text x)) in
      ap (λ r. and_then r (λ r. parsed (with_unit false 32 (to_text x) r))) (reads x small)
      ∙ ap parsed last

  vector_loop_lem :
      (fuel : ℕ) (x : ℕ) (vec result : List ℕ)
      → x < 2 ^ 32
      → All (λ y. y < 2 ^ 32) vec
      → length (to_text x ++ tail_text to_text vec) ≤ fuel
      → vector_loop stoi fuel (to_text x ++ tail_text to_text vec) result
        ≡ parsed (result ++ (x ∷ vec))
  vector_loop_lem zero x vec result small words h =
      absurd (omega (arith, not_empty x small, length-append (to_text x) (tail_text to_text vec)))
  vector_loop_lem (suc fuel) x [] result small words h =
      loop_step stoi fuel (to_text x ++ []) (to_text x) none result x
        (omega (arith, not_empty x small, length-append (to_text x) []))
        (ap at_colon (append-nil (to_text x)) ∙ at_colon-last (to_text x) (plain x small))
        (element x small)
  vector_loop_lem (suc fuel) x (y ∷ vec) result small (word, words) h =
      let rest = to_text y ++ tail_text to_text vec in
      let size = length-append (to_text x) (b':' ∷ rest) in
      loop_step stoi fuel (to_text x ++ (b':' ∷ rest)) (to_text x) (some rest) result x
        (omega (arith, not_empty x small, size)) (at_colon-item (to_text x) rest (plain x small))
        (element x small)
      ∙ vector_loop_lem fuel y vec (result ++ (x ∷ [])) word words
          (omega (arith, not_empty x small, size))
      ∙ ap parsed (append_assoc result (x ∷ []) (y ∷ vec))

  -- `ParseVectorInt` reads back every vector of `int` that `SerializeIntVector` wrote, the empty one
  -- too. The library reads a whole `int` that it wrote, and writes one character at least and no
  -- colon. An `int` is its word of 32 bits in two's complement.
  pub parse-serialize :
      (vec : List ℕ)
      → All (λ x. x < 2 ^ 32) vec
      → parse_vector_int stoi (serialize_int_vector to_text vec) ≡ parsed vec
  unfolding parse_vector_int serialize_int_vector
  parse-serialize [] words = refl
  parse-serialize (x ∷ vec) (small, words) =
      let text = serialize_rest_lem to_text vec (to_text x) in
      ap (λ t. vector_loop stoi (length t) t []) text
      ∙ vector_loop_lem (length (to_text x ++ tail_text to_text vec)) x vec [] small words
          (omega arith)
