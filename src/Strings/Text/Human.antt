-- ===== src/Strings/Text/Human.antt =====
-- What people read: printable bytes, and sizes with a unit.
use compaction_test.Base.{
  ℕ, ◌+◌, ◌*◌, ◌/◌, ◌%◌, ◌^◌, ◌≤◌, ◌<◌, ◌⊎◌, inl, inr, [], ◌∷◌, ◌++◌, leb, ◌&&◌, Bytes, IsBytes,
  All, All-append, ◌≡◌, refl, arith, Bool-cases,
}
use compaction_test.Strings.Text.{hex_digit, append_escaped_string_to, human_parts}

abbrev pub IsPrintable : Bytes → Type 0
IsPrintable = All (λ c. (b' ' ≤ c) × (c ≤ b'~'))

digit_printable : (n : ℕ) → n < 16 → (b' ' ≤ hex_digit n) × (hex_digit n ≤ b'~')
digit_printable n h = ground arith

-- `AppendEscapedStringTo` appends printable characters only.
pub append_escaped-IsPrintable :
    (str value : Bytes)
    → IsPrintable str
    → IsBytes value
    → IsPrintable (append_escaped_string_to str value)
unfolding append_escaped_string_to
append_escaped-IsPrintable str [] h b = h
append_escaped-IsPrintable str (c ∷ value) h (byte, bytes) =
    elim (Bool-cases (leb b' ' c && leb c b'~')) [
      | inl e ↦ simp e (
          append_escaped-IsPrintable (str ++ (c ∷ [])) value
            (All-append _ str (c ∷ []) h (ground (arith, e), tt)) bytes)
      | inr e ↦ simp e (
          append_escaped-IsPrintable _ value
            (All-append _ str (92 ∷ b'x' ∷ hex_digit (c / 16) ∷ hex_digit (c % 16) ∷ []) h (
              (omega arith, omega arith),
              (
                (omega arith, omega arith),
                (
                  digit_printable (c / 16) (omega arith),
                  (digit_printable (c % 16) (omega arith), tt),
                ),
              ),
            ))
            bytes)
    ]

-- A unit: its power of two, and its text.
pub data IsUnit : ℕ → Bytes → Type 0 where
  single : IsUnit 0 (b'B' ∷ [])
  kilo : IsUnit 10 (b'K' ∷ b'B' ∷ [])
  mega : IsUnit 20 (b'M' ∷ b'B' ∷ [])
  giga : IsUnit 30 (b'G' ∷ b'B' ∷ [])
  tera : IsUnit 40 (b'T' ∷ b'B' ∷ [])

-- The number and the unit that `AppendHumanBytes` prints are the size, rounded down; the number is
-- at least 10, unless it counts bytes, and below 10240, unless it counts terabytes.
pub human_parts_lem :
    (bytes : ℕ)
    → (k : ℕ) × IsUnit k (human_parts bytes).1
      × ((human_parts bytes).0 * 2 ^ k ≤ bytes)
      × (bytes < ((human_parts bytes).0 + 1) * 2 ^ k)
      × ((10 ≤ (human_parts bytes).0) ⊎ (k ≡ 0))
      × (((human_parts bytes).0 < 10240) ⊎ (k ≡ 40))
unfolding human_parts
human_parts_lem bytes = elim (Bool-cases (leb (10 * 2 ^ 40) bytes)) [
  | inl t ↦
      let h : 10 * 2 ^ 40 ≤ bytes = ground (arith, t) in
      simp t (40, tera, omega arith, omega arith, inl (omega arith), inr refl)
  | inr t ↦ elim (Bool-cases (leb (10 * 2 ^ 30) bytes)) [
    | inl g ↦
        let h : 10 * 2 ^ 30 ≤ bytes = ground (arith, g) in
        let l : bytes < 10 * 2 ^ 40 = ground (arith, t) in
        simp (t, g) (30, giga, omega arith, omega arith, inl (omega arith), inl (omega arith))
    | inr g ↦ elim (Bool-cases (leb (10 * 2 ^ 20) bytes)) [
      | inl m ↦
          let h : 10 * 2 ^ 20 ≤ bytes = ground (arith, m) in
          let l : bytes < 10 * 2 ^ 30 = ground (arith, g) in
          simp (t, g, m) (20, mega, omega arith, omega arith, inl (omega arith), inl (omega arith))
      | inr m ↦ elim (Bool-cases (leb (10 * 2 ^ 10) bytes)) [
        | inl k ↦
            let h : 10 * 2 ^ 10 ≤ bytes = ground (arith, k) in
            let l : bytes < 10 * 2 ^ 20 = ground (arith, m) in
            simp (t, g, m, k)
              (10, kilo, omega arith, omega arith, inl (omega arith), inl (omega arith))
        | inr k ↦
            let l : bytes < 10 * 2 ^ 10 = ground (arith, k) in
            simp (t, g, m, k) (0, single, omega arith, omega arith, inr refl, inl (omega arith))
      ]
    ]
  ]
]
