-- ===== src/Strings/Escape.antt =====
-- The escapes of utils/string_util.cc are undone.
use compaction_test.Base.{
  ℕ, [], ◌∷◌, ◌++◌, append_assoc, append-nil, true, false, Bytes, Bool-cases, inl, inr, ◌==◌,
  if◌then◌else◌, ◌≡◌, sym, ap, ◌∙◌, arith,
}
use compaction_test.Strings.{
  backslash, is_special_char, unescape_char, escape_char, escape_loop, escape_option_string,
  unescape_loop, unescape_option_string,
}

-- What one character is written as.
abbrev code_of : ℕ → Bytes
code_of c = if is_special_char c then backslash ∷ escape_char c ∷ [] else c ∷ []

abbrev codes_of : Bytes → Bytes
codes_of [] = []
codes_of (c ∷ raw) = code_of c ++ codes_of raw

escape_loop-codes : (raw output : Bytes) → escape_loop raw output ≡ output ++ codes_of raw
unfolding escape_loop
escape_loop-codes [] output = sym (append-nil output)
escape_loop-codes (c ∷ raw) output = elim (Bool-cases (is_special_char c)) [
  | inl e ↦ simp e (
      escape_loop-codes raw ((output ++ backslash ∷ []) ++ escape_char c ∷ [])
      ∙ append_assoc (output ++ backslash ∷ []) (escape_char c ∷ []) (codes_of raw)
      ∙ append_assoc output (backslash ∷ []) (escape_char c ∷ codes_of raw))
  | inr e ↦
      simp e
        (escape_loop-codes raw (output ++ c ∷ []) ∙ append_assoc output (c ∷ []) (codes_of raw))
]

unescape-escape_char : (c : ℕ) → is_special_char c ≡ true → unescape_char (escape_char c) ≡ c
unfolding is_special_char escape_char unescape_char
unescape-escape_char c e = ground arith

plain-neq : (c : ℕ) → is_special_char c ≡ false → (c == backslash) ≡ false
unfolding is_special_char
plain-neq c e = ground arith

unescape_loop-codes :
    (raw output : Bytes) → unescape_loop (codes_of raw) false output ≡ output ++ raw
unfolding unescape_loop
unescape_loop-codes [] output = sym (append-nil output)
unescape_loop-codes (c ∷ raw) output = elim (Bool-cases (is_special_char c)) [
  | inl e ↦
      simp (e, unescape-escape_char c e)
        (unescape_loop-codes raw (output ++ c ∷ []) ∙ append_assoc output (c ∷ []) raw)
  | inr e ↦
      simp (e, plain-neq c e)
        (unescape_loop-codes raw (output ++ c ∷ []) ∙ append_assoc output (c ∷ []) raw)
]

-- `UnescapeOptionString` gives back every string that `EscapeOptionString` wrote.
pub unescape-escape_option_string :
    (raw : Bytes) → unescape_option_string (escape_option_string raw) ≡ raw
unfolding unescape_option_string escape_option_string
unescape-escape_option_string raw =
    ap (λ t. unescape_loop t false []) (escape_loop-codes raw []) ∙ unescape_loop-codes raw []
