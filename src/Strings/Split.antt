-- ===== src/Strings/Split.antt =====
-- `StringSplit` of utils/string_util.cc.
use compaction_test.Base.{
  ℕ, List, [], ◌∷◌, ◌++◌, append-nil, append_assoc, All-append, false, ◌==◌, if◌then◌else◌, Bytes,
  All, inl, inr, ◌⊎◌, Bool-cases, ◌≡◌, refl, sym, ap, ◌∙◌, arith,
}

-- The calls of `getline` on a stream: what is read of the item so far, and whether anything was
-- read since the last one. A call that reads nothing before the end fails.
unfoldable pub split_loop : ℕ → Bytes → Bytes → List Bytes
split_loop delim [] [] = []
split_loop delim (c ∷ item) [] = (c ∷ item) ∷ []
split_loop delim item (c ∷ s) =
    if c == delim then item ∷ split_loop delim [] s else split_loop delim (item ++ c ∷ []) s

unfoldable pub string_split : Bytes → ℕ → List Bytes
unfolding split_loop
string_split arg delim = split_loop delim [] arg

-- Each item with a delimiter behind it.
abbrev pub terminated : ℕ → List Bytes → Bytes
terminated delim [] = []
terminated delim (item ∷ items) = item ++ delim ∷ [] ++ terminated delim items

abbrev pub LacksIt : ℕ → Bytes → Type 0
LacksIt delim item = All (λ c. (c == delim) ≡ false) item

-- Whether the delimiters behind the items give the text or need one more.
abbrev Rebuilds : ℕ → List Bytes → Bytes → Type 0
Rebuilds delim items text =
    ((terminated delim items ≡ text) ⊎ (terminated delim items ≡ text ++ delim ∷ []))
    × All (LacksIt delim) items

ends :
    (delim c : ℕ) (item s : Bytes) (items : List Bytes)
    → c ≡ delim
    → LacksIt delim item
    → Rebuilds delim items s
    → Rebuilds delim (item ∷ items) (item ++ c ∷ s)
ends delim c item s items e h (made, lack) =
    let front : terminated delim (item ∷ items) ≡ item ++ c ∷ terminated delim items =
      append_assoc item (delim ∷ []) (terminated delim items)
      ∙ ap (λ (d : ℕ). item ++ d ∷ terminated delim items) (sym e) in
    (
      elim made [
        | inl whole ↦ inl (front ∙ ap (λ t. item ++ c ∷ t) whole)
        | inr more ↦
            inr
              (front ∙ ap (λ t. item ++ c ∷ t) more ∙ sym (append_assoc item (c ∷ s) (delim ∷ [])))
      ],
      (h, lack),
    )

terminated-split_loop :
    (delim : ℕ) (item s : Bytes)
    → LacksIt delim item
    → ((terminated delim (split_loop delim item s) ≡ item ++ s)
        ⊎ (terminated delim (split_loop delim item s) ≡ item ++ s ++ delim ∷ []))
      × All (LacksIt delim) (split_loop delim item s)
unfolding split_loop
terminated-split_loop delim [] [] h = (inl refl, tt)
terminated-split_loop delim (c ∷ item) [] h = (
  inr (
      append-nil (c ∷ item ++ delim ∷ [])
      ∙ ap (λ t. t ++ delim ∷ []) (sym (append-nil (c ∷ item)))),
  (h, tt),
)
terminated-split_loop delim item (c ∷ s) h = elim (Bool-cases (c == delim)) [
  | inl e ↦ simp e (
      ends delim c item s (split_loop delim [] s) (ground (arith, e)) h
        (terminated-split_loop delim [] s tt))
  | inr e ↦ simp e (
      rw (append_assoc item (c ∷ []) s) at
        (terminated-split_loop delim (item ++ c ∷ []) s (All-append _ item (c ∷ []) h (e, tt))))
]

-- The items of a text have no delimiter in them, and with a delimiter behind each they make up the
-- text, or the text with one more delimiter at its end.
pub terminated-string_split :
    (arg : Bytes) (delim : ℕ)
    → ((terminated delim (string_split arg delim) ≡ arg)
        ⊎ (terminated delim (string_split arg delim) ≡ arg ++ delim ∷ []))
      × All (LacksIt delim) (string_split arg delim)
unfolding string_split
terminated-string_split arg delim = terminated-split_loop delim [] arg tt
