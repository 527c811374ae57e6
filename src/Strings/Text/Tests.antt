-- ===== src/Strings/Text/Tests.antt =====
-- The theorems on texts at concrete inputs; the only space is the one of the keyboard.
use compaction_test.Base.{
  ℕ, zero, suc, ◌+◌, ◌-◌, ◌<◌, inl, [], ◌∷◌, ◌==◌, Bool, true, Bytes, take, drop, ◌≡◌, refl, arith,
}
use compaction_test.Strings.Text.{is_space_at, trim}
use compaction_test.Strings.Text.Trim.{trim_lem}

abbrev is_blank : ℕ → Bool
is_blank c = c == b' '

-- Two spaces, a word, and a space.
abbrev padded : Bytes
padded = b' ' ∷ b' ' ∷ b'o' ∷ b'k' ∷ b' ' ∷ []

before : (i : ℕ) → i < 2 → is_space_at is_blank padded i ≡ true
before zero h = refl
before (suc zero) h = refl
before (suc (suc i)) h = absurd (omega arith)

behind : (i : ℕ) → 3 < i → i < 5 → is_space_at is_blank padded i ≡ true
behind zero h g = absurd (omega arith)
behind (suc zero) h g = absurd (omega arith)
behind (suc (suc zero)) h g = absurd (omega arith)
behind (suc (suc (suc zero))) h g = absurd (omega arith)
behind (suc (suc (suc (suc zero)))) h g = refl
behind (suc (suc (suc (suc (suc i))))) h g = absurd (omega arith)

trim_lem_example : trim is_blank padded ≡ take (3 - 2 + 1) (drop 2 padded)
trim_lem_example =
    trim_lem is_blank padded 2 3 (omega arith) (omega arith) before behind (inl (refl, refl))
