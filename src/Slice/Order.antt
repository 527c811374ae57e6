-- ===== src/Slice/Order.antt =====
-- `Slice::compare` is the lexicographic order of the bytes, and a total order.
use Prim.Native.Nat.{compare, Ordering}
use compaction_test.Base.{[], ◌∷◌, true, Bytes, length, ◌≡◌, ◌↔◌, refl, sym, ap, ◌∙◌, arith}
use mathlib.Core.Path.{subst, fun_ext}
use compaction_test.Slice.{Sign, memcmp, compare_slice, equal_slice}

-- The order that `compare` computes, without lengths.
unfoldable pub lex : Bytes → Bytes → Sign
lex [] [] = Ordering.eq
lex [] (y ∷ b) = Ordering.lt
lex (x ∷ a) [] = Ordering.gt
lex (x ∷ a) (y ∷ b) =
    let rest = lex a b in
    elim (compare x y) [
      | Ordering.lt ↦ Ordering.lt
      | Ordering.eq ↦ rest
      | Ordering.gt ↦ Ordering.gt
    ]

abbrev pub flip : Sign → Sign
flip Ordering.lt = Ordering.gt
flip Ordering.eq = Ordering.eq
flip Ordering.gt = Ordering.lt

pub compare_slice-lex : (a b : Bytes) → compare_slice a b ≡ lex a b
unfolding compare_slice lex
compare_slice-lex [] [] = refl
compare_slice-lex [] (y ∷ b) = ground arith
compare_slice-lex (x ∷ a) [] = ground arith
compare_slice-lex (x ∷ a) (y ∷ b) = ground (arith, compare_slice-lex a b)

-- What the code relies on in a comparator: a total order of the keys, up to keys that count as equal.
pub record IsComparator {ℓ} {A : Type ℓ} (cmp : A → A → Sign) : Type ℓ where
  pub same : (a : A) → cmp a a ≡ Ordering.eq
  pub swap : (a b : A) → cmp b a ≡ flip (cmp a b)
  pub trans : (a b c : A) → cmp a b ≡ Ordering.lt → cmp b c ≡ Ordering.lt → cmp a c ≡ Ordering.lt
  pub cong : (a b c : A) → cmp a b ≡ Ordering.eq → cmp a c ≡ cmp b c

lex-swap : (a b : Bytes) → lex b a ≡ flip (lex a b)
unfolding lex
lex-swap [] [] = refl
lex-swap [] (y ∷ b) = refl
lex-swap (x ∷ a) [] = refl
lex-swap (x ∷ a) (y ∷ b) = ground (arith, lex-swap a b)

pub lex-same : (a : Bytes) → lex a a ≡ Ordering.eq
unfolding lex
lex-same [] = refl
lex-same (x ∷ a) = ground (arith, lex-same a)

lex-eq : (a b : Bytes) → lex a b ≡ Ordering.eq → a ≡ b
unfolding lex
lex-eq [] [] h = refl
lex-eq [] (y ∷ b) h = cc
lex-eq (x ∷ a) [] h = cc
lex-eq (x ∷ a) (y ∷ b) h = ground (arith, lex-eq a b)

lex_trans : (a b c : Bytes) → lex a b ≡ Ordering.lt → lex b c ≡ Ordering.lt → lex a c ≡ Ordering.lt
unfolding lex
lex_trans [] [] c h k = cc
lex_trans [] (y ∷ b) [] h k = cc
lex_trans [] (y ∷ b) (z ∷ c) h k = refl
lex_trans (x ∷ a) [] c h k = cc
lex_trans (x ∷ a) (y ∷ b) [] h k = cc
lex_trans (x ∷ a) (y ∷ b) (z ∷ c) h k = ground (arith, lex_trans a b c)

lex-IsComparator : IsComparator lex
lex-IsComparator = record {
  same = lex-same;
  swap = lex-swap;
  trans = lex_trans;
  cong = λ a b c h. ap (λ t. lex t c) (lex-eq a b h);
}

-- `Slice::compare` is a total order of the byte strings: it meets what a comparator promises.
pub compare_slice-IsComparator : IsComparator compare_slice
compare_slice-IsComparator =
    subst IsComparator (sym (fun_ext λ a. fun_ext λ b. compare_slice-lex a b)) lex-IsComparator

memcmp-lex : (a b : Bytes) → length a ≡ length b → memcmp a b (length a) ≡ lex a b
unfolding memcmp lex
memcmp-lex [] [] h = refl
memcmp-lex [] (y ∷ b) h = absurd (omega arith)
memcmp-lex (x ∷ a) [] h = absurd (omega arith)
memcmp-lex (x ∷ a) (y ∷ b) h = ground (arith, memcmp-lex a b (omega arith))

pub equal_slice_refl : (a : Bytes) → equal_slice a a ≡ true
unfolding equal_slice
equal_slice_refl a = ground (arith, memcmp-lex a a refl, lex-same a)

pub equal_slice-eq : (a b : Bytes) → equal_slice a b ≡ true → a ≡ b
unfolding equal_slice
equal_slice-eq a b h = ground (arith, memcmp-lex a b (ground arith), lex-eq a b)

-- `compare` returns 0, and `operator==` true, on equal bytes and on no others.
pub equal_slice_iff :
    (a b : Bytes)
    → ((equal_slice a b ≡ true) ↔ (a ≡ b)) × ((compare_slice a b ≡ Ordering.eq) ↔ (a ≡ b))
equal_slice_iff a b = (
  (equal_slice-eq a b, λ e. rw e (equal_slice_refl b)),
  (
    λ h. lex-eq a b (sym (compare_slice-lex a b) ∙ h),
    λ e. rw e (compare_slice-lex b b ∙ lex-same b),
  ),
)
