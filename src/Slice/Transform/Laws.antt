-- ===== src/Slice/Transform/Laws.antt =====
-- What the users of a `SliceTransform` rely on, and that the three implementations give it.
use compaction_test.Base.{
  ℕ, ◌≤◌, some, [], ◌++◌, append-nil, true, leb, ltb, Bytes, length, take, drop, length-take,
  length-append, take-append-drop, take-append_long, take-take, Bool-cases, inl, inr, take_all, ◌≡◌,
  refl, sym, ap, ◌∙◌, arith,
}
use compaction_test.Slice.Transform.{
  SliceTransform, new_fixed_prefix_transform, new_capped_prefix_transform, new_noop_transform,
}

-- On its domain a transform gives a prefix of the key, in its range and no longer than the full
-- length; a prefix that it says decides the result decides it.
pub record IsSliceTransform (t : SliceTransform) : Type 0 where
  pub defined :
      (src : Bytes) → t.in_domain src ≡ some true → (dst : Bytes) × (t.transform src ≡ some dst)
  pub is_prefix :
      (src dst : Bytes) → t.transform src ≡ some dst → (rest : Bytes) × (src ≡ dst ++ rest)
  pub ranges : (src dst : Bytes) → t.transform src ≡ some dst → t.in_range dst ≡ some true
  pub bounded :
      (src dst : Bytes) (n : ℕ)
      → t.transform src ≡ some dst
      → t.full_length ≡ some n
      → length dst ≤ n
  pub stable : (src dst : Bytes) → t.transform src ≡ some dst → t.transform dst ≡ some dst
  pub appended :
      (prefix rest : Bytes)
      → t.same_result_when_appended prefix ≡ some true
      → t.transform (prefix ++ rest) ≡ t.transform prefix

take_twice : (n : ℕ) (src dst : Bytes) → dst ≡ take n src → take n dst ≡ dst
take_twice n src dst e = ap (take n) e ∙ take-take n n src (omega arith) ∙ sym e

module _ (decimal : ℕ → Bytes) where
  fixed_lem :
      (n : ℕ) (src dst : Bytes)
      → (new_fixed_prefix_transform decimal n).transform src ≡ some dst
      → (n ≤ length src) × (dst ≡ take n src)
  unfolding new_fixed_prefix_transform
  fixed_lem n src dst h = elim (Bool-cases (leb n (length src))) [
    | inl e ↦ (ground (arith, e), ground (arith, e, h))
    | inr e ↦ absurd (ground (arith, e, h))
  ]

  fixed_transform :
      (n : ℕ) (src : Bytes)
      → n ≤ length src
      → (new_fixed_prefix_transform decimal n).transform src ≡ some (take n src)
  unfolding new_fixed_prefix_transform
  fixed_transform n src h = ground arith

  pub fixed-IsSliceTransform : (n : ℕ) → IsSliceTransform (new_fixed_prefix_transform decimal n)
  unfolding new_fixed_prefix_transform
  fixed-IsSliceTransform n = record {
    defined = λ src h. (take n src, fixed_transform n src (ground (arith, h)));
    is_prefix = λ src dst h. (
      drop n src,
      sym (take-append-drop n src) ∙ ap (λ t. t ++ drop n src) (sym (fixed_lem n src dst h).1),
    );
    ranges = λ src dst h. ground (arith, fixed_lem n src dst h, length-take n src);
    bounded = λ src dst m h e. ground (arith, e, fixed_lem n src dst h, length-take n src);
    stable = λ src dst h.
        fixed_transform n dst (
          omega
            (arith, fixed_lem n src dst h, ap length (fixed_lem n src dst h).1, length-take n src))
        ∙ ap some (take_twice n src dst (fixed_lem n src dst h).1);
    appended = λ prefix rest h.
        fixed_transform n (prefix ++ rest) (ground (arith, h, length-append prefix rest))
        ∙ ap some (take-append_long n prefix rest (ground (arith, h)))
        ∙ sym (fixed_transform n prefix (ground (arith, h)));
  }

  -- The shorter of the key and the cap.
  capped_lem :
      (n : ℕ) (src : Bytes)
      → (new_capped_prefix_transform decimal n).transform src ≡ some (take n src)
  unfolding new_capped_prefix_transform
  capped_lem n src = elim (Bool-cases (ltb (length src) n)) [
    | inl e ↦ simp e (
        ap some
          (take_all (length src) src (omega arith) ∙ sym (take_all n src (ground (arith, e)))))
    | inr e ↦ simp e
  ]

  capped_eq :
      (n : ℕ) (src dst : Bytes)
      → (new_capped_prefix_transform decimal n).transform src ≡ some dst
      → dst ≡ take n src
  capped_eq n src dst h = ground (arith, h, capped_lem n src)

  pub capped-IsSliceTransform : (n : ℕ) → IsSliceTransform (new_capped_prefix_transform decimal n)
  unfolding new_capped_prefix_transform
  capped-IsSliceTransform n = record {
    defined = λ src h. (take n src, capped_lem n src);
    is_prefix = λ src dst h. (
      drop n src,
      sym (take-append-drop n src) ∙ ap (λ t. t ++ drop n src) (sym (capped_eq n src dst h)),
    );
    ranges = λ src dst h. ground (arith, ap length (capped_eq n src dst h), length-take n src);
    bounded =
        λ src dst m h e. ground (arith, e, ap length (capped_eq n src dst h), length-take n src);
    stable = λ src dst h. capped_lem n dst ∙ ap some (take_twice n src dst (capped_eq n src dst h));
    appended = λ prefix rest h.
        capped_lem n (prefix ++ rest)
        ∙ ap some (take-append_long n prefix rest (ground (arith, h)))
        ∙ sym (capped_lem n prefix);
  }

noop-IsSliceTransform : IsSliceTransform new_noop_transform
unfolding new_noop_transform
noop-IsSliceTransform = record {
  defined = λ src h. (src, refl);
  is_prefix = λ src dst h. ([], ground arith ∙ sym (append-nil dst));
  ranges = λ src dst h. refl;
  bounded = λ src dst m h e. absurd (ground (arith, e));
  stable = λ src dst h. refl;
  appended = λ prefix rest h. absurd (ground (arith, h));
}

-- The transforms by a fixed length and by a cap, of any length, and the one that keeps the key, give
-- their users what `IsSliceTransform` lists.
pub transforms_lawful :
    (decimal : ℕ → Bytes) (n : ℕ)
    → IsSliceTransform (new_fixed_prefix_transform decimal n)
      × IsSliceTransform (new_capped_prefix_transform decimal n)
      × IsSliceTransform new_noop_transform
transforms_lawful decimal n =
    (fixed-IsSliceTransform decimal n, capped-IsSliceTransform decimal n, noop-IsSliceTransform)
