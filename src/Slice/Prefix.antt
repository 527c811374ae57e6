-- ===== src/Slice/Prefix.antt =====
-- `starts_with`, `ends_with`, the removals and `difference_offset` in terms of concatenation.
use Prim.Native.Nat.{Ordering}
use compaction_test.Base.{
  ℕ, suc, ◌+◌, ◌-◌, ◌≤◌, [], ◌∷◌, ◌++◌, some, true, Bytes, length, take, drop, get_elem?,
  length-append, take-append-drop, append-nil, length-drop, drop-append_left, ◌≡◌, ◌≢◌, ◌↔◌, ◌⊎◌,
  inl, inr, refl, sym, ap, ◌∙◌, arith,
}
use mathlib.Core.Path.{ap₂}
use native.Mathlib.Decide.{ℕ_discrete}
use compaction_test.Slice.{
  memcmp, starts_with, ends_with, remove_prefix, remove_suffix, difference_offset,
  difference_offset_loop,
}

-- `memcmp` on as many bytes as `x` has tells whether `x` is a prefix.
memcmp-prefix :
    (s x : Bytes)
    → length x ≤ length s
    → memcmp s x (length x) ≡ Ordering.eq
    → s ≡ x ++ drop (length x) s
unfolding memcmp
memcmp-prefix s [] h e = refl
memcmp-prefix [] (y ∷ x) h e = absurd (omega arith)
memcmp-prefix (b ∷ s) (y ∷ x) h e = ground (arith, memcmp-prefix s x (omega arith))

memcmp-append : (x rest : Bytes) → memcmp (x ++ rest) x (length x) ≡ Ordering.eq
unfolding memcmp
memcmp-append [] rest = refl
memcmp-append (y ∷ x) rest = ground (arith, memcmp-append x rest)

starts_with-split : (s x : Bytes) → starts_with s x ≡ true → s ≡ x ++ drop (length x) s
unfolding starts_with
starts_with-split s x h = ground (arith, memcmp-prefix s x)

starts_with-append : (x rest : Bytes) → starts_with (x ++ rest) x ≡ true
unfolding starts_with
starts_with-append x rest = ground (arith, memcmp-append x rest, length-append x rest)

-- `starts_with` tells exactly whether the slice is the prefix followed by something.
pub starts_with_iff : (s x : Bytes) → (starts_with s x ≡ true) ↔ ((rest : Bytes) × (s ≡ x ++ rest))
starts_with_iff s x = (
  λ h. (drop (length x) s, starts_with-split s x h),
  λ (rest, e). rw e (starts_with-append x rest),
)

memcmp-whole : (s x : Bytes) → length s ≡ length x → memcmp s x (length x) ≡ Ordering.eq → s ≡ x
unfolding memcmp
memcmp-whole [] [] h e = refl
memcmp-whole [] (y ∷ x) h e = absurd (omega arith)
memcmp-whole (b ∷ s) [] h e = absurd (omega arith)
memcmp-whole (b ∷ s) (y ∷ x) h e = ground (arith, memcmp-whole s x (omega arith))

ends_with-split : (s x : Bytes) → ends_with s x ≡ true → s ≡ take (length s - length x) s ++ x
unfolding ends_with
ends_with-split s x h =
    sym (take-append-drop (length s - length x) s)
    ∙ ap (λ t. take (length s - length x) s ++ t)
        (ground (
          arith,
          length-drop (length s - length x) s,
          memcmp-whole (drop (length s - length x) s) x,
        ))

ends_with-append : (front x : Bytes) → ends_with (front ++ x) x ≡ true
unfolding ends_with
ends_with-append front x = ground (
  arith,
  length-append front x,
  drop-append_left (length (front ++ x) - length x) front x,
  memcmp-append x [],
  append-nil x,
)

-- `ends_with` tells exactly whether the slice is something followed by the suffix.
pub ends_with_iff : (s x : Bytes) → (ends_with s x ≡ true) ↔ ((front : Bytes) × (s ≡ front ++ x))
ends_with_iff s x = (
  λ h. (take (length s - length x) s, ends_with-split s x h),
  λ (front, e). rw e (ends_with-append front x),
)

-- The first position at which two slices differ, or the shorter length: the bytes before it agree.
pub record IsDifference (a b : Bytes) (off : ℕ) : Type 0 where
  pub agree : take off a ≡ take off b
  pub within : (off ≤ length a) × (off ≤ length b)
  pub stops : (off ≡ length a) ⊎ (off ≡ length b) ⊎ (get_elem? a off ≢ get_elem? b off)

offset-IsDifference :
    (a b : Bytes) (off : ℕ)
    → (d : ℕ) × (difference_offset_loop a b off ≡ off + d) × IsDifference a b d
unfolding difference_offset_loop
offset-IsDifference [] b off =
    (0, omega arith, record { agree = refl; within = omega arith; stops = inl refl })
offset-IsDifference (x ∷ a) [] off =
    (0, omega arith, record { agree = refl; within = omega arith; stops = inr (inl refl) })
offset-IsDifference (x ∷ a) (y ∷ b) off = elim (ℕ_discrete x y) [
  | yes e ↦
      let (d, eq, rest) = offset-IsDifference a b (off + 1) in
      (
        suc d,
        ground arith,
        record {
          agree = ap₂ ◌∷◌ e rest.agree;
          within = omega (arith, rest.within);
          stops = ground (arith, rest.stops);
        },
      )
  | no ne ↦ (
    0,
    ground arith,
    record { agree = refl; within = omega arith; stops = inr (inr (λ e. ne (cc))) },
  )
]

-- `difference_offset` returns the first position at which the slices differ, or the length of the
-- shorter one if that is a prefix of the other.
pub difference_offset-IsDifference : (a b : Bytes) → IsDifference a b (difference_offset a b)
unfolding difference_offset
difference_offset-IsDifference a b =
    let (d, e, h) = offset-IsDifference a b 0 in
    let same : difference_offset_loop a b 0 ≡ d = omega (arith, e) in rw same h

-- `remove_prefix` and `remove_suffix` assert that there are enough bytes; then the removed bytes
-- and the rest make up the slice.
pub remove_cases :
    (s : Bytes) (n : ℕ)
    → n ≤ length s
    → (remove_prefix s n ≡ some (drop n s))
      × (take n s ++ drop n s ≡ s)
      × (remove_suffix s n ≡ some (take (length s - n) s))
      × (length (drop n s) ≡ length s - n)
unfolding remove_prefix remove_suffix
remove_cases s n h =
    (ground arith, take-append-drop n s, ground arith, omega (arith, length-drop n s))
