-- ===== src/Slice/Pinnable/Laws.antt =====
-- A pinnable slice is the same string wherever its bytes are.
use compaction_test.Base.{
  ℕ, ◌+◌, ◌-◌, ◌≤◌, none, some, [], append-nil, true, false, Bool-cases, Option-cases, inl, inr,
  leb, Bytes, length, take, drop, take_all, drop_all, ◌≡◌, refl, sym, ap, ◌∙◌, arith,
}
use compaction_test.Cleanable.{Cleanable, cleared}
use compaction_test.Cleanable.Counts.{chain_of}
use compaction_test.Cleanable.Chains.{well_formed, reset_lem}
use compaction_test.Slice.Pinnable.{
  PinnableSlice, get_self, set_self, pin_self, erase, pinnable_remove_suffix,
  pinnable_remove_prefix, taken_over, pinnable_move_assign,
}

-- A slice that is not pinned is its string.
pub record IsInSync (p : PinnableSlice) : Type 0 where
  pub same : p.pinned ≡ false → p.bytes ≡ get_self p

-- The slice with a new string.
abbrev rewritten : Bytes → PinnableSlice → PinnableSlice
rewritten buf p = record (set_self buf p) { bytes = buf }

rewritten-IsInSync : (buf : Bytes) (p : PinnableSlice) → IsInSync (rewritten buf p)
rewritten-IsInSync buf p = record { same = λ h. ground arith }

pin_self-set_self :
    (buf : Bytes) (p : PinnableSlice)
    → p.pinned ≡ false
    → pin_self (set_self buf p) ≡ some (rewritten buf p)
unfolding pin_self
pin_self-set_self buf p h = ground (arith, h)

erase_end :
    (n : ℕ) (buf : Bytes)
    → n ≤ length buf
    → erase (length buf - n) n buf ≡ some (take (length buf - n) buf)
erase_end n buf h =
    let fits : leb (length buf - n) (length buf) ≡ true = ground arith in
    let none_left = drop_all (length buf - n + n) buf (omega arith) in
    simp (fits, none_left, append-nil (take (length buf - n) buf))

erase_front : (n : ℕ) (buf : Bytes) → n ≤ length buf → erase 0 n buf ≡ some (drop n buf)
erase_front n buf h =
    let fits : leb 0 (length buf) ≡ true = ground arith in
    let same : 0 + n ≡ n = omega arith in simp (fits, same)

suffix_lem :
    (n : ℕ) (p : PinnableSlice)
    → IsInSync p
    → n ≤ length p.bytes
    → (q : PinnableSlice) × (pinnable_remove_suffix n p ≡ some q)
      × IsInSync q
      × (q.bytes ≡ take (length p.bytes - n) p.bytes)
unfolding pinnable_remove_suffix
suffix_lem n p sync h =
    let fits : leb n (length p.bytes) ≡ true = ground arith in
    elim (Bool-cases p.pinned) [
      | inl e ↦ (
        record p { bytes = take (length p.bytes - n) p.bytes },
        simp (fits, e),
        record { same = λ u. absurd (ground (arith, e, u)) },
        refl,
      )
      | inr e ↦
          let buf = take (length p.bytes - n) p.bytes in
          let cut : erase (length p.bytes - n) n (get_self p) ≡ some buf =
            ap (λ b. erase (length p.bytes - n) n b) (sym (sync.same e)) ∙ erase_end n p.bytes h in
          (
            rewritten buf p,
            simp (fits, e, cut, pin_self-set_self buf p e),
            rewritten-IsInSync buf p,
            refl,
          )
    ]

prefix_lem :
    (n : ℕ) (p : PinnableSlice)
    → IsInSync p
    → n ≤ length p.bytes
    → (q : PinnableSlice) × (pinnable_remove_prefix n p ≡ some q)
      × IsInSync q
      × (q.bytes ≡ drop n p.bytes)
unfolding pinnable_remove_prefix
prefix_lem n p sync h =
    let fits : leb n (length p.bytes) ≡ true = ground arith in
    elim (Bool-cases p.pinned) [
      | inl e ↦ (
        record p { bytes = drop n p.bytes },
        simp (fits, e),
        record { same = λ u. absurd (ground (arith, e, u)) },
        refl,
      )
      | inr e ↦
          let buf = drop n p.bytes in
          let cut : erase 0 n (get_self p) ≡ some buf =
            ap (λ b. erase 0 n b) (sym (sync.same e)) ∙ erase_front n p.bytes h in
          (
            rewritten buf p,
            simp (fits, e, cut, pin_self-set_self buf p e),
            rewritten-IsInSync buf p,
            refl,
          )
    ]

-- What is taken over, with any cleanups.
taken_lem :
    (this other : PinnableSlice) (cleanups : Cleanable)
    → IsInSync other
    → IsInSync (record (taken_over this other) { cleanups = cleanups })
      × ((taken_over this other).bytes ≡ other.bytes)
      × ((taken_over this other).pinned ≡ other.pinned)
taken_lem this other cleanups sync = elim (Bool-cases other.pinned) [
  | inl e ↦ simp e (record { same = λ u. absurd (ground (arith, u)) }, refl, refl)
  | inr e ↦ elim (Option-cases other.external) [
    | inl x ↦
        let same : other.bytes ≡ other.self_space = sync.same e ∙ ground (arith, x) in
        let whole : take (length other.bytes) other.self_space ≡ other.self_space =
          take_all (length other.bytes) other.self_space (omega (arith, ap length same)) in
        simp (e, x) (record { same = λ u. whole }, whole ∙ sym same, refl)
    | inr (buf, x) ↦
        let same : other.bytes ≡ buf = sync.same e ∙ ground (arith, x) in
        simp (e, x) (record { same = λ u. same }, refl, refl)
  ]
]

-- The assignment of another slice, when this one's chain is well formed: it makes this slice's
-- calls and no others, this slice has the bytes, the place and the cleanups of the other one, and
-- the other one is empty and has none. Both are their strings, if the other one was and is not pinned.
pub pinnable_move_lem :
    (this other : PinnableSlice)
    → IsInSync other
    → well_formed this.cleanups ≡ true
    → (this2 : PinnableSlice) × (other2 : PinnableSlice) × (pinnable_move_assign this other
        ≡ some (this2, other2, chain_of this.cleanups))
      × IsInSync this2
      × IsInSync other2
      × (this2.bytes ≡ other.bytes)
      × (this2.pinned ≡ other.pinned)
      × (this2.cleanups ≡ other.cleanups)
      × (other2.bytes ≡ [])
      × (chain_of other2.cleanups ≡ [])
unfolding pinnable_move_assign pin_self cleared
pinnable_move_lem this other sync h =
    let calls = reset_lem this.cleanups h in
    let (sync2, bytes, pinned) = taken_lem this other other.cleanups sync in
    (
      record (taken_over this other) { cleanups = other.cleanups },
      record {
        bytes = [];
        self_space = [];
        external = none;
        pinned = false;
        cleanups = cleared other.cleanups;
      },
      simp calls,
      sync2,
      record { same = λ u. refl },
      bytes,
      pinned,
      refl,
      refl,
      refl,
    )

-- `remove_suffix` and `remove_prefix` take the bytes off a slice, wherever its bytes are, and leave
-- one that is still its string when it is not pinned.
pub remove_lem :
    (n : ℕ) (p : PinnableSlice)
    → IsInSync p
    → n ≤ length p.bytes
    → ((q : PinnableSlice) × (pinnable_remove_suffix n p ≡ some q)
        × IsInSync q
        × (q.bytes ≡ take (length p.bytes - n) p.bytes))
      × ((q : PinnableSlice) × (pinnable_remove_prefix n p ≡ some q)
          × IsInSync q
          × (q.bytes ≡ drop n p.bytes))
remove_lem n p sync h = (suffix_lem n p sync h, prefix_lem n p sync h)
