-- ===== src/Status/Assign.antt =====
-- Copies and moves of the statuses of include/status.h.
use compaction_test.Base.{
  ℕ, Option, none, some, true, false, ◌==◌, Bytes, ◌≡◌, ◌≢◌, refl, ap, arith, ==_iff, Bool-cases,
  inl, inr,
}
use compaction_test.Status.{Objects, ok_status, copy_assign, move_assign}
use mathlib.Core.Option

copied :
    (copy : Bytes → Bytes) (m : Option Bytes) → ((b : Bytes) → copy b ≡ b) → Option.map copy m ≡ m
copied copy none h = refl
copied copy (some b) h = ap some (h b)

same_address : (i : ℕ) → (i == i) ≡ true
same_address i = ground arith

other_address : (i j : ℕ) → i ≢ j → (i == j) ≡ false
other_address i j d = ground arith

-- If `CopyState` copies the message, an assignment makes the object equal to the one that it is
-- assigned, also where they are one object, and changes no other object `j`.
pub copy_assign_lem :
    (copy : Bytes → Bytes) (objects : Objects) (this s j : ℕ)
    → ((b : Bytes) → copy b ≡ b)
    → j ≢ this
    → (copy_assign copy objects this s this ≡ objects s)
      × (copy_assign copy objects this s j ≡ objects j)
unfolding copy_assign
copy_assign_lem copy objects this s j h d = elim (Bool-cases (this == s)) [
  | inl e ↦ (simp e (ap objects ((==_iff this s).0 e)), simp e)
  | inr e ↦ (
    simp (e, same_address this, copied copy (objects s).state h),
    simp (e, other_address j this d),
  )
]

-- Moving from another object makes this one what that one was, leaves a success there and changes
-- no third object `j`; moving from the object itself changes nothing.
pub move_assign_lem :
    (objects : Objects) (this s j : ℕ)
    → this ≢ s
    → j ≢ this
    → j ≢ s
    → (move_assign objects this s this ≡ objects s)
      × (move_assign objects this s s ≡ ok_status)
      × (move_assign objects this s j ≡ objects j)
      × (move_assign objects this this ≡ objects)
unfolding move_assign ok_status
move_assign_lem objects this s j d e f =
    let other = other_address this s d in
    (
      simp (other, same_address this),
      simp (other, same_address s),
      simp (other, other_address j this e, other_address j s f),
      simp (same_address this),
    )
