-- ===== src/Cleanable/Chains.antt =====
-- The chain of one object: no function in it is null, and an object whose head is null has no nodes.
use compaction_test.Base.{
  ℕ, ◌+◌, some, List, [], ◌∷◌, Bool, true, false, ◌&&◌, not, if◌then◌else◌, Bool-cases, inl, inr,
  ◌≡◌, refl, arith,
}
use compaction_test.Cleanable.{
  Cleanup, Cleanable, is_null, new_cleanable, cleared, call_all, do_cleanup, reset, register_node,
  register_cleanup, register_nodes, delegate_cleanups_to,
}
use compaction_test.Cleanable.Counts.{count, held, chain_of}

abbrev pub all_set : List Cleanup → Bool
all_set [] = true
all_set (c ∷ cs) = not (is_null c) && all_set cs

abbrev pub is_nil : List Cleanup → Bool
is_nil [] = true
is_nil (c ∷ cs) = false

abbrev pub well_formed : Cleanable → Bool
well_formed o = if is_null o.head then is_nil o.next else all_set o.next

call_all_lem : (cs : List Cleanup) → all_set cs ≡ true → call_all cs ≡ some cs
call_all_lem [] h = refl
call_all_lem (c ∷ cs) h =
    let set : is_null c ≡ false = ground (arith, h) in
    let rest : all_set cs ≡ true = ground (arith, h) in simp (set, call_all_lem cs rest)

pub do_cleanup_lem : (o : Cleanable) → well_formed o ≡ true → do_cleanup o ≡ some (chain_of o)
unfolding do_cleanup
do_cleanup_lem o h = elim (Bool-cases (is_null o.head)) [
  | inl e ↦ simp e
  | inr e ↦ simp (e, call_all_lem o.next (ground (arith, e, h)))
]

pub reset_lem : (o : Cleanable) → well_formed o ≡ true → reset o ≡ some (cleared o, chain_of o)
unfolding reset
reset_lem o h = simp (do_cleanup_lem o h)

pub cleared-well_formed : (o : Cleanable) → well_formed (cleared o) ≡ true
unfolding cleared
cleared-well_formed o = refl

pub held-cleared : (test : Cleanup → Bool) (o : Cleanable) → held test (cleared o) ≡ 0
unfolding cleared
held-cleared test o = refl

pub new_cleanable-well_formed : (arg1 arg2 : ℕ) → well_formed (new_cleanable arg1 arg2) ≡ true
unfolding new_cleanable
new_cleanable-well_formed arg1 arg2 = refl

pub held-new_cleanable :
    (test : Cleanup → Bool) (arg1 arg2 : ℕ) → held test (new_cleanable arg1 arg2) ≡ 0
unfolding new_cleanable
held-new_cleanable test arg1 arg2 = refl

-- The cleanup that is registered becomes the head, or the node behind the head.
abbrev pub with_node : Cleanup → Cleanable → Cleanable
with_node c o = if is_null o.head then record o { head = c } else record o { next = c ∷ o.next }

nil : (cs : List Cleanup) → is_nil cs ≡ true → cs ≡ []
nil [] h = refl
nil (c ∷ cs) h = absurd (ground (arith, h))

no_nodes : (o : Cleanable) → is_null o.head ≡ true → well_formed o ≡ true → o.next ≡ []
no_nodes o e h = nil o.next (simp e at h)

pub with_node-well_formed :
    (c : Cleanup) (o : Cleanable)
    → is_null c ≡ false
    → well_formed o ≡ true
    → well_formed (with_node c o) ≡ true
with_node-well_formed c o set h = elim (Bool-cases (is_null o.head)) [
  | inl e ↦ simp (e, set, no_nodes o e h)
  | inr e ↦ simp (e, set) (simp e at h)
]

pub held-with_node :
    (test : Cleanup → Bool) (c : Cleanup) (o : Cleanable)
    → is_null c ≡ false
    → well_formed o ≡ true
    → held test (with_node c o) ≡ count test (c ∷ []) + held test o
held-with_node test c o set h = elim (Bool-cases (is_null o.head)) [
  | inl e ↦ simp (e, set, no_nodes o e h) (omega arith)
  | inr e ↦ simp e (omega arith)
]

pub register_cleanup_lem :
    (c : Cleanup) (o : Cleanable) → is_null c ≡ false → register_cleanup c o ≡ some (with_node c o)
unfolding register_cleanup
register_cleanup_lem c o set = simp set

register_nodes-well_formed :
    (cs : List Cleanup) (o : Cleanable)
    → all_set cs ≡ true
    → well_formed o ≡ true
    → well_formed (register_nodes cs o) ≡ true
unfolding register_nodes register_node
register_nodes-well_formed [] o set h = h
register_nodes-well_formed (c ∷ cs) o set h =
    register_nodes-well_formed cs (with_node c o) (ground (arith, set))
      (with_node-well_formed c o (ground (arith, set)) h)

held-register_nodes :
    (test : Cleanup → Bool) (cs : List Cleanup) (o : Cleanable)
    → all_set cs ≡ true
    → well_formed o ≡ true
    → held test (register_nodes cs o) ≡ count test cs + held test o
unfolding register_nodes register_node
held-register_nodes test [] o set h = omega arith
held-register_nodes test (c ∷ cs) o set h =
    let first : is_null c ≡ false = ground (arith, set) in
    omega (
      arith,
      held-register_nodes test cs (with_node c o) (ground (arith, set))
          (with_node-well_formed c o first h),
      held-with_node test c o first h,
    )

held_set :
    (test : Cleanup → Bool) (o : Cleanable)
    → is_null o.head ≡ false
    → held test o ≡ count test (o.head ∷ []) + count test o.next
held_set test o e = simp e (omega arith)

-- After a delegation this object holds nothing, and the other one what both held.
pub delegate_cleanups_to_lem :
    (this other : Cleanable)
    → well_formed this ≡ true
    → well_formed other ≡ true
    → (this2 : Cleanable) × (other2 : Cleanable) × (delegate_cleanups_to this other
        ≡ some (this2, other2))
      × (well_formed this2 ≡ true)
      × (well_formed other2 ≡ true)
      × (chain_of this2 ≡ [])
      × ((test : Cleanup → Bool) → held test other2 ≡ held test this + held test other)
unfolding delegate_cleanups_to cleared
delegate_cleanups_to_lem this other h g = elim (Bool-cases (is_null this.head)) [
  | inl e ↦ (this, other, simp e, h, g, simp e, λ test. simp e (omega arith))
  | inr e ↦
      let set : all_set this.next ≡ true = simp e at h in
      let other1 = with_node this.head other in
      let g1 = with_node-well_formed this.head other e g in
      (
        cleared this,
        register_nodes this.next other1,
        simp (e, register_cleanup_lem this.head other e),
        refl,
        register_nodes-well_formed this.next other1 set g1,
        refl,
        λ test. omega (
          arith,
          held-register_nodes test this.next other1 set g1,
          held-with_node test this.head other e g,
          held_set test this e,
        ),
      )
]
