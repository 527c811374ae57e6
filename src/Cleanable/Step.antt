-- ===== src/Cleanable/Step.antt =====
-- One operation on a world of objects with cleanups.
use compaction_test.Base.{
  ℕ, zero, suc, ◌+◌, ◌<◌, ◌==◌, Option, none, some, List, [], ◌∷◌, ◌++◌, Bool, true, false, ◌&&◌,
  if◌then◌else◌, Bool-cases, inl, inr, get_elem?, get_elem?-some, length, ◌≡◌, ◌≢◌, refl, ap, ◌∙◌,
  arith,
}
use compaction_test.Cleanable.{
  Cleanup, Cleanable, is_null, new_cleanable, cleared, reset, move_assign_to,
}
use compaction_test.Cleanable.World.{
  World, Op, registers, delegates, moves, resets, destroys, run_op, set_at, valid_op, registered,
}
use compaction_test.Cleanable.Counts.{
  count, held, held_all, count-append, held_all-set_at, length-set_at, get_elem?-set_at_other,
  chain_of,
}
use compaction_test.Cleanable.Chains.{
  well_formed, do_cleanup_lem, cleared-well_formed, held-cleared, new_cleanable-well_formed,
  held-new_cleanable, with_node, with_node-well_formed, held-with_node, register_cleanup_lem,
  delegate_cleanups_to_lem,
}

abbrev pub all_well_formed : List Cleanable → Bool
all_well_formed [] = true
all_well_formed (o ∷ objects) = well_formed o && all_well_formed objects

get_elem?-well_formed :
    (objects : List Cleanable) (i : ℕ) (o : Cleanable)
    → all_well_formed objects ≡ true
    → get_elem? objects i ≡ some o
    → well_formed o ≡ true
get_elem?-well_formed [] i o h e = absurd (ground (arith, e))
get_elem?-well_formed (y ∷ objects) zero o h e =
    let same : y ≡ o = ground (arith, e) in rw⁻¹ same (ground (arith, h))
get_elem?-well_formed (y ∷ objects) (suc i) o h e =
    get_elem?-well_formed objects i o (ground (arith, h)) e

set_at-well_formed :
    (objects : List Cleanable) (i : ℕ) (x : Cleanable)
    → all_well_formed objects ≡ true
    → well_formed x ≡ true
    → all_well_formed (set_at i x objects) ≡ true
set_at-well_formed [] i x h g = refl
set_at-well_formed (y ∷ objects) zero x h g = simp g (ground (arith, h))
set_at-well_formed (y ∷ objects) (suc i) x h g =
    let first : well_formed y ≡ true = ground (arith, h) in
    simp first (set_at-well_formed objects i x (ground (arith, h)) g)

-- A world of `n` objects.
pub record IsWorld (n : ℕ) (w : World) : Type 0 where
  pub size : length w.objects ≡ n
  pub formed : all_well_formed w.objects ≡ true

IsWorld-set_at :
    (n i : ℕ) (x : Cleanable) (w : World) (ran : List Cleanup)
    → IsWorld n w
    → well_formed x ≡ true
    → IsWorld n (record { objects = set_at i x w.objects; ran = ran })
IsWorld-set_at n i x w ran h g = record {
  size = length-set_at w.objects i x ∙ h.size;
  formed = set_at-well_formed w.objects i x h.formed g;
}

module _ (test : Cleanup → Bool) where
  -- What was run and what is still held; and what an operation loses.
  abbrev pub total : World → ℕ
  total w = count test w.ran + held_all test w.objects

  abbrev pub held_at : ℕ → List Cleanable → ℕ
  held_at i objects = elim (get_elem? objects i) [ none ↦ 0 | some o ↦ held test o ]

  pub held_at_lem :
      (i : ℕ) (objects : List Cleanable) (o : Cleanable)
      → get_elem? objects i ≡ some o
      → held_at i objects ≡ held test o
  held_at_lem i objects o e =
      ap (λ (found : Option Cleanable). elim found [ none ↦ 0 | some o ↦ held test o ]) e

  abbrev pub lost : Op → World → ℕ
  lost (moves i j) w = if i == j then 0 else held_at i w.objects
  lost _ w = 0

object_at :
    (n i : ℕ) (w : World)
    → IsWorld n w
    → i < n
    → (o : Cleanable) × (get_elem? w.objects i ≡ some o) × (well_formed o ≡ true)
object_at n i w h le =
    let (o, e) = get_elem?-some w.objects i (omega (arith, h.size)) in
    (o, e, get_elem?-well_formed w.objects i o h.formed e)

-- An operation that callers may make is done, and it loses only what a move assignment overwrites.
pub run_op_lem :
    (test : Cleanup → Bool) (n : ℕ) (op : Op) (w : World)
    → IsWorld n w
    → valid_op n op ≡ true
    → (w2 : World) × (run_op op w ≡ some w2)
      × IsWorld n w2
      × (total test w2 + lost test op w ≡ total test w + count test (registered (op ∷ [])))
unfolding run_op reset move_assign_to
run_op_lem test n (registers i c) w h v =
    let (o, e, f) = object_at n i w h (ground (arith, v)) in
    let set : is_null c ≡ false = ground (arith, v) in
    let x = with_node c o in
    (
      record w { objects = set_at i x w.objects },
      simp (e, register_cleanup_lem c o set),
      IsWorld-set_at n i x w w.ran h (with_node-well_formed c o set f),
      omega (arith, held_all-set_at test w.objects i o x e, held-with_node test c o set f),
    )
run_op_lem test n (delegates i j) w h v =
    let (this, e, f) = object_at n i w h (ground (arith, v)) in
    let (other, e2, f2) = object_at n j w h (ground (arith, v)) in
    let (this2, other2, d, g, g2, none_left, all) = delegate_cleanups_to_lem this other f f2 in
    let apart : i ≢ j = λ p. absurd (ground (arith, v, p)) in
    let middle = set_at i this2 w.objects in
    let e3 = get_elem?-set_at_other w.objects i j this2 apart ∙ e2 in
    (
      record w { objects = set_at j other2 middle },
      simp (e, e2, d),
      IsWorld-set_at n j other2 (record w { objects = middle }) w.ran
          (IsWorld-set_at n i this2 w w.ran h g) g2,
      omega (
        arith,
        held_all-set_at test w.objects i this this2 e,
        held_all-set_at test middle j other other2 e3,
        all test,
        ap (count test) none_left,
      ),
    )
run_op_lem test n (moves i j) w h v = elim (Bool-cases (i == j)) [
  | inl s ↦ (w, simp s, h, simp s (omega arith))
  | inr s ↦
      let (this, e, f) = object_at n i w h (ground (arith, v)) in
      let (other, e2, f2) = object_at n j w h (ground (arith, v)) in
      let apart : i ≢ j = λ p. absurd (ground (arith, s, p)) in
      let middle = set_at i other w.objects in
      let e3 = get_elem?-set_at_other w.objects i j other apart ∙ e2 in
      (
        record w { objects = set_at j (cleared other) middle },
        simp (s, e, e2),
        IsWorld-set_at n j (cleared other) (record w { objects = middle }) w.ran
            (IsWorld-set_at n i other w w.ran h f2) (cleared-well_formed other),
        simp s (
            omega (
              arith,
              held_all-set_at test w.objects i this other e,
              held_all-set_at test middle j other (cleared other) e3,
              held-cleared test other,
              held_at_lem test i w.objects this e,
            )),
      )
]
run_op_lem test n (resets i) w h v =
    let (o, e, f) = object_at n i w h (ground (arith, v)) in
    (
      record { objects = set_at i (cleared o) w.objects; ran = w.ran ++ chain_of o },
      simp (e, do_cleanup_lem o f),
      IsWorld-set_at n i (cleared o) w (w.ran ++ chain_of o) h (cleared-well_formed o),
      omega (
        arith,
        held_all-set_at test w.objects i o (cleared o) e,
        held-cleared test o,
        count-append test w.ran (chain_of o),
      ),
    )
run_op_lem test n (destroys i) w h v =
    let (o, e, f) = object_at n i w h (ground (arith, v)) in
    (
      record { objects = set_at i (new_cleanable 0 0) w.objects; ran = w.ran ++ chain_of o },
      simp (e, do_cleanup_lem o f),
      IsWorld-set_at n i (new_cleanable 0 0) w (w.ran ++ chain_of o) h
          (new_cleanable-well_formed 0 0),
      omega (
        arith,
        held_all-set_at test w.objects i o (new_cleanable 0 0) e,
        held-new_cleanable test 0 0,
        count-append test w.ran (chain_of o),
      ),
    )
