-- ===== src/Cleanable/Once.antt =====
-- Every cleanup that is registered is run once, unless a move assignment overwrites it.
use compaction_test.Base.{
  ℕ, zero, suc, ◌+◌, ◌≤◌, Option, none, some, List, [], ◌∷◌, Bool, true, ◌==◌, Bool-cases, inl, inr,
  replicate, length-replicate, get_elem?, ◌≡◌, refl, arith,
}
use compaction_test.Cleanable.{Cleanup, Cleanable, is_null, new_cleanable}
use compaction_test.Cleanable.World.{
  World, Op, registers, delegates, moves, resets, destroys, run_ops, valid_ops, registered,
  overwrites_nothing, overwrites_nothing_op,
}
use compaction_test.Cleanable.Counts.{count, held, held_all}
use compaction_test.Cleanable.Chains.{new_cleanable-well_formed, held-new_cleanable}
use compaction_test.Cleanable.Step.{IsWorld, all_well_formed, total, lost, run_op_lem}

abbrev pub new_world : ℕ → World
new_world n = record { objects = replicate n (new_cleanable 0 0); ran = [] }

new_world-formed : (n : ℕ) → all_well_formed (replicate n (new_cleanable 0 0)) ≡ true
new_world-formed zero = refl
new_world-formed (suc n) = simp (new_cleanable-well_formed 0 0) (new_world-formed n)

new_world-IsWorld : (n : ℕ) → IsWorld n (new_world n)
new_world-IsWorld n = record {
  size = length-replicate n (new_cleanable 0 0);
  formed = new_world-formed n;
}

module _ (test : Cleanup → Bool) where
  held_all-new_world : (n : ℕ) → held_all test (replicate n (new_cleanable 0 0)) ≡ 0
  held_all-new_world zero = refl
  held_all-new_world (suc n) = omega (arith, held-new_cleanable test 0 0, held_all-new_world n)

  count-registered :
      (op : Op) (ops : List Op)
      → count test (registered (op ∷ ops))
        ≡ count test (registered (op ∷ [])) + count test (registered ops)
  count-registered (registers i c) ops = omega arith
  count-registered (delegates i j) ops = omega arith
  count-registered (moves i j) ops = omega arith
  count-registered (resets i) ops = omega arith
  count-registered (destroys i) ops = omega arith

  run_ops-total :
      (n : ℕ) (ops : List Op) (w : World)
      → IsWorld n w
      → valid_ops n ops ≡ true
      → (w2 : World) × (run_ops ops w ≡ some w2)
        × IsWorld n w2
        × (total test w2 ≤ total test w + count test (registered ops))
  unfolding run_ops
  run_ops-total n [] w h v = (w, refl, h, omega arith)
  run_ops-total n (op ∷ ops) w h v =
      let (w1, e, h1, t) = run_op_lem test n op w h (ground (arith, v)) in
      let (w2, e2, h2, t2) = run_ops-total n ops w1 h1 (ground (arith, v)) in
      (w2, simp (e, e2), h2, omega (arith, count-registered op ops))

  nothing_held :
      (found : Option Cleanable)
      → ◌≡◌ {A = Bool} (elim found [ none ↦ true | some o ↦ is_null o.head ]) true
      → ◌≡◌ {A = ℕ} (elim found [ none ↦ 0 | some o ↦ held test o ]) 0
  nothing_held none h = refl
  nothing_held (some o) h = simp h

  nothing_lost : (op : Op) (w : World) → overwrites_nothing_op op w ≡ true → lost test op w ≡ 0
  nothing_lost (registers i c) w h = refl
  nothing_lost (delegates i j) w h = refl
  nothing_lost (moves i j) w h = elim (Bool-cases (i == j)) [
    | inl s ↦ simp s
    | inr s ↦ simp s (nothing_held (get_elem? w.objects i) (simp s at h))
  ]
  nothing_lost (resets i) w h = refl
  nothing_lost (destroys i) w h = refl

  run_ops-kept :
      (n : ℕ) (ops : List Op) (w : World)
      → IsWorld n w
      → valid_ops n ops ≡ true
      → overwrites_nothing ops w ≡ true
      → (w2 : World) × (run_ops ops w ≡ some w2)
        × (total test w2 ≡ total test w + count test (registered ops))
  unfolding run_ops overwrites_nothing
  run_ops-kept n [] w h v o = (w, refl, omega arith)
  run_ops-kept n (op ∷ ops) w h v o =
      let (w1, e, h1, t) = run_op_lem test n op w h (ground (arith, v)) in
      let first : overwrites_nothing_op op w ≡ true = ground (arith, o) in
      let rest : overwrites_nothing ops w1 ≡ true = simp (first, e) at o in
      let (w2, e2, t2) = run_ops-kept n ops w1 h1 (ground (arith, v)) rest in
      (w2, simp (e, e2), omega (arith, count-registered op ops, nothing_lost op w first))

-- Any operations on `n` new objects, on places that exist and with functions that are not null,
-- are done: no null pointer is called. Of the cleanups that pass a test, those that were run and
-- those that are still held are together no more than those that were registered: none is run twice.
pub at_most_once :
    (test : Cleanup → Bool) (n : ℕ) (ops : List Op)
    → valid_ops n ops ≡ true
    → (w : World) × (run_ops ops (new_world n) ≡ some w)
      × (count test w.ran + held_all test w.objects ≤ count test (registered ops))
at_most_once test n ops v =
    let (w, e, h, t) = run_ops-total test n ops (new_world n) (new_world-IsWorld n) v in
    (w, e, omega (arith, held_all-new_world test n))

-- Any operations on `n` new objects, on places that exist and with functions that are not null,
-- where every object that is assigned to holds no cleanup at that moment, are done: no null pointer
-- is called. Of the cleanups that pass a test, those that were run and those that are still held are
-- together as many as were registered: none is lost, and none is run twice.
pub exactly_once :
    (test : Cleanup → Bool) (n : ℕ) (ops : List Op)
    → valid_ops n ops ≡ true
    → overwrites_nothing ops (new_world n) ≡ true
    → (w : World) × (run_ops ops (new_world n) ≡ some w)
      × (count test w.ran + held_all test w.objects ≡ count test (registered ops))
exactly_once test n ops v o =
    let (w, e, t) = run_ops-kept test n ops (new_world n) (new_world-IsWorld n) v o in
    (w, e, omega (arith, held_all-new_world test n))
