-- ===== src/Cleanable/World.antt =====
-- Objects with cleanups, and the operations on them. After the destructor a new object takes the
-- place of the old one, so every place holds an object.
use compaction_test.Base.{
  ℕ, zero, suc, ltb, Option, none, some, List, [], ◌∷◌, ◌++◌, Bool, true, ◌==◌, ◌&&◌, not,
  if◌then◌else◌, ◌>>=◌, get_elem?,
}
use compaction_test.Cleanable.{
  Cleanup, Cleanable, is_null, new_cleanable, do_cleanup, reset, register_cleanup,
  delegate_cleanups_to, move_assign_to,
}

-- `ran` are the functions that were called, the first one first.
pub record World : Type 0 where
  pub objects : List Cleanable
  pub ran : List Cleanup

pub data Op : Type 0 where
  registers : ℕ → Cleanup → Op
  delegates moves : ℕ → ℕ → Op
  resets destroys : ℕ → Op

abbrev pub set_at : ℕ → Cleanable → List Cleanable → List Cleanable
set_at i o [] = []
set_at zero o (x ∷ objects) = o ∷ objects
set_at (suc i) o (x ∷ objects) = x ∷ set_at i o objects

unfoldable pub run_op : Op → World → Option World
run_op (registers i c) w = do
  o ← get_elem? w.objects i
  o1 ← register_cleanup c o
  some (record w { objects = set_at i o1 w.objects })
run_op (delegates i j) w = do
  this ← get_elem? w.objects i
  other ← get_elem? w.objects j
  pair ← delegate_cleanups_to this other
  some (record w { objects = set_at j pair.1 (set_at i pair.0 w.objects) })
run_op (moves i j) w = if i == j then some w else do
  this ← get_elem? w.objects i
  other ← get_elem? w.objects j
  let pair = move_assign_to this other
  some (record w { objects = set_at j pair.1 (set_at i pair.0 w.objects) })
run_op (resets i) w = do
  o ← get_elem? w.objects i
  pair ← reset o
  some (record { objects = set_at i pair.0 w.objects; ran = w.ran ++ pair.1 })
run_op (destroys i) w = do
  o ← get_elem? w.objects i
  calls ← do_cleanup o
  some (record { objects = set_at i (new_cleanable 0 0) w.objects; ran = w.ran ++ calls })

unfoldable pub run_ops : List Op → World → Option World
unfolding run_op
run_ops [] w = some w
run_ops (op ∷ ops) w = run_op op w >>= run_ops ops

-- What the callers keep to: places that exist, functions that are not null, and no object that
-- delegates to itself.
abbrev pub valid_op : ℕ → Op → Bool
valid_op n (registers i c) = ltb i n && not (is_null c)
valid_op n (delegates i j) = ltb i n && ltb j n && not (i == j)
valid_op n (moves i j) = ltb i n && ltb j n
valid_op n (resets i) = ltb i n
valid_op n (destroys i) = ltb i n

abbrev pub valid_ops : ℕ → List Op → Bool
valid_ops n [] = true
valid_ops n (op ∷ ops) = valid_op n op && valid_ops n ops

-- The functions that the operations register.
abbrev pub registered : List Op → List Cleanup
registered [] = []
registered (registers i c ∷ ops) = c ∷ registered ops
registered (_ ∷ ops) = registered ops

-- Whether every object that is assigned to holds nothing when it is.
abbrev pub empty_at : ℕ → List Cleanable → Bool
empty_at i objects = elim (get_elem? objects i) [ none ↦ true | some o ↦ is_null o.head ]

abbrev pub overwrites_nothing_op : Op → World → Bool
overwrites_nothing_op (moves i j) w = if i == j then true else empty_at i w.objects
overwrites_nothing_op _ w = true

unfoldable pub overwrites_nothing : List Op → World → Bool
unfolding run_op
overwrites_nothing [] w = true
overwrites_nothing (op ∷ ops) w =
    overwrites_nothing_op op w
    && elim (run_op op w) [ none ↦ true | some w1 ↦ overwrites_nothing ops w1 ]
