-- ===== src/Cleanable/Tests.antt =====
-- The theorems on cleanups at concrete operations.
use compaction_test.Base.{ℕ, some, List, [], ◌∷◌, Bool, ◌==◌, ◌+◌, ◌≡◌, refl}
use compaction_test.Cleanable.{
  Cleanup, register_cleanup, delegate_cleanups_to, new_cleanable, do_cleanup, move_assign_to,
}
use compaction_test.Cleanable.World.{
  World, Op, registers, delegates, moves, destroys, run_ops, registered, overwrites_nothing,
}
use compaction_test.Cleanable.Counts.{count, held_all}
use compaction_test.Cleanable.Once.{new_world, exactly_once}

abbrev close_file : ℕ → Cleanup
close_file n = record { function = 64; arg1 = n; arg2 = 0 }

-- Two are registered and delegated to an object that holds one; that one is moved to a third, which
-- is destroyed.
abbrev ops : List Op
ops =
    registers 0 (close_file 1)
    ∷ registers 0 (close_file 2)
    ∷ registers 1 (close_file 3)
    ∷ delegates 0 1
    ∷ moves 2 1
    ∷ registers 0 (close_file 4)
    ∷ destroys 2
    ∷ []

-- An assignment to an object that still holds a cleanup.
abbrev overwriting : List Op
overwriting = registers 0 (close_file 1) ∷ registers 1 (close_file 2) ∷ moves 0 1 ∷ destroys 0 ∷ []

abbrev closes : Cleanup → Bool
closes c = c.function == 64

exactly_once_example :
    (w : World) × (run_ops ops (new_world 3) ≡ some w)
    × (count closes w.ran + held_all closes w.objects ≡ count closes (registered ops))
unfolding run_ops overwrites_nothing register_cleanup delegate_cleanups_to new_cleanable do_cleanup
    move_assign_to
exactly_once_example = exactly_once closes 3 ops refl refl
