-- ===== src/Port/Tests.antt =====
-- A run of one thread, on a mutex that notes its owner.
use compaction_test.Base.{ℕ, Option, none, some, true, ◌≡◌, ◌↔◌, refl}
use compaction_test.Port.{
  outside, acquired, holding, put_place, System, assert_held, lock_takes, sets, Steps, start, step,
  new_mutex,
}
use compaction_test.Port.Mutex.{assert_held_iff}

abbrev Owner : Type 0
Owner = Option ℕ

abbrev Takes : Owner → ℕ → Owner → Type 0
Takes m t m2 = (m ≡ none) × (m2 ≡ some t)

abbrev Gives : Owner → ℕ → Owner → Type 0
Gives m t m2 = (m ≡ some t) × (m2 ≡ none)

abbrev locked_by_3 : System Owner
locked_by_3 = record {
  mutex = some 3;
  locked = true;
  places = put_place 3 holding (put_place 3 acquired (λ t. outside));
}

lock_run : Steps Owner Takes Gives (new_mutex Owner Takes Gives none) locked_by_3
unfolding new_mutex
lock_run = step (step start (lock_takes 3 refl (refl, refl))) (sets 3 refl)

assert_held_iff_example :
    (assert_held locked_by_3 ≡ true) ↔ ((i : ℕ) × (locked_by_3.places i ≡ holding))
assert_held_iff_example =
    assert_held_iff Owner Takes Gives (λ m. m) (λ m t m2 h. h) none locked_by_3 lock_run
