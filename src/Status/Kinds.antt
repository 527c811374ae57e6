-- ===== src/Status/Kinds.antt =====
-- Which tests of include/status.h hold of which status.
use compaction_test.Base.{
  not, ◌||◌, ℕ, ◌+◌, Option, List, [], ◌∷◌, Bool, true, false, ◌&&◌, Bytes, if◌then◌else◌, All, ◌≡◌,
  refl,
}
use compaction_test.Status.{
  Code, SubCode, Severity, Status, has_code, has_subcode, ok_code, not_found_code, corruption_code,
  not_supported_code, invalid_argument_code, io_error_code, merge_in_progress_code, incomplete_code,
  shutdown_in_progress_code, timed_out_code, aborted_code, busy_code, expired_code, try_again_code,
  compaction_too_large_code, column_family_dropped_code, lock_limit, no_space_subcode, deadlock,
  memory_limit_subcode, path_not_found_subcode, manual_compaction_paused, txn_not_prepared_subcode,
}
use compaction_test.Status.Predicates.{
  is_ok, is_not_found, is_corruption, is_not_supported, is_invalid_argument, is_io_error,
  is_merge_in_progress, is_incomplete, is_shutdown_in_progress, is_timed_out, is_aborted, is_busy,
  is_expired, is_try_again, is_compaction_too_large, is_column_family_dropped, is_lock_limit,
  is_deadlock, is_no_space, is_memory_limit, is_path_not_found, is_manual_compaction_paused,
  is_txn_not_prepared,
}

-- The tests of the code alone.
abbrev pub code_tests : List (Status → Bool)
code_tests =
    is_ok ∷ is_not_found ∷ is_corruption ∷ is_not_supported ∷ is_invalid_argument ∷ is_io_error
    ∷ is_merge_in_progress ∷ is_incomplete ∷ is_shutdown_in_progress ∷ is_timed_out ∷ is_aborted
    ∷ is_busy ∷ is_expired ∷ is_try_again ∷ is_compaction_too_large ∷ is_column_family_dropped ∷ []

abbrev pub count_true : List (Status → Bool) → Status → ℕ
count_true [] s = 0
count_true (test ∷ tests) s = (if test s then 1 else 0) + count_true tests s

-- Of the sixteen tests that read only the code, exactly one holds of any status.
pub code_tests_exclusive : (s : Status) → count_true code_tests s ≡ 1
unfolding is_ok is_not_found is_corruption is_not_supported is_invalid_argument is_io_error
    is_merge_in_progress is_incomplete is_shutdown_in_progress is_timed_out is_aborted is_busy
    is_expired is_try_again is_compaction_too_large is_column_family_dropped
code_tests_exclusive s = go s.code s.subcode s.severity s.state
  where
    go :
        (c : Code) (sub : SubCode) (sev : Severity) (state : Option Bytes)
        → count_true code_tests (record { code = c; subcode = sub; severity = sev; state = state })
          ≡ 1
    go ok_code sub sev state = refl
    go not_found_code sub sev state = refl
    go corruption_code sub sev state = refl
    go not_supported_code sub sev state = refl
    go invalid_argument_code sub sev state = refl
    go io_error_code sub sev state = refl
    go merge_in_progress_code sub sev state = refl
    go incomplete_code sub sev state = refl
    go shutdown_in_progress_code sub sev state = refl
    go timed_out_code sub sev state = refl
    go aborted_code sub sev state = refl
    go busy_code sub sev state = refl
    go expired_code sub sev state = refl
    go try_again_code sub sev state = refl
    go compaction_too_large_code sub sev state = refl
    go column_family_dropped_code sub sev state = refl

-- A test of a subcode, with the test of the code that it refines.
abbrev pub refinements : List ((Status → Bool) × (Status → Bool))
refinements =
    (is_lock_limit, is_aborted)
    ∷ (is_deadlock, is_busy)
    ∷ (is_no_space, is_io_error)
    ∷ (is_memory_limit, is_aborted)
    ∷ (is_path_not_found, is_io_error)
    ∷ (is_manual_compaction_paused, is_incomplete)
    ∷ (is_txn_not_prepared, is_invalid_argument)
    ∷ []

and_first : (a b : Bool) → (not (a && b) || a) ≡ true
and_first true true = refl
and_first true false = refl
and_first false b = refl

-- Each test of a subcode holds only of statuses of the code that it belongs to.
pub refinements_lem : (s : Status) → All (λ r. (not (r.0 s) || r.1 s) ≡ true) refinements
unfolding is_ok is_not_found is_corruption is_not_supported is_invalid_argument is_io_error
    is_merge_in_progress is_incomplete is_shutdown_in_progress is_timed_out is_aborted is_busy
    is_expired is_try_again is_compaction_too_large is_column_family_dropped is_lock_limit
    is_deadlock is_no_space is_memory_limit is_path_not_found is_manual_compaction_paused
    is_txn_not_prepared
refinements_lem s = (
  and_first (has_code s aborted_code) (has_subcode s lock_limit),
  (
    and_first (has_code s busy_code) (has_subcode s deadlock),
    (
      and_first (has_code s io_error_code) (has_subcode s no_space_subcode),
      (
        and_first (has_code s aborted_code) (has_subcode s memory_limit_subcode),
        (
          and_first (has_code s io_error_code) (has_subcode s path_not_found_subcode),
          (
            and_first (has_code s incomplete_code) (has_subcode s manual_compaction_paused),
            (
              and_first (has_code s invalid_argument_code) (has_subcode s txn_not_prepared_subcode),
              tt,
            ),
          ),
        ),
      ),
    ),
  ),
)
