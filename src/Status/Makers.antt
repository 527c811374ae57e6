-- ===== src/Status/Makers.antt =====
-- Each function of include/status.h that makes a status, with the test that is its own.
use compaction_test.Base.{Option, none, some, List, [], ◌∷◌, Bool, true, Bytes, All, ◌≡◌, refl}
use compaction_test.Status.{
  Code, SubCode, Status, make, make_special, Argument, only, message, not_found_code,
  corruption_code, not_supported_code, invalid_argument_code, io_error_code, merge_in_progress_code,
  incomplete_code, shutdown_in_progress_code, timed_out_code, aborted_code, busy_code, expired_code,
  try_again_code, compaction_too_large_code, column_family_dropped_code, no_subcode,
  no_space_subcode, memory_limit_subcode, path_not_found_subcode, txn_not_prepared_subcode,
  not_found, corruption, not_supported, invalid_argument, io_error, merge_in_progress, incomplete,
  shutdown_in_progress, aborted, busy, timed_out, expired, try_again, compaction_too_large,
  column_family_dropped, no_space, memory_limit, path_not_found, txn_not_prepared,
}
use compaction_test.Status.Predicates.{
  is_not_found, is_corruption, is_not_supported, is_invalid_argument, is_io_error,
  is_merge_in_progress, is_incomplete, is_shutdown_in_progress, is_timed_out, is_aborted, is_busy,
  is_expired, is_try_again, is_compaction_too_large, is_column_family_dropped, is_no_space,
  is_memory_limit, is_path_not_found, is_txn_not_prepared,
}

-- The functions that make a status of a code, each with its test.
module _ (with_message : Code → SubCode → Bytes → Bytes → Status) where
  abbrev pub makers : List ((Argument → Status) × (Status → Bool))
  makers =
      (not_found with_message, is_not_found)
      ∷ (corruption with_message, is_corruption)
      ∷ (not_supported with_message, is_not_supported)
      ∷ (invalid_argument with_message, is_invalid_argument)
      ∷ (io_error with_message, is_io_error)
      ∷ (merge_in_progress with_message, is_merge_in_progress)
      ∷ (incomplete with_message, is_incomplete)
      ∷ (shutdown_in_progress with_message, is_shutdown_in_progress)
      ∷ (aborted with_message, is_aborted)
      ∷ (busy with_message, is_busy)
      ∷ (timed_out with_message, is_timed_out)
      ∷ (expired with_message, is_expired)
      ∷ (try_again with_message, is_try_again)
      ∷ (compaction_too_large with_message, is_compaction_too_large)
      ∷ (column_family_dropped with_message, is_column_family_dropped)
      ∷ []

  abbrev pub special_makers : List ((Option (Bytes × Bytes) → Status) × (Status → Bool))
  special_makers =
      (no_space with_message, is_no_space)
      ∷ (memory_limit with_message, is_memory_limit)
      ∷ (path_not_found with_message, is_path_not_found)
      ∷ (txn_not_prepared with_message, is_txn_not_prepared)
      ∷ []

  -- If the constructor with a message keeps the code, each of these functions makes a status of
  -- which its own test holds, with a message or a subcode.
  pub makers_lem :
      ((c : Code) (sub : SubCode) (msg msg2 : Bytes) → (with_message c sub msg msg2).code ≡ c)
      → (a : Argument) → All (λ m. m.1 (m.0 a) ≡ true) makers
  unfolding make not_found corruption not_supported invalid_argument io_error merge_in_progress
      incomplete shutdown_in_progress aborted busy timed_out expired try_again compaction_too_large
      column_family_dropped is_not_found is_corruption is_not_supported is_invalid_argument
      is_io_error is_merge_in_progress is_incomplete is_shutdown_in_progress is_aborted is_busy
      is_timed_out is_expired is_try_again is_compaction_too_large is_column_family_dropped
  makers_lem keeps (only sub) = (
    refl,
    (
      refl,
      (
        refl,
        (
          refl,
          (
            refl,
            (refl, (refl, (refl, (refl, (refl, (refl, (refl, (refl, (refl, (refl, tt)))))))))),
          ),
        ),
      ),
    ),
  )
  makers_lem keeps (message msg msg2) =
      let k = λ (c : Code). keeps c no_subcode msg msg2 in
      (
        rw (k not_found_code) refl,
        (
          rw (k corruption_code) refl,
          (
            rw (k not_supported_code) refl,
            (
              rw (k invalid_argument_code) refl,
              (
                rw (k io_error_code) refl,
                (
                  rw (k merge_in_progress_code) refl,
                  (
                    rw (k incomplete_code) refl,
                    (
                      rw (k shutdown_in_progress_code) refl,
                      (
                        rw (k aborted_code) refl,
                        (
                          rw (k busy_code) refl,
                          (
                            rw (k timed_out_code) refl,
                            (
                              rw (k expired_code) refl,
                              (
                                rw (k try_again_code) refl,
                                (
                                  rw (k compaction_too_large_code) refl,
                                  (rw (k column_family_dropped_code) refl, tt),
                                ),
                              ),
                            ),
                          ),
                        ),
                      ),
                    ),
                  ),
                ),
              ),
            ),
          ),
        ),
      )

  -- If that constructor keeps the code and the subcode, each function whose subcode is fixed makes
  -- a status of which its own test holds.
  pub special_makers_lem :
      ((c : Code) (sub : SubCode) (msg msg2 : Bytes)
        → ((with_message c sub msg msg2).code ≡ c) × ((with_message c sub msg msg2).subcode ≡ sub))
      → (a : Option (Bytes × Bytes)) → All (λ m. m.1 (m.0 a) ≡ true) special_makers
  unfolding make_special no_space memory_limit path_not_found txn_not_prepared is_no_space
      is_memory_limit is_path_not_found is_txn_not_prepared
  special_makers_lem keeps none = (refl, (refl, (refl, (refl, tt))))
  special_makers_lem keeps (some (msg, msg2)) = (
    rw
        (
          (keeps io_error_code no_space_subcode msg msg2).0,
          (keeps io_error_code no_space_subcode msg msg2).1,
        )
        refl,
    (
      rw
          (
            (keeps aborted_code memory_limit_subcode msg msg2).0,
            (keeps aborted_code memory_limit_subcode msg msg2).1,
          )
          refl,
      (
        rw
            (
              (keeps io_error_code path_not_found_subcode msg msg2).0,
              (keeps io_error_code path_not_found_subcode msg msg2).1,
            )
            refl,
        (
          rw
              (
                (keeps invalid_argument_code txn_not_prepared_subcode msg msg2).0,
                (keeps invalid_argument_code txn_not_prepared_subcode msg msg2).1,
              )
              refl,
          tt,
        ),
      ),
    ),
  )
