-- ===== src/Status/Predicates.antt =====
-- The tests of include/status.h. Their assertions on unchecked results are left out, as in a build
-- without ROCKSDB_ASSERT_STATUS_CHECKED.
use compaction_test.Base.{Bool, ◌&&◌}
use compaction_test.Status.{
  Status, has_code, has_subcode, ok_code, not_found_code, corruption_code, not_supported_code,
  invalid_argument_code, io_error_code, merge_in_progress_code, incomplete_code,
  shutdown_in_progress_code, timed_out_code, aborted_code, busy_code, expired_code, try_again_code,
  compaction_too_large_code, column_family_dropped_code, deadlock, lock_limit,
  manual_compaction_paused, memory_limit_subcode, no_space_subcode, overwritten,
  path_not_found_subcode, txn_not_prepared_subcode,
}

unfoldable pub is_ok : Status → Bool
is_ok s = has_code s ok_code

unfoldable pub is_ok_overwritten : Status → Bool
is_ok_overwritten s = has_code s ok_code && has_subcode s overwritten

unfoldable pub is_not_found : Status → Bool
is_not_found s = has_code s not_found_code

unfoldable pub is_corruption : Status → Bool
is_corruption s = has_code s corruption_code

unfoldable pub is_not_supported : Status → Bool
is_not_supported s = has_code s not_supported_code

unfoldable pub is_invalid_argument : Status → Bool
is_invalid_argument s = has_code s invalid_argument_code

unfoldable pub is_io_error : Status → Bool
is_io_error s = has_code s io_error_code

unfoldable pub is_merge_in_progress : Status → Bool
is_merge_in_progress s = has_code s merge_in_progress_code

unfoldable pub is_incomplete : Status → Bool
is_incomplete s = has_code s incomplete_code

unfoldable pub is_shutdown_in_progress : Status → Bool
is_shutdown_in_progress s = has_code s shutdown_in_progress_code

unfoldable pub is_timed_out : Status → Bool
is_timed_out s = has_code s timed_out_code

unfoldable pub is_aborted : Status → Bool
is_aborted s = has_code s aborted_code

unfoldable pub is_busy : Status → Bool
is_busy s = has_code s busy_code

unfoldable pub is_expired : Status → Bool
is_expired s = has_code s expired_code

unfoldable pub is_try_again : Status → Bool
is_try_again s = has_code s try_again_code

unfoldable pub is_compaction_too_large : Status → Bool
is_compaction_too_large s = has_code s compaction_too_large_code

unfoldable pub is_column_family_dropped : Status → Bool
is_column_family_dropped s = has_code s column_family_dropped_code

unfoldable pub is_lock_limit : Status → Bool
is_lock_limit s = has_code s aborted_code && has_subcode s lock_limit

unfoldable pub is_deadlock : Status → Bool
is_deadlock s = has_code s busy_code && has_subcode s deadlock

unfoldable pub is_no_space : Status → Bool
is_no_space s = has_code s io_error_code && has_subcode s no_space_subcode

unfoldable pub is_memory_limit : Status → Bool
is_memory_limit s = has_code s aborted_code && has_subcode s memory_limit_subcode

unfoldable pub is_path_not_found : Status → Bool
is_path_not_found s = has_code s io_error_code && has_subcode s path_not_found_subcode

unfoldable pub is_manual_compaction_paused : Status → Bool
is_manual_compaction_paused s = has_code s incomplete_code && has_subcode s manual_compaction_paused

unfoldable pub is_txn_not_prepared : Status → Bool
is_txn_not_prepared s = has_code s invalid_argument_code && has_subcode s txn_not_prepared_subcode
