-- ===== src/Status.antt =====
-- include/status.h: the result of an operation. Its state is the message, `none` a null pointer. The
-- constructor that makes a message and `CopyState` are declared there and defined nowhere in the
-- repository: they are parameters of the definitions that call them.
pub mod Predicates
pub mod Kinds
pub mod Makers
pub mod Assign
mod Tests
use compaction_test.Base.{
  ℕ, Option, none, some, Bool, true, false, not, ◌&&◌, ◌==◌, if◌then◌else◌, Bytes,
}
use mathlib.Core.Option

pub data Code : Type 0 where
  ok_code not_found_code corruption_code not_supported_code invalid_argument_code io_error_code
        merge_in_progress_code incomplete_code shutdown_in_progress_code timed_out_code aborted_code
        busy_code expired_code try_again_code compaction_too_large_code column_family_dropped_code :
      Code

pub data SubCode : Type 0 where
  no_subcode mutex_timeout lock_timeout lock_limit no_space_subcode deadlock stale_file
        memory_limit_subcode space_limit_subcode path_not_found_subcode
        merge_operands_insufficient_capacity manual_compaction_paused overwritten
        txn_not_prepared_subcode :
      SubCode

pub data Severity : Type 0 where
  no_error soft_error hard_error fatal_error unrecoverable_error : Severity

-- The values of the enumerators, by which they are compared.
abbrev pub code_value : Code → ℕ
code_value ok_code = 0
code_value not_found_code = 1
code_value corruption_code = 2
code_value not_supported_code = 3
code_value invalid_argument_code = 4
code_value io_error_code = 5
code_value merge_in_progress_code = 6
code_value incomplete_code = 7
code_value shutdown_in_progress_code = 8
code_value timed_out_code = 9
code_value aborted_code = 10
code_value busy_code = 11
code_value expired_code = 12
code_value try_again_code = 13
code_value compaction_too_large_code = 14
code_value column_family_dropped_code = 15

abbrev pub subcode_value : SubCode → ℕ
subcode_value no_subcode = 0
subcode_value mutex_timeout = 1
subcode_value lock_timeout = 2
subcode_value lock_limit = 3
subcode_value no_space_subcode = 4
subcode_value deadlock = 5
subcode_value stale_file = 6
subcode_value memory_limit_subcode = 7
subcode_value space_limit_subcode = 8
subcode_value path_not_found_subcode = 9
subcode_value merge_operands_insufficient_capacity = 10
subcode_value manual_compaction_paused = 11
subcode_value overwritten = 12
subcode_value txn_not_prepared_subcode = 13

pub record Status : Type 0 where
  pub code : Code
  pub subcode : SubCode
  pub severity : Severity
  pub state : Option Bytes

abbrev pub has_code : Status → Code → Bool
has_code s c = code_value s.code == code_value c

abbrev pub has_subcode : Status → SubCode → Bool
has_subcode s c = subcode_value s.subcode == subcode_value c

-- `Status(Code, SubCode)`.
unfoldable pub status_of : Code → SubCode → Status
status_of c sub = record { code = c; subcode = sub; severity = no_error; state = none }

unfoldable pub ok_status : Status
unfolding status_of
ok_status = status_of ok_code no_subcode

unfoldable pub ok_overwritten : Status
unfolding status_of
ok_overwritten = status_of ok_code overwritten

-- What a function that makes a status is given: a subcode, or the two parts of a message.
pub data Argument : Type 0 where
  only : SubCode → Argument
  message : Bytes → Bytes → Argument

-- `Status(Code, SubCode, msg, msg2)` is `with_message`.
module _ (with_message : Code → SubCode → Bytes → Bytes → Status) where
  unfoldable pub make : Code → Argument → Status
  unfolding status_of
  make c (only sub) = status_of c sub
  make c (message msg msg2) = with_message c no_subcode msg msg2

  unfoldable pub not_found : Argument → Status
  unfolding make
  not_found a = make not_found_code a

  unfoldable pub corruption : Argument → Status
  unfolding make
  corruption a = make corruption_code a

  unfoldable pub not_supported : Argument → Status
  unfolding make
  not_supported a = make not_supported_code a

  unfoldable pub invalid_argument : Argument → Status
  unfolding make
  invalid_argument a = make invalid_argument_code a

  unfoldable pub io_error : Argument → Status
  unfolding make
  io_error a = make io_error_code a

  unfoldable pub merge_in_progress : Argument → Status
  unfolding make
  merge_in_progress a = make merge_in_progress_code a

  unfoldable pub incomplete : Argument → Status
  unfolding make
  incomplete a = make incomplete_code a

  unfoldable pub shutdown_in_progress : Argument → Status
  unfolding make
  shutdown_in_progress a = make shutdown_in_progress_code a

  unfoldable pub aborted : Argument → Status
  unfolding make
  aborted a = make aborted_code a

  unfoldable pub busy : Argument → Status
  unfolding make
  busy a = make busy_code a

  unfoldable pub timed_out : Argument → Status
  unfolding make
  timed_out a = make timed_out_code a

  unfoldable pub expired : Argument → Status
  unfolding make
  expired a = make expired_code a

  unfoldable pub try_again : Argument → Status
  unfolding make
  try_again a = make try_again_code a

  unfoldable pub compaction_too_large : Argument → Status
  unfolding make
  compaction_too_large a = make compaction_too_large_code a

  unfoldable pub column_family_dropped : Argument → Status
  unfolding make
  column_family_dropped a = make column_family_dropped_code a

  -- The functions whose subcode is fixed have a message or none.
  unfoldable pub make_special : Code → SubCode → Option (Bytes × Bytes) → Status
  unfolding status_of
  make_special c sub none = status_of c sub
  make_special c sub (some (msg, msg2)) = with_message c sub msg msg2

  unfoldable pub no_space : Option (Bytes × Bytes) → Status
  unfolding make_special
  no_space a = make_special io_error_code no_space_subcode a

  unfoldable pub memory_limit : Option (Bytes × Bytes) → Status
  unfolding make_special
  memory_limit a = make_special aborted_code memory_limit_subcode a

  unfoldable pub space_limit : Option (Bytes × Bytes) → Status
  unfolding make_special
  space_limit a = make_special io_error_code space_limit_subcode a

  unfoldable pub path_not_found : Option (Bytes × Bytes) → Status
  unfolding make_special
  path_not_found a = make_special io_error_code path_not_found_subcode a

  unfoldable pub txn_not_prepared : Option (Bytes × Bytes) → Status
  unfolding make_special
  txn_not_prepared a = make_special invalid_argument_code txn_not_prepared_subcode a

-- `operator==` compares the codes only.
unfoldable pub equal_status : Status → Status → Bool
equal_status a b = has_code a b.code

-- The objects by their addresses. An assignment of an object to itself does nothing; `copy` is
-- `CopyState`.
abbrev pub Objects : Type 0
Objects = ℕ → Status

abbrev pub put_object : Objects → ℕ → Status → Objects
put_object objects i s j = if j == i then s else objects j

unfoldable pub copy_status : (Bytes → Bytes) → Status → Status
copy_status copy s = record s { state = Option.map copy s.state }

unfoldable pub copy_with_severity : (Bytes → Bytes) → Status → Severity → Status
copy_with_severity copy s sev = record s { severity = sev; state = Option.map copy s.state }

unfoldable pub copy_assign : (Bytes → Bytes) → Objects → ℕ → ℕ → Objects
copy_assign copy objects this s =
    if not (this == s)
    then put_object objects this (record (objects s) { state = Option.map copy (objects s).state })
    else objects

unfoldable pub move_assign : Objects → ℕ → ℕ → Objects
unfolding status_of
move_assign objects this s =
    if not (this == s)
    then put_object (put_object objects this (objects s)) s
        (record { code = ok_code; subcode = no_subcode; severity = no_error; state = none })
    else objects

-- The move constructor makes a success and assigns to it.
unfoldable pub move_status : Objects → ℕ → ℕ → Objects
unfolding move_assign ok_status
move_status objects this s = move_assign (put_object objects this ok_status) this s
