-- ===== src/Slice/Pinnable.antt =====
-- `PinnableSlice` of include/slice.h and utils/slice.cc: a slice that either is pinned in memory of
-- another owner, with cleanups that let it go, or is the content of a string. `none` is a failed
-- assertion or an exception of the string.
pub mod Laws
mod Tests
use compaction_test.Base.{
  assert, ℕ, ◌+◌, ◌-◌, Option, none, some, List, [], ◌++◌, Bool, true, false, not, leb,
  if◌then◌else◌, ◌>>=◌, Bytes, length, take, drop,
}
use compaction_test.Cleanable.{
  Cleanup, Cleanable, new_cleanable, reset, register_cleanup, delegate_cleanups_to, move_assign_to,
}

-- `external` is the string that `buf_` points to, when that is not `self_space_`.
pub record PinnableSlice : Type 0 where
  pub bytes : Bytes
  pub self_space : Bytes
  pub external : Option Bytes
  pub pinned : Bool
  pub cleanups : Cleanable

unfoldable pub new_pinnable_slice : Option Bytes → PinnableSlice
new_pinnable_slice buf = record {
  bytes = [];
  self_space = [];
  external = buf;
  pinned = false;
  cleanups = new_cleanable 0 0;
}

-- `*buf_`.
abbrev pub get_self : PinnableSlice → Bytes
get_self p = elim p.external [ none ↦ p.self_space | some buf ↦ buf ]

abbrev pub set_self : Bytes → PinnableSlice → PinnableSlice
set_self buf p = elim p.external [
  | none ↦ record p { self_space = buf }
  | some _ ↦ record p { external = some buf }
]

unfoldable pub pin_slice : Bytes → Cleanup → PinnableSlice → Option PinnableSlice
pin_slice s c p = assert (not p.pinned) (do
  cleanups ← register_cleanup c p.cleanups
  some (record p { bytes = s; pinned = true; cleanups = cleanups }))

-- The cleanups of another object become those of the slice; the result has that object too.
unfoldable pub pin_slice_from :
    Bytes → Cleanable → PinnableSlice → Option (Cleanable × PinnableSlice)
pin_slice_from s cleanable p = assert (not p.pinned) (do
  pair ← delegate_cleanups_to cleanable p.cleanups
  some (pair.0, record p { bytes = s; pinned = true; cleanups = pair.1 }))

unfoldable pub pin_self_slice : Bytes → PinnableSlice → Option PinnableSlice
pin_self_slice slice p = assert (not p.pinned) (some (record (set_self slice p) { bytes = slice }))

unfoldable pub pin_self : PinnableSlice → Option PinnableSlice
pin_self p = assert (not p.pinned) (some (record p { bytes = get_self p }))

-- `std::string::erase`.
abbrev pub erase : ℕ → ℕ → Bytes → Option Bytes
erase pos n buf = if leb pos (length buf) then some (take pos buf ++ drop (pos + n) buf) else none

unfoldable pub pinnable_remove_suffix : ℕ → PinnableSlice → Option PinnableSlice
unfolding pin_self
pinnable_remove_suffix n p = assert (leb n (length p.bytes)) (
    if p.pinned
    then some (record p { bytes = take (length p.bytes - n) p.bytes })
    else do buf ← erase (length p.bytes - n) n (get_self p); pin_self (set_self buf p))

unfoldable pub pinnable_remove_prefix : ℕ → PinnableSlice → Option PinnableSlice
unfolding pin_self
pinnable_remove_prefix n p = assert (leb n (length p.bytes)) (
    if p.pinned
    then some (record p { bytes = drop n p.bytes })
    else do buf ← erase 0 n (get_self p); pin_self (set_self buf p))

-- The slice afterwards, and the calls that are made.
unfoldable pub pinnable_reset : PinnableSlice → Option (PinnableSlice × List Cleanup)
unfolding reset
pinnable_reset p = do
  pair ← reset p.cleanups
  some (record p { bytes = []; pinned = false; cleanups = pair.0 }, pair.1)

-- What the assignment takes over besides the cleanups.
abbrev pub taken_over : PinnableSlice → PinnableSlice → PinnableSlice
taken_over this other =
    if other.pinned
    then record this { bytes = other.bytes; pinned = true }
    else elim other.external [
      | none ↦ record this {
        bytes = take (length other.bytes) other.self_space;
        self_space = other.self_space;
        external = none;
        pinned = false;
      }
      | some buf ↦ record this { bytes = other.bytes; external = some buf; pinned = false }
    ]

-- The two slices are not the same one. The result is this slice, the other one, and the calls.
unfoldable pub pinnable_move_assign :
    PinnableSlice → PinnableSlice → Option (PinnableSlice × PinnableSlice × List Cleanup)
unfolding move_assign_to pin_self
pinnable_move_assign this other = do
  pair ← reset this.cleanups
  let moved = move_assign_to pair.0 other.cleanups
  other1 ←
      pin_self
        (record other { self_space = []; external = none; pinned = false; cleanups = moved.1 })
  some (record (taken_over this other) { cleanups = moved.0 }, other1, pair.1)
