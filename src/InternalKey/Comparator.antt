-- ===== src/InternalKey/Comparator.antt =====
-- `InternalKeyComparator` of db_format/dbformat.{h,cc}, and the keys of `InternalKey` and
-- `RangeTombstone`. The user's comparator, which no file of the repository implements, is a
-- parameter: `user` compares (include/comparator.h, `Compare`), and `shorten` and `successor` are its
-- `FindShortestSeparator` and `FindShortSuccessor`.
pub mod Order
pub mod Bounds
pub mod Separator
use Prim.Native.Nat.{Ordering}
use compaction_test.Base.{
  ℕ, ◌+◌, ◌^◌, ◌/◌, assert, Option, none, some, List, [], ◌++◌, Bool, true, false, ◌&&◌, ltb, leb,
  if◌then◌else◌, ◌>>=◌, Bytes, length, ◌>>>◌,
}
use compaction_test.Slice.{Sign, is_eq, is_lt}
use compaction_test.InternalKey.{
  ParsedInternalKey, append_internal_key, append_internal_key_footer, extract_user_key,
  extract_internal_key_footer, max_sequence_number, value_type_for_seek, type_range_deletion,
  type_deletion, parse_internal_key,
}

-- `if (r == 0)` go on with another comparison.
abbrev pub or_else : Sign → Sign → Sign
or_else Ordering.lt s = Ordering.lt
or_else Ordering.eq s = s
or_else Ordering.gt s = Ordering.gt

-- The larger number first.
abbrev pub descending : ℕ → ℕ → Sign
descending a b = if ltb b a then Ordering.lt else if ltb a b then Ordering.gt else Ordering.eq

module _ (user : Bytes → Bytes → Sign) where
  -- `Compare` on parsed keys.
  unfoldable pub compare_parsed : ParsedInternalKey → ParsedInternalKey → Sign
  compare_parsed a b =
      or_else (user a.user_key b.user_key)
        (or_else (descending a.sequence b.sequence) (descending a.type_of b.type_of))

  module _ (little : Bool) where
    -- `Compare` on encoded keys; the numbers are read only where the user keys are equal, and
    -- reading them fails only where a key is too short.
    unfoldable pub compare_encoded : Bytes → Bytes → Option Sign
    compare_encoded akey bkey = do
      ua ← extract_user_key akey
      ub ← extract_user_key bkey
      anum ← extract_internal_key_footer little akey
      bnum ← extract_internal_key_footer little bkey
      some (or_else (user ua ub) (descending anum bnum))

    unfoldable pub compare_key_seq : Bytes → Bytes → Option Sign
    compare_key_seq akey bkey = do
      ua ← extract_user_key akey
      ub ← extract_user_key bkey
      anum ← extract_internal_key_footer little akey
      bnum ← extract_internal_key_footer little bkey
      some (or_else (user ua ub) (descending (anum >>> 8) (bnum >>> 8)))

    -- `*start` afterwards; `none` is a failed assertion.
    unfoldable pub find_shortest_separator : (Bytes → Bytes → Bytes) → Bytes → Bytes → Option Bytes
    find_shortest_separator shorten start limit = do
      user_start ← extract_user_key start
      user_limit ← extract_user_key limit
      let tmp = shorten user_start user_limit
      if leb (length tmp) (length user_start) && is_lt (user user_start tmp)
          then (do
            out ← append_internal_key_footer little tmp max_sequence_number value_type_for_seek
            before ← compare_encoded start out
            after ← compare_encoded out limit
            assert (is_lt before && is_lt after) (some out))
          else some start

    unfoldable pub find_short_successor : (Bytes → Bytes) → Bytes → Option Bytes
    find_short_successor successor key = do
      user_key ← extract_user_key key
      let tmp = successor user_key
      if leb (length tmp) (length user_key) && is_lt (user user_key tmp)
          then (do
            out ← append_internal_key_footer little tmp max_sequence_number value_type_for_seek
            before ← compare_encoded key out
            assert (is_lt before) (some out))
          else some key

module _ (little : Bool) where
  -- `InternalKey(user_key, s, t)`, and the two extreme keys of a user key. `rep_` is empty before.
  unfoldable pub internal_key : Bytes → ℕ → ℕ → Option Bytes
  internal_key u s t =
      append_internal_key little [] (record { user_key = u; sequence = s; type_of = t })

  unfoldable pub set_max_possible_for_user_key : Bytes → Option Bytes
  set_max_possible_for_user_key u =
      append_internal_key little [] (record { user_key = u; sequence = 0; type_of = 0 })

  unfoldable pub set_min_possible_for_user_key : Bytes → Option Bytes
  set_min_possible_for_user_key u =
      append_internal_key little []
        (record { user_key = u; sequence = max_sequence_number; type_of = value_type_for_seek })

pub record RangeTombstone : Type 0 where
  pub start_key : Bytes
  pub end_key : Bytes
  pub seq : ℕ

-- The constructor from a parsed key and the value stored under it.
unfoldable pub tombstone_of : ParsedInternalKey → Bytes → RangeTombstone
tombstone_of k value = record { start_key = k.user_key; end_key = value; seq = k.sequence }

module _ (little : Bool) where
  unfoldable pub serialize_key : RangeTombstone → Option Bytes
  serialize_key t = internal_key little t.start_key t.seq type_range_deletion

  unfoldable pub serialize : RangeTombstone → Option (Bytes × Bytes)
  serialize t = do
    key ← internal_key little t.start_key t.seq type_range_deletion
    some (key, t.end_key)

  unfoldable pub serialize_end_key : RangeTombstone → Option Bytes
  serialize_end_key t = internal_key little t.end_key max_sequence_number type_range_deletion
