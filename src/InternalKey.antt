-- ===== src/InternalKey.antt =====
-- db_format/dbformat.h, db_format/dbformat.cc and db_format/types.h: internal keys. A `ValueType`
-- is its byte, since any byte is cast to one; `none` is a failed assertion.
pub mod Pack
pub mod Bijection
pub mod RoundTrip
pub mod Timestamp
pub mod Comparator
pub mod IterKey
pub mod Transform
pub mod Text
mod Tests
use compaction_test.Base.{
  ℕ, zero, suc, ◌+◌, ◌-◌, ◌*◌, ◌/◌, ◌%◌, ◌^◌, Option, none, some, List, [], ◌∷◌, ◌++◌, Bool, true,
  false, not, ◌&&◌, ◌||◌, ltb, leb, ◌==◌, if◌then◌else◌, Bytes, length, take, drop, u64, bit_and,
  bit_or, ◌<<<◌, ◌>>>◌,
}
use compaction_test.Coding.{decode_fixed64, put_fixed64, encode_fixed64}
use mathlib.Core.Option

-- The enumerators of `ValueType`.
abbrev pub type_deletion : ℕ
type_deletion = 0x0

abbrev pub type_value : ℕ
type_value = 0x1

abbrev pub type_merge : ℕ
type_merge = 0x2

abbrev pub type_single_deletion : ℕ
type_single_deletion = 0x7

abbrev pub type_range_deletion : ℕ
type_range_deletion = 0xF

abbrev pub type_blob_index : ℕ
type_blob_index = 0x11

abbrev pub type_deletion_with_timestamp : ℕ
type_deletion_with_timestamp = 0x14

abbrev pub value_type_for_seek : ℕ
value_type_for_seek = type_deletion_with_timestamp

abbrev pub value_type_for_seek_for_prev : ℕ
value_type_for_seek_for_prev = type_deletion

unfoldable pub is_value_type : ℕ → Bool
is_value_type t =
    leb t type_merge
    || t == type_single_deletion
    || t == type_blob_index
    || type_deletion_with_timestamp == t

unfoldable pub is_extended_value_type : ℕ → Bool
unfolding is_value_type
is_extended_value_type t = is_value_type t || t == type_range_deletion

abbrev pub max_sequence_number : ℕ
max_sequence_number = 2 ^ 56 - 1

pub record ParsedInternalKey : Type 0 where
  pub user_key : Bytes
  pub sequence : ℕ
  pub type_of : ℕ

-- The constructor with no argument leaves the type unset; the model's value for it is a parameter.
unfoldable pub unset_key : ℕ → ParsedInternalKey
unset_key t = record { user_key = []; sequence = max_sequence_number; type_of = t }

unfoldable pub clear_key : ParsedInternalKey → ParsedInternalKey
clear_key k = record { user_key = []; sequence = 0; type_of = type_deletion }

unfoldable pub internal_key_encoding_length : ParsedInternalKey → ℕ
internal_key_encoding_length key = length key.user_key + 8

-- The word of a sequence number and a type, with the assertions of `PackSequenceAndType`.
unfoldable pub pack : ℕ → ℕ → ℕ
pack seq t = bit_or (u64 (seq <<< 8)) t

unfoldable pub pack_sequence_and_type : ℕ → ℕ → Option ℕ
unfolding pack is_extended_value_type
pack_sequence_and_type seq t =
    if leb seq max_sequence_number && is_extended_value_type t then some (pack seq t) else none

unfoldable pub unpack_sequence_and_type : ℕ → Option (ℕ × ℕ)
unfolding is_extended_value_type
unpack_sequence_and_type packed =
    let seq = packed >>> 8 in
    let t = bit_and packed 0xff in
    if leb seq max_sequence_number && is_extended_value_type t then some (seq, t) else none

-- The entry types of db_format/types.h.
pub data EntryType : Type 0 where
  put delete single_delete merge range_deletion blob_index other : EntryType

unfoldable pub get_entry_type : ℕ → EntryType
get_entry_type t =
    if t == type_value
    then put
    else if t == type_deletion
    then delete
    else if t == type_single_deletion
    then single_delete
    else if t == type_merge
    then merge
    else if t == type_range_deletion
    then range_deletion
    else if t == type_blob_index
    then blob_index
    else other

pub record FullKey : Type 0 where
  pub user_key : Bytes
  pub sequence : ℕ
  pub type_of : EntryType

module _ (little : Bool) where
  unfoldable pub append_internal_key_footer : Bytes → ℕ → ℕ → Option Bytes
  append_internal_key_footer result s t =
      Option.map (λ word. put_fixed64 little result word) (pack_sequence_and_type s t)

  unfoldable pub append_internal_key : Bytes → ParsedInternalKey → Option Bytes
  append_internal_key result key =
      Option.map (λ word. put_fixed64 little (result ++ key.user_key) word)
        (pack_sequence_and_type key.sequence key.type_of)

  -- The last `ts.size()` bytes of the user key give way to `ts`.
  unfoldable pub append_internal_key_with_different_timestamp :
      Bytes → ParsedInternalKey → Bytes → Option Bytes
  append_internal_key_with_different_timestamp result key ts =
      if leb (length ts) (length key.user_key)
      then Option.map
          (λ word.
            put_fixed64 little (result ++ take (length key.user_key - length ts) key.user_key ++ ts)
              word)
          (pack_sequence_and_type key.sequence key.type_of)
      else none

  -- `DecodeFixed64(internal_key.data() + n - 8)`, with the assertion on the size.
  unfoldable pub extract_internal_key_footer : Bytes → Option ℕ
  extract_internal_key_footer key =
      if leb 8 (length key) then decode_fixed64 little (drop (length key - 8) key) else none

  unfoldable pub extract_value_type : Bytes → Option ℕ
  unfolding extract_internal_key_footer
  extract_value_type key = Option.map (λ num. bit_and num 0xff) (extract_internal_key_footer key)

  unfoldable pub get_internal_key_seqno : Bytes → Option ℕ
  unfolding extract_internal_key_footer
  get_internal_key_seqno key = Option.map (λ num. num >>> 8) (extract_internal_key_footer key)

  -- The fields that `ParseInternalKey` stores, and its result. A key that is too short stores none.
  abbrev parsed_of : Bytes → ℕ → ParsedInternalKey
  parsed_of key num = record {
    user_key = take (length key - 8) key;
    sequence = num >>> 8;
    type_of = bit_and num 0xff;
  }

  unfoldable pub parse_internal_key : Bytes → ParsedInternalKey → ParsedInternalKey × Bool
  unfolding is_extended_value_type
  parse_internal_key key result =
      if ltb (length key) 8
      then (result, false)
      else (elim (decode_fixed64 little (drop (length key - 8) key)) [
        | none ↦ (result, false)
        | some num ↦ (parsed_of key num, is_extended_value_type (bit_and num 0xff))
      ])

  -- `UpdateInternalKey`: the footer is overwritten, with no check of the new values.
  unfoldable pub update_internal_key : Bytes → ℕ → ℕ → Option Bytes
  unfolding pack
  update_internal_key ikey seq t =
      if leb 8 (length ikey)
      then some (take (length ikey - 8) ikey ++ encode_fixed64 little (pack seq t))
      else none

  unfoldable pub parse_full_key : Bytes → ℕ → Option FullKey
  unfolding parse_internal_key unset_key get_entry_type
  parse_full_key key unset =
      let (ikey, ok) = parse_internal_key key (unset_key unset) in
      if not ok
      then none
      else some (record {
        user_key = ikey.user_key;
        sequence = ikey.sequence;
        type_of = get_entry_type ikey.type_of;
      })

unfoldable pub extract_user_key : Bytes → Option Bytes
extract_user_key key = if leb 8 (length key) then some (take (length key - 8) key) else none

unfoldable pub extract_user_key_and_strip_timestamp : Bytes → ℕ → Option Bytes
extract_user_key_and_strip_timestamp key ts_sz =
    if leb (8 + ts_sz) (length key) then some (take (length key - 8 - ts_sz) key) else none

unfoldable pub strip_timestamp_from_user_key : Bytes → ℕ → Option Bytes
strip_timestamp_from_user_key key ts_sz =
    if leb ts_sz (length key) then some (take (length key - ts_sz) key) else none

unfoldable pub extract_timestamp_from_user_key : Bytes → ℕ → Option Bytes
extract_timestamp_from_user_key key ts_sz =
    if leb ts_sz (length key) then some (take ts_sz (drop (length key - ts_sz) key)) else none
