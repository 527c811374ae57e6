-- ===== src/InternalKey/Text.antt =====
-- The texts of keys in db_format/dbformat.cc, and the small functions of `InternalKey` in
-- db_format/dbformat.h. `unset` is what a type holds before a key is parsed.
use compaction_test.Base.{
  ℕ, ◌==◌, assert, Option, some, [], ◌∷◌, ◌++◌, Bool, true, not, if◌then◌else◌, Bytes, length, ◌≡◌,
  ap,
}
use compaction_test.Slice.{to_string}
use compaction_test.Strings.Digits.{digits}
use compaction_test.Strings.Text.{append_escaped_string_to}
use compaction_test.InternalKey.{
  ParsedInternalKey, unset_key, parse_internal_key, append_internal_key, append_internal_key_footer,
}
use compaction_test.InternalKey.RoundTrip.{parse-append}

-- The texts "' seq:", ", type:" and "(bad)".
abbrev seq_text : Bytes
seq_text = 39 ∷ 32 ∷ 115 ∷ 101 ∷ 113 ∷ 58 ∷ []

abbrev type_text : Bytes
type_text = 44 ∷ 32 ∷ 116 ∷ 121 ∷ 112 ∷ 101 ∷ 58 ∷ []

abbrev bad_text : Bytes
bad_text = 40 ∷ 98 ∷ 97 ∷ 100 ∷ 41 ∷ []

-- `ParsedInternalKey::DebugString`; the numbers have no more than 20 and 3 digits, so the buffer of
-- 50 bytes holds them.
unfoldable pub parsed_debug_string : ParsedInternalKey → Bool → Bytes
parsed_debug_string key hex =
    39 ∷ to_string key.user_key hex
    ++ (seq_text ++ digits 20 key.sequence ++ type_text ++ digits 3 key.type_of)

module _ (little : Bool) (unset : ℕ) where
  -- `InternalKey::DebugString`, of the bytes of the key.
  unfoldable pub debug_string : Bytes → Bool → Bytes
  unfolding parsed_debug_string
  debug_string rep hex =
      let parsed = parse_internal_key little rep (unset_key unset) in
      if parsed.1
      then parsed_debug_string parsed.0 hex
      else bad_text ++ append_escaped_string_to [] rep

  unfoldable pub is_valid : Bytes → Bool
  is_valid rep = (parse_internal_key little rep (unset_key unset)).1

  -- A key that was encoded is valid, and its text is that of the key.
  debug_string-append :
      (writer : Bool) (k : ParsedInternalKey) (rep : Bytes) (hex : Bool)
      → append_internal_key writer [] k ≡ some rep
      → (is_valid rep ≡ true) × (debug_string rep hex ≡ parsed_debug_string k hex)
  unfolding is_valid debug_string
  debug_string-append writer k rep hex e =
      let whole = (parse-append writer little k (unset_key unset) rep e).0 in
      (
        ap (λ r. r.1) whole,
        ap
            (λ r.
              if r.1
              then parsed_debug_string r.0 hex
              else bad_text ++ append_escaped_string_to [] rep)
            whole,
      )

-- `DecodeFrom`, `Encode`, `SetFrom`, `Clear` and `ConvertFromUserKey` on the bytes of a key.
unfoldable pub decode_from : Bytes → Bytes → Bytes
decode_from rep s = s

unfoldable pub encode : Bytes → Option Bytes
encode rep = assert (not (length rep == 0)) (some rep)

unfoldable pub set_from : Bool → Bytes → ParsedInternalKey → Option Bytes
set_from little rep p = append_internal_key little [] p

unfoldable pub clear_rep : Bytes → Bytes
clear_rep rep = []

unfoldable pub convert_from_user_key : Bool → Bytes → ℕ → ℕ → Option Bytes
convert_from_user_key little rep s t = append_internal_key_footer little rep s t
