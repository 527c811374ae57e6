-- ===== src/InternalKey/Timestamp.antt =====
-- User keys that end in a timestamp.
use compaction_test.Base.{
  ℕ, ◌+◌, ◌-◌, ◌*◌, ◌≤◌, none, some, [], ◌++◌, Bool, true, Bytes, length, take, length-append,
  take-append_left, drop-append_left, append_assoc, append-nil, ◌≡◌, sym, ap, ◌∙◌, arith,
}
use compaction_test.Coding.{le_bytes}
use compaction_test.InternalKey.{
  ParsedInternalKey, append_internal_key, parse_internal_key,
  append_internal_key_with_different_timestamp, extract_timestamp_from_user_key,
  extract_user_key_and_strip_timestamp,
}
use compaction_test.InternalKey.RoundTrip.{
  key_of, length-key_of, append_internal_key-key_of, parse-append,
}
use native.Mathlib.Decide.{dec_le}

-- It writes the key with its last bytes replaced.
with_timestamp-append :
    (little : Bool) (k : ParsedInternalKey) (ts : Bytes)
    → length ts ≤ length k.user_key
    → append_internal_key_with_different_timestamp little [] k ts
      ≡ append_internal_key little []
          (record k { user_key = take (length k.user_key - length ts) k.user_key ++ ts })
unfolding append_internal_key_with_different_timestamp append_internal_key
with_timestamp-append little k ts h = ground arith

extract_end : (u ts : Bytes) → extract_timestamp_from_user_key (u ++ ts) (length ts) ≡ some ts
unfolding extract_timestamp_from_user_key
extract_end u ts = ground (
  arith,
  length-append u ts,
  drop-append_left (length (u ++ ts) - length ts) u ts,
  ap (λ t. take (length ts) t) (append-nil ts),
  take-append_left (length ts) ts [],
)

strip_end :
    (u ts : Bytes) (w : ℕ)
    → extract_user_key_and_strip_timestamp (key_of (u ++ ts) w) (length ts) ≡ some u
unfolding extract_user_key_and_strip_timestamp
strip_end u ts w = ground (
  arith,
  length-append u ts,
  length-key_of (u ++ ts) w,
  ap (λ t. take (length (key_of (u ++ ts) w) - 8 - length ts) t) (append_assoc u ts (le_bytes 8 w)),
  take-append_left (length (key_of (u ++ ts) w) - 8 - length ts) u (ts ++ le_bytes 8 w),
)

-- Replacing the timestamp: the new one is the end of the user key that is written, and the rest of
-- the key is as it was.
pub parse-append_timestamp :
    (writer reader : Bool) (k unset : ParsedInternalKey) (ts out : Bytes)
    → append_internal_key_with_different_timestamp writer [] k ts ≡ some out
    → let u = take (length k.user_key - length ts) k.user_key in
      (parse_internal_key reader out unset
        ≡ (record { user_key = u ++ ts; sequence = k.sequence; type_of = k.type_of }, true))
      × (extract_timestamp_from_user_key (u ++ ts) (length ts) ≡ some ts)
      × (extract_user_key_and_strip_timestamp out (length ts) ≡ some u)
unfolding append_internal_key_with_different_timestamp
parse-append_timestamp writer reader k unset ts out e =
    elim (dec_le (length ts) (length k.user_key)) [
      | no longer ↦ cc (refused longer)
      | yes fits ↦
          let u : Bytes = take (length k.user_key - length ts) k.user_key in
          let k' : ParsedInternalKey = record k { user_key = u ++ ts } in
          let written = sym (with_timestamp-append writer k ts fits) ∙ e in
          let (parts, hs, ht, hx) = append_internal_key-key_of writer [] k' out written in
          (
            (parse-append writer reader k' unset out written).0,
            extract_end u ts,
            rw parts (strip_end u ts (k.sequence * 256 + k.type_of)),
          )
    ]
  where
    refused :
        ¬ (length ts ≤ length k.user_key)
        → append_internal_key_with_different_timestamp writer [] k ts ≡ none
    refused longer = ground arith
