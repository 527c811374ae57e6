-- ===== src/InternalKey/Bijection.antt =====
-- Internal keys of db_format/dbformat.h as a bijection: the bytes that `ParseInternalKey` accepts, and
-- the keys that `AppendInternalKey` takes.
use std.Equiv.{IsEquiv, iso_to_equiv}
use std.HLevel.{Σ_prop_path}
use native.Mathlib.Bridge.{le_prop}
use native.Mathlib.Decide.{dec_le}
use compaction_test.Base.{
  ℕ, ◌+◌, ◌*◌, ◌^◌, ◌-◌, ◌≤◌, ◌<◌, some, [], ◌∷◌, Bool, true, false, Bytes, IsByte, IsBytes,
  All-append, length, drop, ◌≡◌, sym, ap, ◌∙◌, arith,
}
use compaction_test.Coding.{le_bytes, le_value}
use compaction_test.InternalKey.{
  ParsedInternalKey, is_extended_value_type, append_internal_key, parse_internal_key,
  internal_key_encoding_length,
}
use compaction_test.Coding.Fixed.RoundTrip.{IsBytes-take, le_bytes-IsBytes}
use compaction_test.InternalKey.Pack.{is_extended-le}
use compaction_test.InternalKey.RoundTrip.{
  key_of, length-key_of, append_parts-of, append-parse, parse-key_of, parse_whole, last_word,
}

IsBytes-prop : (s : Bytes) → IsProp (IsBytes s)
IsBytes-prop [] = hlevel
IsBytes-prop (b ∷ s) = hlevel (le_prop, IsBytes-prop s)

-- Bytes that a reader accepts.
abbrev pub IsAccepted : Bool → ParsedInternalKey → Bytes → Type 0
IsAccepted reader unset key = IsBytes key × ((parse_internal_key reader key unset).1 ≡ true)

abbrev pub EncodedKey : Bool → ParsedInternalKey → Type 0
EncodedKey reader unset = (key : Bytes) × IsAccepted reader unset key

-- A key within the limits of the format.
abbrev pub IsValidKey : ParsedInternalKey → Type 0
IsValidKey k =
    IsBytes k.user_key × (k.sequence < 2 ^ 56) × (is_extended_value_type k.type_of ≡ true)

abbrev pub ValidKey : Type 0
ValidKey = (k : ParsedInternalKey) × IsValidKey k

IsAccepted-prop :
    (reader : Bool) (unset : ParsedInternalKey) (key : Bytes) → IsProp (IsAccepted reader unset key)
IsAccepted-prop reader unset key = hlevel (IsBytes-prop key)

IsValidKey-prop : (k : ParsedInternalKey) → IsProp (IsValidKey k)
IsValidKey-prop k = hlevel (le_prop, IsBytes-prop k.user_key)

pub accepted-IsValidKey :
    (reader : Bool) (unset : ParsedInternalKey) (key : Bytes)
    → IsBytes key
    → (parse_internal_key reader key unset).1 ≡ true
    → IsValidKey (parse_internal_key reader key unset).0
accepted-IsValidKey reader unset key h e = elim (dec_le 8 (length key)) [
  | no short ↦ absurd (cc (too_short short))
  | yes n ↦
      let w : ℕ = le_value (drop (length key - 8) key) in
      let (below, whole) = last_word key h n in
      let parsed = parse_whole reader key unset h n in
      rw parsed (IsBytes-take (length key - 8) key h, omega arith, sym (ap (λ p. p.1) parsed) ∙ e)
]
  where
    too_short : ¬ (8 ≤ length key) → false ≡ true
    too_short short = unfold parse_internal_key in ground arith

module _ (reader : Bool) (unset : ParsedInternalKey) where
  -- `ParseInternalKey` on the bytes that it accepts.
  abbrev pub parsed_key : EncodedKey reader unset → ValidKey
  parsed_key (key, (h, e)) =
      ((parse_internal_key reader key unset).0, accepted-IsValidKey reader unset key h e)

  abbrev encoded_key : ValidKey → EncodedKey reader unset
  encoded_key (k, (h, hs, ht)) =
      let w : ℕ = k.sequence * 256 + k.type_of in
      let parsed =
        parse-key_of reader k.user_key k.sequence k.type_of unset hs
          (omega (arith, is_extended-le k.type_of ht)) in
      (
        key_of k.user_key w,
        (
          All-append IsByte k.user_key (le_bytes 8 w) h (le_bytes-IsBytes 8 w),
          ap (λ p. p.1) parsed ∙ ht,
        ),
      )

  parsed-encoded : (k : ValidKey) → parsed_key (encoded_key k) ≡ k
  parsed-encoded (k, (h, hs, ht)) = Σ_prop_path IsValidKey-prop (
      ap (λ p. p.0)
        (parse-key_of reader k.user_key k.sequence k.type_of unset hs
          (omega (arith, is_extended-le k.type_of ht))))

  encoded-parsed : (e : EncodedKey reader unset) → encoded_key (parsed_key e) ≡ e
  encoded-parsed (key, (h, e)) =
      let k : ParsedInternalKey = (parse_internal_key reader key unset).0 in
      let (_, hs, ht) = accepted-IsValidKey reader unset key h e in
      let written : some (key_of k.user_key (k.sequence * 256 + k.type_of)) ≡ some key =
        sym (append_parts-of reader k.user_key k.sequence k.type_of hs ht)
        ∙ append-parse reader reader key k unset h (λ i. (k, e i)) in
      Σ_prop_path (IsAccepted-prop reader unset) (cc written)

  -- `ParseInternalKey` is a bijection between the strings of bytes that it accepts and the keys
  -- within the limits: any user key, a sequence number below 2^56 and a type that
  -- `IsExtendedValueType` accepts. Its inverse is `AppendInternalKey`, on a machine of either byte
  -- order: on every key within the limits it succeeds, and writes as many bytes as
  -- `InternalKeyEncodingLength` says, which are read as that key.
  pub parse-IsEquiv :
      (writer : Bool)
      → IsEquiv parsed_key
        × ((k : ValidKey)
            → (e : EncodedKey reader unset) × (append_internal_key writer [] k.0 ≡ some e.0)
              × (length e.0 ≡ internal_key_encoding_length k.0)
              × (parsed_key e ≡ k))
  unfolding internal_key_encoding_length
  parse-IsEquiv writer = (
    (iso_to_equiv (record {
      fun = parsed_key;
      inv = encoded_key;
      rinv = parsed-encoded;
      linv = encoded-parsed;
    })).1,
    λ k. (
      encoded_key k,
      append_parts-of writer k.0.user_key k.0.sequence k.0.type_of k.1.1 k.1.2,
      length-key_of k.0.user_key (k.0.sequence * 256 + k.0.type_of),
      parsed-encoded k,
    ),
  )
