-- ===== src/InternalKey/RoundTrip.antt =====
-- Internal keys written and read back, on machines of any byte order.
use compaction_test.Base.{
  ℕ, ◌+◌, ◌-◌, ◌*◌, ◌/◌, ◌%◌, ◌^◌, ◌≤◌, ◌<◌, some, [], ◌++◌, Bool, true, false, Bytes, IsBytes,
  length, take, drop, length-append, take-append_left, drop-append_left, take-append-drop,
  length-drop, append-nil, ◌≡◌, inl, inr, Option-cases, refl, sym, ap, ◌∙◌, arith, length-take,
}
use compaction_test.Base.Masks.{low_byte}
use compaction_test.Coding.{le_bytes, le_value, decode_fixed64}
use compaction_test.Coding.Fixed.{put_fixed64-le, encode_fixed64-le, read_le}
use compaction_test.Coding.Fixed.RoundTrip.{
  length-le_bytes, le_bytes-IsBytes, le_value-le_bytes, decode_fixed64-le, le_bytes-le_value,
  le_value-lt, IsBytes-drop,
}
use compaction_test.InternalKey.{
  ParsedInternalKey, is_extended_value_type, pack_sequence_and_type, append_internal_key,
  parse_internal_key, update_internal_key, internal_key_encoding_length,
}
use compaction_test.InternalKey.Pack.{pack-Packed, pack_lem, is_extended-le}
use native.Mathlib.Decide.{dec_le}

-- A user key followed by a word.
abbrev pub key_of : Bytes → ℕ → Bytes
key_of u w = u ++ le_bytes 8 w

pub length-key_of : (u : Bytes) (w : ℕ) → length (key_of u w) ≡ length u + 8
length-key_of u w = omega (arith, length-append u (le_bytes 8 w), length-le_bytes 8 w)

pub take-key_of : (u : Bytes) (w : ℕ) → take (length (key_of u w) - 8) (key_of u w) ≡ u
take-key_of u w = take-append_left _ u (le_bytes 8 w) (omega (arith, length-key_of u w))

pub drop-key_of : (u : Bytes) (w : ℕ) → drop (length (key_of u w) - 8) (key_of u w) ≡ le_bytes 8 w
drop-key_of u w = drop-append_left _ u (le_bytes 8 w) (omega (arith, length-key_of u w))

word_read : (w : ℕ) → w < 2 ^ 64 → read_le 8 (le_bytes 8 w) ≡ some w
word_read w h = ground (
  arith,
  length-le_bytes 8 w,
  ap (λ t. take 8 t) (append-nil (le_bytes 8 w)),
  take-append_left 8 (le_bytes 8 w) [],
  le_value-le_bytes 8 w,
)

pub decode-key_of :
    (little : Bool) (u : Bytes) (w : ℕ)
    → w < 2 ^ 64
    → decode_fixed64 little (drop (length (key_of u w) - 8) (key_of u w)) ≡ some w
decode-key_of little u w h =
    rw (drop-key_of u w)
      (decode_fixed64-le little (le_bytes 8 w) (le_bytes-IsBytes 8 w) ∙ word_read w h)

-- What `AppendInternalKey` writes: the old contents, the user key and the packed word.
pub append_internal_key-key_of :
    (little : Bool) (result : Bytes) (k : ParsedInternalKey) (out : Bytes)
    → append_internal_key little result k ≡ some out
    → (out ≡ key_of (result ++ k.user_key) (k.sequence * 256 + k.type_of))
      × (k.sequence < 2 ^ 56)
      × (k.type_of ≤ 0x14)
      × (is_extended_value_type k.type_of ≡ true)
unfolding append_internal_key
append_internal_key-key_of little result k out h =
    elim (Option-cases (pack_sequence_and_type k.sequence k.type_of)) [
      | inl none_packed ↦ cc
      | inr (w, packed) ↦ ground (
        arith,
        pack-Packed k.sequence k.type_of w packed,
        put_fixed64-le little (result ++ k.user_key) w,
      )
    ]

pub parse-key_of :
    (little : Bool) (u : Bytes) (seq t : ℕ) (unset : ParsedInternalKey)
    → seq < 2 ^ 56
    → t < 256
    → parse_internal_key little (key_of u (seq * 256 + t)) unset
      ≡ (record { user_key = u; sequence = seq; type_of = t }, is_extended_value_type t)
unfolding parse_internal_key
parse-key_of little u seq t unset hs ht = ground (
  arith,
  length-key_of u (seq * 256 + t),
  take-key_of u (seq * 256 + t),
  decode-key_of little u (seq * 256 + t) (omega arith),
  low_byte (seq * 256 + t),
)

-- `ParseInternalKey` gives back every key that `AppendInternalKey` wrote, and reports success; the
-- writer's and the reader's byte order may differ.
pub parse-append :
    (writer reader : Bool) (k unset : ParsedInternalKey) (out : Bytes)
    → append_internal_key writer [] k ≡ some out
    → (parse_internal_key reader out unset ≡ (k, true))
      × (length out ≡ internal_key_encoding_length k)
unfolding internal_key_encoding_length
parse-append writer reader k unset out h =
    let (e, hs, ht, hx) = append_internal_key-key_of writer [] k out h in
    rw (e, parse-key_of reader k.user_key k.sequence k.type_of unset hs (omega arith), hx)
      (refl, length-key_of k.user_key (k.sequence * 256 + k.type_of))

pub last_word :
    (key : Bytes)
    → IsBytes key
    → 8 ≤ length key
    → (le_value (drop (length key - 8) key) < 2 ^ 64)
      × (key_of (take (length key - 8) key) (le_value (drop (length key - 8) key)) ≡ key)
last_word key h n =
    let tail : Bytes = drop (length key - 8) key in
    let size : length tail ≡ 8 = omega (arith, length-drop (length key - 8) key) in
    let bytes : IsBytes tail = IsBytes-drop (length key - 8) key h in
    (
      rw size at (le_value-lt tail bytes),
      ap (λ t. take (length key - 8) key ++ t) (rw size at (le_bytes-le_value tail bytes))
          ∙ take-append-drop (length key - 8) key,
    )

pub parse_whole :
    (little : Bool) (key : Bytes) (unset : ParsedInternalKey)
    → IsBytes key
    → 8 ≤ length key
    → let w = le_value (drop (length key - 8) key) in
      parse_internal_key little key unset ≡ (
        record { user_key = take (length key - 8) key; sequence = w / 256; type_of = w % 256 },
        is_extended_value_type (w % 256),
      )
parse_whole little key unset h n =
    let w : ℕ = le_value (drop (length key - 8) key) in
    let (below, whole) = last_word key h n in
    let parts : key_of (take (length key - 8) key) (w / 256 * 256 + w % 256) ≡ key =
      ap (key_of (take (length key - 8) key)) (omega arith) ∙ whole in
    ap (λ t. parse_internal_key little t unset) (sym parts)
    ∙ parse-key_of little (take (length key - 8) key) (w / 256) (w % 256) unset (omega arith)
        (omega arith)

pub append_parts-of :
    (little : Bool) (u : Bytes) (seq t : ℕ)
    → seq < 2 ^ 56
    → is_extended_value_type t ≡ true
    → append_internal_key little [] (record { user_key = u; sequence = seq; type_of = t })
      ≡ some (key_of u (seq * 256 + t))
unfolding append_internal_key pack_sequence_and_type
append_parts-of little u seq t hs ht =
    ground (arith, pack_lem seq t, is_extended-le t, put_fixed64-le little u (seq * 256 + t))

-- On any bytes that `ParseInternalKey` accepts, `AppendInternalKey` writes the same bytes again.
pub append-parse :
    (reader writer : Bool) (key : Bytes) (k unset : ParsedInternalKey)
    → IsBytes key
    → parse_internal_key reader key unset ≡ (k, true)
    → append_internal_key writer [] k ≡ some key
append-parse reader writer key k unset h e = elim (dec_le 8 (length key)) [
  | no short ↦ cc (too_short short)
  | yes n ↦
      let w : ℕ = le_value (drop (length key - 8) key) in
      let (below, whole) = last_word key h n in
      let parsed = sym (parse_whole reader key unset h n) ∙ e in
      ap (append_internal_key writer []) (sym (ap (λ p. p.0) parsed))
      ∙ append_parts-of writer (take (length key - 8) key) (w / 256) (w % 256) (omega arith)
          (ap (λ p. p.1) parsed)
      ∙ ap (λ t. some (key_of (take (length key - 8) key) t)) (omega arith)
      ∙ ap (λ t. some t) whole
]
  where
    too_short : ¬ (8 ≤ length key) → false ≡ true
    too_short short = unfold parse_internal_key in ground arith

-- `UpdateInternalKey` keeps the user key and the length, and leaves a key that parses to the new
-- sequence number and type.
pub parse-update :
    (writer reader : Bool) (key out : Bytes) (seq t : ℕ) (unset : ParsedInternalKey)
    → seq < 2 ^ 56
    → t < 256
    → update_internal_key writer key seq t ≡ some out
    → (parse_internal_key reader out unset ≡ (
      record { user_key = take (length key - 8) key; sequence = seq; type_of = t },
      is_extended_value_type t,
    ))
      × (length out ≡ length key)
unfolding update_internal_key
parse-update writer reader key out seq t unset hs ht e = ground (
  arith,
  pack_lem seq t,
  encode_fixed64-le writer (seq * 256 + t),
  parse-key_of reader (take (length key - 8) key) seq t unset,
  length-key_of (take (length key - 8) key) (seq * 256 + t),
  length-take (length key - 8) key,
)
