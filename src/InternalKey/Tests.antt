-- ===== src/InternalKey/Tests.antt =====
-- The theorems on internal keys at concrete inputs; the user's comparator is `Slice::compare`.
use compaction_test.Coding.{
  put_fixed64, object_bytes, le_bytes, decode_fixed64, object_value, le_value, encode_fixed64,
}
use std.Equiv.{IsEquiv}
use Prim.Native.Nat.{Ordering}
use compaction_test.Base.{
  some, [], ◌∷◌, true, false, Bytes, IsBytes, length, ◌<◌, ◌⊎◌, ◌↔◌, ◌≡◌, refl, arith,
}
use compaction_test.Slice.{compare_slice}
use compaction_test.Slice.Order.{IsComparator, compare_slice-IsComparator}
use compaction_test.InternalKey.{
  ParsedInternalKey, pack_sequence_and_type, parse_internal_key, append_internal_key,
  update_internal_key, internal_key_encoding_length, append_internal_key_with_different_timestamp,
  max_sequence_number,
}
use compaction_test.InternalKey.RoundTrip.{key_of}
use compaction_test.InternalKey.Bijection.{EncodedKey, ValidKey, parsed_key, parse-IsEquiv}
use compaction_test.InternalKey.Comparator.{
  compare_parsed, compare_encoded, compare_key_seq, or_else, descending, find_shortest_separator,
  RangeTombstone, serialize_end_key, internal_key,
}
use compaction_test.InternalKey.Comparator.Order.{compare_parsed_lem, compare_encoded-append}
use compaction_test.InternalKey.Comparator.Bounds.{end_key_exclusive}
use compaction_test.InternalKey.Comparator.Separator.{AtLeast, find_shortest_separator_lem}

abbrev ab_5 : ParsedInternalKey
ab_5 = record { user_key = 97 ∷ 98 ∷ []; sequence = 5; type_of = 1 }

abbrev ab_5_bytes : Bytes
ab_5_bytes = 97 ∷ 98 ∷ 1 ∷ 5 ∷ 0 ∷ 0 ∷ 0 ∷ 0 ∷ 0 ∷ 0 ∷ []

abbrev ab_9 : ParsedInternalKey
ab_9 = record { user_key = 97 ∷ 98 ∷ []; sequence = 9; type_of = 0 }

abbrev ab_9_bytes : Bytes
ab_9_bytes = 97 ∷ 98 ∷ 0 ∷ 9 ∷ 0 ∷ 0 ∷ 0 ∷ 0 ∷ 0 ∷ 0 ∷ []

abbrev none_yet : ParsedInternalKey
none_yet = record { user_key = []; sequence = max_sequence_number; type_of = 0 }

ab_5-written : append_internal_key true [] ab_5 ≡ some ab_5_bytes
unfolding append_internal_key pack_sequence_and_type put_fixed64 object_bytes le_bytes
ab_5-written = refl

ab_9-written : append_internal_key true [] ab_9 ≡ some ab_9_bytes
unfolding append_internal_key pack_sequence_and_type put_fixed64 object_bytes le_bytes
ab_9-written = refl

parse-IsEquiv_example :
    IsEquiv (parsed_key true none_yet)
    × ((k : ValidKey)
        → (e : EncodedKey true none_yet) × (append_internal_key false [] k.0 ≡ some e.0)
          × (length e.0 ≡ internal_key_encoding_length k.0)
          × (parsed_key true none_yet e ≡ k))
parse-IsEquiv_example = parse-IsEquiv true none_yet false

ab_5-read : parse_internal_key true ab_5_bytes none_yet ≡ (ab_5, true)
unfolding parse_internal_key decode_fixed64 object_value le_value
ab_5-read = refl

ab_5-IsBytes : IsBytes ab_5_bytes
ab_5-IsBytes = (
  omega arith,
  (
    omega arith,
    (
      omega arith,
      (
        omega arith,
        (
          omega arith,
          (omega arith, (omega arith, (omega arith, (omega arith, (omega arith, tt))))),
        ),
      ),
    ),
  ),
)

ab_5-updated : update_internal_key true ab_5_bytes 9 0 ≡ some ab_9_bytes
unfolding update_internal_key encode_fixed64 object_bytes le_bytes
ab_5-updated = refl

abbrev stamped : Bytes
stamped = 97 ∷ 120 ∷ 1 ∷ 5 ∷ 0 ∷ 0 ∷ 0 ∷ 0 ∷ 0 ∷ 0 ∷ []

stamped-written :
    append_internal_key_with_different_timestamp true [] ab_5 (120 ∷ []) ≡ some stamped
unfolding append_internal_key_with_different_timestamp pack_sequence_and_type put_fixed64
    object_bytes le_bytes
stamped-written = refl

packed-5-1 : pack_sequence_and_type 5 1 ≡ some 1281
unfolding pack_sequence_and_type
packed-5-1 = refl

compare_parsed_lem_example :
    IsComparator (compare_parsed compare_slice)
    × ((a b : ParsedInternalKey)
        → (compare_parsed compare_slice a b ≡ Ordering.lt) ↔ (
            (compare_slice a.user_key b.user_key ≡ Ordering.lt)
            ⊎ ((compare_slice a.user_key b.user_key ≡ Ordering.eq)
                × ((b.sequence < a.sequence)
                    ⊎ ((a.sequence ≡ b.sequence) × (b.type_of < a.type_of))))))
    × ((a b : ParsedInternalKey)
        → (compare_parsed compare_slice a b ≡ Ordering.eq) ↔ (
            (compare_slice a.user_key b.user_key ≡ Ordering.eq)
            × (a.sequence ≡ b.sequence)
            × (a.type_of ≡ b.type_of)))
compare_parsed_lem_example = compare_parsed_lem compare_slice compare_slice-IsComparator

compare_encoded-append_example :
    (compare_encoded compare_slice false ab_5_bytes ab_9_bytes
      ≡ some (compare_parsed compare_slice ab_5 ab_9))
    × (compare_key_seq compare_slice false ab_5_bytes ab_9_bytes
        ≡ some (or_else (compare_slice ab_5.user_key ab_9.user_key) (descending 5 9)))
compare_encoded-append_example =
    compare_encoded-append compare_slice true false ab_5 ab_9 ab_5_bytes ab_9_bytes ab_5-written
      ab_9-written

abbrev ab_low : Bytes
ab_low = 97 ∷ 98 ∷ 0x14 ∷ 255 ∷ 255 ∷ 255 ∷ 255 ∷ 255 ∷ 255 ∷ 255 ∷ []

abbrev ab_high : Bytes
ab_high = 97 ∷ 98 ∷ 0 ∷ 0 ∷ 0 ∷ 0 ∷ 0 ∷ 0 ∷ 0 ∷ 0 ∷ []

abbrev up_to_ab : RangeTombstone
up_to_ab = record { start_key = 97 ∷ []; end_key = 97 ∷ 98 ∷ []; seq = 3 }

abbrev up_to_ab_bytes : Bytes
up_to_ab_bytes = 97 ∷ 98 ∷ 0xF ∷ 255 ∷ 255 ∷ 255 ∷ 255 ∷ 255 ∷ 255 ∷ 255 ∷ []

end_key_exclusive_example :
    compare_encoded compare_slice false up_to_ab_bytes ab_5_bytes ≡ some Ordering.lt
unfolding serialize_end_key internal_key append_internal_key pack_sequence_and_type put_fixed64
    object_bytes le_bytes
end_key_exclusive_example =
    end_key_exclusive compare_slice compare_slice-IsComparator true false up_to_ab ab_5
      up_to_ab_bytes ab_5_bytes refl (omega arith) refl ab_5-written

-- The user's functions that give back the larger key and the key itself.
abbrev to_limit : Bytes → Bytes → Bytes
to_limit u v = 99 ∷ []

abbrev unchanged : Bytes → Bytes
unchanged u = u

find_shortest_separator_lem_example :
    (out : Bytes) × (find_shortest_separator compare_slice true to_limit
        (key_of ab_5.user_key 1281)
        (key_of (100 ∷ []) 1281)
      ≡ some out)
    × AtLeast compare_slice true (key_of ab_5.user_key 1281) out
    × (compare_encoded compare_slice true out (key_of (100 ∷ []) 1281) ≡ some Ordering.lt)
unfolding compare_slice
find_shortest_separator_lem_example =
    find_shortest_separator_lem compare_slice true to_limit ab_5.user_key (100 ∷ []) 1281 1281
      (omega arith) (omega arith) refl refl
