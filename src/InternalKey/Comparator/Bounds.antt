-- ===== src/InternalKey/Comparator/Bounds.antt =====
-- The extreme keys of a user key, and the keys of a range tombstone.
use Prim.Native.Nat.{Ordering}
use compaction_test.Base.{◌^◌, ◌≤◌, ◌<◌, some, [], Bool, Bytes, ◌≡◌, ◌≢◌, ap, ◌∙◌, arith}
use compaction_test.Slice.{Sign}
use compaction_test.Slice.Order.{IsComparator}
use compaction_test.InternalKey.{
  ParsedInternalKey, append_internal_key, max_sequence_number, value_type_for_seek,
  type_range_deletion,
}
use compaction_test.InternalKey.RoundTrip.{append_internal_key-key_of}
use compaction_test.InternalKey.Comparator.{
  compare_parsed, compare_encoded, set_max_possible_for_user_key, set_min_possible_for_user_key,
  RangeTombstone, serialize_end_key, internal_key,
}
use compaction_test.InternalKey.Comparator.Order.{compare_encoded-append}

abbrev min_key : Bytes → ParsedInternalKey
min_key u = record { user_key = u; sequence = max_sequence_number; type_of = value_type_for_seek }

abbrev max_key : Bytes → ParsedInternalKey
max_key u = record { user_key = u; sequence = 0; type_of = 0 }

module _ (user : Bytes → Bytes → Sign) (order : IsComparator user) where
  min_key-first :
      (k : ParsedInternalKey)
      → k.sequence < 2 ^ 56
      → k.type_of ≤ 0x14
      → compare_parsed user (min_key k.user_key) k ≢ Ordering.gt
  unfolding compare_parsed
  min_key-first k hs ht = ground (arith, order.same k.user_key)

  max_key-last : (k : ParsedInternalKey) → compare_parsed user k (max_key k.user_key) ≢ Ordering.gt
  unfolding compare_parsed
  max_key-last k = ground (arith, order.same k.user_key)

  some_ne_gt : {s : Sign} → s ≢ Ordering.gt → some s ≢ some Ordering.gt
  some_ne_gt h e = h (cc)

  -- The extreme keys of a user key enclose every internal key with that user key.
  pub extreme_keys_enclose :
      (writer reader : Bool) (k : ParsedInternalKey) (key low high : Bytes)
      → append_internal_key writer [] k ≡ some key
      → set_min_possible_for_user_key writer k.user_key ≡ some low
      → set_max_possible_for_user_key writer k.user_key ≡ some high
      → (compare_encoded user reader low key ≢ some Ordering.gt)
        × (compare_encoded user reader key high ≢ some Ordering.gt)
  unfolding set_min_possible_for_user_key set_max_possible_for_user_key
  extreme_keys_enclose writer reader k key low high hk hl hh =
      let (_, hs, ht, _) = append_internal_key-key_of writer [] k key hk in
      (
        rw ((compare_encoded-append user writer reader (min_key k.user_key) k low key hl hk).0)
            (some_ne_gt (min_key-first k hs ht)),
        rw ((compare_encoded-append user writer reader k (max_key k.user_key) key high hk hh).0)
            (some_ne_gt (max_key-last k)),
      )

  end_key-before :
      (t : RangeTombstone) (k : ParsedInternalKey)
      → k.user_key ≡ t.end_key
      → k.sequence < max_sequence_number
      → compare_parsed user
          (record {
            user_key = t.end_key;
            sequence = max_sequence_number;
            type_of = type_range_deletion;
          })
          k
        ≡ Ordering.lt
  unfolding compare_parsed
  end_key-before t k e hs = rw e (ground (arith, order.same t.end_key))

  -- The serialized end key of a range tombstone compares less than every internal key with the end
  -- key as its user key and a sequence number below the largest: the end is exclusive.
  pub end_key_exclusive :
      (writer reader : Bool) (t : RangeTombstone) (k : ParsedInternalKey) (end_key key : Bytes)
      → k.user_key ≡ t.end_key
      → k.sequence < max_sequence_number
      → serialize_end_key writer t ≡ some end_key
      → append_internal_key writer [] k ≡ some key
      → compare_encoded user reader end_key key ≡ some Ordering.lt
  unfolding serialize_end_key internal_key
  end_key_exclusive writer reader t k end_key key e hs ht hk =
      (compare_encoded-append user writer reader _ k end_key key ht hk).0
      ∙ ap (λ s. some s) (end_key-before t k e hs)
