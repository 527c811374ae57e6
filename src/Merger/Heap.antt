-- ===== src/Merger/Heap.antt =====
-- The comparators of the heaps: `heap_merger::KeyComparor` of include/merger.h, and those of
-- `stream_merger_heap` and `slice_merge_heap` in include/stream_merger.cc. `unset` is what the type
-- of a key holds before it is parsed; `none` is a read past the end of an entry.
use Prim.Native.Nat.{Ordering}
use compaction_test.Base.{
  ℕ, ◌+◌, ◌*◌, ◌-◌, ◌/◌, ◌%◌, ◌≤◌, Option, none, some, Bool, true, false, not, ltb, leb,
  if◌then◌else◌, ◌>>=◌, Bytes, IsBytes, length, take, drop, ◌≡◌, ◌≢◌, ◌↔◌, refl, sym, ap, ◌∙◌,
  arith,
}
use mathlib.Core.Path.{ap₂}
use compaction_test.Slice.{Sign, is_eq, compare_slice}
use compaction_test.Slice.Order.{equal_slice_iff, compare_slice-IsComparator}
use compaction_test.Coding.{le_value}
use compaction_test.Block.{full_key_length}
use compaction_test.InternalKey.{ParsedInternalKey, unset_key, parse_internal_key}
use compaction_test.InternalKey.RoundTrip.{parse_whole, last_word, key_of}
use compaction_test.InternalKey.Comparator.Order.{
  compare-key_of, descending_pair, compare_parsed-IsComparator,
}
use compaction_test.InternalKey.Comparator.{or_else, descending, compare_parsed, compare_encoded}

-- What the three comparators do with their parsed keys; they return -1 and +1.
unfoldable pub compare_keys : ParsedInternalKey → ParsedInternalKey → Sign
compare_keys p1_key p2_key =
    let r = compare_slice p1_key.user_key p2_key.user_key in
    if is_eq r
    then (if ltb p2_key.sequence p1_key.sequence
        then Ordering.lt
        else if ltb p1_key.sequence p2_key.sequence
        then Ordering.gt
        else if ltb p2_key.type_of p1_key.type_of
        then Ordering.lt
        else if ltb p1_key.type_of p2_key.type_of
        then Ordering.gt
        else r)
    else r

module _ (little : Bool) (unset : ℕ) where
  -- `heap_merger::KeyComparor`, on the keys of two pairs.
  unfoldable pub key_comparor : Bytes → Bytes → Sign
  unfolding compare_keys parse_internal_key unset_key
  key_comparor p1 p2 =
      compare_keys (parse_internal_key little p1 (unset_key unset)).0
        (parse_internal_key little p2 (unset_key unset)).0

  -- `ParseInternalKey(Slice(p.data(), FULL_KEY_LENGTH), ...)`.
  unfoldable pub parse_front : Bytes → Option ParsedInternalKey
  unfolding parse_internal_key unset_key
  parse_front entry =
      if leb full_key_length (length entry)
      then some (parse_internal_key little (take full_key_length entry) (unset_key unset)).0
      else none

  -- `slice_merge_heap::KeyComparor`, on the memory of two entries.
  unfoldable pub entry_comparor : Bytes → Bytes → Option Sign
  unfolding compare_keys parse_front
  entry_comparor p1 p2 = do
    p1_key ← parse_front p1
    p2_key ← parse_front p2
    some (compare_keys p1_key p2_key)

  -- `stream_merger_heap::KeyComparor`, which parses its first entry twice.
  unfoldable pub file_entry_comparor : Bytes → Bytes → Option Sign
  unfolding compare_keys parse_front
  file_entry_comparor p1 p2 = do
    p1_key ← parse_front p1
    p2_key ← parse_front p1
    some (compare_keys p1_key p2_key)

-- What `std::priority_queue` asks of its comparator: the number as a `bool`.
unfoldable pub heap_less : Sign → Bool
heap_less r = not (is_eq r)

-- The order of internal keys, over the bytes of user keys.
compare_keys-eq-compare_parsed :
    (a b : ParsedInternalKey) → compare_keys a b ≡ compare_parsed compare_slice a b
unfolding compare_keys compare_parsed
compare_keys-eq-compare_parsed a b = ground arith

split_word : (w : ℕ) → w ≡ w / 256 * 256 + w % 256
split_word w = omega arith

sign_eq : (r : Sign) → is_eq r ≡ true → r ≡ Ordering.eq
sign_eq r e = ground arith

differs : {A : Type 0} (test : Bool) → (test ≡ true) ↔ A → (not test ≡ true) ↔ (¬ A)
differs true h = (λ e. ground arith, λ n. absurd (n (h.0 refl)))
differs false h = (λ e x. ground (arith, h.1 x), λ n. refl)

-- The word of the footer.
abbrev word_of : Bytes → ℕ
word_of key = le_value (drop (length key - 8) key)

abbrev key_parts : Bytes → ParsedInternalKey
key_parts key = record {
  user_key = take (length key - 8) key;
  sequence = word_of key / 256;
  type_of = word_of key % 256;
}

encoded_parsed :
    (little : Bool) (a b : Bytes)
    → IsBytes a
    → IsBytes b
    → 8 ≤ length a
    → 8 ≤ length b
    → compare_encoded compare_slice little a b
      ≡ some (compare_parsed compare_slice (key_parts a) (key_parts b))
unfolding compare_parsed
encoded_parsed little a b ha hb na nb =
    let (wa, ea) = last_word a ha na in
    let (wb, eb) = last_word b hb nb in
    let u : Bytes = take (length a - 8) a in
    let v : Bytes = take (length b - 8) b in
    let pair : descending (word_of a) (word_of b)
        ≡ or_else (descending (word_of a / 256) (word_of b / 256))
            (descending (word_of a % 256) (word_of b % 256)) =
      ap₂ descending (split_word (word_of a)) (split_word (word_of b))
      ∙ descending_pair (word_of a / 256) (word_of a % 256) (word_of b / 256) (word_of b % 256)
          (omega arith) (omega arith) in
    ap₂ (compare_encoded compare_slice little) (sym ea) (sym eb)
    ∙ (compare-key_of compare_slice little u v (word_of a) (word_of b) wa wb).0
    ∙ ap (λ t. some (or_else (compare_slice u v) t)) pair

equal_parts :
    (x y : ParsedInternalKey)
    → compare_parsed compare_slice x y ≡ Ordering.eq
    → (x.user_key ≡ y.user_key) × (x.sequence ≡ y.sequence) × (x.type_of ≡ y.type_of)
unfolding compare_parsed
equal_parts x y e = ground (arith, equal_slice_iff x.user_key y.user_key)

-- A key is its parts, so the order is that of a set of keys without ties.
no_ties :
    (a b : Bytes)
    → IsBytes a
    → IsBytes b
    → 8 ≤ length a
    → 8 ≤ length b
    → (is_eq (compare_parsed compare_slice (key_parts a) (key_parts b)) ≡ true) ↔ (a ≡ b)
no_ties a b ha hb na nb = (
  λ e.
      let (u, s, t) = equal_parts (key_parts a) (key_parts b) (sign_eq _ e) in
      let word : word_of a ≡ word_of b = omega (arith, s, t) in
      sym (last_word a ha na).1 ∙ ap₂ key_of u word ∙ (last_word b hb nb).1,
  λ e.
      ap (λ k. is_eq (compare_parsed compare_slice (key_parts a) (key_parts k))) (sym e)
      ∙ ap is_eq (
          (compare_parsed-IsComparator compare_slice compare_slice-IsComparator).same
            (key_parts a)),
)

-- The comparator of the heap, on two keys of eight bytes at least, is that of internal keys over
-- the order of bytes; and what the heap takes as "less" is that the keys differ, so that it holds in
-- both directions for every two different keys.
pub key_comparor_lem :
    (little : Bool) (unset : ℕ) (a b : Bytes)
    → IsBytes a
    → IsBytes b
    → 8 ≤ length a
    → 8 ≤ length b
    → (compare_encoded compare_slice little a b ≡ some (key_comparor little unset a b))
      × ((heap_less (key_comparor little unset a b) ≡ true) ↔ (a ≢ b))
unfolding key_comparor heap_less
key_comparor_lem little unset a b ha hb na nb =
    let pa = ap (λ r. r.0) (parse_whole little a (unset_key unset) ha na) in
    let pb = ap (λ r. r.0) (parse_whole little b (unset_key unset) hb nb) in
    let same : key_comparor little unset a b
        ≡ compare_parsed compare_slice (key_parts a) (key_parts b) =
      ap₂ compare_keys pa pb ∙ compare_keys-eq-compare_parsed (key_parts a) (key_parts b) in
    let ties : (is_eq (key_comparor little unset a b) ≡ true) ↔ (a ≡ b) =
      rw same (no_ties a b ha hb na nb) in
    (
      encoded_parsed little a b ha hb na nb ∙ ap some (sym same),
      differs (is_eq (key_comparor little unset a b)) ties,
    )

-- The comparator of the entries in `MergeEntries`, which is that of the keys at their front; the one
-- that the unused heap of entries with files has, which holds no entry before another.
pub entry_comparor_lem :
    (little : Bool) (unset : ℕ) (a b : Bytes)
    → full_key_length ≤ length a
    → full_key_length ≤ length b
    → (entry_comparor little unset a b
        ≡ some (key_comparor little unset (take full_key_length a) (take full_key_length b)))
      × (file_entry_comparor little unset a b ≡ some Ordering.eq)
unfolding entry_comparor file_entry_comparor key_comparor parse_front
entry_comparor_lem little unset a b na nb =
    let self =
      (compare_parsed-IsComparator compare_slice compare_slice-IsComparator).same
        (parse_internal_key little (take full_key_length a) (unset_key unset)).0 in
    let same =
      compare_keys-eq-compare_parsed
        (parse_internal_key little (take full_key_length a) (unset_key unset)).0
        (parse_internal_key little (take full_key_length a) (unset_key unset)).0 in
    (ground (arith), ground (arith, same ∙ self))
