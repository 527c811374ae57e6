-- ===== src/Stream/Arbitration.antt =====
-- `BaselineMerger::Arbitration` of include/stream_merger.cc, and the loop that calls it.
use compaction_test.Base.{
  ℕ, ◌-◌, ◌/◌, ◌%◌, ◌^◌, ◌≤◌, ◌<◌, Option, some, List, [], ◌∷◌, ◌++◌, Bool, false, ◌&&◌, ◌||◌, ltb,
  ◌==◌, if◌then◌else◌, Bytes, IsBytes, All, All-take, All-drop, length-drop, length, length-take,
  take, drop, Option-cases, inl, inr, ◌≡◌, refl, ap, arith,
}
use compaction_test.Slice.{starts_with, equal_slice}
use compaction_test.Coding.{le_value}
use compaction_test.InternalKey.{
  ParsedInternalKey, unset_key, is_extended_value_type, append_internal_key, pack_sequence_and_type,
}
use compaction_test.InternalKey.RoundTrip.{parse_whole}
use compaction_test.Coding.Fixed.RoundTrip.{le_value-lt}
use compaction_test.InternalKey.Comparator.{internal_key}
use compaction_test.Merger.{
  FilterLogic, FilterArgs, remove_redundant, delete_prefix, delete_version,
}
use compaction_test.Stream.{
  BaselineMerger, delete_last, accept_entry, as_before, refers, dangling, encode_deleted_key,
  parse_entry, reject_last, arbitration, strlen, merge_loop,
}

-- The user key of an entry, and the sequence number in its footer.
abbrev pub user_part : Bytes → Bytes
user_part entry = take 8 (take 16 entry)

abbrev pub sequence_part : Bytes → ℕ
sequence_part entry = le_value (drop 8 (take 16 entry)) / 256

-- What each filter means to reject: an entry by its user key `u` and sequence number `s`, and the
-- user key `v` of the entry that comes after it.
abbrev pub rejects : FilterLogic → FilterArgs → Bytes → Bytes → ℕ → Bool
rejects remove_redundant bound u v s = equal_slice u v
rejects delete_prefix bound u v s = starts_with u bound.prefix
rejects delete_version bound u v s =
    starts_with u bound.prefix && (equal_slice u v && ltb s bound.seq)

abbrev parsed_part : Bytes → ParsedInternalKey
parsed_part entry = record {
  user_key = user_part entry;
  sequence = sequence_part entry;
  type_of = le_value (drop 8 (take 16 entry)) % 256;
}

sequence-lt : (entry : Bytes) → IsBytes entry → 16 ≤ length entry → sequence_part entry < 2 ^ 56
sequence-lt entry h n =
    let size = length-take 16 entry in
    let size2 = length-drop 8 (take 16 entry) in
    let bytes = All-drop _ 8 (take 16 entry) (All-take _ 16 entry h) in
    let below = le_value-lt (drop 8 (take 16 entry)) bytes in
    let eight : length (drop 8 (take 16 entry)) ≡ 8 = omega arith in
    let word = rw eight at below in omega arith

parse_entry_lem :
    (little : Bool) (unset : ℕ) (entry : Bytes)
    → IsBytes entry
    → 16 ≤ length entry
    → parse_entry little unset entry ≡ some (parsed_part entry)
unfolding parse_entry
parse_entry_lem little unset entry h n =
    let size = length-take 16 entry in
    let whole =
      parse_whole little (take 16 entry) (unset_key unset) (All-take _ 16 entry h) (omega arith) in
    let back : length (take 16 entry) - 8 ≡ 8 = omega arith in
    let parsed = ap (λ r. r.0) (rw back at whole) in ground (arith, parsed)

deleted_some :
    (little : Bool) (unset : ℕ) (last : ParsedInternalKey) (entry : Bytes)
    → last.sequence < 2 ^ 56
    → 26 ≤ length entry
    → (encoded : Bytes) × (encode_deleted_key little unset last entry ≡ some encoded)
unfolding encode_deleted_key internal_key append_internal_key pack_sequence_and_type
    is_extended_value_type
deleted_some little unset last entry h n =
    elim (Option-cases (encode_deleted_key little unset last entry)) [
      | inl e ↦ absurd (ground (arith, e))
      | inr x ↦ x
    ]

reject_some :
    (little : Bool) (unset : ℕ) (m : BaselineMerger) (last : ParsedInternalKey) (encoded : Bytes)
    → encode_deleted_key little unset last m.last_entry ≡ some encoded
    → reject_last little unset m last
      ≡ some (
        delete_last,
        dangling,
        record m { abandoned_entries = m.abandoned_entries ++ m.last_entry ∷ [] },
      )
unfolding reject_last
reject_some little unset m last encoded e = rw e refl

not_empty : (a b : ℕ) → 1 ≤ a → 1 ≤ b → (a == 0 || b == 0) ≡ false
not_empty a b h n = ground arith

-- The nested tests of the switch are the rule.
decide {ℓ} :
    {A : Type ℓ} (l : FilterLogic) (bound : FilterArgs) (u v : Bytes) (s : ℕ) (reject : Option A)
    (found other : A)
    → reject ≡ some found
    → (elim l [
      | remove_redundant ↦ if equal_slice u v then reject else some other
      | delete_prefix ↦ if starts_with u bound.prefix then reject else some other
      | delete_version ↦
          if starts_with u bound.prefix
          then (if equal_slice u v
              then (if ltb s bound.seq then reject else some other)
              else some other)
          else some other
    ])
      ≡ some (if rejects l bound u v s then found else other)
decide remove_redundant bound u v s reject found other e = ground arith
decide delete_prefix bound u v s reject found other e = ground arith
decide delete_version bound u v s reject found other e = ground arith

arbitration_first :
    (little : Bool) (unset : ℕ) (m : BaselineMerger) (current_entry : Bytes) (size : ℕ)
    → m.last_entry ≡ []
    → arbitration little unset m current_entry size ≡ some (accept_entry, as_before, m)
unfolding arbitration
arbitration_first little unset m current_entry size e = ground (arith, ap length e)

-- `Arbitration` with a last entry and a current one, each of 26 bytes at least and the current
-- slice not empty: it always decides, it rejects the last entry (and records it as abandoned)
-- exactly when the filter's rule says so, and the buffer then refers to a string that is gone; else
-- it accepts the last entry, and nothing changes.
pub arbitration_lem :
    (little : Bool) (unset : ℕ) (m : BaselineMerger) (current_entry : Bytes) (size : ℕ)
    → IsBytes m.last_entry
    → IsBytes current_entry
    → 26 ≤ length m.last_entry
    → 26 ≤ length current_entry
    → 1 ≤ size
    → arbitration little unset m current_entry size
      ≡ some (
          if rejects m.logic m.bound
            (user_part m.last_entry)
            (user_part current_entry)
            (sequence_part m.last_entry)
          then (
            delete_last,
            dangling,
            record m { abandoned_entries = m.abandoned_entries ++ m.last_entry ∷ [] },
          )
          else (accept_entry, refers m.last_entry, m))
unfolding arbitration
arbitration_lem little unset m current_entry size hl hc nl nc one =
    let pl = parse_entry_lem little unset m.last_entry hl (omega arith) in
    let pc = parse_entry_lem little unset current_entry hc (omega arith) in
    let (encoded, ee) =
      deleted_some little unset (parsed_part m.last_entry) m.last_entry
        (sequence-lt m.last_entry hl (omega arith)) nl in
    let rejected = reject_some little unset m (parsed_part m.last_entry) encoded ee in
    let whole = not_empty size (length m.last_entry) one (omega arith) in
    simp (whole, pl, pc)
      (decide m.logic m.bound (user_part m.last_entry) (user_part current_entry)
        (sequence_part m.last_entry) (reject_last little unset m (parsed_part m.last_entry))
        (
          delete_last,
          dangling,
          record m { abandoned_entries = m.abandoned_entries ++ m.last_entry ∷ [] },
        )
        (accept_entry, refers m.last_entry, m) rejected)

-- The loop of `MergeEntries` never sets a last entry: started without one, on entries of which
-- each has a byte 0 in its memory, it abandons nothing and changes nothing, whatever the filter.
pub merge_loop_lem :
    (little : Bool) (unset : ℕ) (heap : List Bytes) (m : BaselineMerger)
    → m.last_entry ≡ []
    → All (λ entry. (n : ℕ) × (strlen entry ≡ some n)) heap
    → merge_loop little unset heap m ≡ some m
unfolding merge_loop
merge_loop_lem little unset [] m e h = refl
merge_loop_lem little unset (entry ∷ heap) m e ((n, en), h) =
    simp (en, arbitration_first little unset m entry n e) (merge_loop_lem little unset heap m e h)
