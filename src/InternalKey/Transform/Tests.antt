-- ===== src/InternalKey/Transform/Tests.antt =====
-- A transform of internal keys that keeps three bytes of the user key.
use compaction_test.Base.{◌≤◌, ◌⊎◌, none, some, [], ◌∷◌, ◌++◌, true, Bytes, length, ◌≡◌, refl}
use compaction_test.Coding.{put_fixed64, object_bytes, le_bytes}
use compaction_test.Slice.Transform.{SliceTransform, new_fixed_prefix_transform}
use compaction_test.Slice.Transform.Laws.{fixed-IsSliceTransform}
use compaction_test.InternalKey.{ParsedInternalKey, append_internal_key, pack_sequence_and_type}
use compaction_test.InternalKey.Transform.{internal_key_slice_transform, internal_transform-append}

abbrev three : SliceTransform
three = new_fixed_prefix_transform (λ n. n ∷ []) 3

abbrev abcd_5 : ParsedInternalKey
abcd_5 = record { user_key = 97 ∷ 98 ∷ 99 ∷ 100 ∷ []; sequence = 5; type_of = 1 }

abbrev abcd_5_bytes : Bytes
abcd_5_bytes = 97 ∷ 98 ∷ 99 ∷ 100 ∷ 1 ∷ 5 ∷ 0 ∷ 0 ∷ 0 ∷ 0 ∷ 0 ∷ 0 ∷ []

internal_transform-append_example :
    (dst : Bytes) × ((internal_key_slice_transform three).in_domain abcd_5_bytes ≡ some true)
    × ((internal_key_slice_transform three).transform abcd_5_bytes ≡ some dst)
    × (three.transform abcd_5.user_key ≡ some dst)
    × ((rest : Bytes) × (abcd_5.user_key ≡ dst ++ rest))
    × (three.in_range dst ≡ some true)
    × ((8 ≤ length dst) ⊎ ((internal_key_slice_transform three).in_range dst ≡ none))
unfolding append_internal_key put_fixed64 object_bytes le_bytes new_fixed_prefix_transform
    pack_sequence_and_type
internal_transform-append_example =
    internal_transform-append three (fixed-IsSliceTransform (λ n. n ∷ []) 3) true abcd_5
      abcd_5_bytes refl refl
