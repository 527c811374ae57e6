-- ===== src/Slice/Tests.antt =====
-- The theorems on include/slice.h and utils/slice.cc at concrete inputs.
use compaction_test.Base.{[], ◌∷◌, Bytes}
use compaction_test.Slice.Transform.{
  new_fixed_prefix_transform, new_capped_prefix_transform, new_noop_transform,
}
use compaction_test.Slice.Transform.Laws.{IsSliceTransform, transforms_lawful}

abbrev word : Bytes
word = b'w' ∷ b'o' ∷ b'r' ∷ b'd' ∷ []

abbrev raw : Bytes
raw = 0 ∷ 255 ∷ []

transforms_lawful_example :
    IsSliceTransform (new_fixed_prefix_transform (λ n. n ∷ []) 3)
    × IsSliceTransform (new_capped_prefix_transform (λ n. n ∷ []) 3)
    × IsSliceTransform new_noop_transform
transforms_lawful_example = transforms_lawful (λ n. n ∷ []) 3
