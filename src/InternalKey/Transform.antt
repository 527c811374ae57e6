-- ===== src/InternalKey/Transform.antt =====
-- `InternalKeySliceTransform` of db_format/dbformat.h: a transform of user keys, for internal keys.
mod Tests
use compaction_test.Base.{
  ℕ, ◌+◌, ◌-◌, ◌*◌, ◌<◌, ◌≤◌, ◌⊎◌, inl, inr, Bool-cases, Option, none, some, [], ◌++◌, Bool, true,
  false, leb, ◌>>=◌, Bytes, length, take, ◌≡◌, refl, sym, ap, ◌∙◌, arith,
}
use compaction_test.Slice.Transform.{SliceTransform, default_full_length, default_same_result}
use compaction_test.Slice.Transform.Laws.{IsSliceTransform}
use compaction_test.InternalKey.{ParsedInternalKey, append_internal_key, extract_user_key}
use compaction_test.InternalKey.RoundTrip.{
  key_of, length-key_of, take-key_of, append_internal_key-key_of,
}

unfoldable pub internal_key_slice_transform : SliceTransform → SliceTransform
unfolding extract_user_key
internal_key_slice_transform t = record {
  name = t.name;
  transform = λ src. extract_user_key src >>= t.transform;
  in_domain = λ src. extract_user_key src >>= t.in_domain;
  in_range = λ dst. extract_user_key dst >>= t.in_range;
  full_length = default_full_length;
  same_result_when_appended = default_same_result;
}

extract_user_key-key_of : (u : Bytes) (w : ℕ) → extract_user_key (key_of u w) ≡ some u
unfolding extract_user_key
extract_user_key-key_of u w = ground (arith, length-key_of u w, take-key_of u w)

pub extract_user_key-append :
    (little : Bool) (key : ParsedInternalKey) (out : Bytes)
    → append_internal_key little [] key ≡ some out
    → extract_user_key out ≡ some key.user_key
extract_user_key-append little key out h =
    let (e, _, _, _) = append_internal_key-key_of little [] key out h in
    rw e (extract_user_key-key_of key.user_key (key.sequence * 256 + key.type_of))

short_key : (dst : Bytes) → length dst < 8 → extract_user_key dst ≡ none
unfolding extract_user_key
short_key dst h = ground arith

long_or_none : (dst : Bytes) → (8 ≤ length dst) ⊎ (extract_user_key dst ≡ none)
long_or_none dst = elim (Bool-cases (leb 8 (length dst))) [
  | inl e ↦ inl (ground (arith, e))
  | inr e ↦ inr (short_key dst (ground (arith, e)))
]

module _ (t : SliceTransform) (laws : IsSliceTransform t) where
  -- On an internal key whose user key is in the domain of the user's transform, the transform gives
  -- what the user's gives on the user key, a prefix of it. The class's own test of the range fails
  -- an assertion on that result unless it has 8 bytes or more.
  pub internal_transform-append :
      (little : Bool) (key : ParsedInternalKey) (out : Bytes)
      → append_internal_key little [] key ≡ some out
      → t.in_domain key.user_key ≡ some true
      → (dst : Bytes) × ((internal_key_slice_transform t).in_domain out ≡ some true)
        × ((internal_key_slice_transform t).transform out ≡ some dst)
        × (t.transform key.user_key ≡ some dst)
        × ((rest : Bytes) × (key.user_key ≡ dst ++ rest))
        × (t.in_range dst ≡ some true)
        × ((8 ≤ length dst) ⊎ ((internal_key_slice_transform t).in_range dst ≡ none))
  unfolding internal_key_slice_transform
  internal_transform-append little key out h domain =
      let user = extract_user_key-append little key out h in
      let (dst, e) = laws.defined key.user_key domain in
      (
        dst,
        simp (user, domain),
        simp (user, e),
        e,
        laws.is_prefix key.user_key dst e,
        laws.ranges key.user_key dst e,
        elim (long_or_none dst) [ inl long ↦ inl long | inr short ↦ inr (simp short) ],
      )
