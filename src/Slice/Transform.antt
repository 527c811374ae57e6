-- ===== src/Slice/Transform.antt =====
-- `SliceTransform` of include/slice_transform.h and its implementations in utils/slice.cc.
pub mod Laws
use compaction_test.Base.{
  assert, ℕ, ◌≤◌, Option, none, some, [], ◌∷◌, ◌++◌, Bool, true, false, leb, ltb, ◌==◌,
  if◌then◌else◌, ◌>>=◌, Bytes, length, take, ◌≡◌,
}

-- The virtual functions; `none` is a failed assertion in one of them. `full_length` is `none` where
-- `FullLengthEnabled` returns false.
pub record SliceTransform : Type 0 where
  pub name : Bytes
  pub transform : Bytes → Option Bytes
  pub in_domain : Bytes → Option Bool
  pub in_range : Bytes → Option Bool
  pub full_length : Option ℕ
  pub same_result_when_appended : Bytes → Option Bool

-- What the class itself answers where an implementation does not.
abbrev pub default_in_range : Bytes → Option Bool
default_in_range dst = some false

abbrev pub default_full_length : Option ℕ
default_full_length = none

abbrev pub default_same_result : Bytes → Option Bool
default_same_result prefix = some false

abbrev pub fixed_prefix_name : Bytes
fixed_prefix_name =
    b'r' ∷ b'o' ∷ b'c' ∷ b'k' ∷ b's' ∷ b'd' ∷ b'b' ∷ b'.' ∷ b'F' ∷ b'i' ∷ b'x' ∷ b'e' ∷ b'd' ∷ b'P'
    ∷ b'r' ∷ b'e' ∷ b'f' ∷ b'i' ∷ b'x' ∷ b'.' ∷ []

abbrev pub capped_prefix_name : Bytes
capped_prefix_name =
    b'r' ∷ b'o' ∷ b'c' ∷ b'k' ∷ b's' ∷ b'd' ∷ b'b' ∷ b'.' ∷ b'C' ∷ b'a' ∷ b'p' ∷ b'p' ∷ b'e' ∷ b'd'
    ∷ b'P' ∷ b'r' ∷ b'e' ∷ b'f' ∷ b'i' ∷ b'x' ∷ b'.' ∷ []

abbrev pub noop_name : Bytes
noop_name = b'r' ∷ b'o' ∷ b'c' ∷ b'k' ∷ b's' ∷ b'd' ∷ b'b' ∷ b'.' ∷ b'N' ∷ b'o' ∷ b'o' ∷ b'p' ∷ []

-- `decimal` is `std::to_string`.
module _ (decimal : ℕ → Bytes) where
  unfoldable pub new_fixed_prefix_transform : ℕ → SliceTransform
  new_fixed_prefix_transform prefix_len = record {
    name = fixed_prefix_name ++ decimal prefix_len;
    transform = λ src. assert (leb prefix_len (length src)) (some (take prefix_len src));
    in_domain = λ src. some (leb prefix_len (length src));
    in_range = λ dst. some (length dst == prefix_len);
    full_length = some prefix_len;
    same_result_when_appended = λ prefix. some (leb prefix_len (length prefix));
  }

  unfoldable pub new_capped_prefix_transform : ℕ → SliceTransform
  new_capped_prefix_transform cap_len = record {
    name = capped_prefix_name ++ decimal cap_len;
    transform = λ src. some (take (if ltb (length src) cap_len then length src else cap_len) src);
    in_domain = λ src. some true;
    in_range = λ dst. some (leb (length dst) cap_len);
    full_length = some cap_len;
    same_result_when_appended = λ prefix. some (leb cap_len (length prefix));
  }

unfoldable pub new_noop_transform : SliceTransform
new_noop_transform = record {
  name = noop_name;
  transform = λ src. some src;
  in_domain = λ src. some true;
  in_range = λ dst. some true;
  full_length = default_full_length;
  same_result_when_appended = λ prefix. some false;
}
