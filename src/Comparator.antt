-- ===== src/Comparator.antt =====
-- `Comparator` of include/comparator.h, the wrapper of it in include/user_comparator_wrapper.h, and
-- the maps of utils/kv_map.h. A pointer to a comparator is its address. What no file of the
-- repository implements, such as `Compare` of a user's comparator, is an argument.
pub mod Laws
use compaction_test.Base.{ℕ, List, [], ◌∷◌, ◌++◌, Bool, true, false, if◌then◌else◌, Bytes, ◌==◌}
use compaction_test.Slice.{Sign, is_eq, is_lt}
use Prim.Native.Nat.{Ordering}

pub record Comparator : Type 0 where
  pub address : ℕ
  pub timestamp_size : ℕ
  pub compare : Bytes → Bytes → Sign
  pub equal : Bytes → Bytes → Bool
  pub name : Bytes
  pub find_shortest_separator : Bytes → Bytes → Bytes
  pub find_short_successor : Bytes → Bytes
  pub get_root_comparator : ℕ
  pub is_same_length_immediate_successor : Bytes → Bytes → Bool
  pub can_keys_with_different_byte_contents_be_equal : Bool
  pub compare_timestamp : Bytes → Bytes → Sign
  pub compare_without_timestamp : Bytes → Bool → Bytes → Bool → Sign

-- A class that defines no more than it must: the other functions are those of the base class.
unfoldable pub base_comparator :
    ℕ → ℕ → (Bytes → Bytes → Sign) → Bytes → (Bytes → Bytes → Bytes) → (Bytes → Bytes) → Comparator
base_comparator address ts_sz compare name shorten successor = record {
  address = address;
  timestamp_size = ts_sz;
  compare = compare;
  equal = λ a b. is_eq (compare a b);
  name = name;
  find_shortest_separator = shorten;
  find_short_successor = successor;
  get_root_comparator = address;
  is_same_length_immediate_successor = λ s t. false;
  can_keys_with_different_byte_contents_be_equal = true;
  compare_timestamp = λ ts1 ts2. Ordering.eq;
  compare_without_timestamp = λ a a_has_ts b b_has_ts. compare a b;
}

-- The assignment of the base class.
unfoldable pub assign_comparator : Comparator → Comparator → Comparator
assign_comparator this rhs =
    if this.address == rhs.address
    then this
    else record this { timestamp_size = rhs.timestamp_size }

-- The overload of `CompareWithoutTimestamp` for two keys.
unfoldable pub compare_keys_without_timestamp : Comparator → Bytes → Bytes → Sign
compare_keys_without_timestamp c a b = c.compare_without_timestamp a true b true

-- `UserComparatorWrapper`, at an address of its own.
unfoldable pub user_comparator_wrapper : ℕ → Comparator → Comparator
user_comparator_wrapper address user_cmp = record {
  address = address;
  timestamp_size = user_cmp.timestamp_size;
  compare = λ a b. user_cmp.compare a b;
  equal = λ a b. user_cmp.equal a b;
  name = user_cmp.name;
  find_shortest_separator = λ start limit. user_cmp.find_shortest_separator start limit;
  find_short_successor = λ key. user_cmp.find_short_successor key;
  get_root_comparator = user_cmp.get_root_comparator;
  is_same_length_immediate_successor = λ s t. user_cmp.is_same_length_immediate_successor s t;
  can_keys_with_different_byte_contents_be_equal =
      user_cmp.can_keys_with_different_byte_contents_be_equal;
  compare_timestamp = λ ts1 ts2. user_cmp.compare_timestamp ts1 ts2;
  compare_without_timestamp =
      λ a a_has_ts b b_has_ts. user_cmp.compare_without_timestamp a a_has_ts b b_has_ts;
}

-- The text "rocksdb.InternalKeyComparator:".
abbrev pub internal_name : Bytes
internal_name =
    114 ∷ 111 ∷ 99 ∷ 107 ∷ 115 ∷ 100 ∷ 98 ∷ 46 ∷ 73 ∷ 110 ∷ 116 ∷ 101 ∷ 114 ∷ 110 ∷ 97 ∷ 108 ∷ 75
    ∷ 101 ∷ 121 ∷ 67 ∷ 111 ∷ 109 ∷ 112 ∷ 97 ∷ 114 ∷ 97 ∷ 116 ∷ 111 ∷ 114 ∷ 58 ∷ []

-- The object of `InternalKeyComparator` in db_format/dbformat.h: the wrapper that it holds, and its
-- name.
pub record InternalKeyComparator : Type 0 where
  pub user_comparator : Comparator
  pub timestamp_size : ℕ
  pub name : Bytes

unfoldable pub new_internal_key_comparator : ℕ → Comparator → InternalKeyComparator
unfolding user_comparator_wrapper
new_internal_key_comparator address c = record {
  user_comparator = user_comparator_wrapper address c;
  timestamp_size = c.timestamp_size;
  name = internal_name ++ (user_comparator_wrapper address c).name;
}

-- `LessOfComparator`, and the map over it in the order of its keys.
unfoldable pub less_of_comparator : Comparator → Bytes → Bytes → Bool
less_of_comparator cmp a b = is_lt (cmp.compare a b)

abbrev pub KvMap : Type 0
KvMap = List (Bytes × Bytes)

-- `emplace` of the map: it changes nothing where the key is there.
unfoldable pub emplace : Comparator → Bytes → Bytes → KvMap → KvMap
unfolding less_of_comparator
emplace cmp k v [] = (k, v) ∷ []
emplace cmp k v ((j, w) ∷ m) =
    let later = emplace cmp k v m in
    if less_of_comparator cmp k j
    then (k, v) ∷ (j, w) ∷ m
    else if less_of_comparator cmp j k
    then (j, w) ∷ later
    else (j, w) ∷ m
