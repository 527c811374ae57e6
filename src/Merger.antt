-- ===== src/Merger.antt =====
-- include/merger.h and include/merger.cc: merging the entries of several tables and filtering them.
-- A vector is the list of its elements, its back last; `none` is a call of `back()` or `pop_back()`
-- on an empty vector, or a pointer past the end of one. `unset` is what the type of a key holds
-- before it is parsed. `std::priority_queue` is the list of its elements in the order in which
-- `top()` gives them out, and what puts them in that order is a parameter.
pub mod Filter
pub mod Heap
pub mod FileNames
pub mod Version
mod Tests
use compaction_test.Base.{
  ℕ, Option, none, some, List, [], ◌∷◌, ◌++◌, Bool, true, false, ◌&&◌, leb, if◌then◌else◌, ◌>>=◌,
  Bytes,
}
use compaction_test.Slice.{starts_with, equal_slice}
use compaction_test.InternalKey.{ParsedInternalKey, unset_key, parse_internal_key}

pub data FilterLogic : Type 0 where
  remove_redundant delete_prefix delete_version : FilterLogic

pub record FilterArgs : Type 0 where
  pub seq : ℕ
  pub prefix : Bytes

abbrev pub Entry : Type 0
Entry = Bytes × Bytes

pub record Merger : Type 0 where
  pub result_keys : List Bytes
  pub result_values : List Bytes
  pub abandoned_values : List Entry
  pub redundant_user_keys : List Entry
  pub logic : FilterLogic
  pub bound : FilterArgs

-- `back()`, `pop_back()` and `push_back(a)` of a vector.
module _ {ℓ} {A : Type ℓ} where
  abbrev pub back : List A → Option A
  back [] = none
  back (x ∷ []) = some x
  back (x ∷ y ∷ xs) = back (y ∷ xs)

  abbrev pub pop_back : List A → List A
  pop_back [] = []
  pop_back (x ∷ []) = []
  pop_back (x ∷ y ∷ xs) = x ∷ pop_back (y ∷ xs)

  abbrev pub push_back : List A → A → List A
  push_back xs x = xs ++ x ∷ []

unfoldable pub generate_filter_args : Merger → FilterLogic → FilterArgs → Merger
generate_filter_args m l a = record m { logic = l; bound = a }

-- The two pushes that end `DropRedundantKeys` and `PickUniqueVersion`.
abbrev keep : Merger → Entry → Merger
keep m (k, v) = record m {
  result_keys = push_back m.result_keys k;
  result_values = push_back m.result_values v;
}

module _ (little : Bool) (unset : ℕ) where
  -- The code parses both keys into `parsed_current`, and never writes `parsed_last`.
  unfoldable pub parse_both : Bytes → Bytes → ParsedInternalKey
  unfolding parse_internal_key unset_key
  parse_both current last =
      (parse_internal_key little last (parse_internal_key little current (unset_key unset)).0).0

  unfoldable pub drop_redundant_keys : Merger → Entry → Bytes → Option Merger
  unfolding parse_both unset_key
  drop_redundant_keys m (k, v) last_key =
      let parsed_current = parse_both k last_key in
      let parsed_last = unset_key unset in
      if equal_slice parsed_current.user_key parsed_last.user_key
      then (do
        last ← back m.result_keys
        value ← back m.result_values
        some (
            keep
              (record m {
                abandoned_values = push_back m.abandoned_values (last, value);
                result_keys = pop_back m.result_keys;
                result_values = pop_back m.result_values;
              })
              (k, v)))
      else some (keep m (k, v))

  -- An entry without the prefix goes nowhere.
  unfoldable pub drop_with_prefix : Merger → Entry → Merger
  unfolding parse_internal_key unset_key
  drop_with_prefix m (k, v) =
      let parsed_current = (parse_internal_key little k (unset_key unset)).0 in
      if starts_with parsed_current.user_key m.bound.prefix
      then record m { abandoned_values = push_back m.abandoned_values (k, v) }
      else m

  unfoldable pub pick_unique_version : Merger → Entry → Bytes → Option Merger
  unfolding parse_both
  pick_unique_version m (k, v) last_key =
      let parsed_current = parse_both k last_key in
      if starts_with parsed_current.user_key m.bound.prefix
        && leb parsed_current.sequence m.bound.seq
      then (do
        redundant ← back m.redundant_user_keys
        last ← back m.result_keys
        value ← back m.result_values
        let same = equal_slice redundant.0 parsed_current.user_key
        let abandoned = if same then push_back m.abandoned_values redundant else m.abandoned_values
        let others = if same then pop_back m.redundant_user_keys else m.redundant_user_keys
        some (
            keep
              (record m {
                abandoned_values = abandoned;
                redundant_user_keys = push_back others (last, value);
                result_keys = pop_back m.result_keys;
                result_values = pop_back m.result_values;
              })
              (k, v)))
      else some (keep m (k, v))

  -- One round of the loop of `DoFilter`, on the pair at the top.
  unfoldable pub filter_round : Merger → Entry → Option Merger
  unfolding drop_redundant_keys drop_with_prefix pick_unique_version
  filter_round m entry = do
    last ← back m.result_keys
    elim m.logic [
      | remove_redundant ↦ drop_redundant_keys m entry last
      | delete_prefix ↦ some (drop_with_prefix m entry)
      | delete_version ↦ pick_unique_version m entry last
    ]

  unfoldable pub do_filter : List Entry → Merger → Option Merger
  unfolding filter_round
  do_filter [] m = some m
  do_filter (entry ∷ pq) m = filter_round m entry >>= do_filter pq

-- The pairs that `merge_by_min_heap` makes of one table: one for each key, with the value at the
-- same index.
unfoldable pub entries_of : List Bytes → List Bytes → Option (List Entry)
entries_of [] values = some []
entries_of (k ∷ keys) [] = none
entries_of (k ∷ keys) (v ∷ values) = do rest ← entries_of keys values; some ((k, v) ∷ rest)

unfoldable pub merge_by_min_heap : List (List Bytes × List Bytes) → Option (List Entry)
unfolding entries_of
merge_by_min_heap [] = some []
merge_by_min_heap ((keys, values) ∷ files) = do
  entries ← entries_of keys values
  rest ← merge_by_min_heap files
  some (entries ++ rest)

-- `MergeEntries`: the queue, in the order of its elements, and the vectors that it clears.
unfoldable pub merge_entries :
    (List Entry → List Entry)
    → List (List Bytes × List Bytes)
    → Merger
    → Option (List Entry × Merger)
unfolding merge_by_min_heap
merge_entries in_order input_files m = do
  entries ← merge_by_min_heap input_files
  some (in_order entries, record m { result_keys = []; result_values = [] })

-- The two steps of `DoCompaction` between `PrepareFiles` and `WriteOutResult`, which no class
-- that runs it defines.
unfoldable pub merge_and_filter :
    (List Entry → List Entry) → Bool → ℕ → List (List Bytes × List Bytes) → Merger → Option Merger
unfolding merge_entries do_filter
merge_and_filter in_order little unset input_files m = do
  (pq, cleared) ← merge_entries in_order input_files m
  do_filter little unset pq cleared
