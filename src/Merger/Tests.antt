-- ===== src/Merger/Tests.antt =====
-- The theorems on the filters at concrete inputs.
use compaction_test.Base.{
  none, some, List, [], ◌∷◌, ◌++◌, map, true, Bytes, IsBytes, length, ◌==◌, if◌then◌else◌, ◌≡◌,
  refl, arith,
}
use compaction_test.Merger.{
  FilterLogic, remove_redundant, delete_prefix, Entry, Merger, do_filter, merge_and_filter,
  merge_by_min_heap,
}
use compaction_test.Merger.Filter.{
  matching, merge_and_filter_lem, do_filter-remove_redundant, do_filter-delete_prefix,
}
use compaction_test.Base.{true, ◌↔◌, ◌≢◌}
use compaction_test.Slice.{compare_slice}
use compaction_test.InternalKey.Comparator.{compare_encoded}
use compaction_test.Merger.Heap.{key_comparor, heap_less, key_comparor_lem}
use compaction_test.Merger.FileNames.{
  FileNameCreator, names_from, AllDifferent, next_file_name-AllDifferent,
}

-- The key `a` with the sequence numbers 5 and 9.
abbrev a_5 : Bytes
a_5 = 97 ∷ 1 ∷ 5 ∷ 0 ∷ 0 ∷ 0 ∷ 0 ∷ 0 ∷ 0 ∷ []

abbrev a_9 : Bytes
a_9 = 97 ∷ 1 ∷ 9 ∷ 0 ∷ 0 ∷ 0 ∷ 0 ∷ 0 ∷ 0 ∷ []

abbrev value : Bytes
value = 120 ∷ []

abbrev queue : List Entry
queue = (a_9, value) ∷ (a_5, value) ∷ []

abbrev started : FilterLogic → Merger
started l = record {
  result_keys = a_9 ∷ [];
  result_values = value ∷ [];
  abandoned_values = [];
  redundant_user_keys = (a_9, value) ∷ [];
  logic = l;
  bound = record { seq = 7; prefix = 97 ∷ [] };
}

a_5-IsBytes : IsBytes a_5
a_5-IsBytes = (
  omega arith,
  (
    omega arith,
    (
      omega arith,
      (omega arith, (omega arith, (omega arith, (omega arith, (omega arith, (omega arith, tt)))))),
    ),
  ),
)

a_9-IsBytes : IsBytes a_9
a_9-IsBytes = (
  omega arith,
  (
    omega arith,
    (
      omega arith,
      (omega arith, (omega arith, (omega arith, (omega arith, (omega arith, (omega arith, tt)))))),
    ),
  ),
)

merge_and_filter_lem_example :
    merge_and_filter
      (λ es. es)
      true
      0
      ((a_9 ∷ a_5 ∷ [], value ∷ value ∷ []) ∷ [])
      (started delete_prefix)
    ≡ (if length queue == 0
        then some (record (started delete_prefix) { result_keys = []; result_values = [] })
        else none)
unfolding merge_by_min_heap
merge_and_filter_lem_example =
    merge_and_filter_lem (λ es. es) true 0 ((a_9 ∷ a_5 ∷ [], value ∷ value ∷ []) ∷ [])
      (started delete_prefix) queue (λ es. refl) refl

do_filter-remove_redundant_example :
    do_filter true 0 queue (started remove_redundant)
    ≡ some (record (started remove_redundant) {
      result_keys = (started remove_redundant).result_keys ++ map (λ e. e.0) queue;
      result_values = (started remove_redundant).result_values ++ map (λ e. e.1) queue;
    })
do_filter-remove_redundant_example =
    do_filter-remove_redundant true 0 queue (started remove_redundant) a_9 refl refl
      (a_9-IsBytes, omega arith) ((a_9-IsBytes, omega arith), ((a_5-IsBytes, omega arith), tt))

do_filter-delete_prefix_example :
    do_filter true 0 queue (started delete_prefix)
    ≡ some (record (started delete_prefix) { abandoned_values = [] ++ matching (97 ∷ []) queue })
do_filter-delete_prefix_example =
    do_filter-delete_prefix true 0 queue (started delete_prefix) a_9 refl refl
      ((a_9-IsBytes, omega arith), ((a_5-IsBytes, omega arith), tt))

key_comparor_lem_example :
    (compare_encoded compare_slice true a_9 a_5 ≡ some (key_comparor true 0 a_9 a_5))
    × ((heap_less (key_comparor true 0 a_9 a_5) ≡ true) ↔ (a_9 ≢ a_5))
key_comparor_lem_example =
    key_comparor_lem true 0 a_9 a_5 a_9-IsBytes a_5-IsBytes (omega arith) (omega arith)

abbrev creator : FileNameCreator
creator = record { file_number = 9; base_dir = 47 ∷ 116 ∷ [] }

next_file_name-AllDifferent_example : AllDifferent (names_from 3 creator)
next_file_name-AllDifferent_example = next_file_name-AllDifferent 3 creator (omega arith)
