-- ===== src/Merger/Version.antt =====
-- `PickUniqueVersion` of include/merger.cc over the whole queue: no entry gets lost.
use compaction_test.Base.{
  ℕ, ◌+◌, ◌≤◌, some, List, [], ◌∷◌, Bool, true, false, leb, if◌then◌else◌, Bytes, length,
  length-append, ◌&&◌, Bool-cases, inl, inr, ◌≡◌, refl, arith,
}
use compaction_test.Slice.{equal_slice, starts_with}
use compaction_test.Merger.{
  delete_version, Entry, Merger, push_back, pop_back, parse_both, pick_unique_version, filter_round,
  do_filter,
}
use compaction_test.Merger.Filter.{back-some, length-pop_back}

-- A value for each key, one entry at least, and one at least set aside as redundant.
abbrev pub IsReady : Merger → Type 0
IsReady m =
    (length m.result_keys ≡ length m.result_values)
    × (1 ≤ length m.result_keys)
    × (1 ≤ length m.redundant_user_keys)

-- The number of entries kept, set aside or abandoned.
abbrev pub held : Merger → ℕ
held m = length m.result_keys + length m.redundant_user_keys + length m.abandoned_values

-- The state after a round that sets the last result aside, in the two cases.
abbrev set_aside : Merger → Entry → Entry → Entry → Bool → Merger
set_aside m (k, v) last old same = record m {
  result_keys = push_back (pop_back m.result_keys) k;
  result_values = push_back (pop_back m.result_values) v;
  abandoned_values = if same then push_back m.abandoned_values old else m.abandoned_values;
  redundant_user_keys =
      push_back (if same then pop_back m.redundant_user_keys else m.redundant_user_keys) last;
}

length-push_back {ℓ} : {A : Type ℓ} (xs : List A) (x : A) → length (push_back xs x) ≡ length xs + 1
length-push_back xs x = omega (arith, length-append xs (x ∷ []))

set_aside-IsReady :
    (m : Merger) (entry last old : Entry) (same : Bool)
    → IsReady m
    → IsReady (set_aside m entry last old same)
      × (held (set_aside m entry last old same) ≡ held m + 1)
set_aside-IsReady m (k, v) last old true (same, keys, redundant) =
    let a = length-push_back (pop_back m.result_keys) k in
    let b = length-push_back (pop_back m.result_values) v in
    let c = length-push_back (pop_back m.redundant_user_keys) last in
    let d = length-push_back m.abandoned_values old in
    let a1 = length-pop_back m.result_keys in
    let b1 = length-pop_back m.result_values in
    let c1 = length-pop_back m.redundant_user_keys in
    ((omega arith, omega arith, omega arith), omega arith)
set_aside-IsReady m (k, v) last old false (same, keys, redundant) =
    let a = length-push_back (pop_back m.result_keys) k in
    let b = length-push_back (pop_back m.result_values) v in
    let c = length-push_back m.redundant_user_keys last in
    let a1 = length-pop_back m.result_keys in
    let b1 = length-pop_back m.result_values in
    ((omega arith, omega arith, omega arith), omega arith)

-- The condition that `PickUniqueVersion` tests.
abbrev selected : Bool → ℕ → Merger → Bytes → Bytes → Bool
selected little unset m k last =
    let parsed_current = parse_both little unset k last in
    starts_with parsed_current.user_key m.bound.prefix && leb parsed_current.sequence m.bound.seq

version_round :
    (little : Bool) (unset : ℕ) (m : Merger) (entry : Entry)
    → m.logic ≡ delete_version
    → IsReady m
    → (m2 : Merger) × (filter_round little unset m entry ≡ some m2)
      × (m2.logic ≡ delete_version)
      × IsReady m2
      × (held m2 ≡ held m + 1)
unfolding filter_round pick_unique_version
version_round little unset m (k, v) l (same, keys, redundant) =
    let (last, elast) = back-some m.result_keys keys in
    let (value, evalue) = back-some m.result_values (omega arith) in
    let (old, eold) = back-some m.redundant_user_keys redundant in
    let same_key = equal_slice old.0 (parse_both little unset k last).user_key in
    elim (Bool-cases (selected little unset m k last)) [
      | inl ec ↦
          let (ready, count) =
            set_aside-IsReady m (k, v) (last, value) old same_key (same, keys, redundant) in
          (
            set_aside m (k, v) (last, value) old same_key,
            simp (elast, l, ec, evalue, eold),
            l,
            ready,
            count,
          )
      | inr ec ↦
          let a = length-push_back m.result_keys k in
          let b = length-push_back m.result_values v in
          (
            record m {
              result_keys = push_back m.result_keys k;
              result_values = push_back m.result_values v;
            },
            simp (elast, l, ec),
            l,
            (omega arith, omega arith, redundant),
            omega arith,
          )
    ]

-- With `kDeleteVersion`, from a state with a value for each key, one result at least and one entry
-- at least set aside as redundant: the loop ends without reading an empty vector, the state has
-- these properties again, and the number of entries kept, set aside and abandoned has grown by the
-- length of the queue.
pub do_filter-delete_version :
    (little : Bool) (unset : ℕ) (pq : List Entry) (m : Merger)
    → m.logic ≡ delete_version
    → IsReady m
    → (m2 : Merger) × (do_filter little unset pq m ≡ some m2)
      × IsReady m2
      × (held m2 ≡ held m + length pq)
unfolding do_filter
do_filter-delete_version little unset [] m l r = (m, refl, r, omega arith)
do_filter-delete_version little unset (entry ∷ pq) m l r =
    let (m1, e1, l1, r1, h1) = version_round little unset m entry l r in
    let (m2, e2, r2, h2) = do_filter-delete_version little unset pq m1 l1 r1 in
    (m2, rw e1 e2, r2, omega arith)
