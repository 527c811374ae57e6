-- ===== src/Merger/Filter.antt =====
-- What `DoFilter` of include/merger.cc keeps and what it abandons, over the whole queue.
use compaction_test.Base.{
  ℕ, ◌-◌, ◌≤◌, none, some, List, [], ◌∷◌, ◌++◌, append-nil, append_assoc, map, Bool, false, ◌==◌,
  if◌then◌else◌, Bytes, IsBytes, All, length, length-take, take, Bool-cases, inl, inr, ◌≡◌, refl,
  sym, ap, ◌∙◌, arith,
}
use compaction_test.Slice.{equal_slice, starts_with}
use compaction_test.Slice.Order.{equal_slice-eq}
use compaction_test.InternalKey.{ParsedInternalKey, unset_key, parse_internal_key}
use compaction_test.InternalKey.RoundTrip.{parse_whole}
use compaction_test.Merger.{
  remove_redundant, delete_prefix, Entry, Merger, back, push_back, pop_back, parse_both,
  drop_redundant_keys, drop_with_prefix, filter_round, do_filter, merge_by_min_heap, merge_entries,
  merge_and_filter,
}

module _ {ℓ} {A : Type ℓ} where
  pub back-push_back : (xs : List A) (x : A) → back (push_back xs x) ≡ some x
  back-push_back [] x = refl
  back-push_back (y ∷ []) x = refl
  back-push_back (y ∷ z ∷ xs) x = back-push_back (z ∷ xs) x

  pub back-some : (xs : List A) → 1 ≤ length xs → (x : A) × (back xs ≡ some x)
  back-some [] h = absurd (omega arith)
  back-some (x ∷ []) h = (x, refl)
  back-some (x ∷ y ∷ xs) h = back-some (y ∷ xs) (omega arith)

  pub length-pop_back : (xs : List A) → length (pop_back xs) ≡ length xs - 1
  length-pop_back [] = omega arith
  length-pop_back (x ∷ []) = omega arith
  length-pop_back (x ∷ y ∷ xs) = omega (arith, length-pop_back (y ∷ xs))

filter_cleared :
    (little : Bool) (unset : ℕ) (pq : List Entry) (m : Merger)
    → m.result_keys ≡ []
    → do_filter little unset pq m ≡ (if length pq == 0 then some m else none)
unfolding do_filter filter_round
filter_cleared little unset [] m e = refl
filter_cleared little unset (entry ∷ pq) m e = ground (arith, e)

-- `DoFilter` right after `MergeEntries`, on tables with a value for each key and a queue that gives
-- out as many entries as were put in, in any order: it reads the back of an empty vector exactly
-- when there is an entry; with none, it changes no more than the two vectors that are cleared.
pub merge_and_filter_lem :
    (in_order : List Entry → List Entry) (little : Bool) (unset : ℕ)
    (files : List (List Bytes × List Bytes)) (m : Merger) (entries : List Entry)
    → ((es : List Entry) → length (in_order es) ≡ length es)
    → merge_by_min_heap files ≡ some entries
    → merge_and_filter in_order little unset files m ≡ (
        if length entries == 0
        then some (record m { result_keys = []; result_values = [] })
        else none)
unfolding merge_and_filter merge_entries
merge_and_filter_lem in_order little unset files m entries same e =
    rw (e, sym (same entries))
      (filter_cleared little unset (in_order entries)
        (record m { result_keys = []; result_values = [] }) refl)

-- An internal key whose user key is not empty.
abbrev pub IsFullKey : Bytes → Type 0
IsFullKey k = IsBytes k × (9 ≤ length k)

user_key_of :
    (little : Bool) (key : Bytes) (before : ParsedInternalKey)
    → IsBytes key
    → 8 ≤ length key
    → (parse_internal_key little key before).0.user_key ≡ take (length key - 8) key
user_key_of little key before h n = ap (λ r. r.0.user_key) (parse_whole little key before h n)

not_same :
    (little : Bool) (unset : ℕ) (k last : Bytes)
    → IsFullKey last
    → equal_slice (parse_both little unset k last).user_key [] ≡ false
unfolding parse_both
not_same little unset k last (h, n) =
    let u = (parse_internal_key little k (unset_key unset)).0 in
    elim (Bool-cases (equal_slice (parse_both little unset k last).user_key [])) [
      | inl e ↦ absurd (
          let e1 = sym (user_key_of little last u h (omega arith)) ∙ equal_slice-eq _ _ e in
          omega (arith, length-take (length last - 8) last, ap length e1))
      | inr e ↦ e
    ]

-- The state with an entry pushed at the back of the results.
abbrev kept : Merger → List Entry → Merger
kept m pq = record m {
  result_keys = m.result_keys ++ map (λ e. e.0) pq;
  result_values = m.result_values ++ map (λ e. e.1) pq;
}

redundant_round :
    (little : Bool) (unset : ℕ) (m : Merger) (last : Bytes) (entry : Entry)
    → m.logic ≡ remove_redundant
    → back m.result_keys ≡ some last
    → IsFullKey last
    → filter_round little unset m entry ≡ some (kept m (entry ∷ []))
unfolding filter_round drop_redundant_keys unset_key
redundant_round little unset m last (k, v) l e h = simp (e, l, not_same little unset k last h)

-- With `kRemoveRedundant`, from results that are not empty, where no user key is empty: every
-- entry of the queue is pushed at the back of the results, in the queue's order, and nothing is
-- abandoned, also where two entries have the same user key.
pub do_filter-remove_redundant :
    (little : Bool) (unset : ℕ) (pq : List Entry) (m : Merger) (last : Bytes)
    → m.logic ≡ remove_redundant
    → back m.result_keys ≡ some last
    → IsFullKey last
    → All (λ e. IsFullKey e.0) pq
    → do_filter little unset pq m
      ≡ some (record m {
        result_keys = m.result_keys ++ map (λ e. e.0) pq;
        result_values = m.result_values ++ map (λ e. e.1) pq;
      })
unfolding do_filter
do_filter-remove_redundant little unset [] m last l e h hs =
    rw (append-nil m.result_keys, append-nil m.result_values) refl
do_filter-remove_redundant little unset ((k, v) ∷ pq) m last l e h (hk, hs) =
    rw (redundant_round little unset m last (k, v) l e h) (
      do_filter-remove_redundant little unset pq (kept m ((k, v) ∷ [])) k l
        (back-push_back m.result_keys k) hk hs
      ∙ rw
          (
            append_assoc m.result_keys (k ∷ []) (map (λ e. e.0) pq),
            append_assoc m.result_values (v ∷ []) (map (λ e. e.1) pq),
          )
          refl)

-- The entries whose user key starts with the prefix, in order.
unfoldable pub matching : Bytes → List Entry → List Entry
matching prefix [] = []
matching prefix ((k, v) ∷ pq) =
    let rest = matching prefix pq in
    if starts_with (take (length k - 8) k) prefix then (k, v) ∷ rest else rest

prefix_round :
    (little : Bool) (unset : ℕ) (m : Merger) (last : Bytes) (entry : Entry)
    → m.logic ≡ delete_prefix
    → back m.result_keys ≡ some last
    → IsBytes entry.0
    → 8 ≤ length entry.0
    → filter_round little unset m entry
      ≡ some (record m {
        abandoned_values = m.abandoned_values ++ matching m.bound.prefix (entry ∷ []);
      })
unfolding filter_round drop_with_prefix matching
prefix_round little unset m last (k, v) l e h n =
    let ek = user_key_of little k (unset_key unset) h n in
    elim (Bool-cases (starts_with (take (length k - 8) k) m.bound.prefix)) [
      | inl es ↦ simp (e, l, ek, es)
      | inr es ↦
          simp (e, l, ek, es, append-nil m.abandoned_values)
            (ap (λ t. some (record m { logic = t })) l)
    ]

matching-cons :
    (prefix : Bytes) (entry : Entry) (pq : List Entry)
    → matching prefix (entry ∷ pq) ≡ matching prefix (entry ∷ []) ++ matching prefix pq
unfolding matching
matching-cons prefix (k, v) pq = ground arith

-- With `kDeletePrefix`, from results that are not empty, where every key is an internal key: the
-- results stay as they were, whatever the queue holds, and exactly the entries whose user key
-- starts with the prefix are abandoned, in the queue's order.
pub do_filter-delete_prefix :
    (little : Bool) (unset : ℕ) (pq : List Entry) (m : Merger) (last : Bytes)
    → m.logic ≡ delete_prefix
    → back m.result_keys ≡ some last
    → All (λ e. IsBytes e.0 × (8 ≤ length e.0)) pq
    → do_filter little unset pq m
      ≡ some (record m { abandoned_values = m.abandoned_values ++ matching m.bound.prefix pq })
unfolding do_filter matching
do_filter-delete_prefix little unset [] m last l e hs = rw (append-nil m.abandoned_values) refl
do_filter-delete_prefix little unset ((k, v) ∷ pq) m last l e ((h, n), hs) =
    let first = matching m.bound.prefix ((k, v) ∷ []) in
    rw (prefix_round little unset m last (k, v) l e h n) (
      do_filter-delete_prefix little unset pq
        (record m { abandoned_values = m.abandoned_values ++ first }) last l e hs
      ∙ ap (λ t. some (record m { abandoned_values = t }))
          (append_assoc m.abandoned_values first (matching m.bound.prefix pq)
            ∙ ap (λ t. m.abandoned_values ++ t) (sym (matching-cons m.bound.prefix (k, v) pq))))
