-- ===== src/Comparator/Laws.antt =====
-- The laws of comparators, and the maps over them.
use Prim.Native.Nat.{Ordering}
use compaction_test.Base.{
  ℕ, suc, [], ◌∷◌, true, if◌then◌else◌, Option, none, some, Bytes, All, length, Bool-cases, inl,
  inr, ◌≡◌, ◌≢◌, refl, arith,
}
use compaction_test.Slice.{is_eq}
use compaction_test.Slice.Order.{IsComparator}
use compaction_test.Comparator.{
  Comparator, user_comparator_wrapper, less_of_comparator, KvMap, emplace,
}

-- What the header promises of a comparator.
pub record IsLawful (c : Comparator) : Type 0 where
  pub order : IsComparator c.compare
  pub equal_iff : (a b : Bytes) → c.equal a b ≡ is_eq (c.compare a b)
  pub separator :
      (start limit : Bytes)
      → c.compare start limit ≡ Ordering.lt
      → (c.compare start (c.find_shortest_separator start limit) ≢ Ordering.gt)
        × (c.compare (c.find_shortest_separator start limit) limit ≡ Ordering.lt)
  pub successor : (key : Bytes) → c.compare key (c.find_short_successor key) ≢ Ordering.gt

-- The wrapper keeps every promise of the comparator that it holds.
pub wrapper-IsLawful :
    (address : ℕ) (c : Comparator) → IsLawful c → IsLawful (user_comparator_wrapper address c)
unfolding user_comparator_wrapper
wrapper-IsLawful address c laws = record {
  order = laws.order;
  equal_iff = laws.equal_iff;
  separator = laws.separator;
  successor = laws.successor;
}

-- Each key of a map is before the next one.
abbrev pub IsKvMap : Comparator → KvMap → Type 0
IsKvMap c [] = Unit
IsKvMap c ((k, v) ∷ m) = All (λ e. c.compare k e.0 ≡ Ordering.lt) m × IsKvMap c m

module _ (c : Comparator) (laws : IsLawful c) where
  pub emplace-All :
      (P : Bytes × Bytes → Type 0) (k v : Bytes) (m : KvMap)
      → P (k, v)
      → All P m
      → All P (emplace c k v m)
  unfolding emplace
  emplace-All P k v [] p a = (p, tt)
  emplace-All P k v ((j, w) ∷ m) p (q, a) = ground (arith, emplace-All P k v m p a)

  lt_chain :
      (k j : Bytes) (m : KvMap)
      → c.compare k j ≡ Ordering.lt
      → All (λ e. c.compare j e.0 ≡ Ordering.lt) m
      → All (λ e. c.compare k e.0 ≡ Ordering.lt) m
  lt_chain k j [] h a = tt
  lt_chain k j (e ∷ m) h (b, a) = (laws.order.trans k j e.0 h b, lt_chain k j m h a)

  after_lt : (k j : Bytes) → less_of_comparator c k j ≡ true → c.compare k j ≡ Ordering.lt
  unfolding less_of_comparator
  after_lt k j e = ground arith

  pub emplace-IsKvMap : (k v : Bytes) (m : KvMap) → IsKvMap c m → IsKvMap c (emplace c k v m)
  unfolding emplace
  emplace-IsKvMap k v [] h = (tt, tt)
  emplace-IsKvMap k v ((j, w) ∷ m) (first, rest) = elim (Bool-cases (less_of_comparator c k j)) [
    | inl e ↦ simp e ((after_lt k j e, lt_chain k j m (after_lt k j e) first), (first, rest))
    | inr e ↦ elim (Bool-cases (less_of_comparator c j k)) [
      | inl d ↦
          simp (e, d)
            (
              emplace-All (λ x. c.compare j x.0 ≡ Ordering.lt) k v m (after_lt j k d) first,
              emplace-IsKvMap k v m rest,
            )
      | inr d ↦ simp (e, d) (first, rest)
    ]
  ]

  -- The value under a key, as a search of the map finds it.
  pub find : Bytes → KvMap → Option Bytes
  find k [] = none
  find k ((j, w) ∷ m) = if is_eq (c.compare k j) then some w else find k m

  -- A key that is not in the map is put there, with its value.
  pub emplace_new :
      (k v : Bytes) (m : KvMap)
      → All (λ e. c.compare k e.0 ≢ Ordering.eq) m
      → (length (emplace c k v m) ≡ suc (length m)) × (find k (emplace c k v m) ≡ some v)
  unfolding emplace find less_of_comparator
  emplace_new k v [] h = (refl, ground (arith, laws.order.same k))
  emplace_new k v ((j, w) ∷ m) (differ, h) =
      ground (arith, differ, laws.order.same k, laws.order.swap k j, emplace_new k v m h)

  -- The other keys are found as before.
  pub emplace_other :
      (k v j : Bytes) (m : KvMap)
      → c.compare j k ≢ Ordering.eq
      → find j (emplace c k v m) ≡ find j m
  unfolding emplace find less_of_comparator
  emplace_other k v j [] h = ground (arith, h)
  emplace_other k v j ((i, w) ∷ m) h = ground (arith, h, emplace_other k v j m h)
