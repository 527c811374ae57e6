-- ===== src/Cleanable/Counts.antt =====
-- How many cleanups pass a test, in chains, objects and worlds.
use compaction_test.Base.{
  ℕ, zero, suc, ◌+◌, some, List, [], ◌∷◌, ◌++◌, Bool, if◌then◌else◌, get_elem?, length, ◌≡◌, ◌≢◌,
  refl, ap, arith,
}
use compaction_test.Cleanable.{Cleanup, Cleanable, is_null}
use compaction_test.Cleanable.World.{set_at}

-- What an object holds.
abbrev pub chain_of : Cleanable → List Cleanup
chain_of o = if is_null o.head then [] else o.head ∷ o.next

module _ (test : Cleanup → Bool) where
  abbrev pub count : List Cleanup → ℕ
  count [] = 0
  count (c ∷ cs) = (if test c then 1 else 0) + count cs

  abbrev pub held : Cleanable → ℕ
  held o = count (chain_of o)

  abbrev pub held_all : List Cleanable → ℕ
  held_all [] = 0
  held_all (o ∷ objects) = held o + held_all objects

  pub count-append : (xs ys : List Cleanup) → count (xs ++ ys) ≡ count xs + count ys
  count-append [] ys = omega arith
  count-append (x ∷ xs) ys = omega (arith, count-append xs ys)

  pub held_all-set_at :
      (objects : List Cleanable) (i : ℕ) (o x : Cleanable)
      → get_elem? objects i ≡ some o
      → held_all (set_at i x objects) + held o ≡ held_all objects + held x
  held_all-set_at [] i o x h = absurd (ground (arith, h))
  held_all-set_at (y ∷ objects) zero o x h =
      let same : y ≡ o = ground (arith, h) in rw same (omega arith)
  held_all-set_at (y ∷ objects) (suc i) o x h = omega (arith, held_all-set_at objects i o x h)

pub length-set_at :
    (objects : List Cleanable) (i : ℕ) (x : Cleanable)
    → length (set_at i x objects) ≡ length objects
length-set_at [] i x = refl
length-set_at (y ∷ objects) zero x = refl
length-set_at (y ∷ objects) (suc i) x = ap suc (length-set_at objects i x)

pub get_elem?-set_at_other :
    (objects : List Cleanable) (i j : ℕ) (x : Cleanable)
    → i ≢ j
    → get_elem? (set_at i x objects) j ≡ get_elem? objects j
get_elem?-set_at_other [] i j x h = refl
get_elem?-set_at_other (y ∷ objects) zero zero x h = absurd (h refl)
get_elem?-set_at_other (y ∷ objects) zero (suc j) x h = refl
get_elem?-set_at_other (y ∷ objects) (suc i) zero x h = refl
get_elem?-set_at_other (y ∷ objects) (suc i) (suc j) x h =
    get_elem?-set_at_other objects i j x (λ e. h (ap suc e))
