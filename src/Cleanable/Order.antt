-- ===== src/Cleanable/Order.antt =====
-- The order in which one object runs its cleanups.
use mathlib.Core.List.{reverse-cons, reverse-reverse}
use compaction_test.Base.{
  ℕ, Option, some, List, [], ◌∷◌, ◌++◌, true, false, ◌>>=◌, reverse, append_assoc, append-nil, ◌≡◌,
  refl, sym, ap, ◌∙◌, arith,
}
use compaction_test.Cleanable.{
  Cleanup, Cleanable, is_null, new_cleanable, cleared, do_cleanup, register_node, register_nodes,
  register_cleanup, delegate_cleanups_to,
}
use compaction_test.Cleanable.Chains.{
  all_set, cleared-well_formed, do_cleanup_lem, register_cleanup_lem,
}
use compaction_test.Cleanable.Counts.{chain_of}

-- One registration after the other.
abbrev pub register_all : List Cleanup → Cleanable → Option Cleanable
register_all [] o = some o
register_all (c ∷ cs) o = register_cleanup c o >>= register_all cs

reverse_onto :
    (c : Cleanup) (cs next : List Cleanup) → reverse cs ++ (c ∷ next) ≡ reverse (c ∷ cs) ++ next
reverse_onto c cs next =
    sym (append_assoc (reverse cs) (c ∷ []) next) ∙ ap (λ xs. xs ++ next) (sym (reverse-cons c cs))

-- Behind a head that is set, the nodes come in the reverse order.
register_all_lem :
    (cs next : List Cleanup) (head : Cleanup)
    → is_null head ≡ false
    → all_set cs ≡ true
    → register_all cs (record { head = head; next = next })
      ≡ some (record { head = head; next = reverse cs ++ next })
register_all_lem [] next head s h = refl
register_all_lem (c ∷ cs) next head s h =
    let first : is_null c ≡ false = ground (arith, h) in
    simp (register_cleanup_lem c (record { head = head; next = next }) first, s)
      (register_all_lem cs (c ∷ next) head s (ground (arith, h))
        ∙ ap (λ xs. some (record { head = head; next = xs })) (reverse_onto c cs next))

register_nodes_lem :
    (cs next : List Cleanup) (head : Cleanup)
    → is_null head ≡ false
    → register_nodes cs (record { head = head; next = next })
      ≡ record { head = head; next = reverse cs ++ next }
unfolding register_nodes register_node
register_nodes_lem [] next head s = refl
register_nodes_lem (c ∷ cs) next head s = simp s (
    register_nodes_lem cs (c ∷ next) head s
    ∙ ap (λ xs. record { head = head; next = xs }) (reverse_onto c cs next))

first_head :
    (c : Cleanup) (arg1 arg2 : ℕ)
    → is_null c ≡ false
    → register_cleanup c (new_cleanable arg1 arg2) ≡ some (record { head = c; next = [] })
unfolding new_cleanable register_cleanup
first_head c arg1 arg2 s = simp s

all_set-append :
    (xs ys : List Cleanup) → all_set xs ≡ true → all_set ys ≡ true → all_set (xs ++ ys) ≡ true
all_set-append [] ys h g = g
all_set-append (x ∷ xs) ys h g =
    let first : is_null x ≡ false = ground (arith, h) in
    simp first (all_set-append xs ys (ground (arith, h)) g)

all_set-reverse : (xs : List Cleanup) → all_set xs ≡ true → all_set (reverse xs) ≡ true
all_set-reverse [] h = refl
all_set-reverse (x ∷ xs) h =
    let first : all_set (x ∷ []) ≡ true = ground (arith, h) in
    rw (reverse-cons x xs)
      (all_set-append (reverse xs) (x ∷ []) (all_set-reverse xs (ground (arith, h))) first)

chain_of-cleared : (o : Cleanable) → chain_of (cleared o) ≡ []
unfolding cleared
chain_of-cleared o = refl

all_registered :
    (c : Cleanup) (cs : List Cleanup)
    → all_set (c ∷ cs) ≡ true
    → register_all (c ∷ cs) (new_cleanable 0 0) ≡ some (record { head = c; next = reverse cs })
all_registered c cs h =
    let set : is_null c ≡ false = ground (arith, h) in
    let rest = register_all_lem cs [] c set (ground (arith, h)) in
    simp (first_head c 0 0 set, rest, append-nil (reverse cs))

to_new :
    (c : Cleanup) (cs : List Cleanup)
    → is_null c ≡ false
    → delegate_cleanups_to (record { head = c; next = cs }) (new_cleanable 0 0)
      ≡ some (cleared (record { head = c; next = cs }), record { head = c; next = reverse cs })
unfolding delegate_cleanups_to new_cleanable
to_new c cs set = simp (set, register_nodes_lem cs [] c set, append-nil (reverse cs))

-- What a new object runs on which `cs` were registered; and what it and another new object run when
-- it delegates to that one first.
abbrev pub runs_alone : List Cleanup → Option (List Cleanup)
runs_alone cs = register_all cs (new_cleanable 0 0) >>= do_cleanup

abbrev pub delegated : Option Cleanable → Option (List Cleanup × List Cleanup)
delegated found = do
  o ← found
  pair ← delegate_cleanups_to o (new_cleanable 0 0)
  mine ← do_cleanup pair.0
  theirs ← do_cleanup pair.1
  some (mine, theirs)

abbrev pub runs_delegated : List Cleanup → Option (List Cleanup × List Cleanup)
runs_delegated cs = delegated (register_all cs (new_cleanable 0 0))

-- A new object runs what was registered with it in this order: the first one, and then the others
-- from the last one back. When they are delegated to another new object before, that one runs them
-- as they were registered, and this one runs nothing. No function is null.
pub run_order :
    (c : Cleanup) (cs : List Cleanup)
    → all_set (c ∷ cs) ≡ true
    → (runs_alone (c ∷ cs) ≡ some (c ∷ reverse cs)) × (runs_delegated (c ∷ cs) ≡ some ([], c ∷ cs))
run_order c cs h =
    let set : is_null c ≡ false = ground (arith, h) in
    let sets : all_set cs ≡ true = ground (arith, h) in
    let registered = all_registered c cs h in
    let o : Cleanable = record { head = c; next = reverse cs } in
    let alone = do_cleanup_lem o (simp set (all_set-reverse cs sets)) in
    let theirs = do_cleanup_lem (record { head = c; next = cs }) (simp set sets) in
    let mine = do_cleanup_lem (cleared o) (cleared-well_formed o) in
    (
      ap (λ found. found >>= do_cleanup) registered ∙ simp (alone, set),
      ap delegated registered
          ∙ simp (
            to_new c (reverse cs) set,
            reverse-reverse cs,
            mine,
            theirs,
            set,
            chain_of-cleared o,
          ),
    )
