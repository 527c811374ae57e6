-- ===== src/Cleanable.antt =====
-- `Cleanable` of utils/cleanable.h and utils/cleanable.cc: the functions that an object runs when it
-- is destroyed. A function is its address, and 0 the null pointer. `none` is a failed assertion or a
-- call through a null pointer. The nodes on the heap belong to one object, so a chain is a list.
pub mod World
pub mod Counts
pub mod Chains
pub mod Step
pub mod Once
pub mod Order
mod Tests
use compaction_test.Base.{
  assert, ℕ, Option, none, some, List, [], ◌∷◌, Bool, ◌==◌, not, if◌then◌else◌, ◌>>=◌,
}

-- A function with its two arguments; the list that follows is the chain of `next`.
pub record Cleanup : Type 0 where
  pub function : ℕ
  pub arg1 : ℕ
  pub arg2 : ℕ

pub record Cleanable : Type 0 where
  pub head : Cleanup
  pub next : List Cleanup

abbrev pub is_null : Cleanup → Bool
is_null c = c.function == 0

-- Whatever the arguments of the head hold, they are not read.
unfoldable pub new_cleanable : ℕ → ℕ → Cleanable
new_cleanable arg1 arg2 = record {
  head = record { function = 0; arg1 = arg1; arg2 = arg2 };
  next = [];
}

unfoldable pub cleared : Cleanable → Cleanable
cleared o = record { head = record o.head { function = 0 }; next = [] }

-- A call through a pointer.
abbrev pub call : Cleanup → Option Cleanup
call c = if is_null c then none else some c

abbrev pub call_all : List Cleanup → Option (List Cleanup)
call_all [] = some []
call_all (c ∷ chain) = do first ← call c; rest ← call_all chain; some (first ∷ rest)

-- The calls that are made, in their order.
unfoldable pub do_cleanup : Cleanable → Option (List Cleanup)
do_cleanup o =
    if is_null o.head
    then some []
    else do first ← call o.head; rest ← call_all o.next; some (first ∷ rest)

unfoldable pub reset : Cleanable → Option (Cleanable × List Cleanup)
unfolding do_cleanup cleared
reset o = do calls ← do_cleanup o; some (cleared o, calls)

-- A node that the object becomes the owner of.
unfoldable pub register_node : Cleanup → Cleanable → Cleanable
register_node c o = if is_null o.head then record o { head = c } else record o { next = c ∷ o.next }

unfoldable pub register_cleanup : Cleanup → Cleanable → Option Cleanable
register_cleanup c o =
    assert (not (is_null c))
      (some (if is_null o.head then record o { head = c } else record o { next = c ∷ o.next }))

unfoldable pub register_nodes : List Cleanup → Cleanable → Cleanable
unfolding register_node
register_nodes [] o = o
register_nodes (c ∷ chain) o = register_nodes chain (register_node c o)

-- The two objects are not the same one. The result is this object and the other one.
unfoldable pub delegate_cleanups_to : Cleanable → Cleanable → Option (Cleanable × Cleanable)
unfolding register_cleanup register_nodes cleared
delegate_cleanups_to this other = if is_null this.head then some (this, other) else do
  other1 ← register_cleanup this.head other
  some (cleared this, register_nodes this.next other1)

-- This object and the other one, after the assignment; what this one held is forgotten.
unfoldable pub move_assign_to : Cleanable → Cleanable → Cleanable × Cleanable
unfolding cleared
move_assign_to this other = (other, cleared other)
