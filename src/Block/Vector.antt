-- ===== src/Block/Vector.antt =====
-- `ComposeEntryVector` of db_format/on_board_format.h. A slice that it makes is a reference into the
-- blocks: a place, counted from their front, and a length. `none` is a failed read or assertion.
use compaction_test.Base.{
  assert, ◌<◌, ◌%◌, ◌^◌, get_elem?, ℕ, zero, suc, ◌+◌, ◌-◌, ◌*◌, ◌≤◌, Option, none, some, List, [],
  ◌∷◌, ◌++◌, append_assoc, append-nil, Bool, ltb, leb, ◌==◌, if◌then◌else◌, ◌>>=◌, Bytes, length,
  take, take_all, drop, true, false, u32, ◌≡◌, refl, sym, ap, ◌∙◌, arith,
}
use compaction_test.Coding.{get_fixed32}
use compaction_test.Block.{block_size, max_entry_in_block, value_length, full_key_length}

pub record EntryReference : Type 0 where
  pub place : ℕ
  pub size : ℕ

-- So many calls of `GetFixed32` whose words are not used.
unfoldable pub skip_words : Bool → ℕ → Bytes → Option Bytes
skip_words little zero block = some block
skip_words little (suc n) block = do word ← get_fixed32 little block; skip_words little n word.1

-- The twelve words that are read of a block; the second is the number of its entries.
unfoldable pub read_entry_count : Bool → Bytes → Option ℕ
unfolding skip_words
read_entry_count little current_block = do
  block_id ← get_fixed32 little current_block
  block_entries ← get_fixed32 little block_id.1
  rest ← skip_words little 10 block_entries.1
  some block_entries.0

-- The references that are made of an entry, in the block at `i`, behind the twelve words. The macros
-- are sums and products without parentheses, so the place of a key is
-- `data + 8*1024 - entry_posi * 8 + 8`.
abbrev pub key_at : ℕ → ℕ → EntryReference
key_at i posi = record { place = i + 48 + 8 * 1024 - posi * 8 + 8; size = full_key_length }

abbrev pub value_at : ℕ → ℕ → EntryReference
value_at i posi = record { place = i + 48 + posi * value_length; size = value_length }

abbrev pub Arrays : Type 0
Arrays = List EntryReference × List EntryReference

-- The loop over the entries of a block; `none` is a key before all blocks.
unfoldable pub entry_vector_loop : ℕ → ℕ → ℕ → Arrays → Option Arrays
entry_vector_loop i zero posi (keys, values) = some (keys, values)
entry_vector_loop i (suc left) posi (keys, values) = assert (leb (posi * 8) (i + 48 + 8 * 1024)) (
    entry_vector_loop i left (suc posi)
      (keys ++ key_at i posi ∷ [], values ++ value_at i posi ∷ []))

-- The loop over the blocks, on fuel. `total_entries` is not set before the loop.
unfoldable pub vector_blocks_loop : Bool → Bytes → ℕ → ℕ → ℕ → Arrays → Option (ℕ × Arrays)
unfolding read_entry_count entry_vector_loop
vector_blocks_loop little input_blocks zero i total arrays = none
vector_blocks_loop little input_blocks (suc fuel) i total arrays =
    let more = (do
      entries ← read_entry_count little (take block_size (drop i input_blocks))
      made ← entry_vector_loop i entries 0 arrays
      vector_blocks_loop little input_blocks fuel (i + block_size) (u32 (total + entries)) made) in
    if ltb i (length input_blocks) then more else some (total, arrays)

unfoldable pub compose_entry_vector : Bool → (uninitialized : ℕ) → Bytes → Arrays → Option Arrays
unfolding vector_blocks_loop
compose_entry_vector little uninitialized input_blocks arrays = do
  (total, made) ←
      vector_blocks_loop little input_blocks (suc (length input_blocks)) 0 uninitialized arrays
  assert (length made.0 == total) (some made)

-- The references of the entries from `posi` on.
abbrev pub key_refs : ℕ → ℕ → ℕ → List EntryReference
key_refs i posi zero = []
key_refs i posi (suc n) = key_at i posi ∷ key_refs i (suc posi) n

abbrev pub value_refs : ℕ → ℕ → ℕ → List EntryReference
value_refs i posi zero = []
value_refs i posi (suc n) = value_at i posi ∷ value_refs i (suc posi) n

length-key_refs : (i posi n : ℕ) → length (key_refs i posi n) ≡ n
length-key_refs i posi zero = refl
length-key_refs i posi (suc n) = ap suc (length-key_refs i (suc posi) n)

entry_vector_loop_lem :
    (i n posi : ℕ) (keys values : List EntryReference)
    → (posi + n) * 8 ≤ i + 48 + 8 * 1024
    → entry_vector_loop i n posi (keys, values)
      ≡ some (keys ++ key_refs i posi n, values ++ value_refs i posi n)
unfolding entry_vector_loop
entry_vector_loop_lem i zero posi keys values h =
    λ j. some (sym (append-nil keys) j, sym (append-nil values) j)
entry_vector_loop_lem i (suc n) posi keys values h =
    let inside : leb (posi * 8) (i + 48 + 8 * 1024) ≡ true = ground arith in
    simp inside (
      entry_vector_loop_lem i n (suc posi) (keys ++ key_at i posi ∷ [])
        (values ++ value_at i posi ∷ []) (omega arith)
      ∙ (λ j. some (
        append_assoc keys (key_at i posi ∷ []) (key_refs i (suc posi) n) j,
        append_assoc values (value_at i posi ∷ []) (value_refs i (suc posi) n) j,
      )))

one_block :
    (little : Bool) (uninitialized n fuel : ℕ) (block : Bytes)
    → length block ≡ block_size
    → n ≤ max_entry_in_block
    → read_entry_count little block ≡ some n
    → vector_blocks_loop little block (suc (suc fuel)) 0 uninitialized ([], [])
      ≡ some (u32 (uninitialized + n), (key_refs 0 0 n, value_refs 0 0 n))
unfolding vector_blocks_loop
one_block little uninitialized n fuel block size few e =
    let first : read_entry_count little (take block_size (drop 0 block)) ≡ some n =
      ap (read_entry_count little) (take_all block_size block (omega arith)) ∙ e in
    let entries = entry_vector_loop_lem 0 n 0 [] [] (omega arith) in
    let start : ltb 0 (length block) ≡ true = ground arith in
    let stop : ltb block_size (length block) ≡ false = ground arith in
    simp (start, first, entries, stop) refl

asserted {ℓ} :
    {A : Type ℓ} (test : Bool) (a : Option A) → assert test a ≡ (if test then a else none)
asserted true a = refl
asserted false a = refl

get_elem?-key_refs :
    (i posi n j : ℕ) → j < n → get_elem? (key_refs i posi n) j ≡ some (key_at i (posi + j))
get_elem?-key_refs i posi zero j h = absurd (omega arith)
get_elem?-key_refs i posi (suc n) zero h = ap (λ k. some (key_at i k)) (omega arith)
get_elem?-key_refs i posi (suc n) (suc j) h =
    get_elem?-key_refs i (suc posi) n j (omega arith) ∙ ap (λ k. some (key_at i k)) (omega arith)

get_elem?-value_refs :
    (i posi n j : ℕ) → j < n → get_elem? (value_refs i posi n) j ≡ some (value_at i (posi + j))
get_elem?-value_refs i posi zero j h = absurd (omega arith)
get_elem?-value_refs i posi (suc n) zero h = ap (λ k. some (value_at i k)) (omega arith)
get_elem?-value_refs i posi (suc n) (suc j) h =
    get_elem?-value_refs i (suc posi) n j (omega arith)
    ∙ ap (λ k. some (value_at i k)) (omega arith)

length-value_refs : (i posi n : ℕ) → length (value_refs i posi n) ≡ n
length-value_refs i posi zero = refl
length-value_refs i posi (suc n) = ap suc (length-value_refs i (suc posi) n)

-- On one block whose header counts as many entries as a block can hold or fewer, the function makes
-- a key and a value for each entry, and its assertion on the number of keys holds exactly when the
-- counter that is never set was 0 by chance, up to 32 bits. The keys are of 16 bytes, at the places
-- 8248, 8240, 8232 and so on, counted from the front of a block of 8192 bytes; the values are of 10
-- bytes, at the places 48, 58, 68 and so on.
pub compose_entry_vector_lem :
    (little : Bool) (uninitialized n : ℕ) (block : Bytes)
    → length block ≡ block_size
    → n ≤ max_entry_in_block
    → read_entry_count little block ≡ some n
    → (keys : List EntryReference) × (values : List EntryReference) × (compose_entry_vector little
          uninitialized block
          ([], [])
        ≡ (if n == (uninitialized + n) % 2 ^ 32 then some (keys, values) else none))
      × (length keys ≡ n)
      × (length values ≡ n)
      × ((j : ℕ)
          → j < n
          → (get_elem? keys j ≡ some (record { place = 8248 - 8 * j; size = 16 }))
            × (get_elem? values j ≡ some (record { place = 48 + 10 * j; size = 10 })))
unfolding compose_entry_vector
compose_entry_vector_lem little uninitialized n block size few e =
    let loop : vector_blocks_loop little block (suc (length block)) 0 uninitialized ([], [])
        ≡ some (u32 (uninitialized + n), (key_refs 0 0 n, value_refs 0 0 n)) =
      ap (λ k. vector_blocks_loop little block (suc k) 0 uninitialized ([], [])) size
      ∙ one_block little uninitialized n 8191 block size few e in
    (
      key_refs 0 0 n,
      value_refs 0 0 n,
      simp loop (
          ap (λ k. assert (k == u32 (uninitialized + n)) (some (key_refs 0 0 n, value_refs 0 0 n)))
            (length-key_refs 0 0 n)
          ∙ asserted (n == u32 (uninitialized + n)) (some (key_refs 0 0 n, value_refs 0 0 n))),
      length-key_refs 0 0 n,
      length-value_refs 0 0 n,
      λ j h. (
        get_elem?-key_refs 0 0 n j h
            ∙ ap (λ p. some (record { place = p; size = 16 })) (omega arith),
        get_elem?-value_refs 0 0 n j h
            ∙ ap (λ p. some (record { place = p; size = 10 })) (omega arith),
      ),
    )
