-- ===== src/Block/Layout.antt =====
-- The size of the blocks, and where their entries lie.
use compaction_test.Base.{
  ℕ, ◌+◌, ◌*◌, ◌≤◌, none, some, List, [], ◌∷◌, ◌++◌, Bool, Bytes, All, All-reverse, length,
  length-append, length-concat, length-replicate, length-reverse_lem, replicate, concat, reverse,
  u32, ◌≡◌, refl, sym, ap, ◌∙◌, arith, append-nil, append_assoc,
}
use compaction_test.Coding.{le_bytes}
use compaction_test.Coding.Fixed.{put_fixed32-le}
use compaction_test.Coding.Fixed.RoundTrip.{length-le_bytes}
use compaction_test.Block.{
  Block, block_size, full_key_length, value_length, max_entry_in_block, new_block,
  placeholder_length, put_words, put_header, compose_gear, compose_on_board, add_block,
  gear_add_block, on_board_add_block, append_to_file,
}
use compaction_test.Block.Entries.{collected, add_block_lem}

-- The words of a header, four bytes each.
abbrev pub words : List ℕ → Bytes
words [] = []
words (w ∷ ws) = le_bytes 4 w ++ words ws

pub put_words-words :
    (little : Bool) (dst : Bytes) (ws : List ℕ) → put_words little dst ws ≡ dst ++ words ws
unfolding put_words
put_words-words little dst [] = sym (append-nil dst)
put_words-words little dst (w ∷ ws) =
    ap (λ t. put_words little t ws) (put_fixed32-le little dst w)
    ∙ put_words-words little (dst ++ le_bytes 4 w) ws
    ∙ append_assoc dst (le_bytes 4 w) (words ws)

pub length-words : (ws : List ℕ) → length (words ws) ≡ 4 * length ws
length-words [] = refl
length-words (w ∷ ws) =
    omega (arith, length-append (le_bytes 4 w) (words ws), length-le_bytes 4 w, length-words ws)

-- Keys and values of the sizes that the format fixes, and no more than a block takes.
pub record IsEntries (keys values : List Bytes) : Type 0 where
  pub paired : length keys ≡ length values
  pub few : length keys ≤ max_entry_in_block
  pub key_sizes : All (λ k. length k ≡ full_key_length) keys
  pub value_sizes : All (λ v. length v ≡ value_length) values

module _ (keys values : List Bytes) (entries : IsEntries keys values) where
  key_size : length (concat (reverse keys)) ≡ length keys * 16
  key_size = omega (
    arith,
    length-concat 16 (reverse keys) (All-reverse _ keys entries.key_sizes),
    length-reverse_lem keys,
  )

  value_size : length (concat values) ≡ length keys * 10
  value_size = omega (arith, length-concat 10 values entries.value_sizes, entries.paired)

  placeholder :
      (id : ℕ) → placeholder_length (collected id keys values) + 64 + length keys * 26 ≡ 8192
  unfolding placeholder_length
  placeholder id = omega (arith, key_size, value_size, entries.few)

  header_words :
      (little : Bool) (id : ℕ)
      → (ws : List ℕ) × (put_header little (collected id keys values) ≡ words ws) × (length ws ≡ 16)
  unfolding put_header
  header_words little id = (
    u32 id
        ∷ u32 (length keys)
        ∷ u32 (length (concat (reverse keys)))
        ∷ u32 (length (concat values))
        ∷ placeholder_length (collected id keys values)
        ∷ replicate 11 0,
    put_words-words little [] _,
    refl,
  )

  header_size :
      (little : Bool) (id : ℕ) → length (put_header little (collected id keys values)) ≡ 64
  header_size little id =
      let (ws, e, n) = header_words little id in rw e (omega (arith, length-words ws, n))

  gear_size :
      (little : Bool) (id : ℕ)
      → length (compose_gear little (collected id keys values)).content_block ≡ 8192
  unfolding compose_gear
  gear_size little id =
      let b : Block = collected id keys values in
      let head : Bytes = put_header little b in
      let pad : Bytes = replicate (placeholder_length b) b'h' in
      omega (
        arith,
        length-append (head ++ concat values ++ pad) (concat (reverse keys)),
        length-append (head ++ concat values) pad,
        length-append head (concat values),
        length-replicate {A = ℕ} (placeholder_length b) b'h',
        header_size little id,
        key_size,
        value_size,
        placeholder id,
      )

  on_board_size :
      (little : Bool) (id : ℕ)
      → length (compose_on_board little (collected id keys values)).content_block
        ≡ 64 + 26 * length keys
  unfolding compose_on_board
  on_board_size little id =
      let head : Bytes = put_header little (collected id keys values) in
      omega (
        arith,
        length-append (head ++ concat values) (concat (reverse keys)),
        length-append head (concat values),
        header_size little id,
        key_size,
        value_size,
      )

  added :
      (compose : Block → Block) (id : ℕ)
      → add_block compose keys values (new_block id) ≡ some (compose (collected id keys values))
  added compose id =
      let fits = entries.paired in ground (arith, add_block_lem compose keys values id)

  -- A gear block of at most 312 entries with keys of 16 and values of 10 bytes is filled up to
  -- exactly 8192 bytes.
  pub gear_block_size :
      (little : Bool) (id : ℕ)
      → (b : Block) × (gear_add_block little keys values (new_block id) ≡ some b)
        × (length b.content_block ≡ block_size)
  unfolding gear_add_block
  gear_block_size little id = (
    compose_gear little (collected id keys values),
    added (compose_gear little) id,
    gear_size little id,
  )

  -- An on-board block of at most 312 entries with keys of 16 and values of 10 bytes lacks the
  -- placeholder: it has 64 bytes and 26 for each entry, and `AppendToFile` reads past its end.
  pub on_board_block_short :
      (little : Bool) (id : ℕ)
      → (b : Block) × (on_board_add_block little keys values (new_block id) ≡ some b)
        × (length b.content_block ≡ 64 + 26 * length keys)
        × (append_to_file b ≡ none)
  unfolding on_board_add_block append_to_file
  on_board_block_short little id =
      let size = on_board_size little id in
      let fits = entries.few in
      (
        compose_on_board little (collected id keys values),
        added (compose_on_board little) id,
        size,
        ground (arith, size),
      )
