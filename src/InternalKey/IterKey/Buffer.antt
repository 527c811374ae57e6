-- ===== src/InternalKey/IterKey/Buffer.antt =====
-- The buffer of `IterKey`: copies into it, and moving it to a larger block.
use compaction_test.Base.{
  ℕ, ◌+◌, ◌≤◌, some, ◌++◌, true, false, ltb, if◌then◌else◌, Bool-cases, Option-cases, inl, inr,
  Bytes, length, take, drop, length-append, length-take, take-take, length-drop, take-append_left,
  ◌≡◌, refl, ◌∙◌, arith,
}
use compaction_test.InternalKey.IterKey.{
  IterKey, inline_space, read_at, write_at, key_memory, read_key, write_buf, is_key_pinned,
  after_move, reset_buffer, enlarge_buffer, enlarge_buffer_if_needed,
}

-- The buffers have the sizes that the object notes.
pub record IsBuffer (k : IterKey) : Type 0 where
  pub space_size : length k.space ≡ 32
  pub buf_length : length k.buf ≡ k.buf_size
  pub inline_size : k.on_heap ≡ false → k.buf_size ≡ 32
  pub inline_pointer : k.key ≡ inline_space → k.on_heap ≡ true

-- A block of memory after a copy to the offset `off`.
abbrev pub splice : ℕ → Bytes → Bytes → Bytes
splice off bytes memory = take off memory ++ bytes ++ drop (off + length bytes) memory

pub length-splice :
    (off : ℕ) (bytes memory : Bytes)
    → off + length bytes ≤ length memory
    → length (splice off bytes memory) ≡ length memory
length-splice off bytes memory h = omega (
  arith,
  length-append (take off memory ++ bytes) (drop (off + length bytes) memory),
  length-append (take off memory) bytes,
  length-take off memory,
  length-drop (off + length bytes) memory,
)

-- Up to the end of what was copied, the memory is what it was and then the copy.
pub take-splice :
    (off : ℕ) (bytes memory : Bytes)
    → off + length bytes ≤ length memory
    → take (off + length bytes) (splice off bytes memory) ≡ take off memory ++ bytes
take-splice off bytes memory h =
    take-append_left (off + length bytes) (take off memory ++ bytes)
      (drop (off + length bytes) memory)
      (omega (arith, length-append (take off memory) bytes, length-take off memory))

pub write_buf_lem :
    (off : ℕ) (bytes : Bytes) (k : IterKey)
    → off + length bytes ≤ length k.buf
    → write_buf off bytes k ≡ some (record k { buf = splice off bytes k.buf })
unfolding write_buf write_at
write_buf_lem off bytes k h = ground arith

pub IsBuffer-splice :
    (off : ℕ) (bytes : Bytes) (k : IterKey)
    → IsBuffer k
    → off + length bytes ≤ length k.buf
    → IsBuffer (record k { buf = splice off bytes k.buf })
IsBuffer-splice off bytes k b h = record {
  space_size = b.space_size;
  buf_length = length-splice off bytes k.buf h ∙ b.buf_length;
  inline_size = b.inline_size;
  inline_pointer = b.inline_pointer;
}

pub read_at_lem :
    (n : ℕ) (memory : Bytes) → n ≤ length memory → read_at n memory ≡ some (take n memory)
unfolding read_at
read_at_lem n memory h = ground arith

pub read_at-length :
    (n : ℕ) (memory out : Bytes)
    → read_at n memory ≡ some out
    → (n ≤ length memory) × (out ≡ take n memory)
unfolding read_at
read_at-length n memory out h = ground arith

pub read_at-shorter :
    (m n : ℕ) (memory out : Bytes)
    → m ≤ n
    → read_at n memory ≡ some out
    → read_at m memory ≡ some (take m out)
read_at-shorter m n memory out le h =
    let (room, e) = read_at-length n memory out h in
    rw e (rw (take-take m n memory le) (read_at_lem m memory (omega arith)))

pub read_key-shorter :
    (m n : ℕ) (k : IterKey) (out : Bytes)
    → m ≤ n
    → read_key n k ≡ some out
    → read_key m k ≡ some (take m out)
unfolding read_key
read_key-shorter m n k out le h = elim (Option-cases (key_memory k)) [
  | inl e ↦ absurd (ground (arith, e))
  | inr (memory, e) ↦ let read = rw e at h in rw e (read_at-shorter m n memory out le read)
]

module _ (fresh : ℕ → Bytes) where
  -- The object after `EnlargeBufferIfNeeded`.
  abbrev pub enlarged : ℕ → IterKey → IterKey
  enlarged n k =
      if ltb k.buf_size n
      then record k {
        buf = fresh n;
        on_heap = true;
        space = (reset_buffer k).buf;
        key = after_move (reset_buffer k).key;
        key_size = 0;
        buf_size = n;
      }
      else k

  pub enlarge_lem : (n : ℕ) (k : IterKey) → enlarge_buffer_if_needed fresh n k ≡ some (enlarged n k)
  unfolding enlarge_buffer_if_needed enlarge_buffer reset_buffer
  enlarge_lem n k = ground arith

  pub enlarged-IsBuffer :
      (n : ℕ) (k : IterKey)
      → ((n : ℕ) → length (fresh n) ≡ n)
      → IsBuffer k
      → IsBuffer (enlarged n k)
  unfolding reset_buffer
  enlarged-IsBuffer n k f b = elim (Bool-cases (ltb k.buf_size n)) [
    | inl e ↦ simp e (record {
      space_size = ground (arith, b.space_size, b.buf_length, b.inline_size);
      buf_length = f n;
      inline_size = λ h. cc;
      inline_pointer = λ h. refl;
    })
    | inr e ↦ simp e b
  ]

  pub enlarged-room : (n : ℕ) (k : IterKey) → n ≤ (enlarged n k).buf_size
  enlarged-room n k = ground arith

  pub enlarged-is_user_key : (n : ℕ) (k : IterKey) → (enlarged n k).is_user_key ≡ k.is_user_key
  enlarged-is_user_key n k = ground arith

  -- A pinned key is where it was.
  pub read_key-enlarged :
      (n m : ℕ) (k : IterKey)
      → IsBuffer k
      → is_key_pinned k ≡ true
      → read_key m (enlarged n k) ≡ read_key m k
  unfolding reset_buffer is_key_pinned key_memory read_key
  read_key-enlarged n m k b h = ground (arith, b.inline_pointer)
