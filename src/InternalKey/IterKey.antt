-- ===== src/InternalKey/IterKey.antt =====
-- `IterKey` of db_format/dbformat.h and db_format/dbformat.cc: a key that is copied into a buffer, or
-- pinned where it lies. `none` is a failed assertion, a copy past the end of a buffer, or a read of
-- memory that was freed. The slices that an operation is given do not point into the buffer.
pub mod Access
pub mod Buffer
pub mod Abstract
pub mod Represents
pub mod Refine
pub mod Encode
pub mod Correct
mod Tests
use compaction_test.Base.{
  assert, ℕ, ◌+◌, ◌-◌, Option, none, some, [], ◌++◌, Bool, true, false, not, ltb, leb,
  if◌then◌else◌, ◌>>=◌, Bytes, length, take, drop,
}
use compaction_test.Coding.{encode_fixed64}
use compaction_test.Coding.Varint.{encode_varint32, varint_length}
use compaction_test.InternalKey.{ParsedInternalKey, pack, pack_sequence_and_type}

-- Where `key_` points: to `buf_`; to `space_` while `buf_` is elsewhere; to memory of the caller; or
-- to a buffer that was freed.
pub data KeyPointer : Type 0 where
  own inline_space freed : KeyPointer
  external : Bytes → KeyPointer

-- `buf` is what `buf_` points to, and `on_heap` whether that is not `space_`; `space` is what
-- `space_` holds then.
pub record IterKey : Type 0 where
  pub buf : Bytes
  pub on_heap : Bool
  pub space : Bytes
  pub key : KeyPointer
  pub key_size : ℕ
  pub buf_size : ℕ
  pub is_user_key : Bool

-- A new object, whose `space_` holds anything.
unfoldable pub new_iter_key : Bytes → IterKey
new_iter_key space = record {
  buf = space;
  on_heap = false;
  space = space;
  key = own;
  key_size = 0;
  buf_size = 32;
  is_user_key = true;
}

-- `memcpy` of `n` bytes from a block of memory, and to a place in one.
unfoldable pub read_at : ℕ → Bytes → Option Bytes
read_at n memory = if leb n (length memory) then some (take n memory) else none

unfoldable pub write_at : ℕ → Bytes → Bytes → Option Bytes
write_at off bytes memory =
    if leb (off + length bytes) (length memory)
    then some (take off memory ++ bytes ++ drop (off + length bytes) memory)
    else none

-- The memory from `key_` on.
unfoldable pub key_memory : IterKey → Option Bytes
key_memory k = elim k.key [
  | own ↦ some k.buf
  | inline_space ↦ some k.space
  | freed ↦ none
  | external memory ↦ some memory
]

unfoldable pub read_key : ℕ → IterKey → Option Bytes
unfolding key_memory read_at
read_key n k = key_memory k >>= read_at n

unfoldable pub write_buf : ℕ → Bytes → IterKey → Option IterKey
write_buf off bytes k = do buf ← write_at off bytes k.buf; some (record k { buf = buf })

unfoldable pub is_key_pinned : IterKey → Bool
is_key_pinned k = elim k.key [ own ↦ false | _ ↦ true ]

-- `delete[] buf_`, and `buf_ = space_`.
abbrev pub after_delete : KeyPointer → KeyPointer
after_delete own = freed
after_delete inline_space = own
after_delete p = p

unfoldable pub reset_buffer : IterKey → IterKey
reset_buffer k = record k {
  buf = if k.on_heap then k.space else k.buf;
  on_heap = false;
  key = if k.on_heap then after_delete k.key else k.key;
  buf_size = 32;
  key_size = 0;
}

-- `buf_` moves from `space_` to a new block.
abbrev pub after_move : KeyPointer → KeyPointer
after_move own = inline_space
after_move p = p

-- The bytes of a timestamp, which may be missing.
abbrev pub timestamp : Option Bytes → Bytes
timestamp none = []
timestamp (some ts) = ts

-- `fresh n` is what `new char[n]` holds.
module _ (fresh : ℕ → Bytes) where
  unfoldable pub enlarge_buffer : ℕ → IterKey → Option IterKey
  unfolding reset_buffer
  enlarge_buffer key_size k = assert (ltb k.buf_size key_size) (
      some (record (reset_buffer k) {
        buf = fresh key_size;
        on_heap = true;
        space = (reset_buffer k).buf;
        key = after_move (reset_buffer k).key;
        buf_size = key_size;
      }))

  unfoldable pub enlarge_buffer_if_needed : ℕ → IterKey → Option IterKey
  unfolding enlarge_buffer
  enlarge_buffer_if_needed key_size k =
      if ltb k.buf_size key_size then enlarge_buffer key_size k else some k

  unfoldable pub set_key_impl : Bytes → Bool → IterKey → Option IterKey
  set_key_impl key true k = do
    k1 ← enlarge_buffer_if_needed (length key) k
    k2 ← write_buf 0 key k1
    some (record k2 { key = own; key_size = length key })
  set_key_impl key false k = some (record k { key = external key; key_size = length key })

  unfoldable pub set_key : Bytes → Bool → IterKey → Option IterKey
  set_key key copy k = set_key_impl key copy k

  unfoldable pub set_user_key : Bytes → Bool → IterKey → Option IterKey
  set_user_key key copy k = set_key_impl key copy (record k { is_user_key = true })

  unfoldable pub set_internal_key_slice : Bytes → Bool → IterKey → Option IterKey
  set_internal_key_slice key copy k = set_key_impl key copy (record k { is_user_key = false })

  -- The overload that also makes the user key of `ikey` the copy.
  unfoldable pub set_internal_key_into :
      Bytes → ParsedInternalKey → IterKey → Option (IterKey × ParsedInternalKey)
  unfolding set_internal_key_slice
  set_internal_key_into key ikey k = assert (leb 8 (length key)) (do
    k1 ← set_internal_key_slice key true k
    user_key ← read_key (length key - 8) k1
    some (k1, record ikey { user_key = user_key }))

  -- The old buffer gives way to a new one, into which the shared bytes were copied.
  unfoldable pub grow : ℕ → ℕ → IterKey → Option IterKey
  grow total_size shared_len k = do
    shared ← read_key shared_len k
    p ← write_at 0 shared (fresh total_size)
    some (record k {
      buf = p;
      on_heap = true;
      space = if k.on_heap then k.space else k.buf;
      buf_size = total_size;
    })

  unfoldable pub copy_shared : ℕ → ℕ → IterKey → Option IterKey
  copy_shared total_size shared_len k = do
    k1 ← enlarge_buffer_if_needed total_size k
    shared ← read_key shared_len k1
    write_buf 0 shared k1

  unfoldable pub trim_append : ℕ → Bytes → ℕ → IterKey → Option IterKey
  unfolding grow copy_shared
  trim_append shared_len non_shared_data non_shared_len k = assert (leb shared_len k.key_size) (do
    let total_size = shared_len + non_shared_len
    k1 ←
        if is_key_pinned k
        then copy_shared total_size shared_len k
        else if ltb k.buf_size total_size
        then grow total_size shared_len k
        else some k
    added ← read_at non_shared_len non_shared_data
    k2 ← write_buf shared_len added k1
    some (record k2 { key = own; key_size = total_size }))

  unfoldable pub reserve : ℕ → IterKey → Option IterKey
  reserve size k = do k1 ← enlarge_buffer_if_needed size k; some (record k1 { key_size = size })

  unfoldable pub own_key : IterKey → Option IterKey
  unfolding reserve
  own_key k = assert (is_key_pinned k) (do
    k1 ← reserve k.key_size k
    copied ← read_key k1.key_size k1
    k2 ← write_buf 0 copied k1
    some (record k2 { key = own }))

  module _ (little : Bool) where
    unfoldable pub set_internal_key :
        Bytes → Bytes → ℕ → ℕ → Option Bytes → IterKey → Option IterKey
    set_internal_key key_prefix user_key s value_type ts k = do
      let psize = length key_prefix
      let usize = length user_key
      let ts_sz = length (timestamp ts)
      k1 ← enlarge_buffer_if_needed (psize + usize + 8 + ts_sz) k
      k2 ← write_buf 0 key_prefix k1
      k3 ← write_buf psize user_key k2
      k4 ← write_buf (psize + usize) (timestamp ts) k3
      word ← pack_sequence_and_type s value_type
      k5 ← write_buf (usize + psize + ts_sz) (encode_fixed64 little word) k4
      some (record k5 { key = own; key_size = psize + usize + 8 + ts_sz; is_user_key = false })

    unfoldable pub set_internal_key_user : Bytes → ℕ → ℕ → Option Bytes → IterKey → Option IterKey
    unfolding set_internal_key
    set_internal_key_user user_key s value_type ts k =
        set_internal_key [] user_key s value_type ts k

    unfoldable pub set_internal_key_parsed : Bytes → ParsedInternalKey → IterKey → Option IterKey
    unfolding set_internal_key
    set_internal_key_parsed key_prefix parsed k =
        set_internal_key key_prefix parsed.user_key parsed.sequence parsed.type_of none k
