-- ===== src/InternalKey/IterKey/Access.antt =====
-- The operations of `IterKey` of db_format/dbformat.h that read the key or change it in place.
use compaction_test.Base.{
  assert, ℕ, ◌+◌, ◌-◌, ◌%◌, ◌^◌, Option, some, Bool, true, not, leb, if◌then◌else◌, ◌>>=◌, Bytes,
  length,
}
use compaction_test.Coding.{encode_fixed64}
use compaction_test.Coding.Varint.{encode_varint32, varint_length}
use compaction_test.InternalKey.{pack}
use compaction_test.InternalKey.IterKey.{
  IterKey, own, read_key, write_buf, is_key_pinned, enlarge_buffer_if_needed,
}

unfoldable pub set_is_user_key : Bool → IterKey → IterKey
set_is_user_key is_user_key k = record k { is_user_key = is_user_key }

unfoldable pub get_key : IterKey → Option Bytes
unfolding read_key
get_key k = read_key k.key_size k

unfoldable pub get_internal_key : IterKey → Option Bytes
unfolding read_key
get_internal_key k = assert (not k.is_user_key) (read_key k.key_size k)

unfoldable pub get_user_key : IterKey → Option Bytes
unfolding read_key
get_user_key k =
    if k.is_user_key
    then read_key k.key_size k
    else assert (leb 8 k.key_size) (read_key (k.key_size - 8) k)

unfoldable pub clear : IterKey → IterKey
clear k = record k { key_size = 0 }

unfoldable pub update_key : Bool → ℕ → ℕ → IterKey → Option IterKey
unfolding pack
update_key little seq t k =
    assert (not (is_key_pinned k)) (
      assert (leb 8 k.key_size) (write_buf (k.key_size - 8) (encode_fixed64 little (pack seq t)) k))

-- The size of the key is not set.
unfoldable pub encode_length_prefixed_key : (ℕ → Bytes) → Bytes → IterKey → Option IterKey
encode_length_prefixed_key fresh key k = do
  let size = length key
  k1 ← enlarge_buffer_if_needed fresh (size + varint_length size) k
  k2 ← write_buf 0 (encode_varint32 (size % 2 ^ 32)) k1
  k3 ← write_buf (length (encode_varint32 (size % 2 ^ 32))) key k2
  some (record k3 { key = own; is_user_key = true })
