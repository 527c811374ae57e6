-- ===== src/InternalKey/Pack.antt =====
-- Sequence number and type in one word.
use compaction_test.Base.{ℕ, ◌+◌, ◌*◌, ◌^◌, ◌≤◌, ◌<◌, some, true, ◌≡◌, arith}
use compaction_test.Base.Masks.{bit_or_low, low_byte}
use compaction_test.InternalKey.{
  is_extended_value_type, pack, pack_sequence_and_type, unpack_sequence_and_type,
}

pub pack_lem : (seq t : ℕ) → seq < 2 ^ 56 → t < 256 → pack seq t ≡ seq * 256 + t
unfolding pack
pack_lem seq t hs ht = ground (arith, bit_or_low 8 seq t)

pub is_extended-le : (t : ℕ) → is_extended_value_type t ≡ true → t ≤ 0x14
unfolding is_extended_value_type
is_extended-le t h = ground arith

-- `PackSequenceAndType` asserts both arguments, and then the word is below 2 ^ 64 and `t` its
-- lowest byte.
pub pack-Packed :
    (seq t w : ℕ)
    → pack_sequence_and_type seq t ≡ some w
    → (w ≡ seq * 256 + t) × (seq < 2 ^ 56) × (t ≤ 0x14) × (is_extended_value_type t ≡ true)
unfolding pack_sequence_and_type
pack-Packed seq t w h = ground (arith, is_extended-le t, pack_lem seq t)

-- `UnPackSequenceAndType` gives back what `PackSequenceAndType` packed, and its assertions hold then.
pub unpack-pack :
    (seq t w : ℕ)
    → pack_sequence_and_type seq t ≡ some w
    → (unpack_sequence_and_type w ≡ some (seq, t)) × (w < 2 ^ 64)
unfolding unpack_sequence_and_type
unpack-pack seq t w h = ground (arith, pack-Packed seq t w, low_byte w)
