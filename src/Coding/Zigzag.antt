-- ===== src/Coding/Zigzag.antt =====
-- `i64ToZigzag`, `zigzagToI64` and the signed varints of utils/coding.h. An `int64_t` is its bit
-- pattern, a number below 2 ^ 64; the negative ones are those from 2 ^ 63 on.
use compaction_test.Base.{
  ℕ, ◌-◌, ◌*◌, ◌/◌, ◌%◌, ◌^◌, ◌<◌, bit_and, bit_xor, Option, none, some, [], ◌++◌, Bytes, ltb,
  if◌then◌else◌, u64, ◌<<<◌, ◌>>>◌, ◌≡◌, arith, ap, ◌∙◌,
}
use compaction_test.Base.Bits.{bit_xor-zero, bit_xor_ones}
use compaction_test.Base.Masks.{bit_and_mask}
use compaction_test.Coding.Varint.{encode_varint64, get_varint64_ptr, get_varint64}
use compaction_test.Coding.Varint.RoundTrip.{get_varint64-encode}

-- `l >> 63` on an `int64_t`: all ones for a negative number, else 0.
unfoldable pub sign_mask : ℕ → ℕ
sign_mask l = if ltb l (2 ^ 63) then 0 else 2 ^ 64 - 1

unfoldable pub i64_to_zigzag : ℕ → ℕ
unfolding sign_mask
i64_to_zigzag l = bit_xor (u64 (l <<< 1)) (sign_mask l)

-- `(n >> 1) ^ -static_cast<int64_t>(n & 1)`; the negation wraps.
unfoldable pub zigzag_to_i64 : ℕ → ℕ
zigzag_to_i64 n = bit_xor (n >>> 1) (u64 (2 ^ 64 - bit_and n 1))

unfoldable pub put_varsignedint64 : Bytes → ℕ → Bytes
unfolding i64_to_zigzag
put_varsignedint64 dst v = dst ++ encode_varint64 (i64_to_zigzag v)

abbrev map_value : (ℕ → ℕ) → Option (ℕ × Bytes) → Option (ℕ × Bytes)
map_value f none = none
map_value f (some (v, rest)) = some (f v, rest)

-- On `nullptr` the source also stores a value that no caller reads.
unfoldable pub get_varsignedint64 : Bytes → Option (ℕ × Bytes)
unfolding zigzag_to_i64
get_varsignedint64 input = map_value zigzag_to_i64 (get_varint64_ptr input)

-- Numbers near 0 of either sign become small: `n` becomes `2 n`, and `-n` becomes `2 n - 1`.
pub i64_to_zigzag_lem :
    (l : ℕ)
    → l < 2 ^ 64
    → i64_to_zigzag l ≡ (if ltb l (2 ^ 63) then 2 * l else 2 * (2 ^ 64 - l) - 1)
unfolding i64_to_zigzag
i64_to_zigzag_lem l h =
    ground (arith, bit_xor-zero (u64 (l * 2)), bit_xor_ones 64 (u64 (l * 2)) (omega arith))

pub zigzag_to_i64_lem :
    (n : ℕ) → n < 2 ^ 64 → zigzag_to_i64 n ≡ (if ltb (n % 2) 1 then n / 2 else 2 ^ 64 - 1 - n / 2)
unfolding zigzag_to_i64
zigzag_to_i64_lem n h =
    ground (arith, bit_and_mask 1 n, bit_xor-zero (n / 2), bit_xor_ones 64 (n / 2) (omega arith))

-- The two conversions are inverse on all 64-bit patterns, and stay within 64 bits.
pub zigzag_inverse :
    (x : ℕ)
    → x < 2 ^ 64
    → (zigzag_to_i64 (i64_to_zigzag x) ≡ x)
      × (i64_to_zigzag (zigzag_to_i64 x) ≡ x)
      × (i64_to_zigzag x < 2 ^ 64)
zigzag_inverse x h = ground (
  arith,
  i64_to_zigzag_lem x,
  zigzag_to_i64_lem (i64_to_zigzag x),
  zigzag_to_i64_lem x,
  i64_to_zigzag_lem (zigzag_to_i64 x),
)

-- A signed varint is read back, with whatever follows it left over.
pub get_varsignedint64-put :
    (v : ℕ) (rest : Bytes)
    → v < 2 ^ 64
    → get_varsignedint64 (put_varsignedint64 [] v ++ rest) ≡ some (v, rest)
unfolding get_varsignedint64 put_varsignedint64
get_varsignedint64-put v rest h =
    ap (map_value zigzag_to_i64) whole ∙ ap (λ n. some (n, rest)) ((zigzag_inverse v h).0)
  where
    whole :
        get_varint64_ptr (encode_varint64 (i64_to_zigzag v) ++ rest) ≡ some (i64_to_zigzag v, rest)
    whole =
        unfold get_varint64 in get_varint64-encode (i64_to_zigzag v) rest ((zigzag_inverse v h).2)
