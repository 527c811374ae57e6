-- ===== src/Coding.antt =====
-- utils/coding.h and utils/coding.cc, without the varints (Coding/Varint). A byte buffer is a
-- list of numbers below 256; `little` is `port::kLittleEndian`. What a function stores through
-- `dst` is the list that it returns, and a `Slice` that is read from is the list of its bytes.
pub mod Varint
pub mod Fixed
pub mod Zigzag
mod Tests
use compaction_test.Base.{
  ℕ, zero, suc, ◌+◌, ◌-◌, ◌*◌, ◌/◌, ◌%◌, ◌^◌, bit_and, bit_or, bit_xor, Bool, true, false, Option,
  none, some, List, [], ◌∷◌, ◌++◌, reverse, ltb, ◌==◌, if◌then◌else◌, Bytes, length, take, drop,
  u16, u32, u64, ◌<<<◌, ◌>>>◌,
}

-- The bytes of a number, lowest first, and the number that such bytes stand for.
unfoldable pub le_bytes : ℕ → ℕ → Bytes
le_bytes zero v = []
le_bytes (suc w) v = (v % 256) ∷ le_bytes w (v / 256)

unfoldable pub le_value : Bytes → ℕ
le_value [] = 0
le_value (b ∷ bs) = b + 256 * le_value bs

-- How a machine of either byte order keeps an unsigned integer of `w` bytes in memory: what
-- `memcpy` copies.
unfoldable pub object_bytes : Bool → ℕ → ℕ → Bytes
object_bytes true w v = le_bytes w v
object_bytes false w v = reverse (le_bytes w v)

unfoldable pub object_value : Bool → Bytes → ℕ
object_value true bs = le_value bs
object_value false bs = le_value (reverse bs)

-- `(value >> k) & 0xff`, the byte that the portable branches store.
unfoldable pub byte_at : ℕ → ℕ → ℕ
byte_at v k = bit_and (v >>> k) 0xff

unfoldable pub encode_fixed16 : Bool → ℕ → Bytes
encode_fixed16 little v =
    if little then object_bytes little 2 v else bit_and v 0xff ∷ byte_at v 8 ∷ []

unfoldable pub encode_fixed32 : Bool → ℕ → Bytes
encode_fixed32 little v =
    if little
    then object_bytes little 4 v
    else bit_and v 0xff ∷ byte_at v 8 ∷ byte_at v 16 ∷ byte_at v 24 ∷ []

unfoldable pub encode_fixed64 : Bool → ℕ → Bytes
encode_fixed64 little v =
    if little
    then object_bytes little 8 v
    else (bit_and v 0xff
        ∷ byte_at v 8
        ∷ byte_at v 16
        ∷ byte_at v 24
        ∷ byte_at v 32
        ∷ byte_at v 40
        ∷ byte_at v 48
        ∷ byte_at v 56
        ∷ [])

unfoldable pub put_fixed16 : Bool → Bytes → ℕ → Bytes
put_fixed16 little dst v =
    if little then dst ++ object_bytes little 2 v else dst ++ encode_fixed16 little v

unfoldable pub put_fixed32 : Bool → Bytes → ℕ → Bytes
put_fixed32 little dst v =
    if little then dst ++ object_bytes little 4 v else dst ++ encode_fixed32 little v

unfoldable pub put_fixed64 : Bool → Bytes → ℕ → Bytes
put_fixed64 little dst v =
    if little then dst ++ object_bytes little 8 v else dst ++ encode_fixed64 little v

-- The `DecodeFixed` functions read without a bounds check: `none` is a read past the buffer.
unfoldable pub decode_fixed16 : Bool → Bytes → Option ℕ
decode_fixed16 little (a ∷ b ∷ rest) =
    some (if little then object_value little (a ∷ b ∷ []) else u16 (bit_or a (b <<< 8)))
decode_fixed16 little _ = none

unfoldable pub decode_fixed32 : Bool → Bytes → Option ℕ
decode_fixed32 little (a ∷ b ∷ c ∷ d ∷ rest) = some (
    if little
    then object_value little (a ∷ b ∷ c ∷ d ∷ [])
    else bit_or (bit_or (bit_or a (u32 (b <<< 8))) (u32 (c <<< 16))) (u32 (d <<< 24)))
decode_fixed32 little _ = none

-- Both halves, as the portable branch reads them.
unfoldable pub join_halves : Option ℕ → Option ℕ → Option ℕ
join_halves (some lo) (some hi) = some (bit_or (u64 (hi <<< 32)) lo)
join_halves _ _ = none

unfoldable pub decode_fixed64 : Bool → Bytes → Option ℕ
decode_fixed64 little bs =
    if little
    then (if ltb (length bs) 8 then none else some (object_value little (take 8 bs)))
    else join_halves (decode_fixed32 little bs) (decode_fixed32 little (drop 4 bs))

-- The `GetFixed` functions: `none` is the result `false`, with the input left as it was; else the
-- value and what is left of the input.
unfoldable pub advance : ℕ → Bytes → Option ℕ → Option (ℕ × Bytes)
advance n input none = none
advance n input (some v) = some (v, drop n input)

unfoldable pub get_fixed16 : Bool → Bytes → Option (ℕ × Bytes)
get_fixed16 little input =
    if ltb (length input) 2 then none else advance 2 input (decode_fixed16 little input)

unfoldable pub get_fixed32 : Bool → Bytes → Option (ℕ × Bytes)
get_fixed32 little input =
    if ltb (length input) 4 then none else advance 4 input (decode_fixed32 little input)

unfoldable pub get_fixed64 : Bool → Bytes → Option (ℕ × Bytes)
get_fixed64 little input =
    if ltb (length input) 8 then none else advance 8 input (decode_fixed64 little input)

-- The loop of `EndianSwapValue` for a type of `w` bytes (widths 2, 4 and 8 are left to the
-- compiler's byte swap): round `i` moves the byte at bit `8 * i` to `8 * (w - 1 - i)`, and `left`
-- rounds are to go.
unfoldable pub endian_swap_loop : ℕ → ℕ → ℕ → ℕ → ℕ → ℕ
endian_swap_loop w zero i v ret = ret
endian_swap_loop w (suc left) i v ret =
    endian_swap_loop w left (i + 1) v
      (bit_or ret (bit_and (v >>> (8 * i)) 0xff <<< (8 * (w - 1 - i))))

unfoldable pub endian_swap_value : ℕ → ℕ → ℕ
endian_swap_value w v = endian_swap_loop w w 0 v 0
