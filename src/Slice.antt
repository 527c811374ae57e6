-- ===== src/Slice.antt =====
-- include/slice.h and utils/slice.cc. A `Slice` that is read is the list of its bytes: the storage
-- that it points into outlives it, as the class requires of its user. `none` is a failed assertion.
pub mod Order
pub mod Prefix
pub mod Hex
pub mod Transform
pub mod Pinnable
mod Tests
use Prim.Native.Nat.{compare, Ordering}
use compaction_test.Base.{
  ℕ, zero, suc, ◌+◌, ◌-◌, ◌*◌, ◌/◌, ◌%◌, ◌^◌, Option, none, some, List, [], ◌∷◌, ◌++◌, Bool, true,
  false, not, ◌&&◌, ◌||◌, ltb, leb, ◌==◌, if◌then◌else◌, Bytes, length, take, drop, get_elem?, u8,
  bit_and, bit_or, ◌<<<◌, ◌>>>◌,
}

-- The sign of what a three-way comparison returns: `lt` below 0, `eq` 0, `gt` above 0.
abbrev pub Sign : Type 0
Sign = Ordering

abbrev pub is_eq : Sign → Bool
is_eq Ordering.eq = true
is_eq _ = false

abbrev pub is_lt : Sign → Bool
is_lt Ordering.lt = true
is_lt _ = false

-- C's `memcmp`, on unsigned bytes. The code asks for no more bytes than both buffers hold; past the
-- end of one the model answers `eq`.
unfoldable pub memcmp : Bytes → Bytes → ℕ → Sign
memcmp a b zero = Ordering.eq
memcmp [] b (suc n) = Ordering.eq
memcmp (x ∷ a) [] (suc n) = Ordering.eq
memcmp (x ∷ a) (y ∷ b) (suc n) =
    let rest = memcmp a b n in
    elim (compare x y) [
      | Ordering.lt ↦ Ordering.lt
      | Ordering.eq ↦ rest
      | Ordering.gt ↦ Ordering.gt
    ]

unfoldable pub compare_slice : Bytes → Bytes → Sign
unfolding memcmp
compare_slice a b =
    let min_len = if ltb (length a) (length b) then length a else length b in
    elim (memcmp a b min_len) [
      | Ordering.lt ↦ Ordering.lt
      | Ordering.gt ↦ Ordering.gt
      | Ordering.eq ↦
          if ltb (length a) (length b)
          then Ordering.lt
          else if ltb (length b) (length a)
          then Ordering.gt
          else Ordering.eq
    ]

unfoldable pub equal_slice : Bytes → Bytes → Bool
unfolding memcmp
equal_slice x y = length x == length y && is_eq (memcmp x y (length x))

unfoldable pub starts_with : Bytes → Bytes → Bool
unfolding memcmp
starts_with s x = leb (length x) (length s) && is_eq (memcmp s x (length x))

unfoldable pub ends_with : Bytes → Bytes → Bool
unfolding memcmp
ends_with s x =
    leb (length x) (length s) && is_eq (memcmp (drop (length s - length x) s) x (length x))

-- `for (; off < len; off++) if (data_[off] != b.data_[off]) break;`
unfoldable pub difference_offset_loop : Bytes → Bytes → ℕ → ℕ
difference_offset_loop [] b off = off
difference_offset_loop (x ∷ a) [] off = off
difference_offset_loop (x ∷ a) (y ∷ b) off =
    let more = difference_offset_loop a b (off + 1) in if not (x == y) then off else more

unfoldable pub difference_offset : Bytes → Bytes → ℕ
unfolding difference_offset_loop
difference_offset a b = difference_offset_loop a b 0

-- `operator[]`, `remove_prefix` and `remove_suffix`.
unfoldable pub byte_of : Bytes → ℕ → Option ℕ
byte_of s n = get_elem? s n

unfoldable pub remove_prefix : Bytes → ℕ → Option Bytes
remove_prefix s n = if leb n (length s) then some (drop n s) else none

unfoldable pub remove_suffix : Bytes → ℕ → Option Bytes
remove_suffix s n = if leb n (length s) then some (take (length s - n) s) else none

-- The hexadecimal digits 0-9A-F of utils/slice.cc.
unfoldable pub to_hex : ℕ → ℕ
to_hex v = if leb v 9 then b'0' + v else b'A' + v - 10

-- `none` is -1. The code's `char` is signed, and its bytes from 128 on are negative, so below '0'.
unfoldable pub from_hex_upper : ℕ → Option ℕ
from_hex_upper c =
    if leb 128 c || ltb c b'0' || (ltb b'9' c && (ltb c b'A' || ltb b'F' c))
    then none
    else if leb c b'9'
    then some (c - b'0')
    else some (c - b'A' + 10)

unfoldable pub from_hex : ℕ → Option ℕ
unfolding from_hex_upper
from_hex c = from_hex_upper (if leb b'a' c && leb c b'f' then c - (b'a' - b'A') else c)

unfoldable pub to_hex_string : Bytes → Bytes
unfolding to_hex
to_hex_string [] = []
to_hex_string (c ∷ cs) = to_hex (c >>> 4) ∷ to_hex (bit_and c 0xf) ∷ to_hex_string cs

-- `ToString(hex)`; without `hex` it copies the bytes.
unfoldable pub to_string : Bytes → Bool → Bytes
unfolding to_hex_string
to_string s true = to_hex_string s
to_string s false = s

-- The two digits of a byte, `(h1 << 4) | h2` cut to a `char`.
abbrev push_byte : Option ℕ → Option ℕ → Option Bytes → Option Bytes
push_byte (some h1) (some h2) (some rest) = some (u8 (bit_or (h1 <<< 4) h2) ∷ rest)
push_byte _ _ _ = none

-- The loop of `DecodeHex` on a slice of even length; `none` is `false`.
unfoldable pub decode_hex_loop : Bytes → Option Bytes
unfolding from_hex
decode_hex_loop [] = some []
decode_hex_loop (c ∷ []) = none
decode_hex_loop (c ∷ d ∷ cs) = push_byte (from_hex c) (from_hex d) (decode_hex_loop cs)

unfoldable pub decode_hex : Bytes → Option Bytes
unfolding decode_hex_loop
decode_hex s = if not (length s % 2 == 0) then none else decode_hex_loop s

-- `Slice(parts, buf)`: the slice is all of `buf` after the parts are appended to it.
unfoldable pub from_parts : List Bytes → Bytes → Bytes
from_parts [] buf = buf
from_parts (part ∷ parts) buf = from_parts parts (buf ++ part)
