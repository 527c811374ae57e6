-- ===== src/Slice/Hex.antt =====
-- Hexadecimal texts: `ToString(true)` and `DecodeHex`.
use compaction_test.Base.{
  ℕ, ◌+◌, ◌*◌, ◌/◌, ◌%◌, ◌≤◌, ◌<◌, [], ◌∷◌, some, true, Bytes, IsBytes, length, bit_and, bit_or, u8,
  ◌≡◌, ◌⊎◌, ◌↔◌, refl, arith, All,
}
use compaction_test.Base.Masks.{bit_and_mask, bit_or_low}
use compaction_test.Slice.{to_hex, from_hex, to_hex_string, to_string, decode_hex, decode_hex_loop}

-- The characters 0-9 and A-F.
abbrev pub IsHexDigit : ℕ → Type 0
IsHexDigit c = ((b'0' ≤ c) × (c ≤ b'9')) ⊎ ((b'A' ≤ c) × (c ≤ b'F'))

pub to_hex-IsHexDigit : (v : ℕ) → v < 16 → IsHexDigit (to_hex v)
unfolding to_hex
to_hex-IsHexDigit v h = ground arith

pub from_hex-to_hex : (v : ℕ) → v < 16 → from_hex (to_hex v) ≡ some v
unfolding from_hex to_hex
from_hex-to_hex v h = ground arith

low_nibble : (c : ℕ) → bit_and c 0xf ≡ c % 16
low_nibble c = bit_and_mask 4 c

byte_of_nibbles : (c : ℕ) → c < 256 → u8 (bit_or (c / 16 * 16) (c % 16)) ≡ c
byte_of_nibbles c h = rw (bit_or_low 4 (c / 16) (c % 16) (omega arith)) (omega arith)

decode_hex_loop-to_hex_string : (s : Bytes) → IsBytes s → decode_hex_loop (to_hex_string s) ≡ some s
unfolding decode_hex_loop to_hex_string
decode_hex_loop-to_hex_string [] h = refl
decode_hex_loop-to_hex_string (c ∷ cs) (hc, hcs) = ground (
  arith,
  low_nibble c,
  from_hex-to_hex (c / 16),
  from_hex-to_hex (c % 16),
  byte_of_nibbles c,
  decode_hex_loop-to_hex_string cs hcs,
)

pub length-to_hex_string : (s : Bytes) → length (to_hex_string s) ≡ 2 * length s
unfolding to_hex_string
length-to_hex_string [] = refl
length-to_hex_string (c ∷ cs) = omega (arith, length-to_hex_string cs)

to_hex_string-IsHexDigit : (s : Bytes) → IsBytes s → All IsHexDigit (to_hex_string s)
unfolding to_hex_string
to_hex_string-IsHexDigit [] h = tt
to_hex_string-IsHexDigit (c ∷ cs) (hc, hcs) = (
  to_hex-IsHexDigit (c / 16) (omega arith),
  (rw low_nibble (to_hex-IsHexDigit (c % 16) (omega arith)), to_hex_string-IsHexDigit cs hcs),
)

-- `ToString(true)` writes two digits 0-9A-F a byte, and `DecodeHex` gives the bytes back.
pub decode_hex-to_string :
    (s : Bytes)
    → IsBytes s
    → (decode_hex (to_string s true) ≡ some s)
      × (length (to_string s true) ≡ 2 * length s)
      × All IsHexDigit (to_string s true)
unfolding decode_hex to_string
decode_hex-to_string s h = (
  ground (arith, length-to_hex_string s, decode_hex_loop-to_hex_string s h),
  length-to_hex_string s,
  to_hex_string-IsHexDigit s h,
)

-- The value of a digit of either case.
abbrev pub IsDigitOf : ℕ → ℕ → Type 0
IsDigitOf c v =
    ((b'0' ≤ c) × (c ≤ b'9') × (c ≡ b'0' + v))
    ⊎ ((b'A' ≤ c) × (c ≤ b'F') × (c + 10 ≡ b'A' + v))
    ⊎ ((b'a' ≤ c) × (c ≤ b'f') × (c + 10 ≡ b'a' + v))

-- `fromHex` accepts exactly the digits of either case, and gives their value.
pub from_hex_iff : (c v : ℕ) → (from_hex c ≡ some v) ↔ IsDigitOf c v
unfolding from_hex
from_hex_iff c v = ground arith
