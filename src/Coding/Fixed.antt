-- ===== src/Coding/Fixed.antt =====
-- The fixed-width integers: one encoding on machines of either byte order, and its round trips.
pub mod RoundTrip
use compaction_test.Base.{
  ℕ, zero, suc, ◌+◌, ◌*◌, ◌/◌, ◌%◌, ◌^◌, ◌<◌, Bool, true, false, Option, none, some, List, [], ◌∷◌,
  ◌++◌, ltb, if◌then◌else◌, Bytes, IsBytes, length, take, drop, bit_and, bit_or, ◌≡◌, refl, arith,
  u16, u32, ◌<<<◌,
}
use compaction_test.Base.Masks.{low_byte, bit_or_high, bit_or_low}
use compaction_test.Coding.{
  le_bytes, le_value, object_bytes, object_value, byte_at, encode_fixed16, encode_fixed32,
  encode_fixed64, put_fixed16, put_fixed32, put_fixed64, decode_fixed16, decode_fixed32,
  decode_fixed64, join_halves,
}

pub byte_at_lem : (v k : ℕ) → byte_at v k ≡ v / 2 ^ k % 256
unfolding byte_at
byte_at_lem v k = low_byte (v / 2 ^ k)

pub encode_fixed16-le : (little : Bool) (v : ℕ) → encode_fixed16 little v ≡ le_bytes 2 v
unfolding encode_fixed16 object_bytes le_bytes
encode_fixed16-le true v = refl
encode_fixed16-le false v = ground (arith, low_byte v, byte_at_lem v 8)

pub encode_fixed32-le : (little : Bool) (v : ℕ) → encode_fixed32 little v ≡ le_bytes 4 v
unfolding encode_fixed32 object_bytes le_bytes
encode_fixed32-le true v = refl
encode_fixed32-le false v =
    ground (arith, low_byte v, byte_at_lem v 8, byte_at_lem v 16, byte_at_lem v 24)

pub encode_fixed64-le : (little : Bool) (v : ℕ) → encode_fixed64 little v ≡ le_bytes 8 v
unfolding encode_fixed64 object_bytes le_bytes
encode_fixed64-le true v = refl
encode_fixed64-le false v = ground (
  arith,
  low_byte v,
  byte_at_lem v 8,
  byte_at_lem v 16,
  byte_at_lem v 24,
  byte_at_lem v 32,
  byte_at_lem v 40,
  byte_at_lem v 48,
  byte_at_lem v 56,
)

pub put_fixed16-le :
    (little : Bool) (dst : Bytes) (v : ℕ) → put_fixed16 little dst v ≡ dst ++ le_bytes 2 v
unfolding put_fixed16 object_bytes
put_fixed16-le true dst v = refl
put_fixed16-le false dst v = rw (encode_fixed16-le false v)

pub put_fixed32-le :
    (little : Bool) (dst : Bytes) (v : ℕ) → put_fixed32 little dst v ≡ dst ++ le_bytes 4 v
unfolding put_fixed32 object_bytes
put_fixed32-le true dst v = refl
put_fixed32-le false dst v = rw (encode_fixed32-le false v)

pub put_fixed64-le :
    (little : Bool) (dst : Bytes) (v : ℕ) → put_fixed64 little dst v ≡ dst ++ le_bytes 8 v
unfolding put_fixed64 object_bytes
put_fixed64-le true dst v = refl
put_fixed64-le false dst v = rw (encode_fixed64-le false v)

-- On a machine of either byte order the `PutFixed` functions append the same bytes, the lowest
-- first.
pub put_fixed_order :
    (little : Bool) (dst : Bytes) (v : ℕ)
    → (put_fixed16 little dst v ≡ dst ++ le_bytes 2 v)
      × (put_fixed32 little dst v ≡ dst ++ le_bytes 4 v)
      × (put_fixed64 little dst v ≡ dst ++ le_bytes 8 v)
put_fixed_order little dst v =
    (put_fixed16-le little dst v, put_fixed32-le little dst v, put_fixed64-le little dst v)

-- What the reads without a bounds check return: nothing past the end, else the number that the
-- first bytes stand for.
abbrev pub read_le : ℕ → Bytes → Option ℕ
read_le w bs = if ltb (length bs) w then none else some (le_value (take w bs))

pub decode_fixed16-le :
    (little : Bool) (bs : Bytes) → IsBytes bs → decode_fixed16 little bs ≡ read_le 2 bs
unfolding decode_fixed16 object_value le_value
decode_fixed16-le little [] h = refl
decode_fixed16-le little (a ∷ []) h = refl
decode_fixed16-le true (a ∷ b ∷ rest) h = ground arith
decode_fixed16-le false (a ∷ b ∷ rest) h = ground (arith, bit_or_high 8 a b)

pub decode_fixed32-le :
    (little : Bool) (bs : Bytes) → IsBytes bs → decode_fixed32 little bs ≡ read_le 4 bs
unfolding decode_fixed32 object_value le_value
decode_fixed32-le little [] h = refl
decode_fixed32-le little (a ∷ []) h = refl
decode_fixed32-le little (a ∷ b ∷ []) h = refl
decode_fixed32-le little (a ∷ b ∷ c ∷ []) h = refl
decode_fixed32-le true (a ∷ b ∷ c ∷ d ∷ rest) h = ground arith
decode_fixed32-le false (a ∷ b ∷ c ∷ d ∷ rest) h = ground (
  arith,
  bit_or_high 8 a b,
  bit_or_high 16 (b * 256 + a) c,
  bit_or_high 24 (c * 65536 + (b * 256 + a)) d,
)
