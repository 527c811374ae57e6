-- ===== src/Coding/Fixed/RoundTrip.antt =====
-- What the `GetFixed` functions read, on every input and after a `PutFixed`.
use compaction_test.Base.{
  ℕ, zero, suc, ◌+◌, ◌*◌, ◌/◌, ◌^◌, ◌≤◌, ◌<◌, Bool, true, false, Option, none, some, [], ◌∷◌, ◌++◌,
  ltb, if◌then◌else◌, Bytes, IsByte, IsBytes, length, length-append, length-take, length-drop, take,
  drop, take-append_left, drop-append_left, ◌≡◌, refl, ap, ◌∙◌, arith, All-append,
}
use compaction_test.Base.Masks.{bit_or_low}
use compaction_test.Coding.{
  le_bytes, le_value, object_value, decode_fixed64, join_halves, advance, get_fixed16, get_fixed32,
  get_fixed64, put_fixed16, put_fixed32, put_fixed64,
}
use compaction_test.Coding.Fixed.{
  read_le, decode_fixed16-le, decode_fixed32-le, put_fixed16-le, put_fixed32-le, put_fixed64-le,
}
use native.Mathlib.Nat.{pow-suc}

pub length-le_bytes : (w v : ℕ) → length (le_bytes w v) ≡ w
unfolding le_bytes
length-le_bytes zero v = refl
length-le_bytes (suc w) v = ap suc (length-le_bytes w (v / 256))

pub le_bytes-IsBytes : (w v : ℕ) → IsBytes (le_bytes w v)
unfolding le_bytes
le_bytes-IsBytes zero v = tt
le_bytes-IsBytes (suc w) v = (omega arith, le_bytes-IsBytes w (v / 256))

div_below : (v q : ℕ) → v < 256 * q → v / 256 < q
div_below v q h = omega arith

pub le_value-le_bytes : (w v : ℕ) → v < 256 ^ w → le_value (le_bytes w v) ≡ v
unfolding le_bytes le_value
le_value-le_bytes zero v h = omega arith
le_value-le_bytes (suc w) v h =
    omega
      (arith, le_value-le_bytes w (v / 256) (div_below v (256 ^ w) (omega (arith, pow-suc 256 w))))

pub le_value-lt : (bs : Bytes) → IsBytes bs → le_value bs < 256 ^ length bs
unfolding le_value
le_value-lt [] h = omega arith
le_value-lt (b ∷ bs) (hb, hbs) = omega (arith, le_value-lt bs hbs, pow-suc 256 (length bs))

pub le_bytes-le_value : (bs : Bytes) → IsBytes bs → le_bytes (length bs) (le_value bs) ≡ bs
unfolding le_bytes le_value
le_bytes-le_value [] h = refl
le_bytes-le_value (b ∷ bs) (hb, hbs) = ground (arith, le_bytes-le_value bs hbs)

pub IsBytes-drop : (n : ℕ) (bs : Bytes) → IsBytes bs → IsBytes (drop n bs)
IsBytes-drop zero bs h = h
IsBytes-drop (suc n) [] h = tt
IsBytes-drop (suc n) (b ∷ bs) h = IsBytes-drop n bs h.1

pub IsBytes-take : (n : ℕ) (bs : Bytes) → IsBytes bs → IsBytes (take n bs)
IsBytes-take zero bs h = tt
IsBytes-take (suc n) [] h = tt
IsBytes-take (suc n) (b ∷ bs) h = (h.0, IsBytes-take n bs h.1)

-- Eight bytes are two times four.
le_value_halves :
    (bs : Bytes)
    → 8 ≤ length bs
    → le_value (take 8 bs) ≡ le_value (take 4 (drop 4 bs)) * 2 ^ 32 + le_value (take 4 bs)
unfolding le_value
le_value_halves [] h = absurd (omega arith)
le_value_halves (a ∷ []) h = absurd (omega arith)
le_value_halves (a ∷ b ∷ []) h = absurd (omega arith)
le_value_halves (a ∷ b ∷ c ∷ []) h = absurd (omega arith)
le_value_halves (a ∷ b ∷ c ∷ d ∷ []) h = absurd (omega arith)
le_value_halves (a ∷ b ∷ c ∷ d ∷ e ∷ []) h = absurd (omega arith)
le_value_halves (a ∷ b ∷ c ∷ d ∷ e ∷ f ∷ []) h = absurd (omega arith)
le_value_halves (a ∷ b ∷ c ∷ d ∷ e ∷ f ∷ g ∷ []) h = absurd (omega arith)
le_value_halves (a ∷ b ∷ c ∷ d ∷ e ∷ f ∷ g ∷ i ∷ bs) h = omega arith

word_below : (bs : Bytes) → IsBytes bs → 4 ≤ length bs → le_value (take 4 bs) < 2 ^ 32
word_below bs h n =
    let size : length (take 4 bs) ≡ 4 = omega (arith, length-take 4 bs) in
    rw size at (le_value-lt (take 4 bs) (IsBytes-take 4 bs h))

join_read :
    (bs : Bytes) → IsBytes bs → join_halves (read_le 4 bs) (read_le 4 (drop 4 bs)) ≡ read_le 8 bs
unfolding join_halves
join_read bs h = ground (
  arith,
  length-drop 4 bs,
  le_value_halves bs,
  word_below bs h,
  word_below (drop 4 bs) (IsBytes-drop 4 bs h),
  bit_or_low 32 (le_value (take 4 (drop 4 bs))) (le_value (take 4 bs)),
)

pub decode_fixed64-le :
    (little : Bool) (bs : Bytes) → IsBytes bs → decode_fixed64 little bs ≡ read_le 8 bs
unfolding decode_fixed64 object_value
decode_fixed64-le true bs h = refl
decode_fixed64-le false bs h =
    rw (decode_fixed32-le false bs h, decode_fixed32-le false (drop 4 bs) (IsBytes-drop 4 bs h))
      (join_read bs h)

-- What a `GetFixed` function of `w` bytes does to an input.
abbrev pub get_le : ℕ → Bytes → Option (ℕ × Bytes)
get_le w input = if ltb (length input) w then none else some (le_value (take w input), drop w input)

-- On a machine of either byte order, and on any input, the `GetFixed` functions fail exactly when
-- the input is too short, and else return the little-endian number and move past its bytes.
pub get_fixed_order :
    (little : Bool) (input : Bytes)
    → IsBytes input
    → (get_fixed16 little input ≡ get_le 2 input)
      × (get_fixed32 little input ≡ get_le 4 input)
      × (get_fixed64 little input ≡ get_le 8 input)
unfolding get_fixed16 get_fixed32 get_fixed64 advance
get_fixed_order little input h = (
  ground (arith, decode_fixed16-le little input h),
  ground (arith, decode_fixed32-le little input h),
  ground (arith, decode_fixed64-le little input h),
)

pub get_le-le_bytes :
    (w v : ℕ) (rest : Bytes) → v < 256 ^ w → get_le w (le_bytes w v ++ rest) ≡ some (v, rest)
get_le-le_bytes w v rest h = ground (
  arith,
  length-append (le_bytes w v) rest,
  length-le_bytes w v,
  take-append_left w (le_bytes w v) rest,
  drop-append_left w (le_bytes w v) rest,
  le_value-le_bytes w v h,
)

pub le_bytes-append-IsBytes :
    (w v : ℕ) (rest : Bytes) → IsBytes rest → IsBytes (le_bytes w v ++ rest)
le_bytes-append-IsBytes w v rest h = All-append IsByte (le_bytes w v) rest (le_bytes-IsBytes w v) h

-- Numbers of 16, 32 and 64 bits that one machine appended are read back on any other, whatever
-- their byte orders, with the bytes behind them left over.
pub get_fixed-put_fixed :
    (writer reader : Bool) (a b c : ℕ) (rest : Bytes)
    → a < 2 ^ 16
    → b < 2 ^ 32
    → c < 2 ^ 64
    → IsBytes rest
    → (get_fixed16 reader (put_fixed16 writer [] a ++ rest) ≡ some (a, rest))
      × (get_fixed32 reader (put_fixed32 writer [] b ++ rest) ≡ some (b, rest))
      × (get_fixed64 reader (put_fixed64 writer [] c ++ rest) ≡ some (c, rest))
get_fixed-put_fixed writer reader a b c rest ha hb hc hr = (
  rw (put_fixed16-le writer [] a) (
      (get_fixed_order reader _ (le_bytes-append-IsBytes 2 a rest hr)).0
      ∙ get_le-le_bytes 2 a rest ha),
  rw (put_fixed32-le writer [] b) (
      (get_fixed_order reader _ (le_bytes-append-IsBytes 4 b rest hr)).1
      ∙ get_le-le_bytes 4 b rest hb),
  rw (put_fixed64-le writer [] c) (
      (get_fixed_order reader _ (le_bytes-append-IsBytes 8 c rest hr)).2
      ∙ get_le-le_bytes 8 c rest hc),
)
