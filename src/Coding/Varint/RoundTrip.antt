-- ===== src/Coding/Varint/RoundTrip.antt =====
-- The readers give back what the encoders wrote, and leave the bytes behind it.
use compaction_test.Base.{
  ℕ, zero, suc, ◌+◌, ◌*◌, ◌/◌, ◌%◌, ◌^◌, ◌≤◌, ◌<◌, [], ◌∷◌, ◌++◌, some, Bytes, ◌≡◌, refl, ap, ◌∙◌,
  arith,
}
use compaction_test.Base.{IsByte, IsBytes, All-append}
use compaction_test.Base.Bits.{zero-bit_or}
use compaction_test.Base.Masks.{top_bit, low_seven, bit_or_high}
use compaction_test.Coding.Varint.{
  get_varint_loop, get_varint32_ptr_fallback, get_varint32_ptr, get_varint64_ptr, get_varint32,
  get_varint64, encode_varint32, encode_varint64,
}
use compaction_test.Coding.Varint.Shape.{
  varint-IsBytes, varint, encode_varint32-varint, encode_varint64-varint,
}
use native.Mathlib.Nat.{div-add-mod, mod-eq_of_lt}
use native.Mathlib.Numerals.{towards_suc}

pub shift_seven : (s : ℕ) → 2 ^ (s + 7) ≡ 128 * 2 ^ s
shift_seven s = simp towards_suc (omega arith)

module _ (last bits : ℕ) where
  -- A round on a last byte, and on one with the top bit set, where nothing is shifted out.
  last_round :
      (b shift result : ℕ) (p : Bytes)
      → b < 128
      → shift ≤ last
      → result < 2 ^ shift
      → b * 2 ^ shift < 2 ^ bits
      → get_varint_loop last bits (b ∷ p) shift result ≡ some (b * 2 ^ shift + result, p)
  unfolding get_varint_loop
  last_round b shift result p hb hs hr fits =
      ground (arith, top_bit b, mod-eq_of_lt fits, bit_or_high shift result b hr)

  more_round :
      (g shift result : ℕ) (p : Bytes)
      → g < 128
      → shift ≤ last
      → result < 2 ^ shift
      → g * 2 ^ shift < 2 ^ bits
      → get_varint_loop last bits ((g + 128) ∷ p) shift result
        ≡ get_varint_loop last bits p (shift + 7) (g * 2 ^ shift + result)
  unfolding get_varint_loop
  more_round g shift result p hg hs hr fits = ground (
    arith,
    top_bit (g + 128),
    low_seven (g + 128),
    mod-eq_of_lt fits,
    bit_or_high shift result g hr,
  )

  -- The lowest group of `v` and the rest, shifted by `s`.
  groups : (v s : ℕ) → v * 2 ^ s ≡ v / 128 * 2 ^ (s + 7) + v % 128 * 2 ^ s
  groups v s = omega (
    arith,
    ap (λ (t : ℕ). t * 2 ^ s) (div-add-mod v 128),
    ap (λ (t : ℕ). v / 128 * t) (shift_seven s),
  )

  group_below : (g r s : ℕ) → g < 128 → r < 2 ^ s → g * 2 ^ s + r < 2 ^ (s + 7)
  group_below g r s hg hr = rw shift_seven (grind arith)

  pub get_varint_loop-varint :
      (k v shift result : ℕ) (rest : Bytes)
      → v < 128 ^ suc k
      → shift + 7 * k ≤ last
      → result < 2 ^ shift
      → v * 2 ^ shift < 2 ^ bits
      → get_varint_loop last bits (varint k v ++ rest) shift result
        ≡ some (v * 2 ^ shift + result, rest)
  unfolding varint
  get_varint_loop-varint zero v shift result rest hv hs hr fits =
      last_round v shift result rest (omega arith) (omega arith) hr fits
  get_varint_loop-varint (suc k) v shift result rest hv hs hr fits = ground (
    arith,
    last_round v shift result rest,
    groups v shift,
    more_round (v % 128) shift result (varint k (v / 128) ++ rest),
    group_below (v % 128) result shift (omega arith) hr,
    get_varint_loop-varint k (v / 128) (shift + 7) (v % 128 * 2 ^ shift + result) rest
        (omega arith),
  )

-- `GetVarint64` reads back every `uint64_t` that `EncodeVarint64` wrote, and leaves what follows.
pub get_varint64-encode :
    (v : ℕ) (rest : Bytes) → v < 2 ^ 64 → get_varint64 (encode_varint64 v ++ rest) ≡ some (v, rest)
unfolding get_varint64 get_varint64_ptr
get_varint64-encode v rest h =
    rw (encode_varint64-varint v h) (ground (arith, get_varint_loop-varint 63 64 9 v 0 0 rest))

-- The one-byte fast path of `GetVarint32Ptr` gives what its fallback gives, on any bytes.
pub get_varint32-eq-fallback :
    (input : Bytes) → IsBytes input → get_varint32 input ≡ get_varint32_ptr_fallback input
unfolding get_varint32 get_varint32_ptr get_varint32_ptr_fallback get_varint_loop
get_varint32-eq-fallback [] h = refl
get_varint32-eq-fallback (b ∷ p) h = ground (arith, zero-bit_or b, top_bit b)

encoded-IsBytes : (v : ℕ) (rest : Bytes) → v < 2 ^ 32 → IsBytes rest → IsBytes (varint 4 v ++ rest)
encoded-IsBytes v rest h hr =
    All-append IsByte (varint 4 v) rest (varint-IsBytes 4 v (omega arith)) hr

-- `GetVarint32` reads back every `uint32_t` that `EncodeVarint32` wrote, and leaves the bytes that
-- follow.
pub get_varint32-encode :
    (v : ℕ) (rest : Bytes)
    → v < 2 ^ 32
    → IsBytes rest
    → get_varint32 (encode_varint32 v ++ rest) ≡ some (v, rest)
get_varint32-encode v rest h hr = rw (encode_varint32-varint v h) (
    get_varint32-eq-fallback _ (encoded-IsBytes v rest h hr)
    ∙ unfold get_varint32_ptr_fallback in ground (arith, get_varint_loop-varint 28 32 4 v 0 0 rest))
