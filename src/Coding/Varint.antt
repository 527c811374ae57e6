-- ===== src/Coding/Varint.antt =====
-- The variable-length integers of utils/coding.h and utils/coding.cc, and what is built on them.
-- A pointer pair `p`, `limit` is the list of the bytes between them; `none` stands for `nullptr`
-- or `false`. Bytes are stored as `unsigned char`, so each store is cut to 8 bits.
pub mod Shape
pub mod Agree
pub mod RoundTrip
pub mod Reads
pub mod Slices
use compaction_test.Base.{
  ℕ, zero, suc, ◌+◌, ◌*◌, ◌/◌, ◌%◌, ◌^◌, ◌≤◌, ◌<◌, bit_and, bit_or, Bool, true, false, Option, none,
  some, List, [], ◌∷◌, ◌++◌, ltb, leb, ◌==◌, if◌then◌else◌, Bytes, length, take, drop, replicate,
  u8, u32, ◌<<<◌, ◌>>>◌, ◌&&◌, not, arith,
}
use compaction_test.Base.Order.{lt_wf}
use mathlib.Core.Logic.{dite}
use mathlib.Core.WellFounded.{Acc}
use native.Mathlib.Decide.{dec_le}

-- `v | B` and `(v & (B - 1)) | B`, as stored.
unfoldable pub with_more : ℕ → ℕ
with_more v = u8 (bit_or v 128)

unfoldable pub encode_varint32 : ℕ → Bytes
unfolding with_more
encode_varint32 v =
    if ltb v (2 ^ 7)
    then u8 v ∷ []
    else if ltb v (2 ^ 14)
    then with_more v ∷ u8 (v >>> 7) ∷ []
    else if ltb v (2 ^ 21)
    then with_more v ∷ with_more (v >>> 7) ∷ u8 (v >>> 14) ∷ []
    else if ltb v (2 ^ 28)
    then with_more v ∷ with_more (v >>> 7) ∷ with_more (v >>> 14) ∷ u8 (v >>> 21) ∷ []
    else (with_more v
        ∷ with_more (v >>> 7)
        ∷ with_more (v >>> 14)
        ∷ with_more (v >>> 21)
        ∷ u8 (v >>> 28)
        ∷ [])

pub shrinks : (v : ℕ) → 128 ≤ v → v >>> 7 < v
shrinks v h = omega arith

-- `while (v >= B) { ...; v >>= 7; }`, and the last byte.
unfoldable pub encode_varint64_loop : (v : ℕ) → Acc ◌<◌ v → Bytes
encode_varint64_loop v (Acc.intro _ smaller) =
    dite (dec_le 128 v)
      (λ h. with_more (bit_and v 127) ∷ encode_varint64_loop (v >>> 7) (smaller _ (shrinks v h)))
      (λ _. u8 v ∷ [])

unfoldable pub encode_varint64 : ℕ → Bytes
unfolding encode_varint64_loop lt_wf dec_le with_more
encode_varint64 v = encode_varint64_loop v (lt_wf.apply v)

unfoldable pub varint_length_loop : (v : ℕ) → Acc ◌<◌ v → ℕ → ℕ
varint_length_loop v (Acc.intro _ smaller) len =
    dite (dec_le 128 v) (λ h. varint_length_loop (v >>> 7) (smaller _ (shrinks v h)) (len + 1))
      (λ _. len)

unfoldable pub varint_length : ℕ → ℕ
unfolding varint_length_loop lt_wf dec_le
varint_length v = varint_length_loop v (lt_wf.apply v) 1

-- The loop of both `GetVarint...` functions: `last` is 28 or 63, and `bits` the width of `result`.
unfoldable pub get_varint_loop : ℕ → ℕ → Bytes → ℕ → ℕ → Option (ℕ × Bytes)
get_varint_loop last bits [] shift result = none
get_varint_loop last bits (byte ∷ p) shift result =
    let more =
      get_varint_loop last bits p (shift + 7)
        (bit_or result ((bit_and byte 127 <<< shift) % 2 ^ bits)) in
    if leb shift last
    then (if not (bit_and byte 128 == 0)
        then more
        else some (bit_or result ((byte <<< shift) % 2 ^ bits), p))
    else none

unfoldable pub get_varint32_ptr_fallback : Bytes → Option (ℕ × Bytes)
get_varint32_ptr_fallback p = get_varint_loop 28 32 p 0 0

unfoldable pub get_varint64_ptr : Bytes → Option (ℕ × Bytes)
get_varint64_ptr p = get_varint_loop 63 64 p 0 0

-- The fast path for a single byte.
unfoldable pub get_varint32_ptr : Bytes → Option (ℕ × Bytes)
get_varint32_ptr [] = get_varint32_ptr_fallback []
get_varint32_ptr (b ∷ p) =
    if bit_and b 128 == 0 then some (b, p) else get_varint32_ptr_fallback (b ∷ p)

-- On `Slice *input`: what is left of the input is the second component, and `none` is `false`,
-- which leaves the input as it was.
unfoldable pub get_varint32 : Bytes → Option (ℕ × Bytes)
get_varint32 input = get_varint32_ptr input

unfoldable pub get_varint64 : Bytes → Option (ℕ × Bytes)
get_varint64 input = get_varint64_ptr input

unfoldable pub put_varint32 : Bytes → ℕ → Bytes
put_varint32 dst v = dst ++ encode_varint32 v

unfoldable pub put_varint64 : Bytes → ℕ → Bytes
put_varint64 dst v = dst ++ encode_varint64 v

unfoldable pub put_varint32_varint32 : Bytes → ℕ → ℕ → Bytes
put_varint32_varint32 dst v1 v2 = dst ++ (encode_varint32 v1 ++ encode_varint32 v2)

unfoldable pub put_varint32_varint32_varint32 : Bytes → ℕ → ℕ → ℕ → Bytes
put_varint32_varint32_varint32 dst v1 v2 v3 =
    dst ++ (encode_varint32 v1 ++ (encode_varint32 v2 ++ encode_varint32 v3))

unfoldable pub put_varint64_varint64 : Bytes → ℕ → ℕ → Bytes
put_varint64_varint64 dst v1 v2 = dst ++ (encode_varint64 v1 ++ encode_varint64 v2)

unfoldable pub put_varint32_varint64 : Bytes → ℕ → ℕ → Bytes
put_varint32_varint64 dst v1 v2 = dst ++ (encode_varint32 v1 ++ encode_varint64 v2)

unfoldable pub put_varint32_varint32_varint64 : Bytes → ℕ → ℕ → ℕ → Bytes
put_varint32_varint32_varint64 dst v1 v2 v3 =
    dst ++ (encode_varint32 v1 ++ (encode_varint32 v2 ++ encode_varint64 v3))

-- `value.size()` is cast to `uint32_t`.
unfoldable pub put_length_prefixed_slice : Bytes → Bytes → Bytes
unfolding put_varint32
put_length_prefixed_slice dst value = put_varint32 dst (u32 (length value)) ++ value

-- A `SliceParts` is the list of its slices.
unfoldable pub sum_sizes : ℕ → List Bytes → ℕ
sum_sizes total [] = total
sum_sizes total (part ∷ parts) = sum_sizes (total + length part) parts

unfoldable pub append_parts : Bytes → List Bytes → Bytes
append_parts dst [] = dst
append_parts dst (part ∷ parts) = append_parts (dst ++ part) parts

unfoldable pub put_length_prefixed_parts_total : Bytes → ℕ → List Bytes → Bytes
unfolding sum_sizes append_parts put_varint32
put_length_prefixed_parts_total dst total parts =
    append_parts (put_varint32 dst (u32 (sum_sizes total parts))) parts

unfoldable pub put_length_prefixed_slice_parts : Bytes → List Bytes → Bytes
unfolding put_length_prefixed_parts_total
put_length_prefixed_slice_parts dst parts = put_length_prefixed_parts_total dst 0 parts

unfoldable pub put_length_prefixed_slice_parts_with_padding : Bytes → List Bytes → ℕ → Bytes
unfolding put_length_prefixed_parts_total
put_length_prefixed_slice_parts_with_padding dst parts pad_sz =
    put_length_prefixed_parts_total dst pad_sz parts ++ replicate pad_sz 0

-- `false` (`none`) may leave the input past the length; a caller that sees it stops reading.
abbrev take_slice : Option (ℕ × Bytes) → Option (Bytes × Bytes)
take_slice none = none
take_slice (some (len, input)) =
    if leb len (length input) then some (take len input, drop len input) else none

unfoldable pub get_length_prefixed_slice : Bytes → Option (Bytes × Bytes)
get_length_prefixed_slice input = take_slice (get_varint32 input)

-- The counter of the source is a `uint32_t`: slices of 4 GiB and more are out of the model.
unfoldable pub until_len : Bytes → ℕ → ℕ
until_len [] delimiter = 0
until_len (c ∷ cs) delimiter =
    let rest = until_len cs delimiter in if not (c == delimiter) then rest + 1 else 0

-- The result, and what is left of `*slice`.
unfoldable pub get_slice_until : Bytes → ℕ → Bytes × Bytes
get_slice_until slice delimiter =
    let len = until_len slice delimiter in
    (take len slice, drop (len + (if ltb len (length slice) then 1 else 0)) slice)
