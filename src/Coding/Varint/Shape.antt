-- ===== src/Coding/Varint/Shape.antt =====
-- A reference form of the varints: seven bits a byte, lowest group first, at most `k` bytes with
-- the top bit set. Both encoders of utils/coding.{h,cc} write it.
use compaction_test.Base.{
  ℕ, zero, suc, ◌+◌, ◌/◌, ◌%◌, ◌^◌, ◌≤◌, ◌<◌, [], ◌∷◌, ltb, if◌then◌else◌, Bytes, IsBytes, length,
  bit_and, ◌≡◌, arith,
}
use compaction_test.Base.Masks.{set_top_bit, low_seven}
use compaction_test.Coding.Varint.{
  with_more, encode_varint32, encode_varint64, encode_varint64_loop, varint_length_loop,
}
use compaction_test.Base.Order.{lt_wf}
use mathlib.Core.WellFounded.{Acc}

unfoldable pub varint : ℕ → ℕ → Bytes
varint zero v = v ∷ []
varint (suc k) v =
    let rest = varint k (v / 128) in if ltb v 128 then v ∷ [] else (v % 128 + 128) ∷ rest

pub with_more_lem : (v : ℕ) → with_more v ≡ v % 128 + 128
unfolding with_more
with_more_lem v = set_top_bit v

pub with_more_masked : (v : ℕ) → with_more (bit_and v 127) ≡ v % 128 + 128
unfolding with_more
with_more_masked v = ground (arith, low_seven v, set_top_bit (bit_and v 127))

pub encode_varint64_loop-varint :
    (k v : ℕ) (w : Acc ◌<◌ v) → v < 128 ^ suc k → encode_varint64_loop v w ≡ varint k v
unfolding encode_varint64_loop varint
encode_varint64_loop-varint zero v (Acc.intro _ smaller) h = grind arith
encode_varint64_loop-varint (suc k) v (Acc.intro _ smaller) h = grind (
  arith,
  with_more_masked v,
  λ (w : Acc ◌<◌ (v / 128)). encode_varint64_loop-varint k (v / 128) w (omega arith),
)

pub encode_varint64-varint : (v : ℕ) → v < 2 ^ 64 → encode_varint64 v ≡ varint 9 v
unfolding encode_varint64
encode_varint64-varint v h = encode_varint64_loop-varint 9 v (lt_wf.apply v) (omega arith)

pub encode_varint32-varint : (v : ℕ) → v < 2 ^ 32 → encode_varint32 v ≡ varint 4 v
unfolding encode_varint32 varint
encode_varint32-varint v h = ground (
  arith,
  with_more_lem v,
  with_more_lem (v / 128),
  with_more_lem (v / 16384),
  with_more_lem (v / 2097152),
)

pub varint-IsBytes : (k v : ℕ) → v < 128 ^ suc k → IsBytes (varint k v)
unfolding varint
varint-IsBytes zero v h = omega arith
varint-IsBytes (suc k) v h = ground (arith, varint-IsBytes k (v / 128) (omega arith))

pub length-varint : (k v : ℕ) → (1 ≤ length (varint k v)) × (length (varint k v) ≤ k + 1)
unfolding varint
length-varint zero v = omega arith
length-varint (suc k) v = ground (arith, length-varint k (v / 128))

pub varint_length_loop-length :
    (k v : ℕ) (w : Acc ◌<◌ v) (len : ℕ)
    → v < 128 ^ suc k
    → varint_length_loop v w len + 1 ≡ len + length (varint k v)
unfolding varint_length_loop varint
varint_length_loop-length zero v (Acc.intro _ smaller) len h = grind arith
varint_length_loop-length (suc k) v (Acc.intro _ smaller) len h = grind (
  arith,
  λ (w : Acc ◌<◌ (v / 128)). varint_length_loop-length k (v / 128) w (len + 1) (omega arith),
)
