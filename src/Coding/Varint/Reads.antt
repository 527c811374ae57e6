-- ===== src/Coding/Varint/Reads.antt =====
-- `GetVarint64` and `GetVarint32` on any input, well formed or not.
use compaction_test.Base.{
  ℕ, ◌+◌, ◌*◌, ◌%◌, ◌^◌, ◌≤◌, ◌<◌, [], ◌∷◌, ◌++◌, none, some, Bytes, length, length-append, bit_and,
  bit_or, ◌≡◌, arith, append-nil, inl, inr, Option-cases, ◌<<<◌,
}
use compaction_test.Base.Masks.{bit_or-lt}
use compaction_test.Coding.Varint.{get_varint_loop, get_varint64, get_varint64_ptr, encode_varint64}
use compaction_test.Coding.Varint.RoundTrip.{get_varint64-encode}
use native.Mathlib.Nat.{one-le-pow}

abbrev group_at : ℕ → ℕ → ℕ → ℕ
group_at bits x shift = (x <<< shift) % 2 ^ bits

-- After `j` bytes the shift is 7 * j, and the loop takes no byte past `last`.
get_varint_loop_takes :
    (last bits : ℕ) (input : Bytes) (shift result j m v : ℕ) (rest : Bytes)
    → shift ≡ 7 * j
    → last < 7 * m
    → j ≤ m
    → result < 2 ^ bits
    → get_varint_loop last bits input shift result ≡ some (v, rest)
    → (v < 2 ^ bits) × (length rest < length input) × (length input + j ≤ length rest + m)
unfolding get_varint_loop
get_varint_loop_takes last bits [] shift result j m v rest hs hm hj hr e = cc
get_varint_loop_takes last bits (b ∷ p) shift result j m v rest hs hm hj hr e = ground (
  arith,
  one-le-pow bits 2,
  bit_or-lt bits result (group_at bits b shift) hr,
  bit_or-lt bits result (group_at bits (bit_and b 127) shift) hr,
  get_varint_loop_takes last bits p (shift + 7)
      (bit_or result (group_at bits (bit_and b 127) shift)) (j + 1) m v rest,
)

-- Whatever the input, a successful `GetVarint64` returns a `uint64_t` and moves past 1 to 10 bytes.
pub get_varint64_takes :
    (input : Bytes) (v : ℕ) (rest : Bytes)
    → get_varint64 input ≡ some (v, rest)
    → (v < 2 ^ 64) × (length rest < length input) × (length input ≤ length rest + 10)
unfolding get_varint64 get_varint64_ptr
get_varint64_takes input v rest e =
    ground (arith, get_varint_loop_takes 63 64 input 0 0 0 10 v rest)

-- The loop does not look past the number: bytes added behind the input join the rest.
get_varint_loop-append :
    (last bits : ℕ) (input more : Bytes) (shift result v : ℕ) (rest : Bytes)
    → get_varint_loop last bits input shift result ≡ some (v, rest)
    → get_varint_loop last bits (input ++ more) shift result ≡ some (v, rest ++ more)
unfolding get_varint_loop
get_varint_loop-append last bits [] more shift result v rest e = cc
get_varint_loop-append last bits (b ∷ p) more shift result v rest e = ground (
  arith,
  get_varint_loop-append last bits p more (shift + 7)
      (bit_or result (group_at bits (bit_and b 127) shift)) v rest,
)

get_varint64-append :
    (input more : Bytes) (v : ℕ) (rest : Bytes)
    → get_varint64 input ≡ some (v, rest)
    → get_varint64 (input ++ more) ≡ some (v, rest ++ more)
unfolding get_varint64 get_varint64_ptr
get_varint64-append input more v rest e = get_varint_loop-append 63 64 input more 0 0 v rest e

-- `GetVarint64` fails on every proper prefix of what `EncodeVarint64` wrote.
pub get_varint64_truncated :
    (v x : ℕ) (front back : Bytes)
    → v < 2 ^ 64
    → encode_varint64 v ≡ front ++ (x ∷ back)
    → get_varint64 front ≡ none
get_varint64_truncated v x front back h e = elim (Option-cases (get_varint64 front)) [
  | inl failed ↦ failed
  | inr ((u, rest), r) ↦
      ground
        (arith, whole, get_varint64-append front (x ∷ back) u rest r, length-append rest (x ∷ back))
]
  where
    whole : get_varint64 (front ++ (x ∷ back)) ≡ some (v, [])
    whole = rw (append-nil, e) at (get_varint64-encode v [] h)
