-- ===== src/Coding/Varint/Agree.antt =====
-- The two encoders and the length function agree.
use compaction_test.Base.{ℕ, ◌^◌, ◌<◌, ◌≤◌, length, ◌≡◌, sym, ◌∙◌, arith, IsBytes}
use compaction_test.Base.Order.{lt_wf}
use compaction_test.Coding.Varint.{encode_varint32, encode_varint64, varint_length}
use compaction_test.Coding.Varint.Shape.{
  encode_varint32-varint, encode_varint64-varint, encode_varint64_loop-varint,
  varint_length_loop-length, varint-IsBytes, length-varint,
}

-- On every `uint32_t` the unrolled encoder writes the same bytes as the 64-bit loop.
pub encode_varint32-eq-encode_varint64 :
    (v : ℕ) → v < 2 ^ 32 → encode_varint32 v ≡ encode_varint64 v
unfolding encode_varint64
encode_varint32-eq-encode_varint64 v h =
    encode_varint32-varint v h ∙ sym (encode_varint64_loop-varint 4 v (lt_wf.apply v) (omega arith))

-- `VarintLength` is the number of bytes that `EncodeVarint64` writes, and that is 1 to 10 bytes
-- (`kMaxVarint64Length`) for a `uint64_t`.
pub varint_length-length :
    (v : ℕ)
    → v < 2 ^ 64
    → (varint_length v ≡ length (encode_varint64 v))
      × (1 ≤ length (encode_varint64 v))
      × (length (encode_varint64 v) ≤ 10)
      × IsBytes (encode_varint64 v)
unfolding varint_length
varint_length-length v h = rw (encode_varint64-varint v h) (
  omega (arith, varint_length_loop-length 9 v (lt_wf.apply v) 1 (omega arith)),
  (length-varint 9 v).0,
  (length-varint 9 v).1,
  varint-IsBytes 9 v (omega arith),
)
