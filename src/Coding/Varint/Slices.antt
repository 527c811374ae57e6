-- ===== src/Coding/Varint/Slices.antt =====
-- Length-prefixed slices and parts, and `GetSliceUntil`.
use compaction_test.Base.{
  ℕ, zero, suc, ◌+◌, ◌^◌, ◌<◌, List, [], ◌∷◌, ◌++◌, some, true, false, ◌==◌, Bytes, IsByte, IsBytes,
  All, All-append, length, length-append, replicate, take-append_left, drop-append_left, append-nil,
  append_assoc, u32, ◌≡◌, ◌≢◌, refl, sym, ap, ◌∙◌, arith,
}
use native.Mathlib.Decide.{ℕ_discrete}
use compaction_test.Coding.Varint.{
  put_varint32, put_length_prefixed_slice, sum_sizes, append_parts, put_length_prefixed_slice_parts,
  put_length_prefixed_slice_parts_with_padding, get_length_prefixed_slice, until_len,
  get_slice_until,
}
use compaction_test.Coding.Varint.RoundTrip.{get_varint32-encode}

-- `GetLengthPrefixedSlice` reads back a slice shorter than 4 GiB that `PutLengthPrefixedSlice`
-- wrote, and leaves the bytes that follow it.
pub get_length_prefixed_slice-put :
    (value rest : Bytes)
    → length value < 2 ^ 32
    → IsBytes value
    → IsBytes rest
    → get_length_prefixed_slice (put_length_prefixed_slice [] value ++ rest) ≡ some (value, rest)
unfolding get_length_prefixed_slice put_length_prefixed_slice
get_length_prefixed_slice-put value rest h hv hr = rw append_assoc (
    ground (
      arith,
      get_varint32-encode (length value) (value ++ rest) h (All-append IsByte value rest hv hr),
      length-append value rest,
      take-append_left (length value) value rest,
      drop-append_left (length value) value rest,
    ))

-- The concatenation that a `SliceParts` stands for.
abbrev pub concat_parts : List Bytes → Bytes
concat_parts [] = []
concat_parts (part ∷ parts) = part ++ concat_parts parts

pub sum_sizes-length :
    (total : ℕ) (parts : List Bytes) → sum_sizes total parts ≡ total + length (concat_parts parts)
unfolding sum_sizes
sum_sizes-length total [] = omega arith
sum_sizes-length total (part ∷ parts) =
    omega
      (arith, sum_sizes-length (total + length part) parts, length-append part (concat_parts parts))

pub append_parts-concat :
    (dst : Bytes) (parts : List Bytes) → append_parts dst parts ≡ dst ++ concat_parts parts
unfolding append_parts
append_parts-concat dst [] = sym (append-nil dst)
append_parts-concat dst (part ∷ parts) =
    append_parts-concat (dst ++ part) parts ∙ append_assoc dst part (concat_parts parts)

length-replicate_lem : (n a : ℕ) → length (replicate n a) ≡ n
length-replicate_lem zero a = refl
length-replicate_lem (suc n) a = ap suc (length-replicate_lem n a)

-- Writing parts, with any padding, is writing the one slice that is their concatenation followed
-- by as many zero bytes.
pub put_parts-eq-put_slice :
    (dst : Bytes) (parts : List Bytes) (pad_sz : ℕ)
    → (put_length_prefixed_slice_parts dst parts
        ≡ put_length_prefixed_slice dst (concat_parts parts))
      × (put_length_prefixed_slice_parts_with_padding dst parts pad_sz
          ≡ put_length_prefixed_slice dst (concat_parts parts ++ replicate pad_sz 0))
unfolding put_length_prefixed_slice_parts put_length_prefixed_slice_parts_with_padding
    put_length_prefixed_slice
put_parts-eq-put_slice dst parts pad_sz = (
  append_parts-concat _ parts ∙ ap (λ n. put_varint32 dst (u32 n) ++ concat_parts parts) whole,
  ap (λ t. t ++ replicate pad_sz 0) (append_parts-concat _ parts)
      ∙ append_assoc _ (concat_parts parts) (replicate pad_sz 0)
      ∙ ap (λ n. put_varint32 dst (u32 n) ++ (concat_parts parts ++ replicate pad_sz 0)) sizes,
)
  where
    whole : sum_sizes 0 parts ≡ length (concat_parts parts)
    whole = omega (arith, sum_sizes-length 0 parts)

    sizes : sum_sizes pad_sz parts ≡ length (concat_parts parts ++ replicate pad_sz 0)
    sizes = omega (
      arith,
      sum_sizes-length pad_sz parts,
      length-append (concat_parts parts) (replicate pad_sz 0),
      length-replicate_lem pad_sz 0,
    )

-- What `GetSliceUntil` may do to a slice: take all of it where the delimiter does not occur, or the
-- bytes before the first one, which it also drops.
pub data SplitAt (delimiter : ℕ) (slice : Bytes) : Bytes × Bytes → Type 0 where
  absent : All (λ c. c ≢ delimiter) slice → SplitAt delimiter slice (slice, [])
  found :
      (before after : Bytes)
      → All (λ c. c ≢ delimiter) before
      → slice ≡ before ++ (delimiter ∷ after)
      → SplitAt delimiter slice (before, after)

SplitAt-cons :
    (delimiter c : ℕ) (slice : Bytes) {r : Bytes × Bytes}
    → c ≢ delimiter
    → SplitAt delimiter slice r
    → SplitAt delimiter (c ∷ slice) (c ∷ r.0, r.1)
SplitAt-cons delimiter c slice ne (absent h) = absent (ne, h)
SplitAt-cons delimiter c slice ne (found before after h e) =
    found (c ∷ before) after (ne, h) (ap (λ t. c ∷ t) e)

until_len-cons :
    (delimiter c : ℕ) (slice : Bytes)
    → c ≢ delimiter
    → until_len (c ∷ slice) delimiter ≡ suc (until_len slice delimiter)
unfolding until_len
until_len-cons delimiter c slice ne =
    let other : (c == delimiter) ≡ false = ground arith in rw other (omega arith)

until_len_self : (delimiter : ℕ) (slice : Bytes) → until_len (delimiter ∷ slice) delimiter ≡ 0
unfolding until_len
until_len_self delimiter slice =
    let same : (delimiter == delimiter) ≡ true = ground arith in rw same

get_slice_until_self :
    (delimiter : ℕ) (slice : Bytes) → get_slice_until (delimiter ∷ slice) delimiter ≡ ([], slice)
unfolding get_slice_until
get_slice_until_self delimiter slice = ground (arith, until_len_self delimiter slice)

get_slice_until-cons :
    (delimiter c : ℕ) (slice : Bytes)
    → c ≢ delimiter
    → get_slice_until (c ∷ slice) delimiter
      ≡ (c ∷ (get_slice_until slice delimiter).0, (get_slice_until slice delimiter).1)
unfolding get_slice_until
get_slice_until-cons delimiter c slice ne = rw (until_len-cons delimiter c slice ne) (ground arith)

-- `GetSliceUntil` splits at the first delimiter.
pub get_slice_until-SplitAt :
    (slice : Bytes) (delimiter : ℕ) → SplitAt delimiter slice (get_slice_until slice delimiter)
get_slice_until-SplitAt [] delimiter = unfold get_slice_until until_len in absent tt
get_slice_until-SplitAt (c ∷ slice) delimiter = elim (ℕ_discrete c delimiter) [
  | yes e ↦ rw (e, get_slice_until_self delimiter slice) (found [] slice tt refl)
  | no ne ↦
      rw (get_slice_until-cons delimiter c slice ne)
        (SplitAt-cons delimiter c slice ne (get_slice_until-SplitAt slice delimiter))
]
