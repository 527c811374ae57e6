-- ===== src/InternalKey/Comparator/Order.antt =====
-- The order of internal keys: a total order, and the same on parsed and on encoded keys.
use Prim.Native.Nat.{Ordering}
use compaction_test.Base.{
  ℕ, ◌+◌, ◌*◌, ◌/◌, ◌^◌, ◌<◌, some, [], Bool, Bytes, ◌≡◌, ◌↔◌, ◌⊎◌, ap, ◌∙◌, arith,
}
use mathlib.Core.Path.{ap₂}
use compaction_test.Slice.{Sign}
use compaction_test.Slice.Order.{IsComparator}
use compaction_test.InternalKey.{
  ParsedInternalKey, append_internal_key, extract_user_key, extract_internal_key_footer,
}
use compaction_test.InternalKey.RoundTrip.{
  key_of, length-key_of, take-key_of, decode-key_of, append_internal_key-key_of,
}
use compaction_test.InternalKey.Comparator.{
  or_else, descending, compare_parsed, compare_encoded, compare_key_seq,
}

before_iff :
    (u : Sign) (m n s t : ℕ)
    → (or_else u (or_else (descending m n) (descending s t)) ≡ Ordering.lt)
      ↔ ((u ≡ Ordering.lt) ⊎ ((u ≡ Ordering.eq) × ((n < m) ⊎ ((m ≡ n) × (t < s)))))
before_iff u m n s t = (λ h. ground arith, λ h. ground arith)

equal_iff :
    (u : Sign) (m n s t : ℕ)
    → (or_else u (or_else (descending m n) (descending s t)) ≡ Ordering.eq)
      ↔ ((u ≡ Ordering.eq) × (m ≡ n) × (s ≡ t))
equal_iff u m n s t = (λ h. ground arith, λ h. ground arith)

module _ (user : Bytes → Bytes → Sign) (order : IsComparator user) where
  parsed_trans :
      (a b c : ParsedInternalKey)
      → compare_parsed user a b ≡ Ordering.lt
      → compare_parsed user b c ≡ Ordering.lt
      → compare_parsed user a c ≡ Ordering.lt
  unfolding compare_parsed
  parsed_trans a b c h k = ground (
    arith,
    order.trans a.user_key b.user_key c.user_key,
    order.cong a.user_key b.user_key c.user_key,
    order.swap a.user_key b.user_key,
    order.swap b.user_key c.user_key,
    order.swap a.user_key c.user_key,
    order.cong b.user_key c.user_key a.user_key,
  )

  -- The order of internal keys is total if that of the user is.
  pub compare_parsed-IsComparator : IsComparator (compare_parsed user)
  compare_parsed-IsComparator = record {
    same = λ a. unfold compare_parsed in ground (arith, order.same a.user_key);
    swap = λ a b. unfold compare_parsed in ground (arith, order.swap a.user_key b.user_key);
    trans = parsed_trans;
    cong = λ a b c h.
        unfold compare_parsed in ground (arith, order.cong a.user_key b.user_key c.user_key);
  }

  -- If the user's comparator is a total order, so is the order of internal keys. A key comes before
  -- another exactly when its user key does, or the user keys are equal and its sequence number is the
  -- larger one, or these are equal too and its type is the larger one. Two keys compare as equal
  -- exactly when the user keys do, and their sequence numbers and types are the same.
  pub compare_parsed_lem :
      IsComparator (compare_parsed user)
      × ((a b : ParsedInternalKey)
          → (compare_parsed user a b ≡ Ordering.lt) ↔ (
              (user a.user_key b.user_key ≡ Ordering.lt)
              ⊎ ((user a.user_key b.user_key ≡ Ordering.eq)
                  × ((b.sequence < a.sequence)
                      ⊎ ((a.sequence ≡ b.sequence) × (b.type_of < a.type_of))))))
      × ((a b : ParsedInternalKey)
          → (compare_parsed user a b ≡ Ordering.eq) ↔ (
              (user a.user_key b.user_key ≡ Ordering.eq)
              × (a.sequence ≡ b.sequence)
              × (a.type_of ≡ b.type_of)))
  compare_parsed_lem = (
    compare_parsed-IsComparator,
    λ a b.
        unfold compare_parsed in
        before_iff (user a.user_key b.user_key) a.sequence b.sequence a.type_of b.type_of,
    λ a b.
        unfold compare_parsed in
        equal_iff (user a.user_key b.user_key) a.sequence b.sequence a.type_of b.type_of,
  )

pub extract-key_of : (u : Bytes) (w : ℕ) → extract_user_key (key_of u w) ≡ some u
unfolding extract_user_key
extract-key_of u w = ground (arith, length-key_of u w, take-key_of u w)

pub footer-key_of :
    (little : Bool) (u : Bytes) (w : ℕ)
    → w < 2 ^ 64
    → extract_internal_key_footer little (key_of u w) ≡ some w
unfolding extract_internal_key_footer
footer-key_of little u w h = ground (arith, length-key_of u w, decode-key_of little u w h)

pub compare-key_of :
    (user : Bytes → Bytes → Sign) (little : Bool) (u v : Bytes) (w x : ℕ)
    → w < 2 ^ 64
    → x < 2 ^ 64
    → (compare_encoded user little (key_of u w) (key_of v x)
        ≡ some (or_else (user u v) (descending w x)))
      × (compare_key_seq user little (key_of u w) (key_of v x)
          ≡ some (or_else (user u v) (descending (w / 256) (x / 256))))
unfolding compare_encoded compare_key_seq
compare-key_of user little u v w x hw hx = ground (
  arith,
  extract-key_of u w,
  extract-key_of v x,
  footer-key_of little u w hw,
  footer-key_of little v x hx,
)

-- One word orders as the pair of its sequence number and type.
pub descending_pair :
    (s t s' t' : ℕ)
    → t < 256
    → t' < 256
    → descending (s * 256 + t) (s' * 256 + t') ≡ or_else (descending s s') (descending t t')
descending_pair s t s' t' h h' = ground arith

word_seq : (s t : ℕ) → t < 256 → (s * 256 + t) / 256 ≡ s
word_seq s t h = omega arith

-- Comparing two encoded keys is comparing the keys that were encoded; without the types it is
-- comparing user keys and sequence numbers.
pub compare_encoded-append :
    (user : Bytes → Bytes → Sign) (writer reader : Bool) (a b : ParsedInternalKey) (x y : Bytes)
    → append_internal_key writer [] a ≡ some x
    → append_internal_key writer [] b ≡ some y
    → (compare_encoded user reader x y ≡ some (compare_parsed user a b))
      × (compare_key_seq user reader x y
          ≡ some (or_else (user a.user_key b.user_key) (descending a.sequence b.sequence)))
unfolding compare_parsed
compare_encoded-append user writer reader a b x y ha hb =
    let (ea, sa, ta, xa) = append_internal_key-key_of writer [] a x ha in
    let (eb, sb, tb, xb) = append_internal_key-key_of writer [] b y hb in
    let wa : ℕ = a.sequence * 256 + a.type_of in
    let wb : ℕ = b.sequence * 256 + b.type_of in
    let (whole, seqs) =
      compare-key_of user reader a.user_key b.user_key wa wb (omega arith) (omega arith) in
    rw (ea, eb)
      (
        whole
            ∙ ap (λ t. some (or_else (user a.user_key b.user_key) t))
                (descending_pair a.sequence a.type_of b.sequence b.type_of (omega arith)
                  (omega arith)),
        seqs
            ∙ ap (λ t. some (or_else (user a.user_key b.user_key) t))
                (ap₂ descending (word_seq a.sequence a.type_of (omega arith))
                  (word_seq b.sequence b.type_of (omega arith))),
      )
