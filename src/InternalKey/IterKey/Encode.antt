-- ===== src/InternalKey/IterKey/Encode.antt =====
-- `SetInternalKey` and `UpdateInternalKey` of `IterKey` against the view of the key.
use compaction_test.Base.{
  ℕ, ◌+◌, ◌-◌, ◌≤◌, Option, some, ◌++◌, Bool, false, leb, Bool-cases, Option-cases, inl, inr, Bytes,
  length, take, length-take, ◌≡◌, refl, sym, ap, ◌∙◌, arith,
}
use compaction_test.Coding.{le_bytes}
use compaction_test.Coding.Fixed.{encode_fixed64-le}
use compaction_test.Coding.Fixed.RoundTrip.{length-le_bytes}
use compaction_test.InternalKey.{pack, pack_sequence_and_type}
use compaction_test.InternalKey.IterKey.{IterKey, own, is_key_pinned, timestamp, set_internal_key}
use compaction_test.InternalKey.IterKey.Access.{update_key}
use compaction_test.InternalKey.IterKey.Abstract.{KeyView, calls_update, calls_encode, run_view}
use compaction_test.InternalKey.IterKey.Buffer.{IsBuffer, enlarge_lem}
use compaction_test.InternalKey.IterKey.Represents.{Represents, Agrees, owned, own-front, copied}
use compaction_test.InternalKey.IterKey.Refine.{appended, represented, failed}

length-word : (w : ℕ) → length (le_bytes 8 w) ≡ 8
length-word w = length-le_bytes 8 w

pub IsBuffer-user :
    (k : IterKey) (user : Bool) → IsBuffer k → IsBuffer (record k { is_user_key = user })
IsBuffer-user k user b = record {
  space_size = b.space_size;
  buf_length = b.buf_length;
  inline_size = b.inline_size;
  inline_pointer = b.inline_pointer;
}

own_pointer : (k : IterKey) → is_key_pinned k ≡ false → k.key ≡ own
unfolding is_key_pinned
own_pointer k p = ground arith

module _ (fresh : ℕ → Bytes) (sizes : (n : ℕ) → length (fresh n) ≡ n) (little : Bool) where
  pub set_internal_key-Agrees :
      (k : IterKey) (v : KeyView) (prefix user_key : Bytes) (s t : ℕ) (ts : Option Bytes)
      → Represents k v
      → Agrees
          (set_internal_key fresh little prefix user_key s t ts k)
          (run_view (calls_encode prefix user_key s t ts) v)
  unfolding set_internal_key
  set_internal_key-Agrees k v prefix user_key s t ts r =
      let p = length prefix in
      let u = length user_key in
      let z = length (timestamp ts) in
      let total = p + u + 8 + z in
      let e1 = enlarge_lem fresh total k in
      let (k2, e2, b2, front2, room2, user2, _) =
        copied fresh sizes total prefix k r.fits (omega arith) in
      let (k3, e3, b3, size3, front3, room3, user3, _, _) =
        appended k2 p prefix user_key b2 refl front2 (omega arith) in
      let (k4, e4, b4, size4, front4, room4, user4, _, _) =
        appended k3 (p + u) (prefix ++ user_key) (timestamp ts) b3 size3 front3 (omega arith) in
      elim (Option-cases (pack_sequence_and_type s t)) [
        | inl w ↦ failed (simp (e1, e2, e3, e4, w)) (simp w)
        | inr (word, w) ↦
            let off : u + p + z ≡ p + u + z = omega arith in
            let bytes = le_bytes 8 word in
            let added = length-word word in
            let (k5, e5, b5, size5, front5, room5, user5, _, _) =
              appended k4 (p + u + z) (prefix ++ user_key ++ timestamp ts) bytes b4 size4 front4
                (omega arith) in
            let whole : p + u + z + length bytes ≡ total = omega arith in
            let user = user5 ∙ user4 ∙ user3 ∙ user2 in
            represented (record k5 { key = own; key_size = total; is_user_key = false })
              (record {
                bytes = prefix ++ user_key ++ timestamp ts ++ bytes;
                pinned = false;
                is_user_key = false;
              })
              (simp (e1, e2, e3, e4, w, off, encode_fixed64-le little word, e5)) (simp w)
              (owned (record k5 { is_user_key = false }) total
                (prefix ++ user_key ++ timestamp ts ++ bytes) false (IsBuffer-user k5 false b5)
                (sym whole ∙ size5) (ap (λ m. take m k5.buf) (sym whole) ∙ front5) (omega arith)
                refl)
      ]

  pub update_key-Agrees :
      (k : IterKey) (v : KeyView) (seq t : ℕ)
      → Represents k v
      → Agrees (update_key little seq t k) (run_view (calls_update seq t) v)
  unfolding update_key
  update_key-Agrees k v seq t r = elim (Bool-cases v.pinned) [
    | inl p ↦ failed (simp (r.pin ∙ p)) (simp p)
    | inr p ↦ elim (Bool-cases (leb 8 (length v.bytes))) [
      | inr s ↦ failed (simp (r.pin ∙ p, r.size, s)) (simp (p, s))
      | inl s ↦
          let n = length v.bytes - 8 in
          let (front, room) = own-front k v n r (r.pin ∙ p) (omega arith) in
          let bytes = le_bytes 8 (pack seq t) in
          let added = length-word (pack seq t) in
          let size : n ≡ length (take n v.bytes) = omega (arith, length-take n v.bytes) in
          let long : 8 ≤ length v.bytes = ground (arith, s) in
          let (k2, e2, b2, size2, front2, room2, user2, pointer, kept) =
            appended k n (take n v.bytes) bytes r.fits size front (omega arith) in
          let whole : n + length bytes ≡ length v.bytes = omega arith in
          let at_own = pointer ∙ own_pointer k (r.pin ∙ p) in
          let same = kept ∙ r.size in
          represented (record k2 { key = own; key_size = length v.bytes })
            (record {
              bytes = take n v.bytes ++ bytes;
              pinned = false;
              is_user_key = v.is_user_key;
            })
            (simp (
              r.pin ∙ p,
              r.size,
              s,
              encode_fixed64-le little (pack seq t),
              e2 ∙ (λ i. some (record k2 { key = at_own i; key_size = same i })),
            ))
            (simp (p, s))
            (owned k2 (length v.bytes) (take n v.bytes ++ bytes) v.is_user_key b2
              (sym whole ∙ size2) (ap (λ m. take m k2.buf) (sym whole) ∙ front2) (omega arith)
              (user2 ∙ r.user))
    ]
  ]
