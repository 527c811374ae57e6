-- ===== src/InternalKey/IterKey/Refine.antt =====
-- `IterKey` against its meaning: every operation does to the view what the view says.
use compaction_test.Base.{
  ℕ, ◌+◌, ◌≤◌, Option, none, some, ◌++◌, true, false, leb, Bool-cases, Option-cases, inl, inr,
  Bytes, length, take, length-append, length-take, ◌≡◌, subst, refl, sym, ap, ◌∙◌, arith,
}
use compaction_test.InternalKey.IterKey.{
  IterKey, own, read_at, write_at, read_key, key_memory, write_buf, trim_append, own_key, reserve,
}
use compaction_test.InternalKey.IterKey.Abstract.{
  KeyView, calls_trim_append, calls_own_key, run_view,
}
use compaction_test.InternalKey.IterKey.Buffer.{
  IsBuffer, splice, take-splice, write_buf_lem, IsBuffer-splice, enlarged, enlarge_lem,
  read_key-enlarged,
}
use compaction_test.InternalKey.IterKey.Represents.{Represents, Agrees, owned, copied, prepared}

-- A copy behind a front that is already right.
pub appended :
    (k : IterKey) (off : ℕ) (front bytes : Bytes)
    → IsBuffer k
    → off ≡ length front
    → take off k.buf ≡ front
    → off + length bytes ≤ k.buf_size
    → (k2 : IterKey) × (write_buf off bytes k ≡ some k2)
      × IsBuffer k2
      × (off + length bytes ≡ length (front ++ bytes))
      × (take (off + length bytes) k2.buf ≡ front ++ bytes)
      × (k2.buf_size ≡ k.buf_size)
      × (k2.is_user_key ≡ k.is_user_key)
      × (k2.key ≡ k.key)
      × (k2.key_size ≡ k.key_size)
appended k off front bytes b size e room =
    let fits : off + length bytes ≤ length k.buf = omega (arith, b.buf_length) in
    (
      record k { buf = splice off bytes k.buf },
      write_buf_lem off bytes k fits,
      IsBuffer-splice off bytes k b fits,
      omega (arith, length-append front bytes),
      take-splice off bytes k.buf fits ∙ ap (λ t. t ++ bytes) e,
      refl,
      refl,
      refl,
      refl,
    )

-- An outcome and the view's, each as an equation.
pub represented :
    {out : Option IterKey} {spec : Option KeyView} (k : IterKey) (v : KeyView)
    → out ≡ some k
    → spec ≡ some v
    → Represents k v
    → Agrees out spec
represented {out} k v e s r = subst (λ x. Agrees out x) (sym s) (k, e, r)

pub failed :
    {out : Option IterKey} {spec : Option KeyView} → out ≡ none → spec ≡ none → Agrees out spec
failed {out} e s = subst (λ x. Agrees out x) (sym s) e

write_buf_sized :
    (off n : ℕ) (bytes : Bytes) (k k2 : IterKey)
    → write_buf off bytes k ≡ some k2
    → write_buf off bytes (record k { key_size = n }) ≡ some (record k2 { key_size = n })
unfolding write_buf
write_buf_sized off n bytes k k2 e = elim (Option-cases (write_at off bytes k.buf)) [
  | inl t ↦ absurd (ground (arith, t))
  | inr (buf, t) ↦
      let same : record k { buf = buf } ≡ k2 = ground (arith, t) in
      simp t (ap (λ (k : IterKey). some (record k { key_size = n })) same)
]

module _ (fresh : ℕ → Bytes) (sizes : (n : ℕ) → length (fresh n) ≡ n) where
  pub trim_append-Agrees :
      (k : IterKey) (v : KeyView) (shared : ℕ) (more : Bytes) (n : ℕ)
      → Represents k v
      → Agrees (trim_append fresh shared more n k) (run_view (calls_trim_append shared more n) v)
  unfolding trim_append read_at
  trim_append-Agrees k v shared more n r = elim (Bool-cases (leb shared (length v.bytes))) [
    | inl s ↦
        let (k1, e, b1, front, room, user) =
          prepared fresh sizes k v (shared + n) shared r (ground (arith, s)) (omega arith) in
        let size : shared ≡ length (take shared v.bytes) =
          ground (arith, s, length-take shared v.bytes) in
        let holds : leb shared k.key_size ≡ true = ap (leb shared) r.size ∙ s in
        elim (Bool-cases (leb n (length more))) [
          | inl t ↦
              let added : length (take n more) ≡ n = ground (arith, t, length-take n more) in
              let (k2, e2, b2, whole, front2, same, user2, _, _) =
                appended k1 shared (take shared v.bytes) (take n more) b1 size front
                  (omega arith) in
              let out = take shared v.bytes ++ take n more in
              represented (record k2 { key = own; key_size = shared + n })
                (record { bytes = out; pinned = false; is_user_key = v.is_user_key })
                (simp (holds, e, t, e2)) (simp (s, t))
                (owned k2 (shared + n) out v.is_user_key b2 (omega arith)
                  (ap (λ m. take (shared + m) k2.buf) (sym added) ∙ front2) (omega arith)
                  (user2 ∙ user))
          | inr t ↦ failed (simp (holds, e, t)) (simp (s, t))
        ]
    | inr s ↦ failed (simp (ap (leb shared) r.size ∙ s)) (simp s)
  ]

  pub own_key-Agrees :
      (k : IterKey) (v : KeyView)
      → Represents k v
      → Agrees (own_key fresh k) (run_view calls_own_key v)
  unfolding own_key reserve read_key key_memory
  own_key-Agrees k v r = elim (Bool-cases v.pinned) [
    | inl p ↦
        let pinned = r.pin ∙ p in
        let (k2, e, b2, front, room, user, _) =
          copied fresh sizes k.key_size v.bytes k r.fits (omega (arith, r.size)) in
        let size : read_key k.key_size (enlarged fresh k.key_size k) ≡ some v.bytes =
          read_key-enlarged fresh k.key_size k.key_size k r.fits pinned ∙ r.reads in
        let e1 = enlarge_lem fresh k.key_size k in
        let e2 = write_buf_sized 0 k.key_size v.bytes (enlarged fresh k.key_size k) k2 e in
        represented (record k2 { key = own; key_size = k.key_size }) (record v { pinned = false })
          (simp (pinned, e1, size, e2)) (simp p)
          (owned k2 k.key_size v.bytes v.is_user_key b2 r.size
            (ap (λ m. take m k2.buf) r.size ∙ front) room (user ∙ r.user))
    | inr p ↦ failed (simp (r.pin ∙ p)) (simp p)
  ]
