-- ===== src/InternalKey/IterKey/Represents.antt =====
-- The objects of `IterKey` that stand for a view, and how a copy into the buffer makes one.
use compaction_test.Base.{
  ℕ, ◌+◌, ◌≤◌, Option, none, some, Bool, true, false, not, ltb, if◌then◌else◌, Bool-cases, inl, inr,
  Bytes, length, take, length-take, take-take, take_all, ◌≡◌, refl, sym, ap, ◌∙◌, arith,
}
use compaction_test.InternalKey.IterKey.{
  IterKey, own, external, write_at, key_memory, read_key, write_buf, is_key_pinned, set_key_impl,
  grow, copy_shared,
}
use compaction_test.InternalKey.IterKey.Abstract.{KeyView}
use compaction_test.InternalKey.IterKey.Buffer.{
  IsBuffer, splice, length-splice, take-splice, write_buf_lem, IsBuffer-splice, read_at_lem,
  read_at-length, read_key-shorter, enlarged, enlarge_lem, enlarged-IsBuffer, enlarged-room,
  enlarged-is_user_key, read_key-enlarged,
}

pub record Represents (k : IterKey) (v : KeyView) : Type 0 where
  pub fits : IsBuffer k
  pub reads : read_key k.key_size k ≡ some v.bytes
  pub size : k.key_size ≡ length v.bytes
  pub pin : is_key_pinned k ≡ v.pinned
  pub user : k.is_user_key ≡ v.is_user_key

-- The outcome of an operation against that on the view.
abbrev pub Agrees : Option IterKey → Option KeyView → Type 0
Agrees out none = out ≡ none
Agrees out (some v) = (k : IterKey) × (out ≡ some k) × Represents k v

-- A key that was copied to the front of the buffer.
pub owned :
    (k : IterKey) (n : ℕ) (bytes : Bytes) (user : Bool)
    → IsBuffer k
    → n ≡ length bytes
    → take n k.buf ≡ bytes
    → n ≤ k.buf_size
    → k.is_user_key ≡ user
    → Represents
        (record k { key = own; key_size = n })
        (record { bytes = bytes; pinned = false; is_user_key = user })
unfolding read_key key_memory is_key_pinned
owned k n bytes user b size e room u = record {
  fits = record {
    space_size = b.space_size;
    buf_length = b.buf_length;
    inline_size = b.inline_size;
    inline_pointer = λ h. absurd (ground (arith, h));
  };
  reads = read_at_lem n k.buf (omega (arith, b.buf_length)) ∙ ap some e;
  size = size;
  pin = refl;
  user = u;
}

own_memory : (k : IterKey) → is_key_pinned k ≡ false → key_memory k ≡ some k.buf
unfolding is_key_pinned key_memory
own_memory k p = ground arith

-- A key in the buffer is the front of the buffer.
pub own-front :
    (k : IterKey) (v : KeyView) (m : ℕ)
    → Represents k v
    → is_key_pinned k ≡ false
    → m ≤ length v.bytes
    → (take m k.buf ≡ take m v.bytes) × (length v.bytes ≤ k.buf_size)
unfolding read_key
own-front k v m r p h =
    let read = rw (own_memory k p) at r.reads in
    let (room, e) = read_at-length k.key_size k.buf v.bytes read in
    (
      sym (ap (take m) e ∙ take-take m k.key_size k.buf (omega (arith, r.size))),
      omega (arith, r.size, r.fits.buf_length),
    )

module _ (fresh : ℕ → Bytes) (sizes : (n : ℕ) → length (fresh n) ≡ n) where
  -- The object after a copy of `bytes` to the front of a buffer with room for `n`.
  pub copied :
      (n : ℕ) (bytes : Bytes) (k : IterKey)
      → IsBuffer k
      → length bytes ≤ n
      → (k2 : IterKey) × (write_buf 0 bytes (enlarged fresh n k) ≡ some k2)
        × IsBuffer k2
        × (take (length bytes) k2.buf ≡ bytes)
        × (n ≤ k2.buf_size)
        × (k2.is_user_key ≡ k.is_user_key)
        × (k2.buf_size ≡ (enlarged fresh n k).buf_size)
  copied n bytes k b h =
      let k1 = enlarged fresh n k in
      let b1 = enlarged-IsBuffer fresh n k sizes b in
      let room = enlarged-room fresh n k in
      let fits : 0 + length bytes ≤ length k1.buf = omega (arith, b1.buf_length) in
      (
        record k1 { buf = splice 0 bytes k1.buf },
        write_buf_lem 0 bytes k1 fits,
        IsBuffer-splice 0 bytes k1 b1 fits,
        ap (λ n. take n (splice 0 bytes k1.buf)) (omega arith) ∙ take-splice 0 bytes k1.buf fits,
        room,
        enlarged-is_user_key fresh n k,
        refl,
      )

  pub set_key_impl-Agrees :
      (key : Bytes) (copy : Bool) (k : IterKey)
      → IsBuffer k
      → Agrees
          (set_key_impl fresh key copy k)
          (some (record { bytes = key; pinned = not copy; is_user_key = k.is_user_key }))
  unfolding set_key_impl read_key key_memory is_key_pinned
  set_key_impl-Agrees key true k b =
      let (k2, e, b2, front, room, user, same) = copied (length key) key k b (omega arith) in
      (
        record k2 { key = own; key_size = length key },
        simp (enlarge_lem fresh (length key) k, e),
        owned k2 (length key) key k.is_user_key b2 refl front room user,
      )
  set_key_impl-Agrees key false k b = (
    record k { key = external key; key_size = length key },
    refl,
    record {
      fits = record {
        space_size = b.space_size;
        buf_length = b.buf_length;
        inline_size = b.inline_size;
        inline_pointer = λ h. absurd (ground (arith, h));
      };
      reads =
          read_at_lem (length key) key (omega arith)
          ∙ ap some (take_all (length key) key (omega arith));
      size = refl;
      pin = refl;
      user = refl;
    },
  )

  grown :
      (k : IterKey) (total shared : ℕ) (bytes : Bytes)
      → IsBuffer k
      → read_key shared k ≡ some bytes
      → length bytes ≡ shared
      → shared ≤ total
      → (k1 : IterKey) × (grow fresh total shared k ≡ some k1)
        × IsBuffer k1
        × (take shared k1.buf ≡ bytes)
        × (total ≤ k1.buf_size)
        × (k1.is_user_key ≡ k.is_user_key)
  unfolding grow write_at
  grown k total shared bytes b read size le =
      let block = splice 0 bytes (fresh total) in
      let fits : 0 + length bytes ≤ length (fresh total) = omega (arith, sizes total) in
      (
        record k {
          buf = block;
          on_heap = true;
          space = if k.on_heap then k.space else k.buf;
          buf_size = total;
        },
        rw read (ground (arith, fits)),
        record {
          space_size = ground (arith, b.space_size, b.buf_length, b.inline_size);
          buf_length = length-splice 0 bytes (fresh total) fits ∙ sizes total;
          inline_size = λ h. cc;
          inline_pointer = λ h. refl;
        },
        ap (λ n. take n block) (omega arith) ∙ take-splice 0 bytes (fresh total) fits,
        omega arith,
        refl,
      )

  -- What `TrimAppend` does before it copies: there is room, and the shared bytes are in front.
  pub prepared :
      (k : IterKey) (v : KeyView) (total shared : ℕ)
      → Represents k v
      → shared ≤ length v.bytes
      → shared ≤ total
      → (k1 : IterKey) × ((if is_key_pinned k
            then copy_shared fresh total shared k
            else if ltb k.buf_size total
            then grow fresh total shared k
            else some k)
          ≡ some k1)
        × IsBuffer k1
        × (take shared k1.buf ≡ take shared v.bytes)
        × (total ≤ k1.buf_size)
        × (k1.is_user_key ≡ v.is_user_key)
  unfolding copy_shared
  prepared k v total shared r le room =
      let short : shared ≤ k.key_size = omega (arith, r.size) in
      let read = read_key-shorter shared k.key_size k v.bytes short r.reads in
      let size : length (take shared v.bytes) ≡ shared =
        omega (arith, length-take shared v.bytes) in
      elim (Bool-cases (is_key_pinned k)) [
        | inl p ↦
            let (k2, e, b2, front, wide, user, _) =
              copied total (take shared v.bytes) k r.fits (omega arith) in
            (
              k2,
              simp (
                p,
                enlarge_lem fresh total k,
                read_key-enlarged fresh total shared k r.fits p,
                read,
                e,
              ),
              b2,
              rw size at front,
              wide,
              user ∙ r.user,
            )
        | inr p ↦ elim (Bool-cases (ltb k.buf_size total)) [
          | inl t ↦
              let (k1, e, b1, front, wide, user) =
                grown k total shared (take shared v.bytes) r.fits read size room in
              (k1, simp (p, t, e), b1, front, wide, user ∙ r.user)
          | inr t ↦ (k, simp (p, t), r.fits, (own-front k v shared r p le).0, ground arith, r.user)
        ]
      ]
