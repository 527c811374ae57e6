-- ===== src/InternalKey/IterKey/Correct.antt =====
-- `IterKey` through any calls.
use compaction_test.Base.{
  ℕ, Option, none, some, List, [], ◌∷◌, Bool, true, false, not, ◌>>=◌, Bytes, length, ◌≡◌, refl,
  subst, arith,
}
use compaction_test.InternalKey.IterKey.{
  IterKey, new_iter_key, set_key, set_user_key, set_internal_key_slice, read_key, read_at,
  key_memory, is_key_pinned,
}
use compaction_test.InternalKey.IterKey.Access.{set_is_user_key, clear, get_key}
use compaction_test.InternalKey.IterKey.Abstract.{
  KeyView, Call, calls_set_key, calls_set_user_key, calls_set_internal_key, calls_trim_append,
  calls_own_key, calls_clear, calls_set_is_user_key, calls_update, calls_encode, run_view, run_call,
  run_views, run_calls,
}
use compaction_test.InternalKey.IterKey.Buffer.{read_key-shorter}
use compaction_test.InternalKey.IterKey.Represents.{Represents, Agrees, set_key_impl-Agrees}
use compaction_test.InternalKey.IterKey.Refine.{trim_append-Agrees, own_key-Agrees}
use compaction_test.InternalKey.IterKey.Encode.{
  IsBuffer-user, set_internal_key-Agrees, update_key-Agrees,
}

-- The view of a new object, and the view of an object.
abbrev pub no_view : KeyView
no_view = record { bytes = []; pinned = false; is_user_key = true }

abbrev pub observe : IterKey → Option KeyView
observe k = do
  bytes ← get_key k
  some (record { bytes = bytes; pinned = is_key_pinned k; is_user_key = k.is_user_key })

new_iter_key-Represents :
    (space : Bytes) → length space ≡ 32 → Represents (new_iter_key space) no_view
unfolding new_iter_key read_key key_memory is_key_pinned read_at
new_iter_key-Represents space h = record {
  fits = record {
    space_size = h;
    buf_length = h;
    inline_size = λ _. refl;
    inline_pointer = λ e. absurd (ground (arith, e));
  };
  reads = ground arith;
  size = refl;
  pin = refl;
  user = refl;
}

clear-Represents :
    (k : IterKey) (v : KeyView) → Represents k v → Represents (clear k) (record v { bytes = [] })
unfolding clear read_key read_at key_memory is_key_pinned
clear-Represents k v r = record {
  fits = record {
    space_size = r.fits.space_size;
    buf_length = r.fits.buf_length;
    inline_size = r.fits.inline_size;
    inline_pointer = r.fits.inline_pointer;
  };
  reads = read_key-shorter 0 k.key_size k v.bytes (omega arith) r.reads;
  size = refl;
  pin = r.pin;
  user = r.user;
}

user-Represents :
    (k : IterKey) (v : KeyView) (user : Bool)
    → Represents k v
    → Represents (record k { is_user_key = user }) (record v { is_user_key = user })
unfolding read_key key_memory is_key_pinned
user-Represents k v user r = record {
  fits = IsBuffer-user k user r.fits;
  reads = r.reads;
  size = r.size;
  pin = r.pin;
  user = refl;
}

observe-Agrees :
    (out : Option IterKey) (spec : Option KeyView) → Agrees out spec → (out >>= observe) ≡ spec
unfolding get_key
observe-Agrees out none e = simp e
observe-Agrees out (some v) (k, e, r) =
    simp (e, r.reads)
      (λ i. some (record { bytes = v.bytes; pinned = r.pin i; is_user_key = r.user i }))

module _ (fresh : ℕ → Bytes) (sizes : (n : ℕ) → length (fresh n) ≡ n) (little : Bool) where
  call-Agrees :
      (c : Call) (k : IterKey) (v : KeyView)
      → Represents k v
      → Agrees (run_call fresh little c k) (run_view c v)
  unfolding set_key set_user_key set_internal_key_slice set_is_user_key
  call-Agrees (calls_set_key key copy) k v r =
      subst
        (λ u.
          Agrees (set_key fresh key copy k)
            (some (record { bytes = key; pinned = not copy; is_user_key = u })))
        r.user (set_key_impl-Agrees fresh sizes key copy k r.fits)
  call-Agrees (calls_set_user_key key copy) k v r =
      set_key_impl-Agrees fresh sizes key copy (record k { is_user_key = true })
        (IsBuffer-user k true r.fits)
  call-Agrees (calls_set_internal_key key copy) k v r =
      set_key_impl-Agrees fresh sizes key copy (record k { is_user_key = false })
        (IsBuffer-user k false r.fits)
  call-Agrees (calls_trim_append shared more n) k v r =
      trim_append-Agrees fresh sizes k v shared more n r
  call-Agrees calls_own_key k v r = own_key-Agrees fresh sizes k v r
  call-Agrees calls_clear k v r = (clear k, refl, clear-Represents k v r)
  call-Agrees (calls_set_is_user_key user) k v r =
      (set_is_user_key user k, refl, user-Represents k v user r)
  call-Agrees (calls_update seq t) k v r = update_key-Agrees fresh sizes little k v seq t r
  call-Agrees (calls_encode prefix user_key s t ts) k v r =
      set_internal_key-Agrees fresh sizes little k v prefix user_key s t ts r

  calls-Agrees :
      (calls : List Call) (k : IterKey) (v : KeyView)
      → Represents k v
      → Agrees (run_calls fresh little calls k) (run_views calls v)
  calls-Agrees [] k v r = (k, refl, r)
  calls-Agrees (c ∷ calls) k v r =
      after (run_call fresh little c k) (run_view c v) (call-Agrees c k v r) (calls-Agrees calls)
    where
      after :
          (out : Option IterKey) (spec : Option KeyView)
          → Agrees out spec
          → ((k2 : IterKey) (v2 : KeyView)
              → Represents k2 v2
              → Agrees (run_calls fresh little calls k2) (run_views calls v2))
          → Agrees (out >>= run_calls fresh little calls) (spec >>= run_views calls)
      after out none e next = simp e
      after out (some v2) (k2, e, r2) next = simp e (next k2 v2 r2)

  -- What any of the operations of `Call`, in any order, leave in a new object with an inline space of
  -- 32 bytes, as its accessors show it, is what the view says, and they fail exactly where the view
  -- says so. A buffer that `new` returns has the size asked for.
  pub run_calls-run_views :
      (space : Bytes) (calls : List Call)
      → length space ≡ 32
      → (run_calls fresh little calls (new_iter_key space) >>= observe) ≡ run_views calls no_view
  run_calls-run_views space calls h =
      observe-Agrees (run_calls fresh little calls (new_iter_key space)) (run_views calls no_view)
        (calls-Agrees calls (new_iter_key space) no_view (new_iter_key-Represents space h))
