-- ===== src/InternalKey/IterKey/Tests.antt =====
-- `IterKey` at concrete calls, on a machine whose lowest byte is first.
use compaction_test.Base.{
  ℕ, zero, suc, none, [], ◌∷◌, List, ◌>>=◌, true, false, Bytes, length, ◌≡◌, refl, ap,
}
use compaction_test.InternalKey.IterKey.{new_iter_key}
use compaction_test.InternalKey.IterKey.Abstract.{
  Call, calls_set_internal_key, calls_trim_append, calls_own_key, calls_update, calls_encode,
  run_calls, run_views,
}
use compaction_test.InternalKey.IterKey.Correct.{no_view, observe, run_calls-run_views}

abbrev zeros : ℕ → Bytes
zeros zero = []
zeros (suc n) = 0 ∷ zeros n

length-zeros : (n : ℕ) → length (zeros n) ≡ n
length-zeros zero = refl
length-zeros (suc n) = ap suc (length-zeros n)

-- A pinned key is made the object's own, cut, and its number changed; then a longer one is written.
abbrev calls : List Call
calls =
    calls_set_internal_key (97 ∷ 98 ∷ 99 ∷ 1 ∷ 5 ∷ 0 ∷ 0 ∷ 0 ∷ 0 ∷ 0 ∷ 0 ∷ []) false
    ∷ calls_own_key
    ∷ calls_trim_append 3 (1 ∷ 7 ∷ 0 ∷ 0 ∷ 0 ∷ 0 ∷ 0 ∷ 0 ∷ []) 8
    ∷ calls_update 9 1
    ∷ calls_encode (zeros 20) (zeros 9) 4 1 none
    ∷ []

run_calls-run_views_example :
    (run_calls zeros true calls (new_iter_key (zeros 32)) >>= observe) ≡ run_views calls no_view
run_calls-run_views_example = run_calls-run_views zeros length-zeros true (zeros 32) calls refl
