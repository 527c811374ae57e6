-- ===== src/InternalKey/IterKey/Abstract.antt =====
-- What the operations of `IterKey` mean: the key is a string of bytes, which may be pinned.
use compaction_test.Base.{
  ℕ, ◌-◌, Option, none, some, List, [], ◌∷◌, ◌++◌, Bool, true, false, not, ◌&&◌, leb, if◌then◌else◌,
  ◌>>=◌, Bytes, length, take,
}
use compaction_test.Coding.{le_bytes}
use compaction_test.InternalKey.{pack, pack_sequence_and_type}
use compaction_test.InternalKey.IterKey.{
  IterKey, timestamp, set_key, set_user_key, set_internal_key_slice, trim_append, own_key,
  set_internal_key,
}
use compaction_test.InternalKey.IterKey.Access.{set_is_user_key, clear, update_key}

pub record KeyView : Type 0 where
  pub bytes : Bytes
  pub pinned : Bool
  pub is_user_key : Bool

-- A call of an operation.
pub data Call : Type 0 where
  calls_set_key calls_set_user_key calls_set_internal_key : Bytes → Bool → Call
  calls_trim_append : ℕ → Bytes → ℕ → Call
  calls_own_key calls_clear : Call
  calls_set_is_user_key : Bool → Call
  calls_update : ℕ → ℕ → Call
  calls_encode : Bytes → Bytes → ℕ → ℕ → Option Bytes → Call

-- What a call does to the view; `none` is a failed assertion, or too few bytes to copy.
abbrev pub run_view : Call → KeyView → Option KeyView
run_view (calls_set_key key copy) v = some (record v { bytes = key; pinned = not copy })
run_view (calls_set_user_key key copy) v =
    some (record { bytes = key; pinned = not copy; is_user_key = true })
run_view (calls_set_internal_key key copy) v =
    some (record { bytes = key; pinned = not copy; is_user_key = false })
run_view (calls_trim_append shared more n) v =
    if leb shared (length v.bytes) && leb n (length more)
    then some (record v { bytes = take shared v.bytes ++ take n more; pinned = false })
    else none
run_view calls_own_key v = if v.pinned then some (record v { pinned = false }) else none
run_view calls_clear v = some (record v { bytes = [] })
run_view (calls_set_is_user_key is_user_key) v = some (record v { is_user_key = is_user_key })
run_view (calls_update seq t) v =
    if not v.pinned && leb 8 (length v.bytes)
    then some (record v { bytes = take (length v.bytes - 8) v.bytes ++ le_bytes 8 (pack seq t) })
    else none
run_view (calls_encode prefix user_key s t ts) v = do
  word ← pack_sequence_and_type s t
  some (record {
    bytes = prefix ++ user_key ++ timestamp ts ++ le_bytes 8 word;
    pinned = false;
    is_user_key = false;
  })

module _ (fresh : ℕ → Bytes) (little : Bool) where
  abbrev pub run_call : Call → IterKey → Option IterKey
  run_call (calls_set_key key copy) k = set_key fresh key copy k
  run_call (calls_set_user_key key copy) k = set_user_key fresh key copy k
  run_call (calls_set_internal_key key copy) k = set_internal_key_slice fresh key copy k
  run_call (calls_trim_append shared more n) k = trim_append fresh shared more n k
  run_call calls_own_key k = own_key fresh k
  run_call calls_clear k = some (clear k)
  run_call (calls_set_is_user_key is_user_key) k = some (set_is_user_key is_user_key k)
  run_call (calls_update seq t) k = update_key little seq t k
  run_call (calls_encode prefix user_key s t ts) k =
      set_internal_key fresh little prefix user_key s t ts k

  abbrev pub run_calls : List Call → IterKey → Option IterKey
  run_calls [] k = some k
  run_calls (c ∷ calls) k = run_call c k >>= run_calls calls

abbrev pub run_views : List Call → KeyView → Option KeyView
run_views [] v = some v
run_views (c ∷ calls) v = run_view c v >>= run_views calls
