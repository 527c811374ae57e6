-- ===== src/Stream.antt =====
-- include/stream_merger.cc: the merger that sorts the entries of plain tables and arbitrates each
-- against the last one, and the one that streams the tables in windows. `none` is a read out of
-- range or a failed assertion.
pub mod Entries
pub mod Arbitration
pub mod Windows
pub mod Plain
pub mod Merge
mod Tests
use compaction_test.Base.{
  ℕ, zero, suc, ◌+◌, ◌-◌, ◌*◌, Option, none, some, List, [], ◌∷◌, ◌++◌, Bool, true, false, ◌&&◌,
  ◌||◌, ltb, leb, ◌==◌, not, if◌then◌else◌, ◌>>=◌, Bytes, length, take, drop, u32,
}
use compaction_test.Slice.{starts_with, equal_slice}
use compaction_test.InternalKey.{ParsedInternalKey, unset_key, parse_internal_key, type_deletion}
use compaction_test.InternalKey.Comparator.{internal_key}
use compaction_test.Block.{full_key_length, value_length}
use compaction_test.Merger.{
  FilterLogic, FilterArgs, remove_redundant, delete_prefix, delete_version,
}

abbrev pub entry_length : ℕ
entry_length = full_key_length + value_length

-- The fields of `PlainTable` that the merger uses. `file_size` is the number of bytes read; the
-- buffer `file_content` may be longer.
pub record PlainTable : Type 0 where
  pub file_content : Bytes
  pub file_size : ℕ
  pub readed_entries : ℕ

-- `NextEntry`: the entry, the table afterwards and the number returned. A slice past the end of
-- the buffer is not made here, since the heap reads it at once.
unfoldable pub next_entry : PlainTable → Option (Bytes × PlainTable × ℕ)
next_entry table =
    let start = table.readed_entries * entry_length in
    if leb (start + entry_length) (length table.file_content)
    then some (
      take entry_length (drop start table.file_content),
      record table { readed_entries = table.readed_entries + 1 },
      (table.readed_entries + 1) * entry_length,
    )
    else none

-- `while (readed_len < file->file_size)`, on fuel: the entries in the order in which they are
-- added to the heap. `none` is also that the fuel ran out.
unfoldable pub read_entries : ℕ → ℕ → PlainTable → Option (List Bytes)
unfolding next_entry
read_entries zero readed_len table = none
read_entries (suc fuel) readed_len table =
    let more = (do
      (entry, rest, readed) ← next_entry table
      entries ← read_entries fuel readed rest
      some (entry ∷ entries)) in
    if ltb readed_len table.file_size then more else some []

pub data ArbitrationAction : Type 0 where
  delete_last accept_entry delete_current : ArbitrationAction

-- What `result_buffer` refers to: what it did before, some bytes, or a string that is gone.
pub data Buffer : Type 0 where
  as_before : Buffer
  refers : Bytes → Buffer
  dangling : Buffer

pub record BaselineMerger : Type 0 where
  pub last_entry : Bytes
  pub abandoned_entries : List Bytes
  pub logic : FilterLogic
  pub bound : FilterArgs

-- `strlen`, the size of a `Slice` made from a `const char *`; a missing 0 is a read out of range.
unfoldable pub strlen : Bytes → Option ℕ
strlen [] = none
strlen (c ∷ s) = let rest = strlen s in if c == 0 then some 0 else (do n ← rest; some (n + 1))

module _ (little : Bool) (unset : ℕ) where
  -- `EncodeDeletedKey`, up to the return: the bytes of its local string.
  unfoldable pub encode_deleted_key : ParsedInternalKey → Bytes → Option Bytes
  encode_deleted_key deleted_key last_entry = do
    last_key ← internal_key little deleted_key.user_key deleted_key.sequence type_deletion
    if leb entry_length (length last_entry)
        then some (last_key ++ take value_length (drop full_key_length last_entry))
        else none

  -- `ParseInternalKey(Slice(data, FULL_KEY_LENGTH), ...)`.
  unfoldable pub parse_entry : Bytes → Option ParsedInternalKey
  parse_entry entry =
      if leb full_key_length (length entry)
      then some (parse_internal_key little (take full_key_length entry) (unset_key unset)).0
      else none

  -- The three statements that reject the last entry; the slice that is returned points into a
  -- string that the return destroys.
  unfoldable pub reject_last :
      BaselineMerger → ParsedInternalKey → Option (ArbitrationAction × Buffer × BaselineMerger)
  unfolding encode_deleted_key
  reject_last m last = do
    encoded ← encode_deleted_key last m.last_entry
    some (
      delete_last,
      dangling,
      record m { abandoned_entries = m.abandoned_entries ++ m.last_entry ∷ [] },
    )

  abbrev accept : BaselineMerger → Option (ArbitrationAction × Buffer × BaselineMerger)
  accept m = some (accept_entry, refers m.last_entry, m)

  -- `Arbitration`; the entry is the memory that `current_entry` points to, and its size.
  unfoldable pub arbitration :
      BaselineMerger → Bytes → ℕ → Option (ArbitrationAction × Buffer × BaselineMerger)
  unfolding parse_entry reject_last
  arbitration m current_entry size =
      if size == 0 || length m.last_entry == 0 then some (accept_entry, as_before, m) else (do
        last ← parse_entry m.last_entry
        current ← parse_entry current_entry
        let reject = reject_last m last
        elim m.logic [
          | remove_redundant ↦
              if equal_slice last.user_key current.user_key then reject else accept m
          | delete_prefix ↦ if starts_with last.user_key m.bound.prefix then reject else accept m
          | delete_version ↦
              if starts_with last.user_key m.bound.prefix
              then (if equal_slice last.user_key current.user_key
                  then (if ltb last.sequence m.bound.seq then reject else accept m)
                  else accept m)
              else accept m
        ])

  -- The last loop of `MergeEntries`, on the entries in the order of the heap. Each is the memory
  -- from the entry on.
  unfoldable pub merge_loop : List Bytes → BaselineMerger → Option BaselineMerger
  unfolding arbitration strlen
  merge_loop [] m = some m
  merge_loop (entry ∷ heap) m = do
    size ← strlen entry
    (action, buffer, m2) ← arbitration m entry size
    merge_loop heap m2

-- The loop of `FPGA_Stream_Merger::DoCompaction`: `memory r i` is what the buffer of the i-th file
-- holds after the read of round `r`; `ReadFromDisk` makes a string of all of it. The number of
-- rounds, on fuel. `read_bytes` is an `int`.
unfoldable pub append_files : (ℕ → Bytes) → ℕ → ℕ → Bytes
append_files memory zero i = []
append_files memory (suc left) i = memory i ++ append_files memory left (i + 1)

unfoldable pub stream_loop : ℕ → (ℕ → ℕ → Bytes) → ℕ → ℕ → Option ℕ
unfolding append_files
stream_loop zero memory files r = none
stream_loop (suc fuel) memory files r =
    let more = stream_loop fuel memory files (r + 1) in
    let read_bytes = u32 (length (append_files (memory r) files 0)) in
    if not (read_bytes == 0) then more else some (r + 1)
