-- ===== src/Stream/Tests.antt =====
-- The theorems on include/stream_merger.cc at concrete inputs.
use compaction_test.Base.{
  ℕ, ◌*◌, ◌<◌, ◌==◌, if◌then◌else◌, none, some, List, [], ◌∷◌, ◌++◌, true, Bytes, IsBytes, length,
  replicate, ◌≡◌, refl, arith,
}
use compaction_test.Merger.{remove_redundant}
use compaction_test.Stream.{
  PlainTable, read_entries, BaselineMerger, delete_last, accept_entry, refers, dangling,
  arbitration, stream_loop,
}
use compaction_test.Base.{length-replicate}
use compaction_test.Table.{plain_to_disk_format}
use compaction_test.Stream.Plain.{paired, read_entries-plain_to_disk_format}
use compaction_test.Stream.Merge.{merge_files, read_length, merge_files_lem}
use compaction_test.Stream.Arbitration.{rejects, user_part, sequence_part, arbitration_lem}
use compaction_test.Stream.Windows.{stream_loop_lem}

-- A key of eight times the byte `c`, the number `seq` and the type of a value, with a value.
abbrev entry : ℕ → ℕ → Bytes
entry c seq = replicate 8 c ++ (1 ∷ seq ∷ replicate 16 0)

entry-IsBytes : (c seq : ℕ) → c < 256 → seq < 256 → IsBytes (entry c seq)
entry-IsBytes c seq h n = (h, (h, (h, (h, (h, (h, (h, (h, (omega arith, (n, zeros))))))))))
  where
    zeros : IsBytes (replicate 16 0)
    zeros = (
      omega arith,
      (
        omega arith,
        (
          omega arith,
          (
            omega arith,
            (
              omega arith,
              (
                omega arith,
                (
                  omega arith,
                  (
                    omega arith,
                    (
                      omega arith,
                      (
                        omega arith,
                        (
                          omega arith,
                          (
                            omega arith,
                            (omega arith, (omega arith, (omega arith, (omega arith, tt)))),
                          ),
                        ),
                      ),
                    ),
                  ),
                ),
              ),
            ),
          ),
        ),
      ),
    )

abbrev file : PlainTable
file = record {
  file_content = entry 97 5 ++ entry 98 6 ++ (0 ∷ 0 ∷ []);
  file_size = 52;
  readed_entries = 0;
}

abbrev merger : Bytes → BaselineMerger
merger last = record {
  last_entry = last;
  abandoned_entries = [];
  logic = remove_redundant;
  bound = record { seq = 0; prefix = [] };
}

arbitration_lem_example :
    arbitration true 0 (merger (entry 97 5)) (entry 97 3) 9
    ≡ some (
        if rejects remove_redundant
          (merger (entry 97 5)).bound
          (user_part (entry 97 5))
          (user_part (entry 97 3))
          (sequence_part (entry 97 5))
        then (
          delete_last,
          dangling,
          record (merger (entry 97 5)) { abandoned_entries = [] ++ entry 97 5 ∷ [] },
        )
        else (accept_entry, refers (entry 97 5), merger (entry 97 5)))
arbitration_lem_example =
    arbitration_lem true 0 (merger (entry 97 5)) (entry 97 3) 9
      (entry-IsBytes 97 5 (omega arith) (omega arith))
      (entry-IsBytes 97 3 (omega arith) (omega arith)) (omega arith) (omega arith) (omega arith)

stream_loop_lem_example :
    stream_loop 5 (λ r i. replicate 3 i) 2 0 ≡ (if 2 * 3 == 0 then some 1 else none)
stream_loop_lem_example = stream_loop_lem 4 (λ r i. replicate 3 i) 3 2 (λ r i. refl) (omega arith)

abbrev two_keys : List Bytes
two_keys = replicate 16 1 ∷ replicate 16 2 ∷ []

abbrev two_values : List Bytes
two_values = replicate 10 3 ∷ replicate 10 4 ∷ []

read_entries-plain_to_disk_format_example :
    (content : Bytes) × (plain_to_disk_format two_keys two_values [] ≡ some content)
    × (read_entries 3 0 (record {
      file_content = content ++ 7 ∷ [];
      file_size = length content;
      readed_entries = 0;
    })
        ≡ some (paired two_keys two_values))
read_entries-plain_to_disk_format_example =
    read_entries-plain_to_disk_format two_keys two_values (7 ∷ []) (refl, (refl, tt))
      (refl, (refl, tt)) refl

merge_files_lem_example :
    merge_files true 0
      (λ entries. entries)
      3
      ((entry 97 5, replicate read_length 0) ∷ [])
      (merger [])
    ≡ some (merger [])
merge_files_lem_example =
    merge_files_lem true 0 (λ entries. entries) 3 ((entry 97 5, replicate read_length 0) ∷ [])
      (merger []) (λ P entries all. all) refl
      (((1, omega arith, refl), omega arith, length-replicate {A = ℕ} read_length 0), tt)
