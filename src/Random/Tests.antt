-- ===== src/Random/Tests.antt =====
-- The theorem on include/random.h at a concrete input.
use compaction_test.Base.{◌*◌, ◌%◌, ◌^◌, ◌≤◌, ◌<◌, ◌≡◌, arith}
use compaction_test.Random.{modulus, multiplier, next_times}
use compaction_test.Random.Next.{next_times_lem}

next_times_lem_example :
    (next_times 3 301 ≡ 301 * multiplier ^ 3 % modulus)
    × (1 ≤ next_times 3 301)
    × (next_times 3 301 < modulus)
next_times_lem_example = next_times_lem 3 301 (omega arith) (omega arith)
