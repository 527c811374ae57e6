-- ===== src/Port/Calls.antt =====
-- What port/port_posix.cc asks the system for. The answers of the system are parameters; a result
-- of -1 is `none`.
use compaction_test.Base.{
  ℕ, ◌-◌, ◌*◌, ◌^◌, ◌≤◌, ◌<◌, Option, none, some, List, [], ◌∷◌, Bool, true, false, leb,
  if◌then◌else◌, ◌≡◌, arith,
}

-- `PhysicalCoreID`, where `sched_getcpu` is there: its answer is `none` below 0.
unfoldable pub physical_core_id : Option ℕ → Option ℕ
physical_core_id none = none
physical_core_id (some cpuno) = some cpuno

-- `GetMaxOpenFiles`: `none` is that `getrlimit` fails, else it gives `rlim_cur`.
unfoldable pub get_max_open_files : Option ℕ → Option ℕ
get_max_open_files none = none
get_max_open_files (some rlim_cur) =
    if leb (2 ^ 31 - 1) rlim_cur then some (2 ^ 31 - 1) else some rlim_cur

-- `cacheline_aligned_alloc`: what `posix_memalign` gives for an alignment and a size.
unfoldable pub cacheline_aligned_alloc : (ℕ → ℕ → Option ℕ) → ℕ → Option ℕ
cacheline_aligned_alloc posix_memalign size = posix_memalign 64 size

-- `GetPageSize`; the answer of `sysconf` is `none` below 0.
unfoldable pub get_page_size : Option ℕ → ℕ
get_page_size none = 4 * 1024
get_page_size (some v) = if leb 1024 v then v else 4 * 1024

pub data CpuPriority : Type 0 where
  idle low normal high : CpuPriority

pub data Policy : Type 0 where
  sched_other sched_idle : Policy

-- The calls of the system that `SetCpuPriority` makes. A nice value is whether it is below 0, and its
-- distance from 0.
pub data SystemCall : Type 0 where
  set_scheduler : ℕ → Policy → SystemCall
  set_priority : ℕ → Bool → ℕ → SystemCall

unfoldable pub set_cpu_priority : ℕ → CpuPriority → List SystemCall
set_cpu_priority id high = set_scheduler id sched_other ∷ set_priority id true 20 ∷ []
set_cpu_priority id normal = set_scheduler id sched_other ∷ set_priority id false 0 ∷ []
set_cpu_priority id low = set_scheduler id sched_other ∷ set_priority id false 19 ∷ []
set_cpu_priority id idle = set_scheduler id sched_idle ∷ []

-- The number of files fits an `int`, and is the system's where that fits.
get_max_open_files_lem :
    (rlim_cur limit : ℕ)
    → get_max_open_files (some rlim_cur) ≡ some limit
    → (limit < 2 ^ 31) × (limit ≤ rlim_cur)
unfolding get_max_open_files
get_max_open_files_lem rlim_cur limit e = ground arith
