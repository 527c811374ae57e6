-- ===== src/Status/Tests.antt =====
-- The theorems on include/status.h at concrete inputs.
use compaction_test.Base.{◌==◌, if◌then◌else◌, ◌≡◌, arith}
use compaction_test.Status.{Objects, ok_status, busy_code, deadlock, status_of, move_assign}
use compaction_test.Status.Assign.{move_assign_lem}

abbrev objects : Objects
objects i = if i == 1 then status_of busy_code deadlock else ok_status

move_assign_lem_example :
    (move_assign objects 2 1 2 ≡ objects 1)
    × (move_assign objects 2 1 1 ≡ ok_status)
    × (move_assign objects 2 1 3 ≡ objects 3)
    × (move_assign objects 2 2 ≡ objects)
move_assign_lem_example = move_assign_lem objects 2 1 3 (omega arith) (omega arith) (omega arith)
