-- ===== src/System/Tests.antt =====
-- A small scheduler and a small coordinator, on which the theorems about both are used.
use tp_so_1c.Prelude.{ℕ, ◌≤◌, ◌≡◌, refl, pos, String, Option, some, Bool, true}
use tp_so_1c.Outcome.{ok}
use tp_so_1c.Commons.Insertion.{list_lib, list_lib-Documented}
use tp_so_1c.Planner.State.{Planner, sjfcd}
use tp_so_1c.Planner.Tests.{whole_numbers, setup_of, busy}
use tp_so_1c.Coordinator.State.{Coordinator, KeyTableData, el}
use tp_so_1c.Coordinator.EsiConnection.{esi_get, esi_set}
use tp_so_1c.Coordinator.SchedulerConnection.{attend_operation}
use tp_so_1c.Coordinator.Tests.{functions, letters, two_instances}
use tp_so_1c.System.Dialogue.{planner}
use tp_so_1c.Planner.Locks.{locks}
use tp_so_1c.System.Operations.{GetEnds, get_locks}
use tp_so_1c.System.Writes.{WriteEnds, write_needs_lock}

-- The ESI that executes asks for a key that nobody has.
get_locks_example :
    (t : Planner ℕ) × (after : Coordinator (String → Option KeyTableData)) × (attend_operation
          (planner whole_numbers list_lib (setup_of sjfcd) (pos 3))
          list_lib
          functions
          letters
          el
          (pos 9)
          (esi_get "b")
          two_instances
          busy
        ≡ ok (some (true, after), t)
      × GetEnds whole_numbers list_lib list_lib-Documented
          (setup_of sjfcd)
          (pos 3)
          busy
          (pos 4)
          0
          refl
          refl
          functions
          letters
          el
          (pos 9)
          two_instances
          "b"
          t
          after
      × t.mutex_coordinador ≡ busy.mutex_coordinador
      × ((other : String) → locks other busy.locked_keys ≤ 1 → locks other t.locked_keys ≤ 1))
get_locks_example =
    get_locks whole_numbers list_lib list_lib-Documented (setup_of sjfcd) (pos 3) busy (pos 4) 0
      refl refl functions letters el (pos 9) two_instances "b" refl

-- The ESI that executes sets the key that it has.
write_needs_lock_example :
    (t : Planner ℕ) × (r : Bool × Coordinator (String → Option KeyTableData)) × (attend_operation
          (planner whole_numbers list_lib (setup_of sjfcd) (pos 3))
          list_lib
          functions
          letters
          el
          (pos 9)
          (esi_set "a" "1")
          two_instances
          busy
        ≡ ok (some r, t)
      × WriteEnds whole_numbers list_lib list_lib-Documented
          (setup_of sjfcd)
          (pos 3)
          busy
          (pos 4)
          0
          refl
          refl
          functions
          letters
          el
          (pos 9)
          two_instances
          (esi_set "a" "1")
          r
      × t.locked_keys ≡ busy.locked_keys
      × t.mutex_coordinador ≡ busy.mutex_coordinador)
write_needs_lock_example =
    write_needs_lock whole_numbers list_lib list_lib-Documented (setup_of sjfcd) (pos 3) busy
      (pos 4) 0 refl refl functions letters el (pos 9) two_instances (esi_set "a" "1") tt refl
