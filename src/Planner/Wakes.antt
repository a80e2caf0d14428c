-- ===== src/Planner/Wakes.antt =====
-- planificador/planificador.c: `update_blocked_esi_queue`, the release of one key.
use tp_so_1c.Prelude.{refl, String, Bool}
use tp_so_1c.Commons.{ListLib, Documented, Documented-eq}
use tp_so_1c.Planner.State.{Planner, Setup}
use tp_so_1c.Planner.Keys.{FlagName, update_blocked_esi_queue}
use tp_so_1c.Planner.Inv.{IsWellFormed, Ends, no_one}
use tp_so_1c.Planner.Release.{Released, update_blocked_esi_queue-Released}

-- The release of a key in a well-formed scheduler follows no null pointer, whoever waits for the key;
-- the scheduler is well formed afterwards, and no ESI waits for any key more often than before.
pub update_blocked_esi_queue-IsWellFormed :
    {lib : ListLib} {F : Type 0} (setup : Setup F) (key : String) (flag : FlagName)
    (was_a_store : Bool) (s : Planner F)
    → Documented lib
    → IsWellFormed s
    → Ends
        (Released no_one no_one s.esis_sexpecting_keys)
        (update_blocked_esi_queue lib setup key flag was_a_store s)
update_blocked_esi_queue-IsWellFormed {lib} setup key flag was_a_store s manual v =
    rw (Documented-eq manual) (
      update_blocked_esi_queue-Released (λ A. lib.list_sort {A = A}) setup key flag was_a_store s v
        refl)
