-- ===== src/System/Dialogue.antt =====
-- planificador/planificador.c at the other end of coordinador/connection/scheduler-connection.c: the
-- scheduler's main loop answers what the coordinator asks.
use tp_so_1c.Prelude.{ℤ, List, [], ◌∷◌, Option, none, some}
use tp_so_1c.Outcome.{ok, ◌>>=◌}
use tp_so_1c.Commons.{ListLib}
use tp_so_1c.Floats.{FloatLib}
use tp_so_1c.Planner.State.{
  Planner, Setup, Message, key_is_blocked, key_is_not_blocked, key_blocked_by_executing_esi,
  key_not_blocked_by_executing_esi, key_blocked_succesfully, key_unlocked_succesfully,
}
use tp_so_1c.Planner.Loop.{
  CoordinatorOperation, is_this_key_blocked, is_key_blocked_by_executing_esi, block_key, unlock_key,
  attend_coordinator,
}
use tp_so_1c.Coordinator.SchedulerConnection.{
  SchedulerCode, pc_key_is_blocked, pc_key_is_not_blocked, pc_key_blocked_by_executing_esi,
  pc_key_not_blocked_by_executing_esi, pc_key_blocked_succesfully, pc_key_unlocked_succesfully,
  pc_other, SchedulerRequest, cp_is_this_key_blocked, cp_is_key_blocked_by_executing_esi,
  cp_block_key, cp_unlock_key, Scheduler,
}

-- The same request on both sides.
abbrev pub operation_of : SchedulerRequest → CoordinatorOperation
operation_of (cp_is_this_key_blocked key) = is_this_key_blocked key
operation_of cp_is_key_blocked_by_executing_esi = is_key_blocked_by_executing_esi
operation_of cp_block_key = block_key
operation_of (cp_unlock_key key) = unlock_key key

abbrev pub code_of : Message → SchedulerCode
code_of (key_is_blocked _) = pc_key_is_blocked
code_of (key_is_not_blocked _) = pc_key_is_not_blocked
code_of (key_blocked_by_executing_esi _) = pc_key_blocked_by_executing_esi
code_of (key_not_blocked_by_executing_esi _) = pc_key_not_blocked_by_executing_esi
code_of (key_blocked_succesfully _) = pc_key_blocked_succesfully
code_of (key_unlocked_succesfully _) = pc_key_unlocked_succesfully
code_of _ = pc_other

-- The last message that went out.
abbrev pub last_code : List Message → Option SchedulerCode
last_code [] = none
last_code (m ∷ _) = some (code_of m)

-- The scheduler, with a connection to the coordinator that does not fail.
abbrev pub planner : (fl : FloatLib) → ListLib → Setup fl.Float → ℤ → Scheduler
planner fl lib setup coordinator_fd = record {
  State = Planner fl.Float;
  ask = λ request s. do
    t ← attend_coordinator fl lib setup coordinator_fd (operation_of request) s
    ok (last_code t.sent, t);
}
