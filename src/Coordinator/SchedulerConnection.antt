-- ===== src/Coordinator/SchedulerConnection.antt =====
-- coordinador/connection/scheduler-connection.c: what the coordinator asks the scheduler, and what an
-- ESI's operation does with the answers.
use tp_so_1c.Prelude.{ℤ, String, Option, none, some, Bool, true, false, not, if◌then◌else◌}
use tp_so_1c.Outcome.{Outcome, ok, ◌>>=◌}
use tp_so_1c.Commons.{ListLib}
use tp_so_1c.Coordinator.State.{Coordinator, CharLib, DictLib, DistributionAlgorithm}
use tp_so_1c.Coordinator.EsiConnection.{
  EsiOperation, esi_get, KeyState, key_unblocked, key_blocked, key_blocked_by_executing_esi,
  operation_key, esi_check_key_size, handle_esi_operation,
}

-- The codes that the scheduler answers with.
pub data SchedulerCode : Type 0 where
  pc_key_is_blocked : SchedulerCode
  pc_key_is_not_blocked : SchedulerCode
  pc_key_blocked_by_executing_esi : SchedulerCode
  pc_key_not_blocked_by_executing_esi : SchedulerCode
  pc_key_blocked_succesfully : SchedulerCode
  pc_key_unlocked_succesfully : SchedulerCode
  pc_other : SchedulerCode

pub data SchedulerRequest : Type 0 where
  cp_is_this_key_blocked : String → SchedulerRequest
  cp_is_key_blocked_by_executing_esi : SchedulerRequest
  cp_block_key : SchedulerRequest
  cp_unlock_key : String → SchedulerRequest

-- A scheduler at the other end: what it answers, or none where a send or a reception fails.
pub record Scheduler : Type 1 where
  pub State : Type 0
  pub ask : SchedulerRequest → State → Outcome (Option SchedulerCode × State)

unfoldable pub blocked_by : Option SchedulerCode → Option KeyState
blocked_by (some pc_key_blocked_by_executing_esi) = some key_blocked_by_executing_esi
blocked_by (some pc_key_not_blocked_by_executing_esi) = some key_blocked
blocked_by _ = none

-- Whether an answer is the one that is hoped for, if there is one.
unfoldable pub is_blocked_answer : Option SchedulerCode → Option Bool
is_blocked_answer none = none
is_blocked_answer (some pc_key_blocked_succesfully) = some true
is_blocked_answer (some _) = some false

unfoldable pub is_unlocked_answer : Option SchedulerCode → Option Bool
is_unlocked_answer none = none
is_unlocked_answer (some pc_key_unlocked_succesfully) = some true
is_unlocked_answer (some _) = some false

-- A result none is the end of the process in scheduler_exit.
module _ (scheduler : Scheduler) where
  open scheduler use {State, ask}

  unfoldable pub after_first_answer :
      Option SchedulerCode → State → Outcome (Option KeyState × State)
  unfolding blocked_by
  after_first_answer (some pc_key_is_not_blocked) s = ok (some key_unblocked, s)
  after_first_answer (some pc_key_is_blocked) s = do
    (second, t) ← ask cp_is_key_blocked_by_executing_esi s
    ok (blocked_by second, t)
  after_first_answer _ s = ok (none, s)

  unfoldable pub scheduler_recv_key_state : String → State → Outcome (Option KeyState × State)
  unfolding after_first_answer
  scheduler_recv_key_state key s = do
    (first, t) ← ask (cp_is_this_key_blocked key) s
    after_first_answer first t

  unfoldable pub scheduler_block_key : State → Outcome (Option Bool × State)
  unfolding is_blocked_answer
  scheduler_block_key s = do (response, t) ← ask cp_block_key s; ok (is_blocked_answer response, t)

  unfoldable pub scheduler_unblock_key : String → State → Outcome (Option Bool × State)
  unfolding is_unlocked_answer
  scheduler_unblock_key key s = do
    (response, t) ← ask (cp_unlock_key key) s
    ok (is_unlocked_answer response, t)

  -- A GET of a key that nobody has locks it; its answer is not looked at.
  unfoldable pub lock_if_free : EsiOperation → KeyState → State → Outcome (Bool × State)
  unfolding scheduler_block_key
  lock_if_free (esi_get key) key_unblocked s = do
    (response, t) ← scheduler_block_key s
    ok (elim response [ none ↦ false | some _ ↦ true ], t)
  lock_if_free _ _ s = ok (true, s)

  module _ (lib : ListLib) (dict : DictLib) (chars : CharLib)
      (distribution : DistributionAlgorithm) where
    unfoldable pub after_key_state :
        ℤ
        → EsiOperation
        → Coordinator dict.Dict
        → Option KeyState
        → State
        → Outcome (Option (Bool × Coordinator dict.Dict) × State)
    unfolding lock_if_free handle_esi_operation
    after_key_state esi_fd operation c none s = ok (none, s)
    after_key_state esi_fd operation c (some state) s = do
      (alive, t) ← lock_if_free operation state s
      ok (
        if alive
            then some (handle_esi_operation lib dict chars distribution esi_fd state operation c)
            else none,
        t,
      )

    -- One operation of an ESI, with the scheduler asked about its key.
    unfoldable pub attend_operation :
        ℤ
        → EsiOperation
        → Coordinator dict.Dict
        → State
        → Outcome (Option (Bool × Coordinator dict.Dict) × State)
    unfolding esi_check_key_size scheduler_recv_key_state after_key_state handle_esi_operation
    attend_operation esi_fd operation c s =
        if not (esi_check_key_size chars operation)
        then ok (
          some (handle_esi_operation lib dict chars distribution esi_fd key_blocked operation c),
          s,
        )
        else (do
          (state, t) ← scheduler_recv_key_state (operation_key operation) s
          after_key_state esi_fd operation c state t)
