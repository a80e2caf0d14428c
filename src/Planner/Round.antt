-- ===== src/Planner/Round.antt =====
-- planificador/planificador.c: the main loop after the answer of the executing ESI, and the round
-- where nobody executes.
use tp_so_1c.Prelude.{
  ℤ, minus_one, List, [], ◌∷◌, none, Bool, true, false, not, ◌&&◌, ◌||◌, if◌then◌else◌,
}
use tp_so_1c.Outcome.{Outcome, ok, hang, ◌>>=◌, deref}
use tp_so_1c.Commons.{ListLib}
use tp_so_1c.Floats.{FloatLib}
use tp_so_1c.Planner.State.{Planner, Setup, execution, ready, finished}
use tp_so_1c.Planner.Queues.{
  move_esi_from_and_to_queue, obtain_esi_information_by_id, update_waiting_time_of_ready_esis,
  we_must_reschedule_if,
}
use tp_so_1c.Planner.Keys.{
  algorithm_is_preemptive, update_blocked_esi_queue, update_blocked_esi_queue_flag,
  unlock_esi_by_console_flag,
}
use tp_so_1c.Planner.Death.{release_resources, burn_esi_corpses}
use tp_so_1c.Planner.Schedule.{reschedule, authorize_esi_execution}
use tp_so_1c.Planner.Block.{block_by_console_procedure}
use tp_so_1c.Planner.Console.{Command, execute_console_command}
use tp_so_1c.Planner.Loop.{
  CoordinatorOperation, Received, accept_esi, attend_coordinator, attend_code,
  receive_execution_result,
}

-- A statement under a condition.
abbrev pub when : {A : Type 0} → Bool → (A → Outcome A) → A → Outcome A
when b f s = if b then f s else ok s

abbrev pub is_empty : {A : Type 0} → List A → Bool
is_empty [] = true
is_empty (_ ∷ _) = false

-- What the main loop, and the console's thread beside it, react to.
pub data Event : Type 0 where
  esi_connects : ℤ → Bool → Event
  coordinator_asks : ℤ → CoordinatorOperation → Event
  esi_answers : Received → Received → List Command → Event
  round_ends : Event
  console_reads : Command → Event

module _ (fl : FloatLib) (lib : ListLib) (setup : Setup fl.Float) where
  open fl use {Float}

  unfoldable pub update_new_esi_queue : Planner Float → Planner Float
  unfolding algorithm_is_preemptive we_must_reschedule_if
  update_new_esi_queue s =
      let t = record s {
        ready_queue = lib.list_add_all s.ready_queue s.new_queue;
        new_queue = [];
      } in
      record (we_must_reschedule_if (algorithm_is_preemptive setup) t) { new_esi_flag = false }

  -- The key of the last STORE. `free` leaves `key_to_unlock` dangling.
  unfoldable pub release_stored_key : Planner Float → Outcome (Planner Float)
  release_stored_key s = do
    key ← deref s.key_to_unlock
    t ← update_blocked_esi_queue lib setup key update_blocked_esi_queue_flag true s
    ok (record t { key_to_unlock = none })

  -- The keys that the console released.
  unfoldable pub release_console_keys : Planner Float → Outcome (Planner Float)
  release_console_keys s = do
    t ←
        lib.list_iterate s.last_unlocked_by_console_keys (ok s)
          (λ m key. m >>= update_blocked_esi_queue lib setup key unlock_esi_by_console_flag false)
    ok (record t { last_unlocked_by_console_keys = [] })

  -- The executing ESI finished its script.
  unfoldable pub finish_esi : ℤ → Planner Float → Outcome (Planner Float)
  unfolding obtain_esi_information_by_id move_esi_from_and_to_queue
  finish_esi fd s = do
    esi_inf ← deref (obtain_esi_information_by_id lib fd s)
    t ← release_resources lib setup s.executing_esi update_blocked_esi_queue_flag s
    let u = record t {
      key_to_unlock = if s.update_blocked_esi_queue_flag then none else t.key_to_unlock;
    }
    ok (record (move_esi_from_and_to_queue lib execution finished u.executing_esi u) {
      executing_esi = minus_one;
    })

  -- A preemptive algorithm puts the executing ESI back in the ready queue.
  unfoldable pub preempt : Planner Float → Outcome (Planner Float)
  unfolding algorithm_is_preemptive move_esi_from_and_to_queue
  preempt s =
      when (algorithm_is_preemptive setup && not s.finished_esi_flag && s.reschedule_flag)
        (λ t. ok (move_esi_from_and_to_queue lib execution ready t.executing_esi t)) s

  -- The executing ESI goes on: what waits for the end of a statement is done.
  unfoldable pub continue_esi : Planner Float → Outcome (Planner Float)
  unfolding release_stored_key release_console_keys update_new_esi_queue preempt
      block_by_console_procedure
  continue_esi s =
      when (s.update_blocked_esi_queue_flag || s.new_esi_flag || s.unlock_esi_by_console_flag)
        (λ a. do
          b ← when a.update_blocked_esi_queue_flag release_stored_key a
          c ← when b.unlock_esi_by_console_flag release_console_keys b
          d ← when c.new_esi_flag (λ x. ok (update_new_esi_queue x)) c
          e ← when d.block_esi_by_console_flag (block_by_console_procedure lib) d
          preempt e)
        s

  -- `while(scheduler_paused_flag == 1) {sleep(1);}`: the commands that the console takes meanwhile.
  unfoldable pub wait_while_paused : List Command → Planner Float → Outcome (Planner Float)
  wait_while_paused [] s = if s.scheduler_paused_flag then hang else ok s
  wait_while_paused (command ∷ rest) s =
      let more = execute_console_command lib command s >>= wait_while_paused rest in
      if s.scheduler_paused_flag then more else ok s

  -- What executes next: another ESI, or the same.
  unfoldable pub next_execution : Planner Float → Outcome (Planner Float)
  unfolding update_waiting_time_of_ready_esis
  next_execution s =
      let t = update_waiting_time_of_ready_esis lib s in
      if t.reschedule_flag && not (is_empty t.ready_queue)
      then reschedule fl lib setup t
      else elim t.execution_queue [ [] ↦ ok t | fd ∷ _ ↦ authorize_esi_execution fl lib setup fd t ]

  -- The branch `fd == executing_esi` of the main loop.
  unfoldable pub attend_esi :
      ℤ → Received → Received → List Command → Planner Float → Outcome (Planner Float)
  unfolding receive_execution_result attend_code burn_esi_corpses finish_esi continue_esi
      wait_while_paused next_execution
  attend_esi fd first second commands s = do
    (code, a) ← receive_execution_result fl lib setup fd first s
    b ← attend_code fl lib setup fd code second a
    c ← when b.killed_esi_flag (burn_esi_corpses lib setup b.executing_esi) b
    d ← if c.finished_esi_flag then finish_esi fd c else continue_esi c
    e ← wait_while_paused commands (record d { finished_esi_flag = false })
    next_execution e

  -- The end of a round of the main loop, where nobody executes.
  unfoldable pub idle_round : Planner Float → Outcome (Planner Float)
  unfolding burn_esi_corpses release_stored_key release_console_keys update_new_esi_queue
      block_by_console_procedure reschedule
  idle_round s =
      when (is_empty s.execution_queue && not s.scheduler_paused_flag)
        (λ a. do
          b ← when a.killed_esi_flag (burn_esi_corpses lib setup a.executing_esi) a
          c ← when b.update_blocked_esi_queue_flag release_stored_key b
          d ← when c.unlock_esi_by_console_flag release_console_keys c
          e ←
              when (d.new_esi_flag && not (is_empty d.new_queue)) (λ x. ok (update_new_esi_queue x))
                d
          f ← when e.block_esi_by_console_flag (block_by_console_procedure lib) e
          when (not (is_empty f.ready_queue)) (reschedule fl lib setup) f)
        s

  unfoldable pub step : Event → Planner Float → Outcome (Planner Float)
  unfolding accept_esi attend_coordinator attend_esi idle_round
  step (esi_connects fd handshake) s = ok (accept_esi fl lib setup fd handshake s)
  step (coordinator_asks fd operation) s = attend_coordinator fl lib setup fd operation s
  step (esi_answers first second commands) s = attend_esi s.executing_esi first second commands s
  step round_ends s = idle_round s
  step (console_reads command) s = execute_console_command lib command s
