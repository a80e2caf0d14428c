-- ===== src/Planner/Loop.antt =====
-- planificador/planificador.c: the start, and the main loop, as what it does at one event: a new
-- connection, an operation of the coordinator, an answer of the executing ESI, and the end of a round.
use tp_so_1c.Prelude.{
  suc, ℤ, pos, minus_one, String, [], ◌∷◌, none, some, Bool, true, if◌then◌else◌,
}
use tp_so_1c.Outcome.{Outcome, ok, ◌>>=◌, deref}
use tp_so_1c.Commons.{ListLib}
use tp_so_1c.Floats.{FloatLib}
use tp_so_1c.Planner.State.{
  Planner, EsiInformation, Setup, Message, execution, blocked, init_state, key_is_blocked,
  key_is_not_blocked, key_blocked_by_executing_esi, key_not_blocked_by_executing_esi,
  key_blocked_succesfully, key_unlocked_succesfully,
}
use tp_so_1c.Planner.Queues.{
  move_esi_from_and_to_queue, put_new_esi_on_new_queue, obtain_esi_information_by_id,
  update_esi_information_next_estimated_burst, remove_fd, we_must_reschedule, we_must_reschedule_if,
}
use tp_so_1c.Planner.Keys.{
  create_key_blocker, algorithm_is_preemptive, determine_if_key_is_blocked,
  key_is_blocked_by_executing_esi, add_new_key_blocker, add_esi_sexpecting_key,
}
use tp_so_1c.Planner.Death.{sock_my_port}
use tp_so_1c.Planner.Schedule.{next_estimated_burst_sjf}
use tp_so_1c.Planner.Console.{sem_wait, sem_post}

-- The operations of the coordinator, with the key that follows the code.
pub data CoordinatorOperation : Type 0 where
  is_this_key_blocked : String → CoordinatorOperation
  is_key_blocked_by_executing_esi : CoordinatorOperation
  block_key : CoordinatorOperation
  unlock_key : String → CoordinatorOperation
  key_status_answer : CoordinatorOperation

-- The codes that an ESI answers with.
pub data EsiCode : Type 0 where
  execution_success i_am_blocked i_broke_the_law finished_script didnt_finish_script : EsiCode

-- What `recv` leaves: a code, or a failure over the code that the variable happened to hold.
pub data Received : Type 0 where
  received lost : EsiCode → Received

module _ (fl : FloatLib) (lib : ListLib) (setup : Setup fl.Float) where
  open fl use {Float}

  unfoldable pub create_esi_information : ℤ → ℤ → EsiInformation Float
  create_esi_information esi_id esi_numeric_name = record {
    esi_id = esi_id;
    esi_numeric_name = esi_numeric_name;
    last_estimated_burst = setup.initial_estimation;
    last_real_burst = 0;
    waited_bursts = 0;
  }

  unfoldable pub create_administrative_structures : Planner Float
  unfolding create_key_blocker
  create_administrative_structures = lib.list_iterate setup.blocked_keys init_state (λ s key.
      record s { locked_keys = lib.list_add s.locked_keys (create_key_blocker key minus_one) })

  -- A new client of the listener. `handshake` says whether `receive_handshake` succeeded.
  unfoldable pub accept_esi : ℤ → Bool → Planner Float → Planner Float
  unfolding remove_fd put_new_esi_on_new_queue create_esi_information we_must_reschedule_if
      algorithm_is_preemptive
  accept_esi new_client_fd handshake s =
      let t = record s { connected_fds = new_client_fd ∷ s.connected_fds } in
      let u =
        put_new_esi_on_new_queue lib new_client_fd
          (if handshake then t else remove_fd new_client_fd t) in
      we_must_reschedule_if (algorithm_is_preemptive setup) (record u {
        esi_bursts =
            lib.list_add u.esi_bursts
              (create_esi_information new_client_fd (pos u.next_numeric_name));
        new_esi_flag = true;
        next_numeric_name = suc u.next_numeric_name;
      })

  send_protocol_answer : (ℤ → Message) → ℤ → Planner Float → Planner Float
  send_protocol_answer m fd s = record s { sent = m fd ∷ s.sent }

  -- `coordinator` is the socket of the coordinator.
  unfoldable pub attend_coordinator :
      ℤ → CoordinatorOperation → Planner Float → Outcome (Planner Float)
  unfolding send_protocol_answer determine_if_key_is_blocked key_is_blocked_by_executing_esi
      add_new_key_blocker sem_wait sem_post
  attend_coordinator coordinator (is_this_key_blocked key) s = do
    t ← sem_wait s
    let u = record t { last_key_inquired = some key }
    ok (
        if determine_if_key_is_blocked lib key u.locked_keys
        then send_protocol_answer key_is_blocked coordinator u
        else sem_post (send_protocol_answer key_is_not_blocked coordinator u))
  attend_coordinator coordinator is_key_blocked_by_executing_esi s = do
    key ← deref s.last_key_inquired
    response ← key_is_blocked_by_executing_esi lib key s
    ok (
        sem_post (
          if response
          then record (send_protocol_answer key_blocked_by_executing_esi coordinator s) {
            last_key_inquired = none;
          }
          else send_protocol_answer key_not_blocked_by_executing_esi coordinator s))
  attend_coordinator coordinator block_key s = do
    t ← sem_wait s
    key ← deref t.last_key_inquired
    u ← add_new_key_blocker lib key t
    ok (
        sem_post (record (send_protocol_answer key_blocked_succesfully coordinator u) {
          last_key_inquired = none;
        }))
  attend_coordinator coordinator (unlock_key key) s = do
    t ← sem_wait s
    ok (
        sem_post (
          send_protocol_answer key_unlocked_succesfully coordinator
            (record t { key_to_unlock = some key; update_blocked_esi_queue_flag = true })))
  attend_coordinator coordinator key_status_answer s = do t ← sem_wait s; ok (sem_post t)

  unfoldable pub receive_execution_result :
      ℤ → Received → Planner Float → Outcome (EsiCode × Planner Float)
  unfolding sock_my_port
  receive_execution_result fd (received opcode) s = ok (opcode, s)
  receive_execution_result fd (lost opcode) s = do t ← sock_my_port lib setup fd s; ok (opcode, t)

  unfoldable pub must_reschedule_if_ready : Planner Float → Planner Float
  unfolding we_must_reschedule
  must_reschedule_if_ready s = elim s.ready_queue [ [] ↦ s | _ ↦ we_must_reschedule s ]

  -- The switch on the code: a success is followed by a second code.
  unfoldable pub attend_code : ℤ → EsiCode → Received → Planner Float → Outcome (Planner Float)
  unfolding receive_execution_result must_reschedule_if_ready obtain_esi_information_by_id
      add_esi_sexpecting_key move_esi_from_and_to_queue update_esi_information_next_estimated_burst
      sock_my_port
  attend_code fd execution_success second s = do
    esi_inf ← deref (obtain_esi_information_by_id lib fd s)
    (script_end, t) ← receive_execution_result fd second s
    elim script_end [
      | finished_script ↦ ok (must_reschedule_if_ready (record t { finished_esi_flag = true }))
      | _ ↦ ok t
    ]
  attend_code fd i_am_blocked second s = do
    key ← deref s.last_key_inquired
    let t =
        move_esi_from_and_to_queue lib execution blocked fd (add_esi_sexpecting_key lib fd key s)
    u ←
        update_esi_information_next_estimated_burst lib (next_estimated_burst_sjf fl setup.alpha) fd
          t
    let v = must_reschedule_if_ready u
    esi_inf ← deref (obtain_esi_information_by_id lib fd v)
    ok (record v { last_key_inquired = none })
  attend_code fd i_broke_the_law second s = do
    esi_inf ← deref (obtain_esi_information_by_id lib fd s)
    t ← sock_my_port lib setup fd s
    ok (must_reschedule_if_ready t)
  attend_code fd finished_script second s = ok s
  attend_code fd didnt_finish_script second s = ok s
