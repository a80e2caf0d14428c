-- ===== src/Planner/Block.antt =====
-- planificador/planificador.c: `block_by_console_procedure`, which carries out the console's orders to
-- block an ESI on a key.
use tp_so_1c.Prelude.{
  zero, ℤ, minus_one, same_int, List, [], none, some, Bool, false, not, if◌then◌else◌,
}
use tp_so_1c.Outcome.{Outcome, ok, ◌>>=◌, deref}
use tp_so_1c.Commons.{ListLib}
use tp_so_1c.Planner.State.{Planner, EsiSexpectingKey, QueueName, ready, execution, blocked}
use tp_so_1c.Planner.Queues.{move_esi_from_and_to_queue, obtain_esi_information_by_id}
use tp_so_1c.Planner.Keys.{create_key_blocker, determine_if_key_is_blocked, add_esi_sexpecting_key}

unfoldable pub is_in_ready : ListLib → List ℤ → EsiSexpectingKey → Bool
is_in_ready lib ready_queue esi_key =
    lib.list_any_satisfy ready_queue (λ esi_in_ready. same_int esi_key.esi_fd esi_in_ready)

module _ (lib : ListLib) {F : Type 0} where
  unfoldable pub lock_key_for : EsiSexpectingKey → ℤ → Planner F → Planner F
  unfolding create_key_blocker
  lock_key_for esi_key owner s = record s {
    locked_keys = lib.list_add s.locked_keys (create_key_blocker esi_key.key owner);
  }

  -- An ESI of the queue waits for the key if it is locked, and takes it if it is free. Either way
  -- the log reads what is known of the ESI.
  unfoldable pub block_or_lock : QueueName → EsiSexpectingKey → Planner F → Outcome (Planner F)
  unfolding determine_if_key_is_blocked add_esi_sexpecting_key move_esi_from_and_to_queue
      lock_key_for obtain_esi_information_by_id
  block_or_lock q esi_key s = do
    let t =
        if determine_if_key_is_blocked lib esi_key.key s.locked_keys
        then move_esi_from_and_to_queue lib q blocked esi_key.esi_fd
            (add_esi_sexpecting_key lib esi_key.esi_fd esi_key.key s)
        else lock_key_for esi_key esi_key.esi_fd s
    esi_inf ← deref (obtain_esi_information_by_id lib esi_key.esi_fd t)
    ok t

  unfoldable pub drop_order : EsiSexpectingKey → Planner F → Planner F
  drop_order esi_key s = record s {
    new_blocked_by_console_esis =
        lib.list_remove_by_condition s.new_blocked_by_console_esis
          (λ e. same_int e.esi_fd esi_key.esi_fd);
  }

  -- An order for the executing ESI: the first one.
  unfoldable pub block_executing : Planner F → Outcome (Planner F)
  unfolding block_or_lock drop_order
  block_executing s = elim (lib.list_get s.execution_queue zero) [
    | none ↦ ok s
    | some executing ↦
        elim (lib.list_find s.new_blocked_by_console_esis (λ e. same_int executing e.esi_fd)) [
          | none ↦ ok s
          | some esi_key ↦ block_or_lock execution esi_key s >>= λ t. ok (drop_order esi_key t)
        ]
  ]

  -- The closure that `list_iterate` runs on the orders for ready ESIs.
  unfoldable pub block_ready : EsiSexpectingKey → Planner F → Outcome (Planner F)
  unfolding block_or_lock drop_order
  block_ready esi_key s = do t ← block_or_lock ready esi_key s; ok (drop_order esi_key t)

  -- The guard before this loop only leaves out an empty list.
  unfoldable pub block_all_ready : Planner F → Outcome (Planner F)
  unfolding block_ready is_in_ready
  block_all_ready s =
      lib.list_iterate
        (lib.list_filter s.new_blocked_by_console_esis (λ e. is_in_ready lib s.ready_queue e))
        (ok s) (λ t esi_key. t >>= block_ready esi_key)

  -- An order that is left: of an ESI that does not exist, the system takes the key if it is free.
  unfoldable pub refuse_order : Planner F → EsiSexpectingKey → Planner F
  unfolding obtain_esi_information_by_id determine_if_key_is_blocked lock_key_for
  refuse_order s esi_key = elim (obtain_esi_information_by_id lib esi_key.esi_fd s) [
    | some esi_inf ↦ s
    | none ↦
        if not (determine_if_key_is_blocked lib esi_key.key s.locked_keys)
        then lock_key_for esi_key minus_one s
        else s
  ]

  unfoldable pub block_by_console_procedure : Planner F → Outcome (Planner F)
  unfolding block_executing block_all_ready refuse_order
  block_by_console_procedure s = do
    t ← block_executing s
    u ← block_all_ready t
    let v = lib.list_iterate u.new_blocked_by_console_esis u refuse_order
    ok (record v { new_blocked_by_console_esis = []; block_esi_by_console_flag = false })
