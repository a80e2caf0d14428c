-- ===== src/Planner/Death.antt =====
-- planificador/planificador.c: what happens to an ESI that finishes, fails or is killed.
use tp_so_1c.Prelude.{ℤ, same_int, List, [], ◌∷◌, none, some, true, false, ◌&&◌, if◌then◌else◌}
use tp_so_1c.Outcome.{Outcome, ok, ◌>>=◌, deref}
use tp_so_1c.Commons.{ListLib}
use tp_so_1c.Planner.State.{
  Planner, KeyBlocker, Setup, QueueName, queue, new, ready, execution, blocked, finished,
}
use tp_so_1c.Planner.Queues.{move_esi_from_and_to_queue, obtain_esi_information_by_id, remove_fd}
use tp_so_1c.Planner.Keys.{FlagName, update_blocked_esi_queue_flag, update_blocked_esi_queue}

module _ (lib : ListLib) {F : Type 0} where
  -- The lists that `release_resources` clears of the ESI, each of its first entry.
  unfoldable pub forget_esi : ℤ → Planner F → Planner F
  unfolding remove_fd
  forget_esi esi_fd s =
      let t = remove_fd esi_fd (record s {
        esis_sexpecting_keys =
            lib.list_remove_by_condition s.esis_sexpecting_keys (λ e. same_int e.esi_fd esi_fd);
      }) in
      record t {
        locked_keys = lib.list_remove_by_condition t.locked_keys (λ k. same_int k.esi_id esi_fd);
        esi_bursts = lib.list_remove_by_condition t.esi_bursts (λ e. same_int e.esi_id esi_fd);
      }

  -- `bury_esi`, where `list_find` meets the ESI in the queue.
  unfoldable pub bury_esi : QueueName → ℤ → Planner F → Planner F
  unfolding move_esi_from_and_to_queue
  bury_esi q esi_fd s = elim (lib.list_find (queue q s) (λ e. same_int e esi_fd)) [
    | none ↦ s
    | some dead_esi ↦ move_esi_from_and_to_queue lib q finished esi_fd s
  ]

  -- An ESI that has just finished its script is taken off the list of those to kill.
  unfoldable pub spare_finished_esi : ℤ → Planner F → Outcome (Planner F)
  unfolding obtain_esi_information_by_id
  spare_finished_esi executing_esi s =
      if lib.list_any_satisfy s.new_killed_esis (λ e. same_int e executing_esi)
        && s.finished_esi_flag
      then (do
        esi_inf ← deref (obtain_esi_information_by_id lib executing_esi s)
        ok (record s {
          new_killed_esis =
              lib.list_remove_by_condition s.new_killed_esis (λ e. same_int e executing_esi);
        }))
      else ok s

module _ (lib : ListLib) {F : Type 0} (setup : Setup F) where
  -- `for(i = 0; i < keys_unlocked_quantity; i++)` of `release_resources`.
  unfoldable pub release_keys : FlagName → List KeyBlocker → Planner F → Outcome (Planner F)
  release_keys flag [] s = ok s
  release_keys flag (blocked_key ∷ rest) s =
      update_blocked_esi_queue lib setup blocked_key.key flag true s >>= release_keys flag rest

  unfoldable pub release_resources : ℤ → FlagName → Planner F → Outcome (Planner F)
  unfolding obtain_esi_information_by_id
  release_resources esi_fd flag s = do
    esi_inf ← deref (obtain_esi_information_by_id lib esi_fd s)
    let keys_unlocked = lib.list_filter s.locked_keys (λ k. same_int k.esi_id esi_fd)
    t ← release_keys flag keys_unlocked s
    ok (forget_esi lib esi_fd t)

  unfoldable pub sock_my_port : ℤ → Planner F → Outcome (Planner F)
  unfolding obtain_esi_information_by_id
  sock_my_port esi_fd s = do
    esi_inf ← deref (obtain_esi_information_by_id lib esi_fd s)
    let buried =
        bury_esi lib blocked esi_fd
          (bury_esi lib execution esi_fd (bury_esi lib ready esi_fd (bury_esi lib new esi_fd s)))
    t ← release_resources esi_fd update_blocked_esi_queue_flag buried
    ok (remove_fd esi_fd t)

  -- `list_iterate(g_new_killed_esis, apply_sock_my_port)`.
  unfoldable pub sock_all : List ℤ → Planner F → Outcome (Planner F)
  sock_all killed s = lib.list_iterate killed (ok s) (λ t fd. t >>= sock_my_port fd)

  unfoldable pub burn_esi_corpses : ℤ → Planner F → Outcome (Planner F)
  burn_esi_corpses executing_esi s = do
    t ← spare_finished_esi lib executing_esi s
    u ← sock_all t.new_killed_esis t
    ok (record u { new_killed_esis = []; killed_esi_flag = false })
