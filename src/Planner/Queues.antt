-- ===== src/Planner/Queues.antt =====
-- planificador/planificador.c: the queues of ESIs, and the list of what is known of each ESI.
use tp_so_1c.Prelude.{
  ℕ, suc, ℤ, minus_one, same_int, List, map, Option, none, some, Bool, true, not, keep,
  update_first, if◌then◌else◌,
}
use tp_so_1c.Outcome.{Outcome, ok, ◌>>=◌, deref}
use tp_so_1c.Commons.{ListLib}
use tp_so_1c.Planner.State.{Planner, EsiInformation, QueueName, queue, set_queue}

unfoldable pub take_esi_away_from_queue : ListLib → List ℤ → ℤ → List ℤ
take_esi_away_from_queue lib q esi_fd =
    lib.list_remove_by_condition q (λ esi_to_delete. same_int esi_to_delete esi_fd)

module _ {F : Type 0} where
  unfoldable pub remove_fd : ℤ → Planner F → Planner F
  remove_fd fd s = record s { connected_fds = keep (λ c. not (same_int c fd)) s.connected_fds }

  unfoldable pub we_must_reschedule : Planner F → Planner F
  we_must_reschedule s = record s { reschedule_flag = true }

  unfoldable pub we_must_reschedule_if : Bool → Planner F → Planner F
  unfolding we_must_reschedule
  we_must_reschedule_if b s = if b then we_must_reschedule s else s

module _ (lib : ListLib) {F : Type 0} where
  unfoldable pub move_esi_from_and_to_queue : QueueName → QueueName → ℤ → Planner F → Planner F
  unfolding take_esi_away_from_queue
  move_esi_from_and_to_queue from to esi_fd s =
      let t = set_queue from (take_esi_away_from_queue lib (queue from s) esi_fd) s in
      set_queue to (lib.list_add (queue to t) esi_fd) t

  unfoldable pub put_new_esi_on_new_queue : ℤ → Planner F → Planner F
  put_new_esi_on_new_queue fd s = record s { new_queue = lib.list_add s.new_queue fd }

  unfoldable pub obtain_esi_information_by_id : ℤ → Planner F → Option (EsiInformation F)
  obtain_esi_information_by_id esi_fd s =
      lib.list_find s.esi_bursts (λ esi_inf. same_int esi_inf.esi_id esi_fd)

  unfoldable pub obtain_esi_fd_by_esi_pid : ℤ → Planner F → ℤ
  obtain_esi_fd_by_esi_pid esi_pid s =
      elim (lib.list_find s.esi_bursts (λ esi_inf. same_int esi_inf.esi_numeric_name esi_pid)) [
        | none ↦ minus_one
        | some esi_inf ↦ esi_inf.esi_id
      ]

  -- A write to the information of an ESI through the pointer of `obtain_esi_information_by_id`.
  unfoldable pub write_esi_information :
      ℤ → (EsiInformation F → EsiInformation F) → Planner F → Outcome (Planner F)
  unfolding obtain_esi_information_by_id
  write_esi_information esi_fd f s = do
    esi_inf ← deref (obtain_esi_information_by_id esi_fd s)
    ok (record s { esi_bursts = update_first (λ e. same_int e.esi_id esi_fd) f s.esi_bursts })

  unfoldable pub update_executing_esi : ℤ → Planner F → Outcome (Planner F)
  unfolding write_esi_information
  update_executing_esi fd s =
      write_esi_information fd (λ e. record e { last_real_burst = suc e.last_real_burst }) s

  unfoldable pub set_waiting_time_to_zero : ℤ → Planner F → Outcome (Planner F)
  unfolding write_esi_information
  set_waiting_time_to_zero fd s = write_esi_information fd (λ e. record e { waited_bursts = 0 }) s

  unfoldable pub update_esi_information_next_estimated_burst :
      (ℕ → F → F) → ℤ → Planner F → Outcome (Planner F)
  unfolding write_esi_information
  update_esi_information_next_estimated_burst next_estimated_burst_sjf fd s =
      write_esi_information fd
        (λ e. record e {
          last_estimated_burst = next_estimated_burst_sjf e.last_real_burst e.last_estimated_burst;
          last_real_burst = 0;
          waited_bursts = 0;
        })
        s

  unfoldable pub esi_information_in_ready : Planner F → EsiInformation F → Bool
  esi_information_in_ready s esi_inf =
      lib.list_any_satisfy s.ready_queue
        (λ esi_id_in_ready. same_int esi_id_in_ready esi_inf.esi_id)

  -- The closure runs on the elements that `list_filter` keeps, which stay in the list too.
  unfoldable pub update_waiting_time_of_ready_esis : Planner F → Planner F
  unfolding esi_information_in_ready
  update_waiting_time_of_ready_esis s = record s {
    esi_bursts =
        map
          (λ e.
            if esi_information_in_ready s e
            then record e { waited_bursts = suc e.waited_bursts }
            else e)
          s.esi_bursts;
  }
