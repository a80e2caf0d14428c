-- ===== src/Planner/Preemption.antt =====
-- planificador/planificador.c: the preemption at the end of a statement, after the executing ESI has
-- been blocked.
use tp_so_1c.Prelude.{◌<◌, ◌≡◌, ℤ, same_int_iff, hits-add, arith, ◌++◌, true, false}
use tp_so_1c.Commons.{ListLib, Documented, Documented-eq, Sort, sequences}
use tp_so_1c.Floats.{FloatLib}
use tp_so_1c.Planner.State.{Planner, Setup, sjfcd}
use tp_so_1c.Planner.Queues.{we_must_reschedule_if, we_must_reschedule, move_esi_from_and_to_queue}
use tp_so_1c.Planner.Keys.{algorithm_is_preemptive}
use tp_so_1c.Planner.Round.{continue_esi, update_new_esi_queue, preempt}
use tp_so_1c.Planner.Inv.{Ends, placed}

-- The ESI stands in the ready and in the blocked queue.
abbrev pub IsQueuedTwice : {F : Type 0} → ℤ → Planner F → Type 0
IsQueuedTwice fd s = (0 < placed fd s.ready_queue) × (0 < placed fd s.blocked_queue)

module _ (sort : Sort) (fl : FloatLib) (setup : Setup fl.Float) where
  continue_esi-blocked_sequences :
      (s : Planner fl.Float)
      → setup.scheduling_algorithm ≡ sjfcd
      → s.new_esi_flag ≡ true
      → s.update_blocked_esi_queue_flag ≡ false
      → s.unlock_esi_by_console_flag ≡ false
      → s.block_esi_by_console_flag ≡ false
      → s.finished_esi_flag ≡ false
      → 0 < placed s.executing_esi s.blocked_queue
      → Ends (IsQueuedTwice s.executing_esi) (continue_esi fl (sequences sort) setup s)
  unfolding continue_esi update_new_esi_queue preempt algorithm_is_preemptive we_must_reschedule_if
      we_must_reschedule move_esi_from_and_to_queue
  continue_esi-blocked_sequences s a n u c b f h =
      rw (n, u, c, b, f, a)
        (
          ground (
            arith,
            hits-add (λ x. x) s.executing_esi (s.ready_queue ++ s.new_queue) s.executing_esi,
            same_int_iff s.executing_esi s.executing_esi,
          ),
          h,
        )

module _ {lib : ListLib} (manual : Documented lib) (fl : FloatLib) (setup : Setup fl.Float) where
  -- Under SJF with preemption, where the executing ESI has just been blocked on a key, a new client
  -- alone is pending, and no ESI finished: the end of the statement puts the blocked ESI in the ready
  -- queue too, so that it stands in two queues.
  pub continue_esi_blocked :
      (s : Planner fl.Float)
      → setup.scheduling_algorithm ≡ sjfcd
      → s.new_esi_flag ≡ true
      → s.update_blocked_esi_queue_flag ≡ false
      → s.unlock_esi_by_console_flag ≡ false
      → s.block_esi_by_console_flag ≡ false
      → s.finished_esi_flag ≡ false
      → 0 < placed s.executing_esi s.blocked_queue
      → Ends (IsQueuedTwice s.executing_esi) (continue_esi fl lib setup s)
  continue_esi_blocked s a n u c b f h =
      rw (Documented-eq manual)
        (continue_esi-blocked_sequences (λ A. lib.list_sort {A = A}) fl setup s a n u c b f h)
