-- ===== src/Planner/Schedule.antt =====
-- planificador/planificador.c: the choice of the ESI to execute, and its authorisation.
use tp_so_1c.Prelude.{
  ℕ, zero, suc, ◌+◌, ℤ, minus_one, same_int, [], ◌∷◌, none, some, Bool, true, false, ◌&&◌,
  if◌then◌else◌, length, ◌==◌,
}
use tp_so_1c.Outcome.{Outcome, ok, hang, ◌>>=◌, deref}
use tp_so_1c.Commons.{ListLib}
use tp_so_1c.Floats.{FloatLib}
use tp_so_1c.Planner.State.{
  Planner, EsiInformation, Setup, fifo, sjfcd, sjfsd, hrrn, ready, execution, exec,
}
use tp_so_1c.Planner.Queues.{
  move_esi_from_and_to_queue, obtain_esi_information_by_id, update_executing_esi,
  set_waiting_time_to_zero,
}
use tp_so_1c.Planner.Death.{sock_my_port}

module _ (fl : FloatLib) where
  open fl use {Float, of_int, add, sub, mul, div, le, same}

  unfoldable pub next_estimated_burst_sjf : Float → ℕ → Float → Float
  next_estimated_burst_sjf alpha last_real_burst last_estimated_burst =
      add (mul alpha (of_int last_real_burst)) (mul (sub (of_int 1) alpha) last_estimated_burst)

  unfoldable pub next_estimated_burst_hrrn : ℕ → Float → Float
  next_estimated_burst_hrrn waited_time next_service_time =
      add (of_int 1) (div (of_int waited_time) next_service_time)

  -- What is left of the estimated burst.
  unfoldable pub estimation : EsiInformation Float → Float
  estimation e =
      if e.last_real_burst == 0
      then e.last_estimated_burst
      else sub e.last_estimated_burst (of_int e.last_real_burst)

  unfoldable pub response_ratio : EsiInformation Float → Float
  unfolding next_estimated_burst_hrrn
  response_ratio e = next_estimated_burst_hrrn e.waited_bursts e.last_estimated_burst

  -- The comparators of `list_sort`, on the information of the two ESIs.
  unfoldable pub sjf_before : ℤ → ℤ → EsiInformation Float → EsiInformation Float → Bool
  sjf_before executing_esi esi_fd2 esi1 esi2 =
      if same (estimation esi1) (estimation esi2) && same_int esi_fd2 executing_esi
      then false
      else le (estimation esi1) (estimation esi2)

  unfoldable pub hrrn_before : EsiInformation Float → EsiInformation Float → Bool
  hrrn_before esi1 esi2 = le (response_ratio esi2) (response_ratio esi1)

  module _ (lib : ListLib) where
    -- A comparator looks both ESIs up. Where one is unknown its reading crashes, and so does, over
    -- the same queue, the log of the estimations, which `known_all` below stands for.
    unfoldable pub compare_esis :
        (ℤ → EsiInformation Float → EsiInformation Float → Bool) → Planner Float → ℤ → ℤ → Bool
    unfolding obtain_esi_information_by_id
    compare_esis before s esi_fd1 esi_fd2 = elim (obtain_esi_information_by_id lib esi_fd1 s) [
      | none ↦ false
      | some esi1 ↦ elim (obtain_esi_information_by_id lib esi_fd2 s) [
        | none ↦ false
        | some esi2 ↦ before esi_fd2 esi1 esi2
      ]
    ]

    unfoldable pub sort_ready :
        (ℤ → EsiInformation Float → EsiInformation Float → Bool) → Planner Float → Planner Float
    sort_ready before s = record s {
      ready_queue = lib.list_sort s.ready_queue (compare_esis before s);
    }

    -- `list_iterate(g_ready_queue, show_esi_estimations)` reads what is known of each ready ESI.
    unfoldable pub known_all : Planner Float → Outcome (Planner Float)
    unfolding obtain_esi_information_by_id
    known_all s =
        lib.list_iterate s.ready_queue (ok s)
          (λ t fd. do u ← t; esi_inf ← deref (obtain_esi_information_by_id lib fd s); ok u)

    module _ (setup : Setup Float) where
      -- The queue in the order of the algorithm.
      unfoldable pub arrange_ready : Planner Float → Outcome (Planner Float)
      arrange_ready s = elim setup.scheduling_algorithm [
        | fifo ↦ ok s
        | hrrn ↦ known_all (sort_ready (λ _. hrrn_before) s)
        | sjfcd ↦ known_all (sort_ready (sjf_before s.executing_esi) s)
        | sjfsd ↦ known_all (sort_ready (sjf_before s.executing_esi) s)
      ]

      unfoldable pub schedule_esis : Planner Float → Outcome (ℤ × Planner Float)
      schedule_esis s = do
        t ← arrange_ready s
        esi_fd ← deref (lib.list_get t.ready_queue zero)
        esi_inf ← deref (obtain_esi_information_by_id lib esi_fd t)
        ok (esi_fd, t)

      -- `send` of PROTOCOL_PE_EXEC: its results stand in `send_results`, oldest first, and the
      -- calls past the end of that list succeed.
      unfoldable pub send_exec : ℤ → Planner Float → Bool × Planner Float
      send_exec esi_fd s = elim s.send_results [
        | [] ↦ (true, record s { sent = exec esi_fd ∷ s.sent })
        | true ∷ rest ↦ (true, record s { sent = exec esi_fd ∷ s.sent; send_results = rest })
        | false ∷ rest ↦ (false, record s { send_results = rest })
      ]

      -- `reschedule` is what the failed authorisation calls again.
      unfoldable pub authorize_with :
          (Planner Float → Outcome (Planner Float)) → ℤ → Planner Float → Outcome (Planner Float)
      unfolding send_exec update_executing_esi obtain_esi_information_by_id
      authorize_with reschedule esi_fd s =
          let (success, t) = send_exec esi_fd s in
          if success
          then (do
            u ← update_executing_esi lib esi_fd t
            esi_inf ← deref (obtain_esi_information_by_id lib esi_fd u)
            ok u)
          else (do
            u ← sock_my_port lib setup esi_fd t
            reschedule (record u { executing_esi = minus_one }))

      -- Each failed authorisation takes an ESI out of the ready queue, and puts another one in only by
      -- taking it out of the list of those that wait: both lengths bound the depth of the recursion.
      unfoldable pub reschedule_fuel : ℕ → Planner Float → Outcome (Planner Float)
      unfolding schedule_esis set_waiting_time_to_zero move_esi_from_and_to_queue
      reschedule_fuel zero s = hang
      reschedule_fuel (suc n) s = do
        (esi_fd_to_execute, t) ← schedule_esis s
        let u = move_esi_from_and_to_queue lib ready execution esi_fd_to_execute t
        v ← set_waiting_time_to_zero lib esi_fd_to_execute u
        w ← authorize_with (λ x. reschedule_fuel n x) esi_fd_to_execute v
        ok (record w { executing_esi = esi_fd_to_execute; reschedule_flag = false })

      unfoldable pub reschedule : Planner Float → Outcome (Planner Float)
      reschedule s = reschedule_fuel (suc (length s.ready_queue + length s.esis_sexpecting_keys)) s

      unfoldable pub authorize_esi_execution : ℤ → Planner Float → Outcome (Planner Float)
      authorize_esi_execution esi_fd s = authorize_with reschedule esi_fd s
