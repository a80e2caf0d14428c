-- ===== src/Planner/Termination.antt =====
-- planificador/planificador.c: `reschedule` and `authorize_esi_execution`, which call each other.
use tp_so_1c.Prelude.{
  ℕ, ◌+◌, ◌≤◌, ◌<◌, ◌≡◌, ◌≢◌, refl, zero, suc, ℤ, minus_one, same_int, same_int_iff, arith, some,
  List, [], ◌∷◌, Bool, true, false, fold, length, find_first, get_elem?, Bool-cases, ◌⊎◌, inl, inr,
}
use tp_so_1c.Outcome.{Settles, Settles-bind, Settles-deref, Outcome, ok, crash, hang, ◌>>=◌, deref}
use tp_so_1c.Commons.{ListLib, Documented, Documented-eq, Sort, Sorts, sequences}
use tp_so_1c.Floats.{FloatLib}
use tp_so_1c.Planner.State.{
  Planner, EsiInformation, Setup, SchedulingAlgorithm, fifo, sjfcd, sjfsd, hrrn, ready, execution,
}
use tp_so_1c.Planner.Queues.{
  move_esi_from_and_to_queue, set_waiting_time_to_zero, write_esi_information, update_executing_esi,
  obtain_esi_information_by_id,
}
use tp_so_1c.Planner.Schedule.{
  known_all, sort_ready, compare_esis, arrange_ready, schedule_esis, send_exec, authorize_with,
  reschedule_fuel, reschedule, authorize_esi_execution, hrrn_before, sjf_before,
}
use tp_so_1c.Planner.Inv.{placed}
use tp_so_1c.Planner.Settles.{AtMost, all_of, all_of-remove_first, load, sock_my_port-load}

-- The queue is only rearranged, and nobody stops waiting.
abbrev Same : {F : Type 0} → Planner F → Planner F → Type 0
Same s t =
    (all_of t.ready_queue ≡ all_of s.ready_queue)
    × (all_of t.esis_sexpecting_keys ≡ all_of s.esis_sexpecting_keys)

length-all_of : {A : Type 0} (xs : List A) → length xs ≡ all_of xs
length-all_of [] = refl
length-all_of (x ∷ xs) = omega (arith, length-all_of xs)

placed-head : (xs : List ℤ) (fd : ℤ) → get_elem? xs zero ≡ some fd → 0 < placed fd xs
placed-head [] fd h = cc
placed-head (x ∷ xs) fd h = ground (arith, same_int_iff x fd)

first_result :
    (l : List Bool)
    → (l ≡ [])
      ⊎ ((rest : List Bool) × (l ≡ true ∷ rest))
      ⊎ ((rest : List Bool) × (l ≡ false ∷ rest))
first_result [] = inl refl
first_result (true ∷ rest) = inr (inl (rest, refl))
first_result (false ∷ rest) = inr (inr (rest, refl))

module _ (fl : FloatLib) (sort : Sort) (sorts : Sorts sort) (setup : Setup fl.Float) where
  open fl use {Float}

  fold-Settles :
      (s : Planner Float) (P : Planner Float → Type 0) (xs : List ℤ) (m : Outcome (Planner Float))
      → Settles P m
      → Settles P (
          fold
            (λ t fd. do
              u ← t
              esi_inf ← deref (find_first (λ x. same_int x.esi_id fd) s.esi_bursts)
              ok u)
            m
            xs)
  fold-Settles s P [] m h = h
  fold-Settles s P (x_fd ∷ xs) m h = fold-Settles s P xs _ (
      Settles-bind P P m _ h
        λ u k. Settles-deref P (find_first (λ x. same_int x.esi_id x_fd) s.esi_bursts) _ λ _ _. k)

  known_all-Settles :
      (before : ℤ → EsiInformation Float → EsiInformation Float → Bool) (s : Planner Float)
      → Settles (Same s) (known_all fl (sequences sort) (sort_ready fl (sequences sort) before s))
  unfolding known_all sort_ready
  known_all-Settles before s =
      let le = compare_esis fl (sequences sort) before s in
      let t = record s { ready_queue = sort ℤ s.ready_queue le } in
      fold-Settles t (Same s) (sort ℤ s.ready_queue le) (ok t)
        (sorts.rearranges (λ _. true) s.ready_queue le, refl)

  arrange_ready-Settles :
      (s : Planner Float) → Settles (Same s) (arrange_ready fl (sequences sort) setup s)
  unfolding arrange_ready
  arrange_ready-Settles s = by_algorithm setup.scheduling_algorithm
    where
      by_algorithm :
          (a : SchedulingAlgorithm)
          → Settles (Same s) (elim a [
            | fifo ↦ ok s
            | hrrn ↦
                known_all fl
                  (sequences sort)
                  (sort_ready fl (sequences sort) (λ _. hrrn_before fl) s)
            | sjfcd ↦
                known_all fl
                  (sequences sort)
                  (sort_ready fl (sequences sort) (sjf_before fl s.executing_esi) s)
            | sjfsd ↦
                known_all fl
                  (sequences sort)
                  (sort_ready fl (sequences sort) (sjf_before fl s.executing_esi) s)
          ])
      by_algorithm fifo = (refl, refl)
      by_algorithm hrrn = known_all-Settles (λ _. hrrn_before fl) s
      by_algorithm sjfcd = known_all-Settles (sjf_before fl s.executing_esi) s
      by_algorithm sjfsd = known_all-Settles (sjf_before fl s.executing_esi) s

  schedule_esis-Settles :
      (s : Planner Float)
      → Settles
          (λ r. Same s r.1 × (0 < placed r.0 r.1.ready_queue))
          (schedule_esis fl (sequences sort) setup s)
  unfolding schedule_esis
  schedule_esis-Settles s = Settles-bind (Same s) P _ _ (arrange_ready-Settles s) λ t k.
      Settles-deref P (get_elem? t.ready_queue zero) _ λ fd e.
        Settles-deref P (obtain_esi_information_by_id (sequences sort) fd t) _
          λ _ _. (k, placed-head t.ready_queue fd e)
    where
      P : ℤ × Planner Float → Type 0
      P r = Same s r.1 × (0 < placed r.0 r.1.ready_queue)

  send_exec-load :
      (fd : ℤ) (s : Planner Float) → load (send_exec fl (sequences sort) setup fd s).1 ≡ load s
  unfolding send_exec
  send_exec-load fd s = elim (first_result s.send_results) [
    | inl e ↦ rw (e, send_exec) refl
    | inr (inl (rest, e)) ↦ rw (e, send_exec) refl
    | inr (inr (rest, e)) ↦ rw (e, send_exec) refl
  ]

  authorize_with-Settles :
      (n : ℕ) (again : Planner Float → Outcome (Planner Float)) (fd : ℤ) (s : Planner Float)
      → load s ≤ n
      → ((t : Planner Float) → load t ≤ n → Settles (λ _. Unit {0}) (again t))
      → Settles (λ _. Unit {0}) (authorize_with fl (sequences sort) setup again fd s)
  unfolding authorize_with update_executing_esi write_esi_information
  authorize_with-Settles n again fd s h k =
      elim (Bool-cases (send_exec fl (sequences sort) setup fd s).0) [
        | inl e ↦ rw e (
            Settles-bind (λ _. Unit {0}) (λ _. Unit {0}) _ _
              (Settles-deref (λ _. Unit {0}) (obtain_esi_information_by_id (sequences sort) fd t) _
                λ _ _. tt)
              λ u _.
                Settles-deref (λ _. Unit {0}) (obtain_esi_information_by_id (sequences sort) fd u) _
                  λ _ _. tt)
        | inr e ↦ rw e (
            Settles-bind (AtMost n) (λ _. Unit {0}) _ _
              (sock_my_port-load sort setup fd n t (omega (arith, h, send_exec-load fd s)))
              λ u i. k (record u { executing_esi = minus_one }) i)
      ]
    where
      t : Planner Float
      t = (send_exec fl (sequences sort) setup fd s).1

  reschedule_fuel-Settles :
      (n : ℕ) (s : Planner Float)
      → load s < n
      → Settles (λ _. Unit {0}) (reschedule_fuel fl (sequences sort) setup n s)
  unfolding reschedule_fuel set_waiting_time_to_zero write_esi_information
      move_esi_from_and_to_queue
  reschedule_fuel-Settles zero s h = elim h [ ]
  reschedule_fuel-Settles (suc n) s h =
      Settles-bind (λ r. Same s r.1 × (0 < placed r.0 r.1.ready_queue)) (λ _. Unit {0}) _ _
        (schedule_esis-Settles s)
        λ r k.
          Settles-bind (λ v. load v + 1 ≤ n) (λ _. Unit {0}) _ _
            (Settles-deref {A = EsiInformation Float} {B = Planner Float} (λ v. load v + 1 ≤ n)
              (obtain_esi_information_by_id (sequences sort) r.0
                (move_esi_from_and_to_queue (sequences sort) ready execution r.0 r.1))
              _
              λ _ _. omega (
                arith,
                h,
                k.0.0,
                k.0.1,
                all_of-remove_first (λ e. same_int e r.0) r.1.ready_queue k.1,
              ))
            λ v i.
              Settles-bind (λ _. Unit {0}) (λ _. Unit {0}) _ _
                (authorize_with-Settles (load v)
                  (λ x. reschedule_fuel fl (sequences sort) setup n x) r.0 v (omega arith)
                  λ t j. reschedule_fuel-Settles n t (omega (arith, i, j)))
                λ w _. tt

  reschedule-Settles :
      (s : Planner Float) → Settles (λ _. Unit {0}) (reschedule fl (sequences sort) setup s)
  unfolding reschedule
  reschedule-Settles s =
      reschedule_fuel-Settles _ s
        (omega (arith, length-all_of s.ready_queue, length-all_of s.esis_sexpecting_keys))

  not_hang : (m : Outcome (Planner Float)) → Settles (λ _. Unit {0}) m → m ≢ hang
  not_hang (ok a) h e = cc
  not_hang crash h e = cc
  not_hang hang h e = h

  authorize_esi_execution-Settles :
      (fd : ℤ) (s : Planner Float)
      → Settles (λ _. Unit {0}) (authorize_esi_execution fl (sequences sort) setup fd s)
  unfolding authorize_esi_execution
  authorize_esi_execution-Settles fd s =
      authorize_with-Settles (load s) (reschedule fl (sequences sort) setup) fd s (omega arith)
        λ t _. reschedule-Settles t

module _ {lib : ListLib} (manual : Documented lib) (fl : FloatLib) (setup : Setup fl.Float) where
  -- Whatever the state, and whichever sends fail, `reschedule` and `authorize_esi_execution` do not run
  -- out of fuel: the failed authorisations come to an end.
  pub reschedule_ends :
      (fd : ℤ) (s : Planner fl.Float)
      → (reschedule fl lib setup s ≢ hang) × (authorize_esi_execution fl lib setup fd s ≢ hang)
  reschedule_ends fd s =
      let sort : Sort = λ A. lib.list_sort {A = A} in
      rw (Documented-eq manual) (
        not_hang fl sort manual.sorts setup _ (reschedule-Settles fl sort manual.sorts setup s),
        not_hang fl sort manual.sorts setup _
            (authorize_esi_execution-Settles fl sort manual.sorts setup fd s),
      )
