-- ===== src/Planner/Tests.antt =====
-- A small scheduler on which the theorems about planificador/planificador.c are used.
use tp_so_1c.Prelude.{
  ℕ, ◌+◌, ◌-◌, ◌*◌, ◌/◌, ◌<◌, ◌≡◌, ◌≢◌, refl, ℤ, pos, minus_one, String, eq_iff, ◌≤◌, same_int,
  same_int_iff, hits-find, arith, leb, ◌==◌, [], ◌∷◌, some, true, false, inl, inr, ◌⊎◌, List,
  find_first,
}
use tp_so_1c.Outcome.{crash, hang}
use tp_so_1c.Commons.Insertion.{list_lib, list_lib-Documented}
use tp_so_1c.Floats.{FloatLib, IsIeee}
use tp_so_1c.Planner.State.{
  KeyBlocker, EsiSexpectingKey, Planner, Setup, EsiInformation, SchedulingAlgorithm, sjfcd, hrrn,
  init_state,
}
use tp_so_1c.Planner.Keys.{update_blocked_esi_queue, update_blocked_esi_queue_flag}
use tp_so_1c.Planner.Death.{sock_my_port, burn_esi_corpses}
use tp_so_1c.Planner.Schedule.{reschedule, authorize_esi_execution, schedule_esis}
use tp_so_1c.Planner.Loop.{accept_esi, attend_code, i_am_blocked, received, execution_success}
use tp_so_1c.Planner.Round.{continue_esi}
use tp_so_1c.Planner.Inv.{IsWellFormed, IsGone, Ends, placed, no_one}
use tp_so_1c.Planner.Release.{Released}
use tp_so_1c.Planner.DeathInv.{sock_my_port-IsGone}
use tp_so_1c.Planner.Locks.{LosesItsLocks, locks}
use tp_so_1c.Planner.Reports.{Analyzed, analyze_reports}
use tp_so_1c.Planner.Choice.{IsChoice}
use tp_so_1c.Planner.Policies.{schedule_esis-sjf, SmallerEstimation, GreaterRatio}
use tp_so_1c.Planner.Ratio.{schedule_esis-hrrn}
use tp_so_1c.Planner.Kills.{burn_esi_corpses_twice}
use tp_so_1c.Planner.Wakes.{update_blocked_esi_queue-IsWellFormed}
use tp_so_1c.Planner.Arrivals.{accept_esi-IsWellFormed}
use tp_so_1c.Planner.Preemption.{continue_esi_blocked, IsQueuedTwice}
use tp_so_1c.Planner.Deadlock.{
  EsiInDeadlock, analyze, current_esi_cycle, esi_asks_for_a_key, matches_first, next_owner,
}
use tp_so_1c.Planner.Circles.{Trap, current_esi_cycle_hangs}
use tp_so_1c.Planner.Termination.{reschedule_ends}
use tp_so_1c.Planner.Stops.{attend_code-blocked, BlocksOn}

-- Whole numbers in the place of the machine's floats.
abbrev pub whole_numbers : FloatLib
whole_numbers = record {
  Float = ℕ;
  of_int = λ n. n;
  add = λ a b. a + b;
  sub = λ a b. a - b;
  mul = λ a b. a * b;
  div = λ a b. a / b;
  le = leb;
  same = λ a b. a == b;
  IsNumber = λ _. Unit;
}

whole_numbers-IsIeee : IsIeee whole_numbers
whole_numbers-IsIeee = record {
  le_total = λ a b m n. ground arith;
  le_trans = λ a b c m n o p q. ground arith;
  same_iff = λ a b m n. ground arith;
}

abbrev pub setup_of : SchedulingAlgorithm → Setup ℕ
setup_of algorithm = record {
  scheduling_algorithm = algorithm;
  alpha = 1;
  initial_estimation = 5;
  blocked_keys = [];
}

abbrev pub information : ℕ → ℕ → ℕ → EsiInformation ℕ
information fd burst waited = record {
  esi_id = pos fd;
  esi_numeric_name = pos fd;
  last_estimated_burst = burst;
  last_real_burst = 0;
  waited_bursts = waited;
}

-- 4 executes and holds "a", 5 and 6 are ready, and 7 waits for "a".
abbrev pub busy : Planner ℕ
busy = record init_state {
  locked_keys = record { key = "a"; esi_id = pos 4 } ∷ [];
  esis_sexpecting_keys = record { esi_fd = pos 7; key = "a" } ∷ [];
  esi_bursts = information 4 9 0 ∷ information 5 8 1 ∷ information 6 3 2 ∷ information 7 5 0 ∷ [];
  ready_queue = pos 5 ∷ pos 6 ∷ [];
  execution_queue = pos 4 ∷ [];
  blocked_queue = pos 7 ∷ [];
  executing_esi = pos 4;
}

busy-IsWellFormed : IsWellFormed busy
unfolding same_int
busy-IsWellFormed = record {
  one_place = λ g. ground (
    arith,
    same_int_iff (pos 4) g,
    same_int_iff (pos 5) g,
    same_int_iff (pos 6) g,
    same_int_iff (pos 7) g,
  );
  is_known = λ g. omega arith;
  waits_once = λ g. omega arith;
  no_system = refl;
}

sock_my_port-IsGone_example :
    Ends
      (λ t.
        IsWellFormed t × IsGone (pos 4) t × LosesItsLocks (pos 4) busy.locked_keys t.locked_keys)
      (sock_my_port list_lib (setup_of sjfcd) (pos 4) busy)
unfolding same_int
sock_my_port-IsGone_example =
    sock_my_port-IsGone (setup_of sjfcd) (pos 4) busy list_lib-Documented busy-IsWellFormed
      (omega arith) (refl, tt) (inr (omega arith))

busy_known :
    (g : ℤ)
    → 0 < placed g busy.ready_queue
    → (e : EsiInformation ℕ) × (find_first (λ x. same_int x.esi_id g) busy.esi_bursts ≡ some e)
      × Unit {0}
busy_known g m =
    let (e, found) =
      hits-find (λ e. e.esi_id) g busy.esi_bursts
        (omega (arith, m, busy-IsWellFormed.is_known g)) in
    (e, found, tt)

schedule_esis-sjf_example :
    Ends
      (IsChoice whole_numbers (SmallerEstimation whole_numbers) busy)
      (schedule_esis whole_numbers list_lib (setup_of sjfcd) busy)
schedule_esis-sjf_example =
    schedule_esis-sjf list_lib-Documented whole_numbers whole_numbers-IsIeee (setup_of sjfcd) busy
      (inl refl) (omega arith) busy_known

schedule_esis-hrrn_example :
    Ends
      (IsChoice whole_numbers (GreaterRatio whole_numbers) busy)
      (schedule_esis whole_numbers list_lib (setup_of hrrn) busy)
schedule_esis-hrrn_example =
    schedule_esis-hrrn list_lib-Documented whole_numbers whole_numbers-IsIeee (setup_of hrrn) busy
      refl (omega arith) busy_known

update_blocked_esi_queue-IsWellFormed_example :
    Ends (Released no_one no_one busy.esis_sexpecting_keys) (
      update_blocked_esi_queue list_lib
        (setup_of sjfcd)
        "a"
        update_blocked_esi_queue_flag
        true
        busy)
update_blocked_esi_queue-IsWellFormed_example =
    update_blocked_esi_queue-IsWellFormed (setup_of sjfcd) "a" update_blocked_esi_queue_flag true
      busy list_lib-Documented busy-IsWellFormed

accept_esi-IsWellFormed_example :
    IsWellFormed (accept_esi whole_numbers list_lib (setup_of sjfcd) (pos 8) true busy)
unfolding same_int
accept_esi-IsWellFormed_example =
    accept_esi-IsWellFormed list_lib-Documented whole_numbers (setup_of sjfcd) (pos 8) true busy
      busy-IsWellFormed (refl, refl, refl) (λ e. cc)

-- 4 asks for a key.
abbrev asking : Planner ℕ
asking = record busy { last_key_inquired = some "b" }

attend_code-blocked_example : Ends (BlocksOn (pos 4) "b") (
    attend_code whole_numbers list_lib
      (setup_of sjfcd)
      (pos 4)
      i_am_blocked
      (received execution_success)
      asking)
unfolding same_int
attend_code-blocked_example =
    attend_code-blocked list_lib-Documented whole_numbers (setup_of sjfcd) (pos 4) "b"
      (received execution_success) asking busy-IsWellFormed (omega arith) refl

-- 7 has just been blocked, and 8 is new.
abbrev just_blocked : Planner ℕ
just_blocked = record busy {
  new_queue = pos 8 ∷ [];
  execution_queue = [];
  executing_esi = pos 7;
  new_esi_flag = true;
}

continue_esi_blocked_example :
    Ends (IsQueuedTwice (pos 7)) (continue_esi whole_numbers list_lib (setup_of sjfcd) just_blocked)
unfolding same_int
continue_esi_blocked_example =
    continue_esi_blocked list_lib-Documented whole_numbers (setup_of sjfcd) just_blocked refl refl
      refl refl refl refl (omega arith)

-- Two commands to kill 4.
abbrev killed_twice : Planner ℕ
killed_twice = record busy { new_killed_esis = pos 4 ∷ pos 5 ∷ pos 4 ∷ [] }

burn_esi_corpses_twice_example :
    burn_esi_corpses list_lib (setup_of sjfcd) (pos 4) killed_twice ≡ crash
unfolding same_int
burn_esi_corpses_twice_example =
    burn_esi_corpses_twice (setup_of sjfcd) (pos 4) (pos 4) killed_twice list_lib-Documented
      (omega arith) (omega arith) refl

-- No send succeeds.
abbrev cut_off : Planner ℕ
cut_off = record busy { send_results = false ∷ false ∷ false ∷ false ∷ [] }

reschedule_ends_example :
    (reschedule whole_numbers list_lib (setup_of sjfcd) cut_off ≢ hang)
    × (authorize_esi_execution whole_numbers list_lib (setup_of sjfcd) (pos 4) cut_off ≢ hang)
reschedule_ends_example =
    reschedule_ends list_lib-Documented whole_numbers (setup_of sjfcd) (pos 4) cut_off

-- Two ESIs that wait for each other's key.
abbrev locked_in_a_circle : List KeyBlocker
locked_in_a_circle =
    record { key = "a"; esi_id = pos 1 } ∷ record { key = "b"; esi_id = pos 2 } ∷ []

abbrev asked_in_a_circle : List EsiSexpectingKey
asked_in_a_circle = record { esi_fd = pos 1; key = "b" } ∷ record { esi_fd = pos 2; key = "a" } ∷ []

locked_in_a_circle-once : (key : String) → locks key locked_in_a_circle ≤ 1
locked_in_a_circle-once key = ground (arith, eq_iff "a" key, eq_iff "b" key, eq_iff "a" "b")

abbrev unanalysed : List EsiInDeadlock
unanalysed =
    record { esi_id = pos 1; esi_state = minus_one }
    ∷ record { esi_id = pos 2; esi_state = minus_one }
    ∷ []

abbrev in_a_deadlock : List EsiInDeadlock
in_a_deadlock =
    record { esi_id = pos 1; esi_state = pos 1 } ∷ record { esi_id = pos 2; esi_state = pos 1 } ∷ []

analyze_reports_example :
    Analyzed list_lib locked_in_a_circle asked_in_a_circle (pos 1) 0 (1, in_a_deadlock)
unfolding analyze same_int
analyze_reports_example =
    analyze_reports list_lib list_lib-Documented locked_in_a_circle asked_in_a_circle
      locked_in_a_circle-once 1 (pos 1) 0 unanalysed (1, in_a_deadlock) refl

-- The third ESI waits for the circle.
abbrev asked_from_outside : List EsiSexpectingKey
asked_from_outside = record { esi_fd = pos 3; key = "a" } ∷ asked_in_a_circle

abbrev OfTheCircle : ℤ → Type 0
OfTheCircle a = (a ≡ pos 1) ⊎ (a ≡ pos 2)

circle-Trap : Trap list_lib locked_in_a_circle asked_from_outside OfTheCircle (pos 3)
unfolding esi_asks_for_a_key same_int matches_first next_owner
circle-Trap a (inl e) = rw e (refl, refl, pos 2, (refl, inr refl))
circle-Trap a (inr e) = rw e (refl, refl, pos 1, (refl, inl refl))

current_esi_cycle_hangs_example :
    current_esi_cycle list_lib locked_in_a_circle asked_from_outside 9 (pos 3) ≡ hang
unfolding next_owner same_int
current_esi_cycle_hangs_example =
    current_esi_cycle_hangs list_lib list_lib-Documented locked_in_a_circle asked_from_outside
      OfTheCircle (pos 3) (pos 1) circle-Trap refl (inl refl) 9
