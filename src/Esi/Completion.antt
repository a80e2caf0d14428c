-- ===== src/Esi/Completion.antt =====
-- esi/esi.c: which operations of a script are carried out, and what the planner is told.
use tp_so_1c.Prelude.{
  ℕ, ◌+◌, ◌≤◌, not, if◌then◌else◌, ◌≡◌, ◌↔◌, refl, ap, arith, List, [], ◌∷◌, ◌++◌, length, map,
  Option, none, some, Bool, true, false, ◌⊎◌, inl, inr, Bool-cases, count_if,
}
use tp_so_1c.Commons.{All}
use tp_so_1c.Esi.Operation.{Operation}
use tp_so_1c.Esi.Script.{
  Answer, everything_ok, you_are_blocked, illegal_operation, other, lost, Turn, Result,
  execution_success, finished_script, Action, to_coordinator, to_scheduler, Ending, exit_success,
  Run, script_end, tell_end, execute, execute_line, run_script,
}

-- The operation of a report of success, and what the rest of the actions give.
abbrev reported : Operation → List Action → List Operation → List Operation
reported o (to_scheduler execution_success ∷ actions) later = o ∷ later
reported o actions later = later

-- The operations that went to the coordinator and were reported to the planner as a success.
abbrev pub acknowledged : List Action → List Operation
acknowledged [] = []
acknowledged (to_scheduler r ∷ actions) = acknowledged actions
acknowledged (to_coordinator o ∷ actions) = reported o actions (acknowledged actions)

abbrev pub lines_of : List Operation → List (Option Operation)
lines_of operations = map some operations

-- What was acknowledged begins the script, and is all of it just where the program succeeds.
abbrev pub RunsInOrder : List Operation → Run → Type 0
RunsInOrder operations (actions, ending) =
    (rest : List Operation) × (acknowledged actions ++ rest ≡ operations
      × ((ending ≡ exit_success) ↔ (rest ≡ [])))

execute-RunsInOrder :
    (o : Operation) (operations : List Operation) (answer : Answer) (sent told : Bool)
    (end : Result) (next again : Run)
    → RunsInOrder operations next
    → RunsInOrder (o ∷ operations) again
    → RunsInOrder (o ∷ operations) (execute o answer sent told end next again)
unfolding execute tell_end
execute-RunsInOrder o operations everything_ok true true end next again (rest, (h, e)) k =
    (rest, (ap (λ l. o ∷ l) h, e))
execute-RunsInOrder o operations everything_ok true false end next again (rest, (h, e)) k =
    (rest, (ap (λ l. o ∷ l) h, e))
execute-RunsInOrder o operations you_are_blocked true told end next again h k = k
execute-RunsInOrder o operations everything_ok false told end next again h k =
    (o ∷ operations, (refl, ground arith))
execute-RunsInOrder o operations you_are_blocked false told end next again h k =
    (o ∷ operations, (refl, ground arith))
execute-RunsInOrder o operations illegal_operation t told end next again h k =
    (o ∷ operations, (refl, ground arith))
execute-RunsInOrder o operations lost t told end next again h k =
    (o ∷ operations, (refl, ground arith))
execute-RunsInOrder o operations other t told end next again h k =
    (o ∷ operations, (refl, ground arith))

-- The operations of a script of valid lines are acknowledged in the order of the script, each once
-- however often it is repeated, whatever the coordinator and the planner answer; and all of them are
-- just where the program ends with success.
pub run_script-RunsInOrder :
    (operations : List Operation) (turns : List Turn)
    → RunsInOrder operations (run_script (lines_of operations) turns)
unfolding run_script execute_line
run_script-RunsInOrder [] turns = ([], (refl, ground arith))
run_script-RunsInOrder (o ∷ operations) [] = (o ∷ operations, (refl, ground arith))
run_script-RunsInOrder (o ∷ operations) (turn ∷ turns) = elim (Bool-cases turn.ordered) [
  | inl e ↦ rw e (
      execute-RunsInOrder o operations turn.answer turn.sent turn.end_sent
        (script_end (lines_of operations)) (run_script (lines_of operations) turns)
        (run_script (lines_of (o ∷ operations)) turns) (run_script-RunsInOrder operations turns)
        (run_script-RunsInOrder (o ∷ operations) turns))
  | inr e ↦ rw e (o ∷ operations, (refl, ground arith))
]

abbrev is_end : Action → Bool
is_end (to_scheduler finished_script) = true
is_end _ = false

-- How often the planner is told of the end of the script.
abbrev pub ends : List Action → ℕ
ends actions = count_if is_end actions

abbrev pub once_if_success : Ending → ℕ
once_if_success exit_success = 1
once_if_success _ = 0

-- How often the code of the end does not arrive.
abbrev pub lost_ends : List Turn → ℕ
lost_ends turns = count_if (λ turn. not turn.end_sent) turns

-- The end is told once at most, and only with success; and so many losses explain that it is not.
abbrev pub EndCounts : ℕ → Run → Type 0
EndCounts losses (actions, ending) =
    (ends actions ≤ once_if_success ending) × (once_if_success ending ≤ ends actions + losses)

abbrev EndOf : List (Option Operation) → ℕ → Run → Type 0
EndOf [] losses r = r ≡ ([], exit_success)
EndOf (line ∷ lines) losses r = EndCounts losses r

execute-EndCounts :
    (o : Operation) (lines : List (Option Operation)) (answer : Answer) (sent told : Bool)
    (losses : ℕ) (next again : Run)
    → EndOf lines losses next
    → EndCounts losses again
    → EndCounts
        ((if not told then 1 else 0) + losses)
        (execute o answer sent told (script_end lines) next again)
unfolding execute script_end tell_end
execute-EndCounts o [] everything_ok true true losses next again h k = rw h (omega arith)
execute-EndCounts o [] everything_ok true false losses next again h k = rw h (omega arith)
execute-EndCounts o (line ∷ lines) everything_ok true true losses next again h k = omega (arith, h)
execute-EndCounts o (line ∷ lines) everything_ok true false losses next again h k = omega (arith, h)
execute-EndCounts o lines you_are_blocked true told losses next again h k = ground (arith, k)
execute-EndCounts o lines everything_ok false told losses next again h k = omega arith
execute-EndCounts o lines you_are_blocked false told losses next again h k = omega arith
execute-EndCounts o lines illegal_operation sent told losses next again h k = omega arith
execute-EndCounts o lines lost sent told losses next again h k = omega arith
execute-EndCounts o lines other sent told losses next again h k = omega arith

run_script-EndOf :
    (lines : List (Option Operation)) (turns : List Turn)
    → EndOf lines (lost_ends turns) (run_script lines turns)
unfolding run_script execute_line
run_script-EndOf [] turns = refl
run_script-EndOf (line ∷ lines) [] = omega arith
run_script-EndOf (none ∷ lines) (turn ∷ turns) = omega arith
run_script-EndOf (some o ∷ lines) (turn ∷ turns) = elim (Bool-cases turn.ordered) [
  | inl e ↦ rw e (
      execute-EndCounts o lines turn.answer turn.sent turn.end_sent (lost_ends turns)
        (run_script lines turns) (run_script (some o ∷ lines) turns) (run_script-EndOf lines turns)
        (run_script-EndOf (some o ∷ lines) turns))
  | inr e ↦ rw e (omega arith)
]

-- The planner is told that a script with some line has finished once at most, never where the program
-- does not end with success, and where it does as long as no `send` of the code of the end fails,
-- whatever the lines are and the others answer.
pub run_script-tells_the_end :
    (line : Option Operation) (lines : List (Option Operation)) (turns : List Turn)
    → EndCounts (lost_ends turns) (run_script (line ∷ lines) turns)
run_script-tells_the_end line lines turns = run_script-EndOf (line ∷ lines) turns

abbrev is_ok : Answer → Bool
is_ok everything_ok = true
is_ok _ = false

abbrev is_blocked : Answer → Bool
is_blocked you_are_blocked = true
is_blocked _ = false

-- The order comes, the answer is a success or a block, and the planner is told.
abbrev pub Goes : Turn → Type 0
Goes turn =
    turn.ordered ≡ true
    × turn.sent ≡ true
    × ((is_ok turn.answer ≡ true) ⊎ (is_blocked turn.answer ≡ true))

abbrev pub oks : List Turn → ℕ
oks turns = count_if (λ turn. is_ok turn.answer) turns

execute-completes :
    (o : Operation) (answer : Answer) (told : Bool) (end : Result) (next again : Run)
    → (is_ok answer ≡ true) ⊎ (is_blocked answer ≡ true)
    → (is_ok answer ≡ true → next.1 ≡ exit_success)
    → (is_ok answer ≡ false → again.1 ≡ exit_success)
    → (execute o answer true told end next again).1 ≡ exit_success
unfolding execute
execute-completes o everything_ok told end next again c h k = h refl
execute-completes o you_are_blocked told end next again c h k = k refl
execute-completes o illegal_operation told end next again c h k = ground arith
execute-completes o lost told end next again c h k = ground arith
execute-completes o other told end next again c h k = ground arith

-- A script of valid lines ends with success once the coordinator has answered as many successes as it
-- has lines, however many blocks come between, if the orders come and the planner can be told.
pub run_script-completes :
    (operations : List Operation) (turns : List Turn)
    → All Goes turns
    → length operations ≤ oks turns
    → (run_script (lines_of operations) turns).1 ≡ exit_success
unfolding run_script execute_line
run_script-completes [] turns h k = refl
run_script-completes (o ∷ operations) [] h k = elim k [ ]
run_script-completes (o ∷ operations) (turn ∷ turns) ((d, s, c), h) k =
    rw (d, s)
      (execute-completes o turn.answer turn.end_sent (script_end (lines_of operations))
        (run_script (lines_of operations) turns) (run_script (lines_of (o ∷ operations)) turns) c
        (λ e. run_script-completes operations turns h (ground (arith, e, k)))
        (λ e. run_script-completes (o ∷ operations) turns h (ground (arith, e, k))))
