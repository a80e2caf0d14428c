-- ===== src/Esi/Script.antt =====
-- esi/esi.c: the loop over the lines of the script.
use tp_so_1c.Prelude.{List, [], ◌∷◌, ◌++◌, Option, none, some, Bool, true, false, if◌then◌else◌}
use tp_so_1c.Esi.Operation.{Operation}

-- What the coordinator answers: `other` is a number that the switch has no case for, and `lost` that
-- the answer does not arrive.
pub data Answer : Type 0 where
  everything_ok : Answer
  you_are_blocked : Answer
  illegal_operation : Answer
  other : Answer
  lost : Answer

-- What a turn of the loop meets: whether the planner's order is an EXEC that arrives, the answer, and
-- whether the planner can be sent the result, and whether the code that follows a success, whose `send`
-- is not checked.
pub record Turn : Type 0 where
  pub ordered : Bool
  pub answer : Answer
  pub sent : Bool
  pub end_sent : Bool

pub data Result : Type 0 where
  execution_success : Result
  i_am_blocked : Result
  finished_script : Result
  didnt_finish_script : Result

pub data Action : Type 0 where
  to_coordinator : Operation → Action
  to_scheduler : Result → Action

-- `undefined` is the sending of a result that was never set, and `waiting` for an order that does not
-- come.
pub data Ending : Type 0 where
  exit_success : Ending
  exit_failure : Ending
  undefined : Ending
  waiting : Ending

abbrev pub Run : Type 0
Run = List Action × Ending

abbrev pub after : List Action → Run → Run
after actions (later, ending) = (actions ++ later, ending)

unfoldable pub script_end : List (Option Operation) → Result
script_end [] = finished_script
script_end (line ∷ lines) = didnt_finish_script

-- What arrives of the code that tells whether the script has ended.
unfoldable pub tell_end : Bool → Result → List Action
tell_end true end = to_scheduler end ∷ []
tell_end false end = []

-- An operation's answer, whether the result can be sent, whether the code of the end can, and what the
-- loop does if the line is done and if it is not.
unfoldable pub execute : Operation → Answer → Bool → Bool → Result → Run → Run → Run
unfolding tell_end
execute o everything_ok true end_sent end next again =
    after (to_coordinator o ∷ to_scheduler execution_success ∷ tell_end end_sent end) next
execute o you_are_blocked true end_sent end next again =
    after (to_coordinator o ∷ to_scheduler i_am_blocked ∷ []) again
execute o other sent end_sent end next again = (to_coordinator o ∷ [], undefined)
execute o _ _ end_sent end next again = (to_coordinator o ∷ [], exit_failure)

-- A line is what `parse` makes of it: none if it is not valid.
unfoldable pub execute_line : Option Operation → Turn → Result → Run → Run → Run
unfolding execute
execute_line none turn end next again = ([], exit_failure)
execute_line (some o) turn end next again =
    if turn.ordered
    then execute o turn.answer turn.sent turn.end_sent end next again
    else ([], exit_failure)

unfoldable pub run_script : List (Option Operation) → List Turn → Run
unfolding execute_line script_end
run_script [] turns = ([], exit_success)
run_script (line ∷ lines) [] = ([], waiting)
run_script (line ∷ lines) (turn ∷ turns) =
    execute_line line turn (script_end lines) (run_script lines turns)
      (run_script (line ∷ lines) turns)
