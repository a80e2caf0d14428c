-- ===== src/Esi/Tests.antt =====
-- esi/esi.c: runs on small inputs.
use tp_so_1c.Prelude.{
  ℕ, ◌≡◌, refl, arith, List, [], ◌∷◌, ◌++◌, length, some, true, false, suc, inl, inr,
}
use tp_so_1c.Outcome.{ok}
use tp_so_1c.Wire.Pipe.{Pipe, pipe, pipe-Connected}
use tp_so_1c.Wire.RoundTrip.{Reads}
use tp_so_1c.Wire.Package.{send_success, send_serialized_package}
use tp_so_1c.Esi.Operation.{Operation, get, set, store, obtain_package, esi_recv_operation}
use tp_so_1c.Esi.Arrival.{operation_arrives}
use tp_so_1c.Esi.Script.{Turn, everything_ok, you_are_blocked, exit_success, run_script}
use tp_so_1c.Esi.Completion.{
  RunsInOrder, lines_of, run_script-RunsInOrder, run_script-tells_the_end, run_script-completes,
  EndCounts, lost_ends,
}

abbrev set_a : Operation
set_a = set (97 ∷ []) (98 ∷ [])

operation_arrives_example :
    (bytes : List ℕ) × (obtain_package set_a ≡ ok (some bytes)
      × ((s : Pipe)
          → (t : Pipe) × send_serialized_package (pipe false) (suc (length bytes)) bytes s
              ≡ ok (send_success, t)
            × t.gone ≡ s.gone ++ bytes)
      × Reads (pipe false) (pipe-Connected false) (esi_recv_operation (pipe false)) bytes set_a)
operation_arrives_example =
    operation_arrives (pipe false) (pipe-Connected false) (λ s. refl) set_a
      (((ground arith, tt), omega arith), ((ground arith, tt), omega arith))

abbrev done : Turn
done = record { ordered = true; answer = everything_ok; sent = true; end_sent = true }

abbrev stopped : Turn
stopped = record { ordered = true; answer = you_are_blocked; sent = true; end_sent = true }

abbrev script : List Operation
script = get (97 ∷ []) ∷ set_a ∷ store (97 ∷ []) ∷ []

abbrev turns : List Turn
turns = done ∷ stopped ∷ stopped ∷ done ∷ done ∷ []

run_script-RunsInOrder_example : RunsInOrder script (run_script (lines_of script) turns)
run_script-RunsInOrder_example = run_script-RunsInOrder script turns

run_script-tells_the_end_example : EndCounts (lost_ends turns) (run_script (lines_of script) turns)
run_script-tells_the_end_example =
    run_script-tells_the_end (some (get (97 ∷ []))) (some set_a ∷ some (store (97 ∷ [])) ∷ []) turns

run_script-completes_example : (run_script (lines_of script) turns).1 ≡ exit_success
run_script-completes_example =
    run_script-completes script turns
      (
        (refl, refl, inl refl),
        (
          (refl, refl, inr refl),
          ((refl, refl, inr refl), ((refl, refl, inl refl), ((refl, refl, inl refl), tt))),
        ),
      )
      (omega arith)
