-- ===== src/Planner/Deadlock.antt =====
-- planificador/consola.c: the console's search for deadlocks.
use tp_so_1c.Prelude.{
  ℕ, zero, suc, ℤ, pos, minus_one, same_int, same_key, String, List, [], ◌∷◌, map, update_first,
  Bool, false, not, ◌&&◌, Option, none, some, if◌then◌else◌,
}
use tp_so_1c.Outcome.{Outcome, ok, hang, ◌>>=◌, deref}
use tp_so_1c.Commons.{ListLib}
use tp_so_1c.Planner.State.{Planner, KeyBlocker, EsiSexpectingKey, EsiInformation}

pub record EsiInDeadlock : Type 0 where
  pub esi_id : ℤ
  pub esi_state : ℤ

unfoldable pub create_esi_in_deadlock : ℤ → EsiInDeadlock
create_esi_in_deadlock esi_id = record { esi_id = esi_id; esi_state = minus_one }

unfoldable pub esi_not_analized : EsiInDeadlock → Bool
esi_not_analized esi = same_int esi.esi_state minus_one

module _ (lib : ListLib) (locked_keys : List KeyBlocker)
    (esi_requests : List EsiSexpectingKey) where
  unfoldable pub esi_holding_a_key : ℤ → Bool
  esi_holding_a_key esi_id = lib.list_any_satisfy locked_keys (λ k. same_int k.esi_id esi_id)

  unfoldable pub esi_asks_for_a_key : ℤ → Bool
  esi_asks_for_a_key esi_id = lib.list_any_satisfy esi_requests (λ e. same_int e.esi_fd esi_id)

  unfoldable pub obtain_esi_request : ℤ → Option EsiSexpectingKey
  obtain_esi_request esi_id = lib.list_find esi_requests (λ e. same_int e.esi_fd esi_id)

  unfoldable pub obtain_key_owner : String → Outcome ℤ
  obtain_key_owner requested_key = do
    key_locked ← deref (lib.list_find locked_keys (λ k. same_key k.key requested_key))
    ok key_locked.esi_id

  -- The ESI asks for a key of the first one in the cycle.
  unfoldable pub matches_first : ℤ → ℤ → Bool
  unfolding obtain_esi_request
  matches_first first_esi esi_id = elim (obtain_esi_request esi_id) [
    | none ↦ false
    | some e ↦
        lib.list_any_satisfy locked_keys (λ k. same_int k.esi_id first_esi && same_key e.key k.key)
  ]

  -- The owner of the key that an ESI asks for.
  unfoldable pub next_owner : ℤ → Outcome ℤ
  unfolding obtain_esi_request obtain_key_owner
  next_owner esi_id = do
    esi_sexpecting ← deref (obtain_esi_request esi_id)
    obtain_key_owner esi_sexpecting.key

  -- The inner loop, from owner to owner.
  unfoldable pub follow : ℕ → ℤ → ℤ → List ℤ → Outcome (ℤ × List ℤ)
  unfolding esi_asks_for_a_key matches_first next_owner
  follow zero first_esi esi_id cycle = hang
  follow (suc fuel) first_esi esi_id cycle =
      let next = (do
        owner ← next_owner esi_id
        follow fuel first_esi owner (lib.list_add cycle owner)) in
      if esi_asks_for_a_key esi_id && not (matches_first first_esi esi_id)
      then next
      else ok (esi_id, cycle)

  -- From an ESI that asks for a key: the last ESI that was reached, and all of them.
  unfoldable pub current_esi_cycle : ℕ → ℤ → Outcome (ℤ × List ℤ)
  unfolding next_owner follow
  current_esi_cycle fuel esi_id = do
    owner ← next_owner esi_id
    follow fuel esi_id owner (lib.list_add (lib.list_add [] esi_id) owner)

  -- apply_a_zero and apply_deadlock_id, for each ESI of the cycle.
  unfoldable pub apply_state : ℤ → List ℤ → List EsiInDeadlock → Outcome (List EsiInDeadlock)
  apply_state state [] esis = ok esis
  apply_state state (id ∷ cycle) esis = do
    found ← deref (lib.list_find esis (λ e. same_int e.esi_id id))
    apply_state state cycle
        (update_first (λ e. same_int e.esi_id id) (λ e. record e { esi_state = state }) esis)

  -- One turn of the outer loop, for the first ESI that is not analysed.
  unfoldable pub analyze : ℕ → ℤ → ℕ × List EsiInDeadlock → Outcome (ℕ × List EsiInDeadlock)
  unfolding esi_asks_for_a_key current_esi_cycle apply_state esi_not_analized
  analyze fuel esi_id (deadlock_number, esis) =
      if not (esi_asks_for_a_key esi_id)
      then ok (
        deadlock_number,
        update_first esi_not_analized (λ e. record e { esi_state = pos 0 }) esis,
      )
      else (do
        (last, cycle) ← current_esi_cycle fuel esi_id
        if not (esi_asks_for_a_key last)
            then (do marked ← apply_state (pos 0) cycle esis; ok (deadlock_number, marked))
            else (do
              marked ← apply_state (pos (suc deadlock_number)) cycle esis
              ok (suc deadlock_number, marked)))

  unfoldable pub analyze_all : ℕ → ℕ → ℕ × List EsiInDeadlock → Outcome (ℕ × List EsiInDeadlock)
  unfolding analyze esi_not_analized
  analyze_all zero fuel s = hang
  analyze_all (suc turns) fuel s = elim (lib.list_find s.1 esi_not_analized) [
    | none ↦ ok s
    | some esi ↦ analyze fuel esi.esi_id s >>= analyze_all turns fuel
  ]

  unfoldable pub put_a_zero : EsiInDeadlock → EsiInDeadlock
  unfolding esi_holding_a_key
  put_a_zero esi =
      if not (esi_holding_a_key esi.esi_id) then record esi { esi_state = pos 0 } else esi

module _ (lib : ListLib) {F : Type 0} (esis_in_system : List (EsiInformation F)) where
  -- The names of the ESIs of a deadlock, as they are printed.
  unfoldable pub names_in : ℕ → List EsiInDeadlock → Outcome (List ℤ)
  names_in i [] = ok []
  names_in i (esi ∷ esis) = do
    let later = names_in i esis
    if same_int esi.esi_state (pos i)
        then (do
          information ← deref (lib.list_find esis_in_system (λ e. same_int e.esi_id esi.esi_id))
          rest ← later
          ok (information.esi_numeric_name ∷ rest))
        else later

  -- The deadlocks from a number on.
  unfoldable pub show_deadlocks : ℕ → ℕ → List EsiInDeadlock → Outcome (List (List ℤ))
  unfolding names_in
  show_deadlocks i zero esis = ok []
  show_deadlocks i (suc n) esis = do
    names ← names_in i esis
    rest ← show_deadlocks (suc i) n esis
    ok (names ∷ rest)

  -- What is printed. `turns` and `fuel` bound the outer and the inner loop.
  unfoldable pub detect_and_show_all_deadlocks :
      ℕ → ℕ → List KeyBlocker → List EsiSexpectingKey → Outcome (List (List ℤ))
  unfolding create_esi_in_deadlock put_a_zero analyze_all show_deadlocks
  detect_and_show_all_deadlocks turns fuel locked_keys esi_requests = do
    let all_esis =
        lib.list_iterate esis_in_system []
          (λ esis e. lib.list_add esis (create_esi_in_deadlock e.esi_id))
    (deadlock_number, esis) ←
        analyze_all lib locked_keys esi_requests turns fuel
          (0, map (put_a_zero lib locked_keys esi_requests) all_esis)
    show_deadlocks 1 deadlock_number esis

module _ (lib : ListLib) {F : Type 0} where
  -- The command of the console.
  unfoldable pub check_deadlock : ℕ → ℕ → Planner F → Outcome (List (List ℤ))
  unfolding detect_and_show_all_deadlocks
  check_deadlock turns fuel s =
      detect_and_show_all_deadlocks lib s.esi_bursts turns fuel s.locked_keys s.esis_sexpecting_keys
