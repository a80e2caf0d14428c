-- ===== src/Planner/Keys.antt =====
-- planificador/planificador.c: the locked keys, the ESIs that wait for one, and the release of a key.
use tp_so_1c.Prelude.{
  zero, ℤ, minus_one, same_int, same_key, String, List, none, some, Bool, true, false, ◌&&◌,
  if◌then◌else◌,
}
use tp_so_1c.Outcome.{Outcome, ok, crash, ◌>>=◌, deref}
use tp_so_1c.Commons.{ListLib}
use tp_so_1c.Planner.State.{Planner, KeyBlocker, EsiSexpectingKey, Setup, sjfcd, ready, blocked}
use tp_so_1c.Planner.Queues.{
  move_esi_from_and_to_queue, obtain_esi_information_by_id, we_must_reschedule_if,
}

unfoldable pub create_key_blocker : String → ℤ → KeyBlocker
create_key_blocker key esi_id = record { key = key; esi_id = esi_id }

unfoldable pub create_esi_sexpecting_key : ℤ → String → EsiSexpectingKey
create_esi_sexpecting_key esi_fd key = record { esi_fd = esi_fd; key = key }

-- The flag that `update_blocked_esi_queue` is given a pointer to.
pub data FlagName : Type 0 where
  update_blocked_esi_queue_flag unlock_esi_by_console_flag : FlagName

unfoldable pub algorithm_is_preemptive : {F : Type 0} → Setup F → Bool
algorithm_is_preemptive setup = elim setup.scheduling_algorithm [ sjfcd ↦ true | _ ↦ false ]

module _ (lib : ListLib) where
  unfoldable pub determine_if_key_is_blocked : String → List KeyBlocker → Bool
  determine_if_key_is_blocked blocked_key locked_keys =
      lib.list_any_satisfy locked_keys (λ key_blocker. same_key key_blocker.key blocked_key)

  -- The first ESI that waits for the key, or -1.
  unfoldable pub esi_fd_to_unlock : String → List EsiSexpectingKey → ℤ
  esi_fd_to_unlock unlocked_key sexpecting =
      let filtered_list =
        lib.list_filter sexpecting (λ esi_sexpecting. same_key esi_sexpecting.key unlocked_key) in
      let mapped_list = lib.list_map filtered_list (λ esi_sexpecting. esi_sexpecting.esi_fd) in
      elim (lib.list_get mapped_list zero) [ none ↦ minus_one | some fd ↦ fd ]

module _ {F : Type 0} where
  abbrev pub clear_flag : FlagName → Planner F → Planner F
  clear_flag update_blocked_esi_queue_flag s = record s { update_blocked_esi_queue_flag = false }
  clear_flag unlock_esi_by_console_flag s = record s { unlock_esi_by_console_flag = false }

module _ (lib : ListLib) {F : Type 0} where
  -- The closure reads `g_execution_queue->head->data` for the first time at a key that is equal.
  unfoldable pub key_is_blocked_by_executing_esi : String → Planner F → Outcome Bool
  unfolding determine_if_key_is_blocked
  key_is_blocked_by_executing_esi key s = elim (lib.list_get s.execution_queue zero) [
    | none ↦ if determine_if_key_is_blocked lib key s.locked_keys then crash else ok false
    | some executing ↦ ok (
        lib.list_any_satisfy s.locked_keys
          (λ key_blocker. same_key key_blocker.key key && same_int key_blocker.esi_id executing))
  ]

  unfoldable pub add_new_key_blocker : String → Planner F → Outcome (Planner F)
  unfolding create_key_blocker
  add_new_key_blocker blocked_key s = do
    executing ← deref (lib.list_get s.execution_queue zero)
    ok (record s {
      locked_keys = lib.list_add s.locked_keys (create_key_blocker blocked_key executing);
    })

  unfoldable pub add_esi_sexpecting_key : ℤ → String → Planner F → Planner F
  unfolding create_esi_sexpecting_key
  add_esi_sexpecting_key fd key s = record s {
    esis_sexpecting_keys = lib.list_add s.esis_sexpecting_keys (create_esi_sexpecting_key fd key);
  }

  unfoldable pub remove_blocked_key_from_list : String → Planner F → Planner F
  remove_blocked_key_from_list unlocked_key s = record s {
    locked_keys =
        lib.list_remove_by_condition s.locked_keys
          (λ key_blocker. same_key key_blocker.key unlocked_key);
  }

  unfoldable pub unlock_esi : String → Planner F → ℤ × Planner F
  unlock_esi unlocked_key s =
      let fd = esi_fd_to_unlock lib unlocked_key s.esis_sexpecting_keys in
      (
        fd,
        record s {
          esis_sexpecting_keys =
              lib.list_remove_by_condition s.esis_sexpecting_keys
                (λ esi_sexpecting. same_int esi_sexpecting.esi_fd fd);
        },
      )

  -- The branch of `update_blocked_esi_queue` where an ESI waited for the key.
  unfoldable pub wake_esi : Setup F → ℤ → String → Bool → Planner F → Outcome (Planner F)
  unfolding move_esi_from_and_to_queue obtain_esi_information_by_id algorithm_is_preemptive
      remove_blocked_key_from_list we_must_reschedule_if
  wake_esi setup esi_unlocked key was_a_store s = do
    let t = move_esi_from_and_to_queue lib blocked ready esi_unlocked s
    esi_inf ← deref (obtain_esi_information_by_id lib esi_unlocked t)
    let u = if was_a_store then remove_blocked_key_from_list key t else t
    ok (we_must_reschedule_if (algorithm_is_preemptive setup) u)

  unfoldable pub update_blocked_esi_queue :
      Setup F → String → FlagName → Bool → Planner F → Outcome (Planner F)
  update_blocked_esi_queue setup last_key_inquired flag was_a_store s = do
    let (esi_unlocked, t) = unlock_esi last_key_inquired s
    u ←
        if same_int esi_unlocked minus_one
        then ok (remove_blocked_key_from_list last_key_inquired t)
        else wake_esi setup esi_unlocked last_key_inquired was_a_store t
    ok (clear_flag flag u)
