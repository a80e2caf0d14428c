-- ===== src/System/Locking.antt =====
-- coordinador/connection/esi-connection.c and planificador/planificador.c: the locks of the keys, as an
-- ESI's operation finds and leaves them.
use tp_so_1c.Prelude.{
  ℕ, suc, ◌≡◌, refl, ap, ◌∙◌, inl, inr, ℤ, same_int, same_key, String, List, ◌∷◌, none, some, Bool,
  true, false, ◌&&◌, Bool-cases, any, get_elem?, if◌then◌else◌,
}
use tp_so_1c.Outcome.{ok}
use tp_so_1c.Commons.{ListLib, Documented}
use tp_so_1c.Floats.{FloatLib}
use tp_so_1c.Planner.State.{
  Planner, KeyBlocker, Setup, key_is_blocked, key_is_not_blocked, key_blocked_by_executing_esi,
  key_not_blocked_by_executing_esi, key_blocked_succesfully,
}
use tp_so_1c.Planner.Keys.{
  create_key_blocker, determine_if_key_is_blocked, key_is_blocked_by_executing_esi,
  add_new_key_blocker,
}
use tp_so_1c.Planner.Console.{sem_wait, sem_post}
use tp_so_1c.Planner.Loop.{is_this_key_blocked, is_key_blocked_by_executing_esi, attend_coordinator}
use tp_so_1c.Coordinator.EsiConnection.{
  key_unblocked, key_blocked, key_blocked_by_executing_esi as locked_by_executing,
}
use tp_so_1c.Coordinator.SchedulerConnection.{
  is_blocked_answer, scheduler_recv_key_state, scheduler_block_key,
}
use tp_so_1c.System.Dialogue.{planner}

-- Whether a key is locked, and whether by an ESI.
abbrev pub has_lock : String → List KeyBlocker → Bool
has_lock key locked = any (λ k. same_key k.key key) locked

abbrev pub has_lock_of : ℤ → String → List KeyBlocker → Bool
has_lock_of esi key locked = any (λ k. same_key k.key key && same_int k.esi_id esi) locked

module _ (fl : FloatLib) (lib : ListLib) (manual : Documented lib) (setup : Setup fl.Float)
    (coordinator_fd : ℤ) (s : Planner fl.Float) (esi : ℤ) (n : ℕ)
    (executes : get_elem? s.execution_queue 0 ≡ some esi)
    (mutex : s.mutex_coordinador ≡ suc n) where
  determine-has_lock :
      (key : String) (locked : List KeyBlocker)
      → determine_if_key_is_blocked lib key locked ≡ has_lock key locked
  unfolding determine_if_key_is_blocked
  determine-has_lock key locked = manual.tests_any locked (λ k. same_key k.key key)

  waits : sem_wait s ≡ ok (record s { mutex_coordinador = n })
  unfolding sem_wait
  waits = rw (mutex, sem_wait) refl

  -- The scheduler after the first answer, where the key is locked, and where it is not.
  abbrev inquired : String → Planner fl.Float
  inquired key = record s {
    mutex_coordinador = n;
    last_key_inquired = some key;
    sent = key_is_blocked coordinator_fd ∷ s.sent;
  }

  abbrev pub found_free : String → Planner fl.Float
  found_free key = record s {
    mutex_coordinador = suc n;
    last_key_inquired = some key;
    sent = key_is_not_blocked coordinator_fd ∷ s.sent;
  }

  answers_first :
      (key : String)
      → attend_coordinator fl lib setup coordinator_fd (is_this_key_blocked key) s
        ≡ ok (if has_lock key s.locked_keys then inquired key else found_free key)
  unfolding attend_coordinator sem_post
  answers_first key = rw waits (rw (determine-has_lock key s.locked_keys) refl)

  abbrev pub found_locked : String → Planner fl.Float
  found_locked key = record (inquired key) {
    mutex_coordinador = suc n;
    last_key_inquired = if has_lock_of esi key s.locked_keys then none else some key;
    sent =
        (if has_lock_of esi key s.locked_keys
          then key_blocked_by_executing_esi coordinator_fd
          else key_not_blocked_by_executing_esi coordinator_fd)
        ∷ key_is_blocked coordinator_fd
        ∷ s.sent;
  }

  responds :
      (key : String)
      → key_is_blocked_by_executing_esi lib key (inquired key)
        ≡ ok (has_lock_of esi key s.locked_keys)
  unfolding key_is_blocked_by_executing_esi
  responds key =
      rw (manual.gets s.execution_queue 0 ∙ executes, key_is_blocked_by_executing_esi)
        (ap ok (manual.tests_any s.locked_keys (λ k. same_key k.key key && same_int k.esi_id esi)))

  answers_second :
      (key : String)
      → attend_coordinator fl lib setup coordinator_fd is_key_blocked_by_executing_esi
          (inquired key)
        ≡ ok (found_locked key)
  unfolding attend_coordinator sem_post
  answers_second key = rw (responds key) (elim (Bool-cases (has_lock_of esi key s.locked_keys)) [
    | inl e ↦ rw e refl
    | inr e ↦ rw e refl
  ])

  pub recv_key_state-free :
      (key : String)
      → has_lock key s.locked_keys ≡ false
      → scheduler_recv_key_state (planner fl lib setup coordinator_fd) key s
        ≡ ok (some key_unblocked, found_free key)
  unfolding scheduler_recv_key_state
  recv_key_state-free key e = rw (answers_first key) (rw e refl)

  pub recv_key_state-locked :
      (key : String) (own : Bool)
      → has_lock key s.locked_keys ≡ true
      → has_lock_of esi key s.locked_keys ≡ own
      → scheduler_recv_key_state (planner fl lib setup coordinator_fd) key s
        ≡ ok (some (if own then locked_by_executing else key_blocked), found_locked key)
  unfolding scheduler_recv_key_state
  recv_key_state-locked key true e own =
      rw (answers_first key) (rw e (rw (answers_second key) (rw own refl)))
  recv_key_state-locked key false e own =
      rw (answers_first key) (rw e (rw (answers_second key) (rw own refl)))

  -- After the answer to a request to lock the key.
  abbrev pub found_and_locked : String → Planner fl.Float
  found_and_locked key = record (found_free key) {
    locked_keys = lib.list_add s.locked_keys (create_key_blocker key esi);
    last_key_inquired = none;
    sent = key_blocked_succesfully coordinator_fd ∷ key_is_not_blocked coordinator_fd ∷ s.sent;
  }

  adds_blocker :
      (key : String)
      → add_new_key_blocker lib key (record (found_free key) { mutex_coordinador = n })
        ≡ ok (record (found_free key) {
          mutex_coordinador = n;
          locked_keys = lib.list_add s.locked_keys (create_key_blocker key esi);
        })
  unfolding add_new_key_blocker
  adds_blocker key = rw (manual.gets s.execution_queue 0 ∙ executes, add_new_key_blocker) refl

  pub locks_key :
      (key : String)
      → scheduler_block_key (planner fl lib setup coordinator_fd) (found_free key)
        ≡ ok (some true, found_and_locked key)
  unfolding scheduler_block_key is_blocked_answer attend_coordinator sem_wait sem_post
  locks_key key = rw (adds_blocker key) refl
