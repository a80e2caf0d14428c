-- ===== src/System/Writes.antt =====
-- coordinador/connection/esi-connection.c with planificador/planificador.c: what a SET or a STORE does in
-- both processes.
use tp_so_1c.Prelude.{
  ℕ, suc, ◌≡◌, ◌⊎◌, refl, sym, arith, inl, inr, ℤ, String, List, [], ◌∷◌, some, Bool, true, false,
  Bool-cases, leb, get_elem?,
}
use tp_so_1c.Outcome.{ok}
use tp_so_1c.Commons.{ListLib, Documented}
use tp_so_1c.Floats.{FloatLib}
use tp_so_1c.Planner.State.{Planner, KeyBlocker, Setup}
use tp_so_1c.Coordinator.State.{
  Coordinator, CharLib, DictLib, DistributionAlgorithm, illegal_operation, send_to_esi,
}
use tp_so_1c.Coordinator.EsiConnection.{
  EsiOperation, esi_get, esi_set, esi_store, KeyState, key_unblocked, key_blocked,
  key_blocked_by_executing_esi, operation_key, esi_check_key_size, handle_write,
  handle_esi_operation,
}
use tp_so_1c.Coordinator.SchedulerConnection.{lock_if_free, after_key_state, attend_operation}
use tp_so_1c.System.Dialogue.{planner}
use tp_so_1c.System.Locking.{
  has_lock, has_lock_of, found_free, found_locked, recv_key_state-free, recv_key_state-locked,
}

-- Who has a lock of an ESI has a lock.
has_lock_of-has_lock :
    (esi : ℤ) (key : String) (locked : List KeyBlocker)
    → has_lock key locked ≡ false
    → has_lock_of esi key locked ≡ false
has_lock_of-has_lock esi key [] h = refl
has_lock_of-has_lock esi key (k ∷ ks) h = ground (arith, has_lock_of-has_lock esi key ks)

module _ (fl : FloatLib) (lib : ListLib) (manual : Documented lib) (setup : Setup fl.Float)
    (coordinator_fd : ℤ) (s : Planner fl.Float) (esi : ℤ) (n : ℕ)
    (executes : get_elem? s.execution_queue 0 ≡ some esi) (mutex : s.mutex_coordinador ≡ suc n)
    (dict : DictLib) (chars : CharLib) (distribution : DistributionAlgorithm) (esi_fd : ℤ)
    (c : Coordinator dict.Dict) where
  -- What a SET or a STORE does where the executing ESI has no lock of the key.
  abbrev pub refused : Coordinator dict.Dict
  refused = send_to_esi (illegal_operation esi_fd) c

  abbrev pub IsWrite : EsiOperation → Type 0
  IsWrite (esi_get key) = ⊥
  IsWrite _ = Unit {0}

  abbrev pub written : EsiOperation → KeyState → Bool × Coordinator dict.Dict
  written operation state = handle_write lib dict chars distribution esi_fd state operation c

  after_write :
      (operation : EsiOperation) (state : KeyState) (t : Planner fl.Float)
      → IsWrite operation
      → leb (chars.strlen (operation_key operation)) 40 ≡ true
      → after_key_state
          (planner fl lib setup coordinator_fd)
          lib
          dict
          chars
          distribution
          esi_fd
          operation
          c
          (some state)
          t
        ≡ ok (some (written operation state), t)
  unfolding after_key_state lock_if_free handle_esi_operation esi_check_key_size
  after_write (esi_get key) state t w short = elim w [ ]
  after_write (esi_set key value) state t w short = rw short refl
  after_write (esi_store key) state t w short = rw short refl

  -- What a SET or a STORE ends with: the operation goes on where the executing ESI has the key locked,
  -- and is refused where not.
  abbrev pub WriteEnds : EsiOperation → Bool × Coordinator dict.Dict → Type 0
  WriteEnds operation r =
      ((has_lock_of esi (operation_key operation) s.locked_keys ≡ true)
        × (r ≡ written operation key_blocked_by_executing_esi))
      ⊎ ((has_lock_of esi (operation_key operation) s.locked_keys ≡ false) × (r ≡ (false, refused)))

  -- A SET or a STORE is handed to the instances only where the executing ESI has its key locked; where
  -- it has not, the ESI is told of an illegal operation, nothing else happens in the coordinator, and
  -- its connection ends. The scheduler keeps its locks, and its semaphore is as it was. This holds if the
  -- scheduler has an ESI that executes, its semaphore is free and nothing else happens to it in between,
  -- the connection does not fail, and the key is not too long.
  pub write_needs_lock :
      (operation : EsiOperation)
      → IsWrite operation
      → leb (chars.strlen (operation_key operation)) 40 ≡ true
      → (t : Planner fl.Float) × (r : Bool × Coordinator dict.Dict) × (attend_operation
              (planner fl lib setup coordinator_fd)
              lib
              dict
              chars
              distribution
              esi_fd
              operation
              c
              s
            ≡ ok (some r, t)
          × WriteEnds operation r
          × t.locked_keys ≡ s.locked_keys
          × t.mutex_coordinador ≡ s.mutex_coordinador)
  unfolding attend_operation esi_check_key_size handle_write
  write_needs_lock operation w short =
      elim (Bool-cases (has_lock (operation_key operation) s.locked_keys)) [
        | inr free_key ↦ (
          found_free fl lib manual setup coordinator_fd s esi n executes mutex
              (operation_key operation),
          (false, refused),
          (
            rw short (
                rw
                  (recv_key_state-free fl lib manual setup coordinator_fd s esi n executes mutex
                    (operation_key operation) free_key)
                  (after_write operation key_unblocked _ w short)),
            inr (has_lock_of-has_lock esi (operation_key operation) s.locked_keys free_key, refl),
            refl,
            sym mutex,
          ),
        )
        | inl locked ↦ elim (Bool-cases (has_lock_of esi (operation_key operation) s.locked_keys)) [
          | inl own ↦ (
            found_locked fl lib manual setup coordinator_fd s esi n executes mutex
                (operation_key operation),
            written operation key_blocked_by_executing_esi,
            (
              rw short (
                  rw
                    (recv_key_state-locked fl lib manual setup coordinator_fd s esi n executes mutex
                      (operation_key operation) true locked own)
                    (after_write operation key_blocked_by_executing_esi _ w short)),
              inl (own, refl),
              refl,
              sym mutex,
            ),
          )
          | inr foreign ↦ (
            found_locked fl lib manual setup coordinator_fd s esi n executes mutex
                (operation_key operation),
            (false, refused),
            (
              rw short (
                  rw
                    (recv_key_state-locked fl lib manual setup coordinator_fd s esi n executes mutex
                      (operation_key operation) false locked foreign)
                    (after_write operation key_blocked _ w short)),
              inr (foreign, refl),
              refl,
              sym mutex,
            ),
          )
        ]
      ]
