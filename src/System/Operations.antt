-- ===== src/System/Operations.antt =====
-- coordinador/connection/esi-connection.c with planificador/planificador.c: what a GET does in both
-- processes.
use tp_so_1c.Prelude.{
  ℕ, suc, ◌+◌, ◌≤◌, ◌≡◌, ◌⊎◌, refl, sym, ap, ◌∙◌, subst, arith, inl, inr, ℤ, same_int, same_int_iff,
  same_key, eq_iff, String, List, [], ◌∷◌, ◌++◌, none, some, Bool, true, false, ◌&&◌, Bool-cases,
  Option-cases, leb, any, count_if-append, any-eq_count, get_elem?, if◌then◌else◌,
}
use tp_so_1c.Outcome.{ok}
use tp_so_1c.Commons.{ListLib, Documented}
use tp_so_1c.Floats.{FloatLib}
use tp_so_1c.Planner.State.{Planner, Setup}
use tp_so_1c.Planner.Keys.{create_key_blocker}
use tp_so_1c.Coordinator.State.{
  Coordinator, CharLib, DictLib, DistributionAlgorithm, everything_ok, you_are_blocked, send_to_esi,
  send_to_scheduler, block_the_key,
}
use tp_so_1c.Coordinator.KeyTable.{key_table_create_key, key_table_get}
use tp_so_1c.Coordinator.EsiConnection.{
  esi_get, key_unblocked, key_blocked, key_blocked_by_executing_esi, esi_check_key_size, handle_get,
  handle_esi_operation,
}
use tp_so_1c.Coordinator.SchedulerConnection.{lock_if_free, after_key_state, attend_operation}
use tp_so_1c.System.Dialogue.{planner}
use tp_so_1c.Planner.Locks.{locks}
use tp_so_1c.System.Locking.{
  has_lock, has_lock_of, found_locked, found_and_locked, recv_key_state-free, recv_key_state-locked,
  locks_key,
}

any-last :
    {A : Type 0} (p : A → Bool) (xs : List A) (x : A) → p x ≡ true → any p (xs ++ x ∷ []) ≡ true
any-last p [] x h = rw h refl
any-last p (y ∷ ys) x h = ground (arith, any-last p ys x h)

module _ (fl : FloatLib) (lib : ListLib) (manual : Documented lib) (setup : Setup fl.Float)
    (coordinator_fd : ℤ) (s : Planner fl.Float) (esi : ℤ) (n : ℕ)
    (executes : get_elem? s.execution_queue 0 ≡ some esi) (mutex : s.mutex_coordinador ≡ suc n)
    (dict : DictLib) (chars : CharLib) (distribution : DistributionAlgorithm) (esi_fd : ℤ)
    (c : Coordinator dict.Dict) where
  -- How a GET ends: the ESI has the key, or it waits for one that another has.
  abbrev pub GetEnds : String → Planner fl.Float → Coordinator dict.Dict → Type 0
  GetEnds key t after =
      ((after.esi_messages ≡ everything_ok esi_fd ∷ c.esi_messages)
        × (has_lock_of esi key t.locked_keys ≡ true))
      ⊎ ((after.esi_messages ≡ you_are_blocked esi_fd ∷ c.esi_messages)
          × (has_lock key t.locked_keys ≡ true)
          × (has_lock_of esi key t.locked_keys ≡ false)
          × (t.locked_keys ≡ s.locked_keys))

  added :
      (key : String)
      → lib.list_add s.locked_keys (create_key_blocker key esi)
        ≡ s.locked_keys ++ create_key_blocker key esi ∷ []
  added key = manual.adds_last s.locked_keys (create_key_blocker key esi)

  locks-added :
      (key other : String)
      → has_lock key s.locked_keys ≡ false
      → locks other s.locked_keys ≤ 1
      → locks other (lib.list_add s.locked_keys (create_key_blocker key esi)) ≤ 1
  unfolding create_key_blocker
  locks-added key other free_key h = elim (Bool-cases (same_key key other)) [
    | inl e ↦
        let none_yet : locks other s.locked_keys ≡ 0 =
          subst (λ k. locks k s.locked_keys ≡ 0) ((eq_iff key other).0 e)
            (any-eq_count (λ k. same_key k.key key) s.locked_keys free_key) in
        ground (arith, none_yet, ap (locks other) (added key), split)
    | inr e ↦ ground (arith, ap (locks other) (added key), split, e)
  ]
    where
      split :
          locks other (s.locked_keys ++ create_key_blocker key esi ∷ [])
          ≡ locks other s.locked_keys + (if same_key key other then 1 else 0)
      split =
          count_if-append (λ k. same_key k.key other) s.locked_keys
            (create_key_blocker key esi ∷ [])
          ∙ omega arith

  create_key-messages :
      (key : String) (d : Coordinator dict.Dict)
      → (key_table_create_key dict key none d).esi_messages ≡ d.esi_messages
  unfolding key_table_create_key
  create_key-messages key d = elim (Option-cases (key_table_get dict key d)) [
    | inl e ↦ rw (e, key_table_create_key) refl
    | inr (found, e) ↦ rw (e, key_table_create_key) refl
  ]

  -- A GET ends in both processes, with the scheduler's semaphore as it was: the ESI is told of a
  -- success where the executing ESI has the key locked afterwards, and that it is blocked where another
  -- has it and nothing changes in the locks; and no key that is locked once at most gets a second lock.
  -- This holds if the scheduler has an ESI that executes, its semaphore is free and nothing else happens
  -- to it in between, the connection does not fail, and the key is not too long.
  pub get_locks :
      (key : String)
      → leb (chars.strlen key) 40 ≡ true
      → (t : Planner fl.Float) × (after : Coordinator dict.Dict) × (attend_operation
              (planner fl lib setup coordinator_fd)
              lib
              dict
              chars
              distribution
              esi_fd
              (esi_get key)
              c
              s
            ≡ ok (some (true, after), t)
          × GetEnds key t after
          × t.mutex_coordinador ≡ s.mutex_coordinador
          × ((other : String) → locks other s.locked_keys ≤ 1 → locks other t.locked_keys ≤ 1))
  unfolding attend_operation esi_check_key_size after_key_state lock_if_free handle_esi_operation
      handle_get send_to_esi send_to_scheduler key_table_create_key create_key_blocker
  get_locks key short = elim (Bool-cases (has_lock key s.locked_keys)) [
    | inr free_key ↦ (
      found_and_locked fl lib manual setup coordinator_fd s esi n executes mutex key,
      handle_get lib dict esi_fd key_unblocked key c,
      (
        rw short (
            rw
              (recv_key_state-free fl lib manual setup coordinator_fd s esi n executes mutex key
                free_key)
              (rw (locks_key fl lib manual setup coordinator_fd s esi n executes mutex key)
                (rw short refl))),
        inl (
          ap (λ l. everything_ok esi_fd ∷ l)
              (create_key-messages key (send_to_scheduler block_the_key c)),
          ap (has_lock_of esi key) (added key)
              ∙ any-last (λ k. same_key k.key key && same_int k.esi_id esi) s.locked_keys
                  (create_key_blocker key esi)
                  (ground (arith, eq_iff key key, same_int_iff esi esi)),
        ),
        sym mutex,
        λ other h. locks-added key other free_key h,
      ),
    )
    | inl locked ↦ elim (Bool-cases (has_lock_of esi key s.locked_keys)) [
      | inl own ↦ (
        found_locked fl lib manual setup coordinator_fd s esi n executes mutex key,
        handle_get lib dict esi_fd key_blocked_by_executing_esi key c,
        (
          rw short (
              rw
                (recv_key_state-locked fl lib manual setup coordinator_fd s esi n executes mutex key
                  true locked own)
                (rw short refl)),
          inl (refl, own),
          sym mutex,
          λ other h. h,
        ),
      )
      | inr foreign ↦ (
        found_locked fl lib manual setup coordinator_fd s esi n executes mutex key,
        handle_get lib dict esi_fd key_blocked key c,
        (
          rw short (
              rw
                (recv_key_state-locked fl lib manual setup coordinator_fd s esi n executes mutex key
                  false locked foreign)
                (rw short refl)),
          inr (refl, locked, foreign, refl),
          sym mutex,
          λ other h. h,
        ),
      )
    ]
  ]
