-- ===== src/Planner/Settles.antt =====
-- planificador/planificador.c: the number of ESIs that are ready or wait for a key, at the death of one.
use tp_so_1c.Prelude.{
  ℕ, ◌+◌, ◌≤◌, ◌<◌, ◌≡◌, refl, ℤ, minus_one, same_int, same_int_iff, hits, arith, String, List, [],
  ◌∷◌, Bool, true, false, count_if, count_if-append, count_if-remove_first_le, remove_first, inl,
  inr, ◌⊎◌, Bool-cases, if◌then◌else◌,
}
use tp_so_1c.Outcome.{ok, Settles, Settles-bind, Settles-deref}
use tp_so_1c.Commons.{Sort, sequences}
use tp_so_1c.Planner.State.{
  Planner, EsiInformation, EsiSexpectingKey, KeyBlocker, Setup, ready, blocked,
}
use tp_so_1c.Planner.Queues.{
  we_must_reschedule_if, we_must_reschedule, move_esi_from_and_to_queue,
  obtain_esi_information_by_id, remove_fd,
}
use tp_so_1c.Planner.Keys.{
  FlagName, update_blocked_esi_queue_flag, unlock_esi_by_console_flag, clear_flag, esi_fd_to_unlock,
  unlock_esi, update_blocked_esi_queue, remove_blocked_key_from_list, wake_esi,
}
use tp_so_1c.Planner.Death.{release_keys, forget_esi, release_resources, sock_my_port}
use tp_so_1c.Planner.Release.{waits_for-le, esi_fd_to_unlock-waits}
use tp_so_1c.Planner.Burial.{bury_all-eq, buried}

-- The number of elements.
abbrev pub all_of : {A : Type 0} → List A → ℕ
all_of xs = count_if (λ _. true) xs

pub all_of-remove_first :
    {A : Type 0} (p : A → Bool) (xs : List A)
    → 0 < count_if p xs
    → all_of (remove_first p xs) + 1 ≡ all_of xs
all_of-remove_first p [] h = elim h [ ]
all_of-remove_first p (x ∷ xs) h = elim (Bool-cases (p x)) [
  | inl e ↦ rw e (omega arith)
  | inr e ↦ rw e (omega (arith, all_of-remove_first p xs (ground arith)))
]

-- The ESIs that are ready or wait for a key.
abbrev pub load : {F : Type 0} → Planner F → ℕ
load s = all_of s.ready_queue + all_of s.esis_sexpecting_keys

abbrev pub AtMost : {F : Type 0} → ℕ → Planner F → Type 0
AtMost n t = load t ≤ n

module _ {F : Type 0} (n : ℕ) where
  load-we_must_reschedule_if :
      (b : Bool) (s : Planner F) → load s ≤ n → load (we_must_reschedule_if b s) ≤ n
  unfolding we_must_reschedule_if we_must_reschedule
  load-we_must_reschedule_if true s h = h
  load-we_must_reschedule_if false s h = h

  load-clear_flag : (f : FlagName) (s : Planner F) → load s ≤ n → load (clear_flag f s) ≤ n
  load-clear_flag update_blocked_esi_queue_flag s h = h
  load-clear_flag unlock_esi_by_console_flag s h = h

  load-removal :
      (sort : Sort) (b : Bool) (key : String) (u : Planner F)
      → load u ≤ n
      → load (if b then remove_blocked_key_from_list (sequences sort) key u else u) ≤ n
  unfolding remove_blocked_key_from_list
  load-removal sort true key u h = h
  load-removal sort false key u h = h

module _ (sort : Sort) {F : Type 0} (setup : Setup F) where
  wake_esi-load :
      (fd : ℤ) (key : String) (was_a_store : Bool) (n : ℕ) (s : Planner F)
      → load s + 1 ≤ n
      → Settles (AtMost n) (wake_esi (sequences sort) setup fd key was_a_store s)
  unfolding wake_esi move_esi_from_and_to_queue
  wake_esi-load fd key was_a_store n s h =
      Settles-deref {A = EsiInformation F} {B = Planner F} (AtMost n)
        (obtain_esi_information_by_id (sequences sort) fd
          (move_esi_from_and_to_queue (sequences sort) blocked ready fd s))
        _
        λ e _. load-we_must_reschedule_if n _ _ (
          load-removal n sort was_a_store key
            (move_esi_from_and_to_queue (sequences sort) blocked ready fd s)
            (omega (arith, h, count_if-append (λ _. true) s.ready_queue (fd ∷ []))))

  update_blocked_esi_queue-load :
      (key : String) (flag : FlagName) (was_a_store : Bool) (n : ℕ) (s : Planner F)
      → load s ≤ n
      → Settles (AtMost n) (update_blocked_esi_queue (sequences sort) setup key flag was_a_store s)
  unfolding update_blocked_esi_queue unlock_esi
  update_blocked_esi_queue-load key flag was_a_store n s h =
      Settles-bind (AtMost n) (AtMost n) _ _ (woken (Bool-cases (same_int fd minus_one)))
        λ u k. load-clear_flag n flag u k
    where
      fd : ℤ
      fd = esi_fd_to_unlock (sequences sort) key s.esis_sexpecting_keys

      ws : List EsiSexpectingKey
      ws = remove_first (λ e. same_int e.esi_fd fd) s.esis_sexpecting_keys

      woken :
          (same_int fd minus_one ≡ true) ⊎ (same_int fd minus_one ≡ false)
          → Settles (AtMost n) (
              if same_int fd minus_one
              then ok (
                  remove_blocked_key_from_list
                    (sequences sort)
                    key
                    (record s { esis_sexpecting_keys = ws }))
              else wake_esi
                  (sequences sort)
                  setup
                  fd
                  key
                  was_a_store
                  (record s { esis_sexpecting_keys = ws }))
      woken (inl e) = rw e (
          load-removal n sort true key _ (
            omega (
              arith,
              h,
              count_if-remove_first_le (λ e. same_int e.esi_fd fd) (λ _. true)
                  s.esis_sexpecting_keys,
            )))
      woken (inr e) = rw e (
          wake_esi-load fd key was_a_store n _ (
            omega (
              arith,
              h,
              all_of-remove_first (λ e. same_int e.esi_fd fd) s.esis_sexpecting_keys waits,
            )))
        where
          waits : 0 < hits (λ e. e.esi_fd) fd s.esis_sexpecting_keys
          waits = ground (
            arith,
            esi_fd_to_unlock-waits sort fd key s.esis_sexpecting_keys refl,
            waits_for-le fd key s.esis_sexpecting_keys,
            same_int_iff fd minus_one,
          )

  release_keys-load :
      (flag : FlagName) (ks : List KeyBlocker) (n : ℕ) (s : Planner F)
      → load s ≤ n
      → Settles (AtMost n) (release_keys (sequences sort) setup flag ks s)
  unfolding release_keys
  release_keys-load flag [] n s h = h
  release_keys-load flag (k ∷ ks) n s h =
      Settles-bind (AtMost n) (AtMost n) _ _ (update_blocked_esi_queue-load k.key flag true n s h)
        λ t i. release_keys-load flag ks n t i

  forget_esi-load :
      (fd : ℤ) (n : ℕ) (t : Planner F) → load t ≤ n → load (forget_esi (sequences sort) fd t) ≤ n
  unfolding forget_esi remove_fd
  forget_esi-load fd n t h = omega (
    arith,
    h,
    count_if-remove_first_le (λ e. same_int e.esi_fd fd) (λ _. true) t.esis_sexpecting_keys,
  )

  -- The death of an ESI ends, and leaves no more ESIs that are ready or wait for a key.
  pub sock_my_port-load :
      (fd : ℤ) (n : ℕ) (s : Planner F)
      → load s ≤ n
      → Settles (AtMost n) (sock_my_port (sequences sort) setup fd s)
  unfolding sock_my_port release_resources remove_fd
  sock_my_port-load fd n s h =
      let (X, b) = bury_all-eq sort fd s in
      rw b (
        Settles-deref (AtMost n) (obtain_esi_information_by_id (sequences sort) fd s) _ λ _ _.
          Settles-bind (AtMost n) (AtMost n) _ _
            (Settles-deref (AtMost n) (obtain_esi_information_by_id (sequences sort) fd s) _ λ _ _.
              Settles-bind (AtMost n) (AtMost n) _ _
                (release_keys-load update_blocked_esi_queue_flag _ n (buried sort fd s X) (
                  omega (
                    arith,
                    h,
                    count_if-remove_first_le (λ e. same_int e fd) (λ _. true) s.ready_queue,
                  )))
                λ t k. forget_esi-load fd n t k)
            λ t k. k)
