-- ===== src/Planner/Locks.antt =====
-- planificador/planificador.c: the locked keys, and what is known of the ESIs, at the death of one.
use tp_so_1c.Prelude.{
  ℕ, ◌-◌, ◌≤◌, ◌<◌, ◌≡◌, ◌⊎◌, inl, inr, refl, ap, ◌∙◌, ℤ, minus_one, same_int, same_int_iff,
  same_key, eq_iff, hits, unit_at, hits-remove_first, arith, String, List, [], ◌∷◌, Bool, true,
  false, ◌&&◌, Bool-cases, some, find_first, count_if, count_if-remove_first_le, remove_first, keep,
  if◌then◌else◌,
}
use tp_so_1c.Outcome.{ok, Settles, Settles-bind, Settles-deref, Settles-weaken}
use tp_so_1c.Commons.{Sort, sequences}
use tp_so_1c.Planner.State.{ready, blocked, Planner, KeyBlocker, Setup, EsiInformation}
use tp_so_1c.Planner.Queues.{
  move_esi_from_and_to_queue, obtain_esi_information_by_id, remove_fd, we_must_reschedule_if,
}
use tp_so_1c.Planner.Keys.{
  algorithm_is_preemptive, FlagName, update_blocked_esi_queue_flag, unlock_esi_by_console_flag,
  clear_flag, esi_fd_to_unlock, unlock_esi, update_blocked_esi_queue, remove_blocked_key_from_list,
  wake_esi,
}
use tp_so_1c.Planner.Death.{release_keys, forget_esi, release_resources, sock_my_port}
use tp_so_1c.Planner.Burial.{buried, bury_all-eq}

-- How often a key is locked, and how often by an ESI.
abbrev pub locks : String → List KeyBlocker → ℕ
locks key = count_if (λ k. same_key k.key key)

abbrev pub locks_of : ℤ → String → List KeyBlocker → ℕ
locks_of fd key = count_if (λ k. same_int k.esi_id fd && same_key k.key key)

-- The locks of an ESI.
abbrev pub all_locks_of : ℤ → List KeyBlocker → ℕ
all_locks_of = hits (λ k. k.esi_id)

abbrev pub without_key : String → List KeyBlocker → List KeyBlocker
without_key key ks = remove_first (λ k. same_key k.key key) ks

-- The list after the release of some keys, one after the other.
abbrev pub released : List KeyBlocker → List KeyBlocker → List KeyBlocker
released [] locked = locked
released (k ∷ ks) locked = released ks (without_key k.key locked)

-- The list after the death of an ESI.
abbrev pub after_death : ℤ → List KeyBlocker → List KeyBlocker
after_death fd locked =
    remove_first (λ k. same_int k.esi_id fd)
      (released (keep (λ k. same_int k.esi_id fd) locked) locked)

locks-without :
    (a key : String) (ks : List KeyBlocker)
    → locks key (without_key a ks) ≡ locks key ks - (if same_key a key then 1 else 0)
locks-without a key [] = omega arith
locks-without a key (k ∷ ks) =
    ground (arith, eq_iff k.key a, eq_iff k.key key, eq_iff a key, locks-without a key ks)

locks-released :
    (key : String) (ks locked : List KeyBlocker)
    → locks key (released ks locked) ≡ locks key locked - locks key ks
locks-released key [] locked = omega arith
locks-released key (k ∷ ks) locked =
    omega (arith, locks-released key ks (without_key k.key locked), locks-without k.key key locked)

count_if-released_le :
    (q : KeyBlocker → Bool) (ks locked : List KeyBlocker)
    → count_if q (released ks locked) ≤ count_if q locked
count_if-released_le q [] locked = omega arith
count_if-released_le q (k ∷ ks) locked = omega (
  arith,
  count_if-released_le q ks (without_key k.key locked),
  count_if-remove_first_le (λ j. same_key j.key k.key) q locked,
)

locks-held :
    (fd : ℤ) (key : String) (ks : List KeyBlocker)
    → locks key (keep (λ k. same_int k.esi_id fd) ks) ≡ locks_of fd key ks
locks-held fd key [] = refl
locks-held fd key (k ∷ ks) = ground (arith, locks-held fd key ks)

locks_of-le : (fd : ℤ) (key : String) (ks : List KeyBlocker) → locks_of fd key ks ≤ locks key ks
locks_of-le fd key [] = omega arith
locks_of-le fd key (k ∷ ks) = ground (arith, locks_of-le fd key ks)

-- Who has no lock of any key has no lock.
all_locks_of-none :
    (fd : ℤ) (ks : List KeyBlocker)
    → ((key : String) → locks_of fd key ks ≡ 0)
    → all_locks_of fd ks ≡ 0
all_locks_of-none fd [] h = refl
all_locks_of-none fd (k ∷ ks) h =
    ground
      (arith, h k.key, eq_iff k.key k.key, all_locks_of-none fd ks (λ key. omega (arith, h key)))

-- The removal of a lock of the ESI keeps those of a key that it has not.
locks-remove_own :
    (fd : ℤ) (key : String) (ks : List KeyBlocker)
    → locks_of fd key ks ≡ 0
    → locks key (remove_first (λ k. same_int k.esi_id fd) ks) ≡ locks key ks
locks-remove_own fd key [] h = refl
locks-remove_own fd key (k ∷ ks) h = ground (arith, h, locks-remove_own fd key ks)

-- Every key is locked once at most, or the ESI has one lock at most.
abbrev pub FewLocks : ℤ → List KeyBlocker → Type 0
FewLocks fd locked = ((key : String) → locks key locked ≤ 1) ⊎ (all_locks_of fd locked ≤ 1)

-- The locks after the death: none of the ESI, and those of the keys that it had not.
abbrev pub LosesItsLocks : ℤ → List KeyBlocker → List KeyBlocker → Type 0
LosesItsLocks fd locked left =
    (all_locks_of fd left ≡ 0)
    × ((key : String) → locks_of fd key locked ≡ 0 → locks key left ≡ locks key locked)

pub after_death-LosesItsLocks :
    (fd : ℤ) (locked : List KeyBlocker)
    → FewLocks fd locked
    → LosesItsLocks fd locked (after_death fd locked)
after_death-LosesItsLocks fd locked few = (
  omega (arith, hits-remove_first (λ k. k.esi_id) fd fd rest, own_unit, none_left few),
  λ key h.
      locks-remove_own fd key rest (
        omega (
          arith,
          h,
          count_if-released_le (λ k. same_int k.esi_id fd && same_key k.key key) own locked,
        ))
      ∙ omega (arith, locks-released key own locked, locks-held fd key locked, h),
)
  where
    own : List KeyBlocker
    own = keep (λ k. same_int k.esi_id fd) locked

    rest : List KeyBlocker
    rest = released own locked

    own_unit : unit_at fd fd ≡ 1
    own_unit = ground (arith, same_int_iff fd fd)

    none_left : FewLocks fd locked → all_locks_of fd rest ≤ 1
    none_left (inr one) =
        omega (arith, one, count_if-released_le (λ k. same_int k.esi_id fd) own locked)
    none_left (inl once) = omega (
      arith,
      all_locks_of-none fd rest λ key. omega (
        arith,
        once key,
        locks-released key own locked,
        locks-held fd key locked,
        locks_of-le fd key rest,
        count_if-released_le (λ k. same_int k.esi_id fd && same_key k.key key) own locked,
      ),
    )

found-hits :
    {F : Type 0} (fd : ℤ) (bs : List (EsiInformation F)) (e : EsiInformation F)
    → find_first (λ x. same_int x.esi_id fd) bs ≡ some e
    → 0 < hits (λ x. x.esi_id) fd bs
found-hits fd [] e h = ground arith
found-hits fd (b ∷ bs) e h = ground (arith, found-hits fd bs e)

module _ (sort : Sort) {F : Type 0} (setup : Setup F) where
  -- What a step leaves of the locked keys and of what is known of the ESIs.
  abbrev pub Leaves : List KeyBlocker → List (EsiInformation F) → Planner F → Type 0
  Leaves locked bursts t = (t.locked_keys ≡ locked) × (t.esi_bursts ≡ bursts)

  keeps_reschedule :
      (locked : List KeyBlocker) (bursts : List (EsiInformation F)) (b : Bool) (u : Planner F)
      → Leaves locked bursts u
      → Leaves locked bursts (we_must_reschedule_if b u)
  unfolding we_must_reschedule_if
  keeps_reschedule locked bursts true u h = h
  keeps_reschedule locked bursts false u h = h

  keeps_flag :
      (locked : List KeyBlocker) (bursts : List (EsiInformation F)) (flag : FlagName)
      (u : Planner F)
      → Leaves locked bursts u
      → Leaves locked bursts (clear_flag flag u)
  keeps_flag locked bursts update_blocked_esi_queue_flag u h = h
  keeps_flag locked bursts unlock_esi_by_console_flag u h = h

  wake_esi-Leaves :
      (fd : ℤ) (key : String) (s : Planner F)
      → Settles
          (Leaves (without_key key s.locked_keys) s.esi_bursts)
          (wake_esi (sequences sort) setup fd key true s)
  unfolding wake_esi remove_blocked_key_from_list move_esi_from_and_to_queue
  wake_esi-Leaves fd key s =
      Settles-deref {A = EsiInformation F} {B = Planner F}
        (Leaves (without_key key s.locked_keys) s.esi_bursts)
        (obtain_esi_information_by_id (sequences sort) fd
          (move_esi_from_and_to_queue (sequences sort) blocked ready fd s))
        _
        λ e _.
          keeps_reschedule (without_key key s.locked_keys) s.esi_bursts
            (algorithm_is_preemptive setup)
            (remove_blocked_key_from_list (sequences sort) key
              (move_esi_from_and_to_queue (sequences sort) blocked ready fd s))
            (refl, refl)

  update-Leaves :
      (key : String) (flag : FlagName) (s : Planner F)
      → Settles
          (Leaves (without_key key s.locked_keys) s.esi_bursts)
          (update_blocked_esi_queue (sequences sort) setup key flag true s)
  unfolding update_blocked_esi_queue unlock_esi remove_blocked_key_from_list
  update-Leaves key flag s =
      Settles-bind (Leaves (without_key key s.locked_keys) s.esi_bursts)
        (Leaves (without_key key s.locked_keys) s.esi_bursts) _ _
        (woken (Bool-cases (same_int fd minus_one)))
        λ u h. keeps_flag (without_key key s.locked_keys) s.esi_bursts flag u h
    where
      fd : ℤ
      fd = esi_fd_to_unlock (sequences sort) key s.esis_sexpecting_keys

      unlocked : Planner F
      unlocked = record s {
        esis_sexpecting_keys = remove_first (λ e. same_int e.esi_fd fd) s.esis_sexpecting_keys;
      }

      woken :
          (same_int fd minus_one ≡ true) ⊎ (same_int fd minus_one ≡ false)
          → Settles (Leaves (without_key key s.locked_keys) s.esi_bursts) (
              if same_int fd minus_one
              then ok (remove_blocked_key_from_list (sequences sort) key unlocked)
              else wake_esi (sequences sort) setup fd key true unlocked)
      woken (inl e) = rw e (refl, refl)
      woken (inr e) = rw e (wake_esi-Leaves fd key unlocked)

  release_keys-Leaves :
      (flag : FlagName) (ks : List KeyBlocker) (s : Planner F)
      → Settles
          (Leaves (released ks s.locked_keys) s.esi_bursts)
          (release_keys (sequences sort) setup flag ks s)
  unfolding release_keys
  release_keys-Leaves flag [] s = (refl, refl)
  release_keys-Leaves flag (k ∷ ks) s =
      Settles-bind (Leaves (without_key k.key s.locked_keys) s.esi_bursts)
        (Leaves (released (k ∷ ks) s.locked_keys) s.esi_bursts) _ _ (update-Leaves k.key flag s)
        λ t h.
          Settles-weaken (Leaves (released ks t.locked_keys) t.esi_bursts)
            (Leaves (released (k ∷ ks) s.locked_keys) s.esi_bursts)
            (release_keys (sequences sort) setup flag ks t) (release_keys-Leaves flag ks t)
            λ u i. (i.0 ∙ ap (released ks) h.0, i.1 ∙ h.1)

  -- A death ends, with the ESI's locks given back and what was known of it forgotten, or at a null
  -- pointer; and there, if nothing is known of it.
  pub sock_my_port-Leaves :
      (fd : ℤ) (s : Planner F)
      → Settles
          (λ t.
            Leaves
              (after_death fd s.locked_keys)
              (remove_first (λ e. same_int e.esi_id fd) s.esi_bursts)
              t
            × (0 < hits (λ e. e.esi_id) fd s.esi_bursts))
          (sock_my_port (sequences sort) setup fd s)
  unfolding sock_my_port release_resources forget_esi remove_fd obtain_esi_information_by_id
  sock_my_port-Leaves fd s =
      let (X, b) = bury_all-eq sort fd s in
      rw b (
        Settles-deref Dead (obtain_esi_information_by_id (sequences sort) fd s) _ λ e found.
          Settles-bind Dead Dead _ _
            (Settles-deref Dead (obtain_esi_information_by_id (sequences sort) fd s) _ λ _ _.
              Settles-bind
                (Leaves (released (keep (λ k. same_int k.esi_id fd) s.locked_keys) s.locked_keys)
                  s.esi_bursts)
                Dead _ _
                (release_keys-Leaves update_blocked_esi_queue_flag
                  (keep (λ k. same_int k.esi_id fd) s.locked_keys) (buried sort fd s X))
                λ t (l, k). (
                  (
                    ap (remove_first (λ j. same_int j.esi_id fd)) l,
                    ap (remove_first (λ j. same_int j.esi_id fd)) k,
                  ),
                  found-hits fd s.esi_bursts e (found_first found),
                ))
            (λ t h. h))
    where
      Dead : Planner F → Type 0
      Dead t =
          Leaves (after_death fd s.locked_keys)
            (remove_first (λ e. same_int e.esi_id fd) s.esi_bursts) t
          × (0 < hits (λ e. e.esi_id) fd s.esi_bursts)

      found_first :
          {e : EsiInformation F}
          → obtain_esi_information_by_id (sequences sort) fd s ≡ some e
          → find_first (λ x. same_int x.esi_id fd) s.esi_bursts ≡ some e
      found_first h = h
