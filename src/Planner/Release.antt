-- ===== src/Planner/Release.antt =====
-- planificador/planificador.c: the release of a key, `update_blocked_esi_queue`, and the order of the lists.
use tp_so_1c.Prelude.{
  ℕ, ◌+◌, ◌-◌, ◌≤◌, ◌<◌, ◌≡◌, refl, ℤ, minus_one, same_int, same_int_iff, same_key, hits, unit_at,
  hits-remove_first, hits-find, hits-add, ◌∙◌, arith, List, [], ◌∷◌, Bool, true, false, ◌&&◌,
  count_if, count_if-remove_first_le, remove_first, ◌++◌, String, ◌⊎◌, inl, inr, Bool-cases,
  if◌then◌else◌,
}
use tp_so_1c.Outcome.{ok}
use tp_so_1c.Commons.{Sort, sequences}
use tp_so_1c.Planner.State.{Planner, EsiSexpectingKey, EsiInformation, Setup}
use tp_so_1c.Planner.Queues.{we_must_reschedule_if}
use tp_so_1c.Planner.Keys.{
  FlagName, update_blocked_esi_queue_flag, unlock_esi_by_console_flag, clear_flag, esi_fd_to_unlock,
  unlock_esi, update_blocked_esi_queue, remove_blocked_key_from_list, wake_esi,
}
use tp_so_1c.Planner.Inv.{InOrder, Inv, Ends, Ends-bind, placed, Ends-deref}

-- The entries of an ESI that wait for a key.
abbrev pub waits_for : ℤ → String → List EsiSexpectingKey → ℕ
waits_for fd key = count_if (λ e. same_int e.esi_fd fd && same_key e.key key)

pub waits_for-le :
    (fd : ℤ) (key : String) (xs : List EsiSexpectingKey)
    → waits_for fd key xs ≤ hits (λ e. e.esi_fd) fd xs
waits_for-le fd key [] = omega arith
waits_for-le fd key (x ∷ xs) = ground (arith, waits_for-le fd key xs)

-- The lists are in order, and no ESI waits for a key more than it did.
abbrev pub Released : {F : Type 0} → (ℤ → ℕ) → (ℤ → ℕ) → List EsiSexpectingKey → Planner F → Type 0
Released gk gw vs t =
    Inv gk gw t × ((d : ℤ) (k : String) → waits_for d k t.esis_sexpecting_keys ≤ waits_for d k vs)

module _ {F : Type 0} {gk gw : ℤ → ℕ} where
  -- An ESI goes from the blocked queue, and from those that wait, to the end of the ready queue.
  InOrder-wake :
      (fd : ℤ) {nq rq eq bq : List ℤ} (ws : List EsiSexpectingKey) {vs : List EsiSexpectingKey}
      {bs : List (EsiInformation F)}
      → InOrder gk gw nq rq eq bq vs bs
      → 0 < placed fd bq
      → ((g : ℤ) → hits (λ e. e.esi_fd) g ws ≡ hits (λ e. e.esi_fd) g vs - unit_at fd g)
      → InOrder gk gw nq (rq ++ fd ∷ []) eq (remove_first (λ e. same_int e fd) bq) ws bs
  InOrder-wake fd {nq} {rq} {eq} {bq} ws {vs} v h w = record {
    one_place = λ g. ground (arith, moved g, v.one_place g);
    is_known = λ g. ground (arith, moved g, v.is_known g);
    waits_once = λ g. ground (arith, moved g, v.waits_once g, w g);
    no_system = ground (arith, moved minus_one, v.no_system);
  }
    where
      moved :
          (g : ℤ)
          → (placed g (rq ++ fd ∷ []) ≡ placed g rq + unit_at fd g)
            × (placed g (remove_first (λ e. same_int e fd) bq) + unit_at fd g ≡ placed g bq)
      moved g = (
        hits-add (λ e. e) g rq fd,
        ground (arith, same_int_iff fd g, hits-remove_first (λ e. e) fd g bq),
      )

  -- Nobody is taken from those that wait.
  InOrder-none :
      (fd : ℤ) {nq rq eq bq : List ℤ} (ws : List EsiSexpectingKey) {vs : List EsiSexpectingKey}
      {bs : List (EsiInformation F)}
      → InOrder gk gw nq rq eq bq vs bs
      → same_int fd minus_one ≡ true
      → ((g : ℤ) → hits (λ e. e.esi_fd) g ws ≡ hits (λ e. e.esi_fd) g vs - unit_at fd g)
      → InOrder gk gw nq rq eq bq ws bs
  InOrder-none fd ws v h w = record {
    one_place = v.one_place;
    is_known = v.is_known;
    waits_once = λ g. ground (
      arith,
      w g,
      v.waits_once g,
      v.waits_once minus_one,
      v.no_system,
      same_int_iff fd minus_one,
      same_int_iff fd g,
    );
    no_system = v.no_system;
  }

  keeps_reschedule :
      (vs : List EsiSexpectingKey) (b : Bool) (u : Planner F)
      → Released gk gw vs u
      → Released gk gw vs (we_must_reschedule_if b u)
  unfolding we_must_reschedule_if
  keeps_reschedule vs true u v = v
  keeps_reschedule vs false u v = v

  keeps_removal :
      (sort : Sort) (vs : List EsiSexpectingKey) (b : Bool) (key : String) (u : Planner F)
      → Released gk gw vs u
      → Released gk gw vs (if b then remove_blocked_key_from_list (sequences sort) key u else u)
  unfolding remove_blocked_key_from_list
  keeps_removal sort vs true key u v = v
  keeps_removal sort vs false key u v = v

module _ (sort : Sort) where
  esi_fd_to_unlock-cons :
      (key : String) (x : EsiSexpectingKey) (xs : List EsiSexpectingKey)
      → esi_fd_to_unlock (sequences sort) key (x ∷ xs)
        ≡ (if same_key x.key key then x.esi_fd else esi_fd_to_unlock (sequences sort) key xs)
  unfolding esi_fd_to_unlock
  esi_fd_to_unlock-cons key x xs = elim (Bool-cases (same_key x.key key)) [
    | inl e ↦ rw (e, esi_fd_to_unlock)
    | inr e ↦ rw (e, esi_fd_to_unlock)
  ]

  -- The ESI to unlock is -1, or it waits for the key.
  pub esi_fd_to_unlock-waits :
      (fd : ℤ) (key : String) (xs : List EsiSexpectingKey)
      → fd ≡ esi_fd_to_unlock (sequences sort) key xs
      → (fd ≡ minus_one) ⊎ (0 < waits_for fd key xs)
  esi_fd_to_unlock-waits fd key [] h = inl (h ∙ unfold esi_fd_to_unlock in refl)
  esi_fd_to_unlock-waits fd key (x ∷ xs) h = ground (
    arith,
    esi_fd_to_unlock-cons key x xs,
    same_int_iff x.esi_fd fd,
    esi_fd_to_unlock-waits fd key xs,
  )

  module _ {F : Type 0} (setup : Setup F) {gk gw : ℤ → ℕ} where
    -- A woken ESI goes from the blocked queue to the ready queue.
    wake_esi-Released :
        (fd : ℤ) (key : String) (was_a_store : Bool) (s : Planner F) (ws : List EsiSexpectingKey)
        → Inv gk gw s
        → 0 < placed fd s.blocked_queue
        → ((g : ℤ)
            → hits (λ e. e.esi_fd) g ws
              ≡ hits (λ e. e.esi_fd) g s.esis_sexpecting_keys - unit_at fd g)
        → Ends (Released gk gw ws) (
            wake_esi
              (sequences sort)
              setup
              fd
              key
              was_a_store
              (record s { esis_sexpecting_keys = ws }))
    unfolding wake_esi
    wake_esi-Released fd key was_a_store s ws v h w =
        Ends-deref (Released gk gw ws) _ _
          (hits-find (λ e. e.esi_id) fd s.esi_bursts (omega (arith, v.is_known fd)))
          λ _.
            keeps_reschedule ws _ _ (
              keeps_removal sort ws was_a_store key _
                (InOrder-wake fd ws v h w, λ d k. omega arith))

    keeps_flag :
        (vs : List EsiSexpectingKey) (flag : FlagName) (u : Planner F)
        → Released gk gw vs u
        → Released gk gw vs (clear_flag flag u)
    keeps_flag vs update_blocked_esi_queue_flag u v = v
    keeps_flag vs unlock_esi_by_console_flag u v = v

    -- The release of a key ends well, unless the first ESI that waits for it is being buried.
    pub update_blocked_esi_queue-Released :
        (key : String) (flag : FlagName) (was_a_store : Bool) (s : Planner F)
        → Inv gk gw s
        → gw (esi_fd_to_unlock (sequences sort) key s.esis_sexpecting_keys) ≡ 0
        → Ends
            (Released gk gw s.esis_sexpecting_keys)
            (update_blocked_esi_queue (sequences sort) setup key flag was_a_store s)
    unfolding update_blocked_esi_queue unlock_esi
    update_blocked_esi_queue-Released key flag was_a_store s v g =
        Ends-bind (Released gk gw ws) (Released gk gw s.esis_sexpecting_keys) _ _
          (released (Bool-cases (same_int fd minus_one)))
          λ u r. keeps_flag s.esis_sexpecting_keys flag u (
            r.0,
            λ d k. omega (
              arith,
              r.1 d k,
              count_if-remove_first_le (λ e. same_int e.esi_fd fd)
                  (λ e. same_int e.esi_fd d && same_key e.key k) s.esis_sexpecting_keys,
            ),
          )
      where
        fd : ℤ
        fd = esi_fd_to_unlock (sequences sort) key s.esis_sexpecting_keys

        ws : List EsiSexpectingKey
        ws = remove_first (λ e. same_int e.esi_fd fd) s.esis_sexpecting_keys

        taken :
            (g : ℤ)
            → hits (λ e. e.esi_fd) g ws
              ≡ hits (λ e. e.esi_fd) g s.esis_sexpecting_keys - unit_at fd g
        taken g = hits-remove_first (λ e. e.esi_fd) fd g s.esis_sexpecting_keys

        released :
            (same_int fd minus_one ≡ true) ⊎ (same_int fd minus_one ≡ false)
            → Ends (Released gk gw ws) (
                if same_int fd minus_one
                then ok (
                    remove_blocked_key_from_list
                      (sequences sort)
                      key
                      (record s { esis_sexpecting_keys = ws }))
                else wake_esi
                    (sequences sort)
                    setup
                    fd
                    key
                    was_a_store
                    (record s { esis_sexpecting_keys = ws }))
        released (inl e) =
            rw e
              (keeps_removal sort ws true key _ (InOrder-none fd ws v e taken, λ d k. omega arith))
        released (inr e) = rw e (
            wake_esi-Released fd key was_a_store s ws v
              (ground (
                arith,
                esi_fd_to_unlock-waits fd key s.esis_sexpecting_keys refl,
                waits_for-le fd key s.esis_sexpecting_keys,
                v.waits_once fd,
                same_int_iff fd minus_one,
                g,
              ))
              taken)
