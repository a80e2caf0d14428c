-- ===== src/Planner/DeathInv.antt =====
-- planificador/planificador.c: `release_resources` and `sock_my_port`, and the order of the lists.
use tp_so_1c.Prelude.{
  ℕ, ◌-◌, ◌≤◌, ◌<◌, ◌≡◌, refl, sym, subst, ℤ, minus_one, same_int, same_int_iff, hits, unit_at,
  hits-remove_first, hits-find, arith, List, [], ◌∷◌, true, keep, remove_first, String,
}
use tp_so_1c.Outcome.{Outcome, ok, crash, hang, Settles}
use tp_so_1c.Commons.{ListLib, Documented, Documented-eq, Sort, sequences, All}
use tp_so_1c.Planner.State.{Planner, KeyBlocker, EsiSexpectingKey, Setup}
use tp_so_1c.Planner.Queues.{remove_fd}
use tp_so_1c.Planner.Keys.{FlagName, update_blocked_esi_queue_flag, esi_fd_to_unlock}
use tp_so_1c.Planner.Death.{release_keys, forget_esi, release_resources, sock_my_port}
use tp_so_1c.Planner.Inv.{Inv, IsWellFormed, IsGone, Ends, Ends-bind, Ends-deref, placed}
use tp_so_1c.Planner.Release.{
  waits_for, Released, esi_fd_to_unlock-waits, update_blocked_esi_queue-Released,
}
use tp_so_1c.Planner.Locks.{
  FewLocks, LosesItsLocks, Leaves, after_death, after_death-LosesItsLocks, sock_my_port-Leaves,
}
use tp_so_1c.Planner.Burial.{left_known, left_waiting, bury_all-eq, buried, InOrder-buried}

-- The ESI waits for none of the keys.
abbrev pub WaitsForNone : ℤ → List EsiSexpectingKey → List KeyBlocker → Type 0
WaitsForNone fd ws = All (λ k. waits_for fd k.key ws ≡ 0)

WaitsForNone-le :
    (fd : ℤ) (ws vs : List EsiSexpectingKey) (ks : List KeyBlocker)
    → ((k : String) → waits_for fd k vs ≤ waits_for fd k ws)
    → WaitsForNone fd ws ks
    → WaitsForNone fd vs ks
WaitsForNone-le fd ws vs [] h w = tt
WaitsForNone-le fd ws vs (k ∷ ks) h w = (omega (arith, h k.key), WaitsForNone-le fd ws vs ks h w.1)

-- The keys that an ESI holds.
abbrev pub held_by : ℤ → List KeyBlocker → List KeyBlocker
held_by fd ks = keep (λ k. same_int k.esi_id fd) ks

-- Whoever is woken by a key that the ESI does not wait for has left no wait behind.
abbrev OthersLeftNone : Sort → ℤ → (ℤ → ℕ) → Type 0
OthersLeftNone sort fd gw =
    (a : ℤ) (key : String) (ws : List EsiSexpectingKey)
    → a ≡ esi_fd_to_unlock (sequences sort) key ws
    → waits_for fd key ws ≡ 0
    → gw minus_one ≡ 0
    → gw a ≡ 0

module _ (sort : Sort) {F : Type 0} (setup : Setup F) (fd : ℤ) {gk gw : ℤ → ℕ} where
  release_keys-Inv :
      OthersLeftNone sort fd gw
      → (flag : FlagName) (ks : List KeyBlocker) (s : Planner F) → Inv gk gw s
      → WaitsForNone fd s.esis_sexpecting_keys ks
      → Ends (Inv gk gw) (release_keys (sequences sort) setup flag ks s)
  unfolding release_keys
  release_keys-Inv others flag [] s v w = v
  release_keys-Inv others flag (k ∷ ks) s v w =
      Ends-bind (Released gk gw s.esis_sexpecting_keys) (Inv gk gw) _ _
        (update_blocked_esi_queue-Released sort setup k.key flag true s v
          (others _ k.key s.esis_sexpecting_keys refl w.0 (omega (arith, v.no_system))))
        λ t r.
          release_keys-Inv others flag ks t r.0
            (WaitsForNone-le fd s.esis_sexpecting_keys t.esis_sexpecting_keys ks (r.1 fd) w.1)

module _ (sort : Sort) (fd : ℤ) where
  left_waiting-others :
      (bq : List ℤ) (a : ℤ) (key : String) (ws : List EsiSexpectingKey)
      → a ≡ esi_fd_to_unlock (sequences sort) key ws
      → waits_for fd key ws ≡ 0
      → left_waiting fd bq minus_one ≡ 0
      → left_waiting fd bq a ≡ 0
  left_waiting-others bq a key ws e h g = ground (
    arith,
    esi_fd_to_unlock-waits sort a key ws,
    same_int_iff fd a,
    same_int_iff fd minus_one,
    same_int_iff a minus_one,
  )

  -- `release_resources` ends the burial.
  forget_esi-Inv :
      {F : Type 0} (bq : List ℤ) (t : Planner F)
      → placed fd bq ≤ 1
      → Inv (left_known fd) (left_waiting fd bq) t
      → IsWellFormed (forget_esi (sequences sort) fd t)
        × IsGone fd (forget_esi (sequences sort) fd t)
  unfolding forget_esi
  forget_esi-Inv bq t small v = (
    record {
      one_place = λ g. omega (arith, v.one_place g);
      is_known = λ g. ground (arith, v.is_known g, known g);
      waits_once = λ g. ground (arith, v.waits_once g, v.one_place g, waits g, same_int_iff fd g);
      no_system = omega (arith, v.no_system);
    },
    (
      ground (arith, v.one_place fd, same_int_iff fd fd),
      ground (arith, v.one_place fd, v.waits_once fd, waits fd, same_int_iff fd fd),
      ground (arith, v.one_place fd, v.is_known fd, known fd, same_int_iff fd fd),
    ),
  )
    where
      waits :
          (g : ℤ)
          → hits (λ e. e.esi_fd) g (remove_first (λ e. same_int e.esi_fd fd) t.esis_sexpecting_keys)
            ≡ hits (λ e. e.esi_fd) g t.esis_sexpecting_keys - unit_at fd g
      waits g = hits-remove_first (λ e. e.esi_fd) fd g t.esis_sexpecting_keys

      known :
          (g : ℤ)
          → hits (λ e. e.esi_id) g (remove_first (λ e. same_int e.esi_id fd) t.esi_bursts)
            ≡ hits (λ e. e.esi_id) g t.esi_bursts - unit_at fd g
      known g = hits-remove_first (λ e. e.esi_id) fd g t.esi_bursts

  abbrev Buried : {F : Type 0} → Planner F → Type 0
  Buried t = IsWellFormed t × IsGone fd t

  -- The whole death of an ESI that does not wait for a key of its own.
  pub sock_my_port-Buried :
      {F : Type 0} (setup : Setup F) (s : Planner F)
      → IsWellFormed s
      → 0 < hits (λ e. e.esi_id) fd s.esi_bursts
      → WaitsForNone fd s.esis_sexpecting_keys (held_by fd s.locked_keys)
      → Ends Buried (sock_my_port (sequences sort) setup fd s)
  unfolding sock_my_port release_resources remove_fd
  sock_my_port-Buried setup s v h w =
      let (X, b) = bury_all-eq sort fd s in
      rw b (
        Ends-deref Buried _ _ (hits-find (λ e. e.esi_id) fd s.esi_bursts h) λ _.
          Ends-bind Buried Buried _ _
            (Ends-deref Buried _ _ (hits-find (λ e. e.esi_id) fd s.esi_bursts h) λ _.
              Ends-bind (Inv (left_known fd) (left_waiting fd s.blocked_queue)) Buried _ _
                (release_keys-Inv sort setup fd (left_waiting-others s.blocked_queue)
                  update_blocked_esi_queue_flag (held_by fd s.locked_keys) (buried sort fd s X)
                  (InOrder-buried sort fd v h) w)
                (λ t i. forget_esi-Inv s.blocked_queue t (omega (arith, v.one_place fd)) i))
            (λ t i. i))

Ends-and :
    {A : Type 0} (P Q R : A → Type 0) (m : Outcome A)
    → Ends P m
    → Settles Q m
    → ((a : A) → P a → Q a → R a)
    → Ends R m
Ends-and P Q R (ok a) h k both = both a h k
Ends-and P Q R crash h k both = h
Ends-and P Q R hang h k both = h

-- The death of an ESI in a well-formed scheduler that knows it ends without a null pointer, if it does
-- not wait for a key that it holds itself, and every key is locked once at most or the ESI has one lock
-- at most. The scheduler is well formed afterwards, and the ESI is in none of the four queues of the
-- living, waits for nothing, and nothing is known of it; it has no lock left, and each key that it had
-- not locked is locked as often as before.
pub sock_my_port-IsGone :
    {lib : ListLib} {F : Type 0} (setup : Setup F) (fd : ℤ) (s : Planner F)
    → Documented lib
    → IsWellFormed s
    → 0 < hits (λ e. e.esi_id) fd s.esi_bursts
    → WaitsForNone fd s.esis_sexpecting_keys (held_by fd s.locked_keys)
    → FewLocks fd s.locked_keys
    → Ends
        (λ t. IsWellFormed t × IsGone fd t × LosesItsLocks fd s.locked_keys t.locked_keys)
        (sock_my_port lib setup fd s)
sock_my_port-IsGone {lib} setup fd s manual v h w few =
    let sort : Sort = λ A. lib.list_sort {A = A} in
    rw (Documented-eq manual) (
      Ends-and (λ t. IsWellFormed t × IsGone fd t)
        (λ t.
          Leaves sort setup (after_death fd s.locked_keys)
            (remove_first (λ e. same_int e.esi_id fd) s.esi_bursts) t
          × (0 < hits (λ e. e.esi_id) fd s.esi_bursts))
        (λ t. IsWellFormed t × IsGone fd t × LosesItsLocks fd s.locked_keys t.locked_keys)
        (sock_my_port (sequences sort) setup fd s) (sock_my_port-Buried sort fd setup s v h w)
        (sock_my_port-Leaves sort setup fd s)
        λ t (good, gone) (left, _). (
          good,
          gone,
          subst (LosesItsLocks fd s.locked_keys) (sym left.0)
              (after_death-LosesItsLocks fd s.locked_keys few),
        ))
