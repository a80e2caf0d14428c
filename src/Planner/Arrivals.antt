-- ===== src/Planner/Arrivals.antt =====
-- planificador/planificador.c: a client that connects.
use tp_so_1c.Prelude.{
  ◌+◌, ◌≡◌, ◌≢◌, refl, ℤ, pos, minus_one, same_int_iff, hits, unit_at, hits-add, arith, List, [],
  ◌∷◌, ◌++◌, Bool, Bool-cases, inl, inr,
}
use tp_so_1c.Commons.{ListLib, Documented, Documented-eq, Sort, sequences}
use tp_so_1c.Floats.{FloatLib}
use tp_so_1c.Planner.State.{Planner, Setup, EsiInformation, EsiSexpectingKey}
use tp_so_1c.Planner.Queues.{
  remove_fd, we_must_reschedule_if, put_new_esi_on_new_queue, we_must_reschedule,
}
use tp_so_1c.Planner.Keys.{algorithm_is_preemptive}
use tp_so_1c.Planner.Loop.{accept_esi, create_esi_information}
use tp_so_1c.Planner.Inv.{InOrder, IsWellFormed, IsGone, no_one, placed}

-- An ESI of which nothing is known joins the new queue.
InOrder-new :
    {F : Type 0} (fd : ℤ) {nq rq eq bq : List ℤ} {ws : List EsiSexpectingKey}
    {bs : List (EsiInformation F)} (e : EsiInformation F)
    → e.esi_id ≡ fd
    → InOrder no_one no_one nq rq eq bq ws bs
    → hits (λ x. x.esi_id) fd bs ≡ 0
    → fd ≢ minus_one
    → InOrder no_one no_one (nq ++ fd ∷ []) rq eq bq ws (bs ++ e ∷ [])
InOrder-new fd {nq} {bs = bs} e named v unknown no_system = record {
  one_place = λ g. ground (arith, joins g, v.one_place g, v.is_known g, same_int_iff fd g);
  is_known = λ g. ground (arith, joins g, v.is_known g, hits-add (λ x. x.esi_id) g bs e, named);
  waits_once = v.waits_once;
  no_system = ground (arith, joins minus_one, v.no_system, same_int_iff fd minus_one);
}
  where
    joins : (g : ℤ) → placed g (nq ++ fd ∷ []) ≡ placed g nq + unit_at fd g
    joins g = hits-add (λ x. x) g nq fd

module _ (sort : Sort) (fl : FloatLib) (setup : Setup fl.Float) where
  accept_esi-IsWellFormed-sequences :
      (fd : ℤ) (handshake : Bool) (s : Planner fl.Float)
      → IsWellFormed s
      → IsGone fd s
      → fd ≢ minus_one
      → IsWellFormed (accept_esi fl (sequences sort) setup fd handshake s)
  unfolding accept_esi remove_fd put_new_esi_on_new_queue create_esi_information
      we_must_reschedule_if we_must_reschedule
  accept_esi-IsWellFormed-sequences fd handshake s v gone no_system =
      let joined =
        InOrder-new fd
          (create_esi_information fl (sequences sort) setup fd (pos s.next_numeric_name)) refl v
          gone.2 no_system in
      elim (Bool-cases (algorithm_is_preemptive setup)) [
        | inl e ↦ elim (Bool-cases handshake) [
          | inl h ↦ rw e (rw h joined)
          | inr h ↦ rw e (rw h joined)
        ]
        | inr e ↦ elim (Bool-cases handshake) [
          | inl h ↦ rw e (rw h joined)
          | inr h ↦ rw e (rw h joined)
        ]
      ]

module _ {lib : ListLib} (manual : Documented lib) (fl : FloatLib) (setup : Setup fl.Float) where
  -- A client whose descriptor is no -1 and which stands in no queue, waits for nothing and is unknown
  -- joins a well-formed scheduler: whether or not its handshake succeeds, the scheduler stays well
  -- formed.
  pub accept_esi-IsWellFormed :
      (fd : ℤ) (handshake : Bool) (s : Planner fl.Float)
      → IsWellFormed s
      → IsGone fd s
      → fd ≢ minus_one
      → IsWellFormed (accept_esi fl lib setup fd handshake s)
  accept_esi-IsWellFormed fd handshake s v gone no_system = rw (Documented-eq manual) (
      accept_esi-IsWellFormed-sequences (λ A. lib.list_sort {A = A}) fl setup fd handshake s v gone
        no_system)
