-- ===== src/Planner/Stops.antt =====
-- planificador/planificador.c: the executing ESI answers `I_AM_BLOCKED`.
use tp_so_1c.Prelude.{
  ◌+◌, ◌<◌, ◌≡◌, refl, ℤ, minus_one, same_int, same_int_iff, hits, unit_at, hits-add,
  hits-remove_first, hits-find, arith, String, some, ◌⊎◌, ◌∙◌, List, [], ◌∷◌, ◌++◌, Bool, true,
  ◌&&◌, count_if-append, same_key, eq_iff, remove_first, update_first, inl, inr,
}
use tp_so_1c.Commons.{ListLib, Documented, Documented-eq, Sort, sequences}
use tp_so_1c.Floats.{FloatLib}
use tp_so_1c.Planner.State.{Planner, Setup, EsiInformation, EsiSexpectingKey}
use tp_so_1c.Planner.Queues.{
  move_esi_from_and_to_queue, obtain_esi_information_by_id, we_must_reschedule,
  update_esi_information_next_estimated_burst, write_esi_information,
}
use tp_so_1c.Planner.Keys.{add_esi_sexpecting_key, create_esi_sexpecting_key}
use tp_so_1c.Planner.Schedule.{next_estimated_burst_sjf}
use tp_so_1c.Planner.Loop.{attend_code, i_am_blocked, Received, must_reschedule_if_ready}
use tp_so_1c.Planner.Inv.{InOrder, IsWellFormed, no_one, Ends, Ends-bind, Ends-deref, placed}
use tp_so_1c.Planner.Release.{waits_for, waits_for-le}

-- The ESI goes from the execution queue to the blocked one, and waits for the key.
InOrder-block :
    {F : Type 0} (fd : ℤ) (key : String) {nq rq eq bq : List ℤ} {ws : List EsiSexpectingKey}
    {bs : List (EsiInformation F)}
    → InOrder no_one no_one nq rq eq bq ws bs
    → 0 < placed fd eq
    → InOrder no_one no_one nq rq
        (remove_first (λ e. same_int e fd) eq)
        (bq ++ fd ∷ [])
        (ws ++ create_esi_sexpecting_key fd key ∷ [])
        bs
unfolding create_esi_sexpecting_key
InOrder-block fd key {eq = eq} {bq} {ws} v h = record {
  one_place = λ g. ground (arith, moved g, v.one_place g);
  is_known = λ g. ground (arith, moved g, v.is_known g);
  waits_once = λ g. ground (
    arith,
    moved g,
    v.waits_once g,
    hits-add (λ e. e.esi_fd) g ws (create_esi_sexpecting_key fd key),
  );
  no_system = ground (arith, moved minus_one, v.no_system);
}
  where
    moved :
        (g : ℤ)
        → (placed g (bq ++ fd ∷ []) ≡ placed g bq + unit_at fd g)
          × (placed g (remove_first (λ e. same_int e fd) eq) + unit_at fd g ≡ placed g eq)
    moved g = (
      hits-add (λ e. e) g bq fd,
      ground (arith, same_int_iff fd g, hits-remove_first (λ e. e) fd g eq),
    )

-- A write to what is known of an ESI, which leaves its descriptor, keeps the order.
hits-update_first :
    {F : Type 0} (f : EsiInformation F → EsiInformation F) (a g : ℤ) (bs : List (EsiInformation F))
    → ((e : EsiInformation F) → (f e).esi_id ≡ e.esi_id)
    → hits (λ e. e.esi_id) g (update_first (λ e. same_int e.esi_id a) f bs)
      ≡ hits (λ e. e.esi_id) g bs
hits-update_first f a g [] same = refl
hits-update_first f a g (b ∷ bs) same = ground (arith, hits-update_first f a g bs same, same b)

-- The scheduler is well formed, and the ESI is blocked and waits for the key, each once.
abbrev pub BlocksOn : {F : Type 0} → ℤ → String → Planner F → Type 0
BlocksOn fd key t =
    IsWellFormed t × (placed fd t.blocked_queue ≡ 1) × (waits_for fd key t.esis_sexpecting_keys ≡ 1)

waits_for-add :
    (fd : ℤ) (key : String) (ws : List EsiSexpectingKey)
    → hits (λ e. e.esi_fd) fd ws ≡ 0
    → waits_for fd key (ws ++ create_esi_sexpecting_key fd key ∷ []) ≡ 1
unfolding create_esi_sexpecting_key
waits_for-add fd key ws h = ground (
  arith,
  waits_for-le fd key ws,
  count_if-append (λ e. same_int e.esi_fd fd && same_key e.key key) ws
      (create_esi_sexpecting_key fd key ∷ []),
  same_int_iff fd fd,
  eq_iff key key,
)

empty_or_not : (xs : List ℤ) → (xs ≡ []) ⊎ ((x : ℤ) × (ys : List ℤ) × (xs ≡ x ∷ ys))
empty_or_not [] = inl refl
empty_or_not (x ∷ xs) = inr (x, xs, refl)

module _ (sort : Sort) (fl : FloatLib) (setup : Setup fl.Float) where
  must_reschedule_if_ready-eq :
      (u : Planner fl.Float)
      → (b : Bool) × (must_reschedule_if_ready fl (sequences sort) setup u
          ≡ record u { reschedule_flag = b })
  unfolding must_reschedule_if_ready we_must_reschedule
  must_reschedule_if_ready-eq u = elim (empty_or_not u.ready_queue) [
    | inl e ↦ (u.reschedule_flag, rw e refl)
    | inr (x, xs, e) ↦ (true, rw e refl)
  ]

  attend_code-blocked_sequences :
      (fd : ℤ) (key : String) (second : Received) (s : Planner fl.Float)
      → IsWellFormed s
      → 0 < placed fd s.execution_queue
      → s.last_key_inquired ≡ some key
      → Ends (BlocksOn fd key) (attend_code fl (sequences sort) setup fd i_am_blocked second s)
  unfolding attend_code add_esi_sexpecting_key move_esi_from_and_to_queue
      update_esi_information_next_estimated_burst write_esi_information obtain_esi_information_by_id
  attend_code-blocked_sequences fd key second s v h k = rw k (
      Ends-bind (BlocksOn fd key) _ _ _
        (Ends-deref (BlocksOn fd key) _ _
          (hits-find (λ e. e.esi_id) fd s.esi_bursts (omega (arith, h, v.is_known fd))) λ e. blocks)
        λ u r.
          let (b, e) = must_reschedule_if_ready-eq u in
          rw e (
            Ends-deref (BlocksOn fd key) _ _
              (hits-find (λ e. e.esi_id) fd u.esi_bursts (omega (arith, r.0.is_known fd, r.1)))
              λ _. r))
    where
      e0 : (EsiInformation fl.Float) → (EsiInformation fl.Float)
      e0 e = record e {
        last_estimated_burst =
            next_estimated_burst_sjf fl setup.alpha e.last_real_burst e.last_estimated_burst;
        last_real_burst = 0;
        waited_bursts = 0;
      }

      i :
          InOrder no_one no_one s.new_queue s.ready_queue
            (remove_first (λ e. same_int e fd) s.execution_queue)
            (s.blocked_queue ++ fd ∷ [])
            (s.esis_sexpecting_keys ++ create_esi_sexpecting_key fd key ∷ [])
            s.esi_bursts
      i = InOrder-block fd key v h

      blocks :
          InOrder no_one no_one s.new_queue s.ready_queue
            (remove_first (λ e. same_int e fd) s.execution_queue)
            (s.blocked_queue ++ fd ∷ [])
            (s.esis_sexpecting_keys ++ create_esi_sexpecting_key fd key ∷ [])
            (update_first (λ e'. same_int e'.esi_id fd) e0 s.esi_bursts)
          × (placed fd (s.blocked_queue ++ fd ∷ []) ≡ 1)
          × (waits_for fd key (s.esis_sexpecting_keys ++ create_esi_sexpecting_key fd key ∷ []) ≡ 1)
      blocks = (
        record {
          one_place = i.one_place;
          is_known = λ g. hits-update_first e0 fd g s.esi_bursts (λ e. refl) ∙ i.is_known g;
          waits_once = i.waits_once;
          no_system = i.no_system;
        },
        ground (arith, v.one_place fd, hits-add (λ e. e) fd s.blocked_queue fd, same_int_iff fd fd),
        waits_for-add fd key s.esis_sexpecting_keys
            (ground (arith, v.waits_once fd, v.one_place fd)),
      )

module _ {lib : ListLib} (manual : Documented lib) (fl : FloatLib) (setup : Setup fl.Float) where
  -- An executing ESI of a well-formed scheduler answers that it is blocked on the key that the
  -- coordinator last asked for: the code ends without a null pointer, the scheduler is well formed, and
  -- the ESI stands in the blocked queue once and waits for that key once.
  pub attend_code-blocked :
      (fd : ℤ) (key : String) (second : Received) (s : Planner fl.Float)
      → IsWellFormed s
      → 0 < placed fd s.execution_queue
      → s.last_key_inquired ≡ some key
      → Ends (BlocksOn fd key) (attend_code fl lib setup fd i_am_blocked second s)
  attend_code-blocked fd key second s v h k =
      rw (Documented-eq manual)
        (attend_code-blocked_sequences (λ A. lib.list_sort {A = A}) fl setup fd key second s v h k)
