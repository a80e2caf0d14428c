-- ===== src/Planner/Burial.antt =====
-- The death of an ESI, at the console, by its own fault or by a lost socket: its burial in the
-- scheduler's lists.
use tp_so_1c.Prelude.{
  ℕ, ◌-◌, ◌<◌, ◌≡◌, refl, ℤ, minus_one, same_int, same_int_iff, hits, unit_at, hits-remove_first,
  arith, none, List, [], ◌∷◌, ◌++◌, Bool, find_first, remove_first, Option-cases, inl, inr,
  if◌then◌else◌,
}
use tp_so_1c.Commons.{Sort, sequences}
use tp_so_1c.Planner.State.{
  QueueName, queue, set_queue, Planner, EsiInformation, EsiSexpectingKey, new, ready, execution,
  blocked, finished,
}
use tp_so_1c.Planner.Death.{bury_esi}
use tp_so_1c.Planner.Inv.{InOrder, no_one, placed}

remove_first-none {ℓ} :
    {A : Type ℓ} (p : A → Bool) (xs : List A) → find_first p xs ≡ none → remove_first p xs ≡ xs
remove_first-none p [] h = refl
remove_first-none p (x ∷ xs) h = ground (arith, remove_first-none p xs)

-- A queue without the first entry of an ESI.
abbrev pub without : ℤ → List ℤ → List ℤ
without fd q = remove_first (λ e. same_int e fd) q

-- What an ESI that is being buried leaves behind: what is known of it, and its wait for a key.
abbrev pub left_known : ℤ → ℤ → ℕ
left_known fd = unit_at fd

abbrev pub left_waiting : ℤ → List ℤ → ℤ → ℕ
left_waiting fd bq g = if same_int fd g then placed fd bq else 0

restore :
    {F : Type 0} (q : QueueName) (s : Planner F)
    → s ≡ set_queue finished s.finished_queue (set_queue q (queue q s) s)
restore new s = refl
restore ready s = refl
restore execution s = refl
restore blocked s = refl
restore finished s = refl

module _ (sort : Sort) (fd : ℤ) {F : Type 0} where
  -- A burial takes the ESI out of a queue, and changes the finished queue.
  bury_esi-eq :
      (q : QueueName) (s : Planner F)
      → (X : List ℤ) × (bury_esi (sequences sort) q fd s
          ≡ set_queue finished X (set_queue q (without fd (queue q s)) s))
  unfolding bury_esi
  bury_esi-eq q s = elim (Option-cases (find_first (λ e. same_int e fd) (queue q s))) [
    | inl e ↦ (
      s.finished_queue,
      rw (e, bury_esi, remove_first-none (λ e. same_int e fd) (queue q s) e) (restore q s),
    )
    | inr (x, e) ↦
        (queue finished (set_queue q (without fd (queue q s)) s) ++ fd ∷ [], rw (e, bury_esi))
  ]

  -- The scheduler without the ESI in its four queues of the living.
  abbrev pub buried : Planner F → List ℤ → Planner F
  buried s X = record s {
    new_queue = without fd s.new_queue;
    ready_queue = without fd s.ready_queue;
    execution_queue = without fd s.execution_queue;
    blocked_queue = without fd s.blocked_queue;
    finished_queue = X;
  }

  pub bury_all-eq :
      (s : Planner F)
      → (X : List ℤ) × (bury_esi (sequences sort) blocked fd (
            bury_esi
              (sequences sort)
              execution
              fd
              (bury_esi (sequences sort) ready fd (bury_esi (sequences sort) new fd s)))
          ≡ buried s X)
  bury_all-eq s =
      let (X, a) = bury_esi-eq new s in
      let (Y, b) =
        bury_esi-eq ready (record s { new_queue = without fd s.new_queue; finished_queue = X }) in
      let (Z, c) = bury_esi-eq execution (record s {
        new_queue = without fd s.new_queue;
        ready_queue = without fd s.ready_queue;
        finished_queue = Y;
      }) in
      let (W, d) = bury_esi-eq blocked (record s {
        new_queue = without fd s.new_queue;
        ready_queue = without fd s.ready_queue;
        execution_queue = without fd s.execution_queue;
        finished_queue = Z;
      }) in
      (W, rw (a, b, c, d))

  -- The four burials take the ESI out of all four queues.
  pub InOrder-buried :
      {nq rq eq bq : List ℤ} {ws : List EsiSexpectingKey} {bs : List (EsiInformation F)}
      → InOrder no_one no_one nq rq eq bq ws bs
      → 0 < hits (λ e. e.esi_id) fd bs
      → InOrder
          (left_known fd)
          (left_waiting fd bq)
          (without fd nq)
          (without fd rq)
          (without fd eq)
          (without fd bq)
          ws
          bs
  InOrder-buried {nq} {rq} {eq} {bq} v h = record {
    one_place = λ g. ground (arith, gone g nq, gone g rq, gone g eq, gone g bq, v.one_place g);
    is_known = λ g. ground (
      arith,
      gone g nq,
      gone g rq,
      gone g eq,
      gone g bq,
      v.is_known g,
      v.one_place g,
      same_int_iff fd g,
    );
    waits_once = λ g. ground (arith, gone g bq, v.waits_once g, same_int_iff fd g, v.one_place g);
    no_system = ground (
      arith,
      gone minus_one nq,
      gone minus_one rq,
      gone minus_one eq,
      gone minus_one bq,
      v.no_system,
      same_int_iff fd minus_one,
    );
  }
    where
      gone : (g : ℤ) (q : List ℤ) → placed g (without fd q) ≡ placed g q - unit_at fd g
      gone g q = hits-remove_first (λ e. e) fd g q
