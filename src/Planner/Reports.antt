-- ===== src/Planner/Reports.antt =====
-- planificador/consola.c: what the search for deadlocks makes of an ESI.
use tp_so_1c.Prelude.{
  ℕ, suc, ◌<◌, ◌≤◌, ◌≡◌, ◌⊎◌, inl, inr, refl, sym, ap, ◌∙◌, subst, arith, ℤ, pos, same_int,
  same_int_iff, same_key, eq_iff, String, List, [], ◌∷◌, Bool, true, false, not, ◌&&◌, Bool-cases,
  Option, none, some, Option-cases, find_first, update_first, any, if◌then◌else◌,
}
use tp_so_1c.Outcome.{Outcome, ok, ◌>>=◌, deref}
use tp_so_1c.Commons.{ListLib, Documented, Documented-eq, Sort, sequences, All}
use tp_so_1c.Planner.State.{KeyBlocker, EsiSexpectingKey}
use tp_so_1c.Planner.Locks.{locks}
use tp_so_1c.Planner.Deadlock.{
  EsiInDeadlock, esi_asks_for_a_key, obtain_esi_request, obtain_key_owner, matches_first,
  next_owner, current_esi_cycle, apply_state, analyze,
}
use tp_so_1c.Planner.Circles.{bind-ok, Walk, WaitsFor, current_esi_cycle-Stops}

-- The ESI has a state among those that are analysed.
abbrev pub HasState : ℤ → List EsiInDeadlock → ℤ → Type 0
HasState state esis a =
    (e : EsiInDeadlock) × (find_first (λ x. same_int x.esi_id a) esis ≡ some e
      × e.esi_state ≡ state)

abbrev marked : ℤ → ℤ → List EsiInDeadlock → List EsiInDeadlock
marked state id esis =
    update_first (λ e. same_int e.esi_id id) (λ e. record e { esi_state = state }) esis

HasState-cons :
    (state : ℤ) (x : EsiInDeadlock) (xs : List EsiInDeadlock) (a : ℤ)
    → same_int x.esi_id a ≡ false
    → HasState state xs a
    → HasState state (x ∷ xs) a
HasState-cons state x xs a h (e, (found, marks)) = (e, (rw h found, marks))

marked-HasState :
    (state id : ℤ) (esis : List EsiInDeadlock) (e : EsiInDeadlock)
    → find_first (λ x. same_int x.esi_id id) esis ≡ some e
    → HasState state (marked state id esis) id
marked-HasState state id [] e h = ground arith
marked-HasState state id (x ∷ xs) e h = elim (Bool-cases (same_int x.esi_id id)) [
  | inl c ↦ rw c (record x { esi_state = state }, (rw c refl, refl))
  | inr c ↦ rw c (
      HasState-cons state x (marked state id xs) id c
        (marked-HasState state id xs e (ground (arith, h, c))))
]

marked-keeps :
    (state id a : ℤ) (esis : List EsiInDeadlock)
    → HasState state esis a
    → HasState state (marked state id esis) a
marked-keeps state id a [] h = h
marked-keeps state id a (x ∷ xs) (e, (found, marks)) = elim (Bool-cases (same_int x.esi_id id)) [
  | inl c ↦ rw c (elim (Bool-cases (same_int x.esi_id a)) [
    | inl d ↦ (record x { esi_state = state }, (rw d refl, refl))
    | inr d ↦ (e, (rw d (ground (arith, found, d)), marks))
  ])
  | inr c ↦ rw c (elim (Bool-cases (same_int x.esi_id a)) [
    | inl d ↦ (e, (rw d (ground (arith, found, d)), marks))
    | inr d ↦
        HasState-cons state x (marked state id xs) a d
          (marked-keeps state id a xs (e, (ground (arith, found, d), marks)))
  ])
]

ok-injective : {A : Type 0} (a b : A) → ok a ≡ ok b → a ≡ b
ok-injective a b h = ground (arith, h)

deref-ok : {A : Type 0} (o : Option A) (x : A) → deref o ≡ ok x → o ≡ some x
deref-ok none x h = ground arith
deref-ok (some a) x h = ground (arith, h)

any-locks :
    (key : String) (owner : ℤ) (ks : List KeyBlocker)
    → any (λ k. same_int k.esi_id owner && same_key key k.key) ks ≡ true
    → 0 < locks key ks
any-locks key owner [] held = ground arith
any-locks key owner (k ∷ ks) held =
    ground (arith, held, eq_iff key k.key, eq_iff k.key key, any-locks key owner ks)

-- The owner of a key's first lock, where there is one lock at most.
only_lock :
    (key : String) (owner : ℤ) (ks : List KeyBlocker)
    → locks key ks ≤ 1
    → any (λ k. same_int k.esi_id owner && same_key key k.key) ks ≡ true
    → (k : KeyBlocker) × (find_first (λ j. same_key j.key key) ks ≡ some k × k.esi_id ≡ owner)
only_lock key owner [] h held = ground arith
only_lock key owner (k ∷ ks) h held = elim (Bool-cases (same_key k.key key)) [
  | inl e ↦ (
    k,
    (
      rw e refl,
      ground (
        arith,
        h,
        e,
        held,
        any-locks key owner ks,
        eq_iff key k.key,
        same_int_iff k.esi_id owner,
      ),
    ),
  )
  | inr e ↦
      let (j, (found, owned)) =
        only_lock key owner ks (ground (arith, h, e))
          (ground (arith, held, e, eq_iff key k.key, eq_iff k.key key)) in
      (j, (rw e found, owned))
]

test-cases :
    {B : Type 0} (test : Bool) (stop m : Outcome B) (r : B)
    → (if not test then stop else m) ≡ ok r
    → (test ≡ false × stop ≡ ok r) ⊎ (test ≡ true × m ≡ ok r)
test-cases false stop m r h = inl (refl, h)
test-cases true stop m r h = inr (refl, h)

module _ (sort : Sort) (locked_keys : List KeyBlocker) (esi_requests : List EsiSexpectingKey) where
  apply_state-keeps :
      (state a : ℤ) (ids : List ℤ) (esis after : List EsiInDeadlock)
      → apply_state (sequences sort) locked_keys esi_requests state ids esis ≡ ok after
      → HasState state esis a
      → HasState state after a
  unfolding apply_state
  apply_state-keeps state a [] esis after h k =
      subst (λ l. HasState state l a) (ground (arith, h)) k
  apply_state-keeps state a (id ∷ ids) esis after h k =
      let q = bind-ok (deref (find_first (λ e. same_int e.esi_id id) esis)) _ after h in
      apply_state-keeps state a ids (marked state id esis) after q.1.1
        (marked-keeps state id a esis k)

  -- All ESIs of the list get the state.
  apply_state-HasState :
      (state : ℤ) (ids : List ℤ) (esis after : List EsiInDeadlock)
      → apply_state (sequences sort) locked_keys esi_requests state ids esis ≡ ok after
      → All (HasState state after) ids
  unfolding apply_state
  apply_state-HasState state [] esis after h = tt
  apply_state-HasState state (id ∷ ids) esis after h =
      let (x, (found, later)) =
        bind-ok (deref (find_first (λ e. same_int e.esi_id id) esis)) _ after h in
      (
        apply_state-keeps state id ids (marked state id esis) after later
            (marked-HasState state id esis x (deref-ok _ x found)),
        apply_state-HasState state ids (marked state id esis) after later,
      )

  -- Where the ESIs of a way have been marked.
  marked-result :
      (state : ℤ) (number : ℕ) (cycle ids : List ℤ) (esis : List EsiInDeadlock)
      (r : ℕ × List EsiInDeadlock)
      → cycle ≡ ids
      → (apply_state (sequences sort) locked_keys esi_requests state cycle esis >>= λ after.
          ok (number, after))
        ≡ ok r
      → (r.0 ≡ number) × All (HasState state r.1) ids
  marked-result state number cycle ids esis r all h =
      let (after, (applied, result)) =
        bind-ok (apply_state (sequences sort) locked_keys esi_requests state cycle esis) _ r h in
      let same : (number, after) ≡ r = ok-injective _ r result in
      (
        sym (ap (λ p. p.0) same),
        subst (λ l. All (HasState state l) ids) (ap (λ p. p.1) same)
            (subst (All (HasState state after)) all
              (apply_state-HasState state cycle esis after applied)),
      )

  -- The ESI waits for the first one that asks, where every key is locked once at most.
  matches_first-WaitsFor :
      (first_esi a : ℤ)
      → ((key : String) → locks key locked_keys ≤ 1)
      → matches_first (sequences sort) locked_keys esi_requests first_esi a ≡ true
      → WaitsFor (sequences sort) locked_keys esi_requests a first_esi
  unfolding matches_first next_owner obtain_esi_request obtain_key_owner
  matches_first-WaitsFor first_esi a once h =
      elim (Option-cases (find_first (λ e. same_int e.esi_fd a) esi_requests)) [
        | inl e ↦
            let none_asks : matches_first (sequences sort) locked_keys esi_requests first_esi a
                ≡ false =
              rw (e, matches_first) refl in
            absurd (ground (arith, h, none_asks))
        | inr (request, e) ↦
            let asks : matches_first (sequences sort) locked_keys esi_requests first_esi a
                ≡ any (λ k. same_int k.esi_id first_esi && same_key request.key k.key) locked_keys =
              rw (e, matches_first) refl in
            let (k, (found, owned)) =
              only_lock request.key first_esi locked_keys (once request.key) (sym asks ∙ h) in
            rw (e, found) (ap ok owned)
      ]

-- What a turn of the search makes of an ESI: it asks for no key; or a way of ESIs, each of which waits
-- for the next, leads from it to one that asks for no key, and then none of them is in a deadlock; or
-- the last one of the way waits for the first, and then all of them are in the next deadlock.
abbrev pub Analyzed :
    ListLib → List KeyBlocker → List EsiSexpectingKey → ℤ → ℕ → ℕ × List EsiInDeadlock → Type 0
Analyzed lib locked_keys esi_requests esi_id deadlocks (number, after) =
    ((esi_asks_for_a_key lib locked_keys esi_requests esi_id ≡ false) × (number ≡ deadlocks))
    ⊎ ((path : List ℤ) × (last : ℤ) × (Walk lib locked_keys esi_requests esi_id path last
          × (((esi_asks_for_a_key lib locked_keys esi_requests last ≡ false)
                × (number ≡ deadlocks)
                × All (HasState (pos 0) after) (esi_id ∷ path))
              ⊎ (WaitsFor lib locked_keys esi_requests last esi_id
                  × (number ≡ suc deadlocks)
                  × All (HasState (pos (suc deadlocks)) after) (esi_id ∷ path)))))

module _ (sort : Sort) (locked_keys : List KeyBlocker) (esi_requests : List EsiSexpectingKey)
    (once : (key : String) → locks key locked_keys ≤ 1) where
  analyze-Analyzed :
      (fuel : ℕ) (esi_id : ℤ) (deadlocks : ℕ) (esis : List EsiInDeadlock)
      (r : ℕ × List EsiInDeadlock)
      → analyze (sequences sort) locked_keys esi_requests fuel esi_id (deadlocks, esis) ≡ ok r
      → Analyzed (sequences sort) locked_keys esi_requests esi_id deadlocks r
  unfolding analyze
  analyze-Analyzed fuel esi_id deadlocks esis r h =
      elim (test-cases (esi_asks_for_a_key (sequences sort) locked_keys esi_requests esi_id) _ _ r
        h) [
          | inl (silent, e) ↦ inl (silent, sym (ap (λ p. p.0) (ok-injective _ r e)))
          | inr (_, m) ↦
              let ((last, cycle), (walks, later)) =
                bind-ok (current_esi_cycle (sequences sort) locked_keys esi_requests fuel esi_id) _
                  r m in
              let (path, (all, walk, stops)) =
                current_esi_cycle-Stops sort locked_keys esi_requests fuel esi_id (last, cycle)
                  walks in
              inr (
                path,
                last,
                (
                  walk,
                  elim (test-cases
                      (esi_asks_for_a_key (sequences sort) locked_keys esi_requests last) _ _ r
                      later) [
                        | inl (silent, e) ↦
                            let (counts, marks) =
                              marked-result sort locked_keys esi_requests (pos 0) deadlocks cycle
                                (esi_id ∷ path) esis r all e in
                            inl (silent, counts, marks)
                        | inr (asks, e) ↦
                            let (counts, marks) =
                              marked-result sort locked_keys esi_requests (pos (suc deadlocks))
                                (suc deadlocks) cycle (esi_id ∷ path) esis r all e in
                            inr (
                              matches_first-WaitsFor sort locked_keys esi_requests esi_id last once
                                  (stops asks),
                              counts,
                              marks,
                            )
                      ],
                ),
              )
        ]

-- Where every key is locked once at most, a turn of the search that ends has met an ESI that asks for
-- no key, and counts no deadlock; or it has gone from the ESI to others, each of which waits for the
-- next. Then it counts a deadlock, and gives its number to all of them, where the last one waits for
-- the first, so that they wait in a circle; and it counts none, and gives them all a 0, where the last
-- one asks for no key.
pub analyze_reports :
    (lib : ListLib)
    → Documented lib
    → (locked_keys : List KeyBlocker) (esi_requests : List EsiSexpectingKey)
    → ((key : String) → locks key locked_keys ≤ 1)
    → (fuel : ℕ) (esi_id : ℤ) (deadlocks : ℕ) (esis : List EsiInDeadlock)
      (r : ℕ × List EsiInDeadlock)
    → analyze lib locked_keys esi_requests fuel esi_id (deadlocks, esis) ≡ ok r
    → Analyzed lib locked_keys esi_requests esi_id deadlocks r
analyze_reports lib manual locked_keys esi_requests once fuel esi_id deadlocks esis r =
    subst
      (λ l.
        analyze l locked_keys esi_requests fuel esi_id (deadlocks, esis) ≡ ok r
        → Analyzed l locked_keys esi_requests esi_id deadlocks r)
      (sym (Documented-eq manual))
      (analyze-Analyzed (λ A. lib.list_sort {A = A}) locked_keys esi_requests once fuel esi_id
        deadlocks esis r)
