-- ===== src/Planner/Circles.antt =====
-- planificador/consola.c: the ESIs that the search for deadlocks goes through, and where it does
-- not end.
use tp_so_1c.Prelude.{
  ++-assoc, ++-nil, ℕ, zero, suc, ◌≡◌, refl, sym, ◌∙◌, arith, ℤ, List, [], ◌∷◌, ◌++◌, Bool, true,
  false, not, ◌&&◌, if◌then◌else◌, inl, inr, ◌⊎◌, subst,
}
use tp_so_1c.Outcome.{Outcome, ok, crash, hang, ◌>>=◌}
use tp_so_1c.Commons.{ListLib, Documented, Documented-eq, Sort, sequences}
use tp_so_1c.Planner.State.{KeyBlocker, EsiSexpectingKey}
use tp_so_1c.Planner.Deadlock.{
  esi_asks_for_a_key, matches_first, next_owner, follow, current_esi_cycle,
}

pub bind-ok :
    {A B : Type 0} (m : Outcome A) (f : A → Outcome B) (b : B)
    → m >>= f ≡ ok b
    → (a : A) × (m ≡ ok a × f a ≡ ok b)
bind-ok (ok a) f b h = (a, (refl, h))
bind-ok crash f b h = ground arith
bind-ok hang f b h = ground arith

-- How a turn of the inner loop comes to a result.
step-cases :
    {A B : Type 0} (test : Bool) (m : Outcome A) (f : A → Outcome B) (stop r : B)
    → (if test then m >>= f else ok stop) ≡ ok r
    → (test ≡ false × stop ≡ r) ⊎ ((a : A) × (test ≡ true × m ≡ ok a × f a ≡ ok r))
step-cases false m f stop r h = inl (refl, ground (arith, h))
step-cases true m f stop r h = let q = bind-ok m f r h in inr (q.0, (refl, q.1.0, q.1.1))

module _ (lib : ListLib) (locked_keys : List KeyBlocker)
    (esi_requests : List EsiSexpectingKey) where
  -- The first key that `a` asks for is owned by `b`.
  abbrev pub WaitsFor : ℤ → ℤ → Type 0
  WaitsFor a b = next_owner lib locked_keys esi_requests a ≡ ok b

  -- Each ESI on the way waits for the next one.
  abbrev pub Walk : ℤ → List ℤ → ℤ → Type 0
  Walk a [] c = a ≡ c
  Walk a (b ∷ path) c = WaitsFor a b × Walk b path c

  -- The way from an ESI that the inner loop takes, and why it stops.
  abbrev pub Stops : ℤ → ℤ → List ℤ → ℤ × List ℤ → Type 0
  Stops first_esi esi_id cycle (last, found) =
      (path : List ℤ) × (found ≡ cycle ++ path
        × Walk esi_id path last
        × (esi_asks_for_a_key lib locked_keys esi_requests last ≡ true
            → matches_first lib locked_keys esi_requests first_esi last ≡ true))

  -- ESIs that all ask for a key of one of them, and none for a key of the first ESI.
  abbrev pub Trap : (ℤ → Type 0) → ℤ → Type 0
  Trap P first_esi =
      (a : ℤ)
      → P a
      → esi_asks_for_a_key lib locked_keys esi_requests a ≡ true
        × matches_first lib locked_keys esi_requests first_esi a ≡ false
        × (b : ℤ) × (WaitsFor a b × P b)

module _ (sort : Sort) (locked_keys : List KeyBlocker) (esi_requests : List EsiSexpectingKey) where
  follow-Stops :
      (fuel : ℕ) (first_esi esi_id : ℤ) (cycle : List ℤ) (r : ℤ × List ℤ)
      → follow (sequences sort) locked_keys esi_requests fuel first_esi esi_id cycle ≡ ok r
      → Stops (sequences sort) locked_keys esi_requests first_esi esi_id cycle r
  unfolding follow
  follow-Stops zero first_esi esi_id cycle r h = ground arith
  follow-Stops (suc fuel) first_esi esi_id cycle r h =
      elim (step-cases test (next_owner (sequences sort) locked_keys esi_requests esi_id) onward
        (esi_id, cycle) r h) [
          | inl (stopped, e) ↦
              subst (Stops (sequences sort) locked_keys esi_requests first_esi esi_id cycle) e
                ([], (sym (++-nil cycle), refl, λ asks. ground (arith, stopped, asks)))
          | inr (owner, q) ↦
              let p = follow-Stops fuel first_esi owner (cycle ++ owner ∷ []) r q.2 in
              (owner ∷ p.0, (p.1.0 ∙ ++-assoc cycle (owner ∷ []) p.0, (q.1, p.1.1), p.1.2))
        ]
    where
      test : Bool
      test =
          esi_asks_for_a_key (sequences sort) locked_keys esi_requests esi_id
          && not (matches_first (sequences sort) locked_keys esi_requests first_esi esi_id)

      onward : ℤ → Outcome (ℤ × List ℤ)
      onward owner =
          follow (sequences sort) locked_keys esi_requests fuel first_esi owner
            (cycle ++ owner ∷ [])

  pub current_esi_cycle-Stops :
      (fuel : ℕ) (esi_id : ℤ) (r : ℤ × List ℤ)
      → current_esi_cycle (sequences sort) locked_keys esi_requests fuel esi_id ≡ ok r
      → Stops (sequences sort) locked_keys esi_requests esi_id esi_id (esi_id ∷ []) r
  unfolding current_esi_cycle
  current_esi_cycle-Stops fuel esi_id r h =
      let q =
        bind-ok (next_owner (sequences sort) locked_keys esi_requests esi_id) (onward fuel esi_id) r
          h in
      let p = follow-Stops fuel esi_id q.0 (esi_id ∷ q.0 ∷ []) r q.1.1 in
      (q.0 ∷ p.0, (p.1.0, (q.1.0, p.1.1), p.1.2))
    where
      onward : ℕ → ℤ → ℤ → Outcome (ℤ × List ℤ)
      onward n a b = follow (sequences sort) locked_keys esi_requests n a b (a ∷ b ∷ [])

  follow-Trap :
      (P : ℤ → Type 0) (first_esi : ℤ)
      → Trap (sequences sort) locked_keys esi_requests P first_esi
      → (fuel : ℕ) (esi_id : ℤ) (cycle : List ℤ) → P esi_id
      → follow (sequences sort) locked_keys esi_requests fuel first_esi esi_id cycle ≡ hang
  unfolding follow
  follow-Trap P first_esi trap zero esi_id cycle h = refl
  follow-Trap P first_esi trap (suc fuel) esi_id cycle h =
      let t = trap esi_id h in
      rw (t.0, t.1, t.3.0) (follow-Trap P first_esi trap fuel t.2 (cycle ++ t.2 ∷ []) t.3.1)

  current_esi_cycle-Trap :
      (P : ℤ → Type 0) (esi_id owner : ℤ)
      → Trap (sequences sort) locked_keys esi_requests P esi_id
      → WaitsFor (sequences sort) locked_keys esi_requests esi_id owner
      → P owner
      → (fuel : ℕ) → current_esi_cycle (sequences sort) locked_keys esi_requests fuel esi_id ≡ hang
  unfolding current_esi_cycle
  current_esi_cycle-Trap P esi_id owner trap w h fuel =
      rw w (follow-Trap P esi_id trap fuel owner (esi_id ∷ owner ∷ []) h)

module _ (lib : ListLib) (manual : Documented lib) (locked_keys : List KeyBlocker)
    (esi_requests : List EsiSexpectingKey) where
  -- The search from an ESI that waits for one of a set of ESIs never ends, where each of the set asks
  -- for a key of one in the set and none of them for a key of the ESI itself: a deadlock that the ESI
  -- waits for and is not a part of.
  pub current_esi_cycle_hangs :
      (P : ℤ → Type 0) (esi_id owner : ℤ)
      → Trap lib locked_keys esi_requests P esi_id
      → WaitsFor lib locked_keys esi_requests esi_id owner
      → P owner
      → (fuel : ℕ) → current_esi_cycle lib locked_keys esi_requests fuel esi_id ≡ hang
  current_esi_cycle_hangs P esi_id owner =
      subst
        (λ l.
          Trap l locked_keys esi_requests P esi_id
          → WaitsFor l locked_keys esi_requests esi_id owner
          → P owner
          → (fuel : ℕ) → current_esi_cycle l locked_keys esi_requests fuel esi_id ≡ hang)
        (sym (Documented-eq manual))
        (current_esi_cycle-Trap (λ A. lib.list_sort {A = A}) locked_keys esi_requests P esi_id
          owner)
