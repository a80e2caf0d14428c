-- ===== src/Planner/Inv.antt =====
-- The well-formedness of the scheduler's lists, and what the moves between queues do to it.
use tp_so_1c.Prelude.{ℕ, ◌+◌, ◌≤◌, ◌≡◌, ℤ, minus_one, hits, some, none, Option, List}
use tp_so_1c.Outcome.{Outcome, ok, crash, hang, ◌>>=◌, deref}
use tp_so_1c.Planner.State.{Planner, EsiInformation, EsiSexpectingKey, EsiSexpectingKey}

-- The run ends with a result that meets `P`.
abbrev pub Ends {ℓ} : {A : Type ℓ} → (A → Type 0) → Outcome A → Type 0
Ends P (ok a) = P a
Ends P crash = ⊥
Ends P hang = ⊥

pub Ends-bind {ℓ} :
    {A B : Type ℓ} (P : A → Type 0) (Q : B → Type 0) (m : Outcome A) (f : A → Outcome B)
    → Ends P m
    → ((a : A) → P a → Ends Q (f a))
    → Ends Q (m >>= f)
Ends-bind P Q (ok a) f h k = k a h
Ends-bind P Q crash f h k = elim h [ ]
Ends-bind P Q hang f h k = elim h [ ]

-- How often an ESI stands in a queue.
abbrev pub placed : ℤ → List ℤ → ℕ
placed = hits (λ e. e)

-- A pointer that is not NULL.
pub Ends-deref {ℓ} :
    {A B : Type ℓ} (Q : B → Type 0) (o : Option A) (f : A → Outcome B)
    → (a : A) × (o ≡ some a)
    → ((a : A) → Ends Q (f a))
    → Ends Q (deref o >>= f)
Ends-deref Q none f h k = cc (h.1)
Ends-deref Q (some a) f h k = k a

pub Ends-mono {ℓ} :
    {A : Type ℓ} (P Q : A → Type 0) (m : Outcome A) → ((a : A) → P a → Q a) → Ends P m → Ends Q m
Ends-mono P Q (ok a) k h = k a h
Ends-mono P Q crash k h = h
Ends-mono P Q hang k h = h

-- An ESI stands in one of the four queues of the living at most, is known while it stands in one, and
-- waits for one key if it is blocked and for none if not. `gk` and `gw` count the entries that an
-- ESI has left behind which is being buried.
pub record InOrder {F : Type 0} (gk gw : ℤ → ℕ) (nq rq eq bq : List ℤ) (ws : List EsiSexpectingKey)
    (bs : List (EsiInformation F)) : Type 0 where
  pub one_place : (fd : ℤ) → placed fd nq + placed fd rq + placed fd eq + placed fd bq + gk fd ≤ 1
  pub is_known :
      (fd : ℤ)
      → hits (λ e. e.esi_id) fd bs
        ≡ placed fd nq + placed fd rq + placed fd eq + placed fd bq + gk fd
  pub waits_once : (fd : ℤ) → hits (λ e. e.esi_fd) fd ws ≡ placed fd bq + gw fd
  pub no_system :
      placed minus_one nq
        + placed minus_one rq
        + placed minus_one eq
        + placed minus_one bq
        + gw minus_one
      ≡ 0

abbrev pub no_one : ℤ → ℕ
no_one _ = 0

module _ {F : Type 0} where
  abbrev pub Inv : (ℤ → ℕ) → (ℤ → ℕ) → Planner F → Type 0
  Inv gk gw s =
      InOrder gk gw s.new_queue s.ready_queue s.execution_queue s.blocked_queue
        s.esis_sexpecting_keys s.esi_bursts

  -- An ESI that stands in no queue of the living, waits for nothing, and of which nothing is known.
  abbrev pub IsGone : ℤ → Planner F → Type 0
  IsGone fd s =
      (placed fd s.new_queue
          + placed fd s.ready_queue
          + placed fd s.execution_queue
          + placed fd s.blocked_queue
        ≡ 0)
      × (hits (λ e. e.esi_fd) fd s.esis_sexpecting_keys ≡ 0)
      × (hits (λ e. e.esi_id) fd s.esi_bursts ≡ 0)

  abbrev pub IsWellFormed : Planner F → Type 0
  IsWellFormed = Inv no_one no_one
