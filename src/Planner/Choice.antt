-- ===== src/Planner/Choice.antt =====
-- planificador/planificador.c: what `schedule_esis` chooses.
use tp_so_1c.Prelude.{
  ◌<◌, ◌≡◌, refl, ℤ, same_int, same_int_iff, arith, some, List, [], ◌∷◌, Bool, true, false,
  find_first, count_if, ◌⊎◌, inl, inr, ◌∙◌, sym, fold, Bool-cases, zero,
}
use tp_so_1c.Outcome.{ok, ◌>>=◌, deref}
use tp_so_1c.Commons.{Sort, Ordered, Before, sequences, All}
use tp_so_1c.Floats.{FloatLib}
use tp_so_1c.Planner.State.{Planner, EsiInformation}
use tp_so_1c.Planner.Queues.{obtain_esi_information_by_id}
use tp_so_1c.Planner.Schedule.{compare_esis}
use tp_so_1c.Planner.Inv.{Ends, Ends-deref, placed}

pub All-of_placed : {P : ℤ → Type 0} (xs : List ℤ) → ((g : ℤ) → 0 < placed g xs → P g) → All P xs
All-of_placed [] h = tt
All-of_placed (x ∷ xs) h =
    (h x (ground (arith, same_int_iff x x)), All-of_placed xs (λ g m. h g (omega (arith, m))))

placed-of_All : (P : ℤ → Type 0) (xs : List ℤ) (g : ℤ) → All P xs → 0 < placed g xs → P g
placed-of_All P [] g h m = elim m [ ]
placed-of_All P (x ∷ xs) g h m = elim (Bool-cases (same_int x g)) [
  | inl e ↦ rw (← (same_int_iff x g).0 e) h.0
  | inr e ↦ placed-of_All P xs g h.1 (ground arith)
]

module _ (fl : FloatLib) where
  open fl use {Float}

  -- What is known of an ESI.
  abbrev pub IsInformationOf : Planner Float → ℤ → EsiInformation Float → Type 0
  IsInformationOf s fd e = find_first (λ x. same_int x.esi_id fd) s.esi_bursts ≡ some e

  -- The chosen ESI is in the ready queue, of which nobody is lost, and `Better` holds between it and
  -- whoever else is ready.
  pub record IsChoice (Better : EsiInformation Float → EsiInformation Float → Type 0)
      (s : Planner Float) (r : ℤ × Planner Float) : Type 0 where
    pub is_ready : 0 < placed r.0 s.ready_queue
    pub same_esis : (p : ℤ → Bool) → count_if p r.1.ready_queue ≡ count_if p s.ready_queue
    pub only_the_queue : r.1 ≡ record s { ready_queue = r.1.ready_queue }
    pub is_best :
        (g : ℤ)
        → 0 < placed g s.ready_queue
        → (g ≡ r.0)
          ⊎ ((e f : EsiInformation Float) × IsInformationOf s r.0 e
              × IsInformationOf s g f
              × Better e f)

  -- Something is known of the ESI, and it is good.
  abbrev pub IsKnown : Planner Float → (EsiInformation Float → Type 0) → ℤ → Type 0
  IsKnown s IsGood fd = (e : EsiInformation Float) × IsInformationOf s fd e × IsGood e

module _ (fl : FloatLib) (sort : Sort) where
  open fl use {Float}

  pub fold-known :
      (s u : Planner Float) (xs : List ℤ)
      → All (λ g. (e : EsiInformation Float) × IsInformationOf fl s g e) xs
      → fold
          (λ t fd. do
            u ← t
            esi_inf ← deref (find_first (λ x. same_int x.esi_id fd) s.esi_bursts)
            ok u)
          (ok u)
          xs
        ≡ ok u
  fold-known s u [] h = refl
  fold-known s u (x ∷ xs) h = rw h.0.1 (fold-known s u xs h.1)

  -- The comparator of the sort, and what it means of the two ESIs.
  module _ (s : Planner Float) (IsGood : EsiInformation Float → Type 0)
      (before : ℤ → EsiInformation Float → EsiInformation Float → Bool)
      (Better : EsiInformation Float → EsiInformation Float → Type 0) where
    pub compare_esis-known :
        (a b : ℤ) (e f : EsiInformation Float)
        → IsInformationOf fl s a e
        → IsInformationOf fl s b f
        → compare_esis fl (sequences sort) before s a b ≡ before b e f
    unfolding compare_esis
    compare_esis-known a b e f p q = rw (p, compare_esis) (rw (q, compare_esis))

    pub IsChoice-of_sorted :
        (ys : List ℤ)
        → ((p : ℤ → Bool) → count_if p ys ≡ count_if p s.ready_queue)
        → 0 < count_if (λ _. true) s.ready_queue
        → ((g : ℤ) → 0 < placed g s.ready_queue → IsKnown fl s IsGood g)
        → Ordered (compare_esis fl (sequences sort) before s) ys
        → ((a b : ℤ) (e f : EsiInformation Float)
            → IsGood e
            → IsGood f
            → before b e f ≡ true
            → Better e f)
        → Ends (IsChoice fl Better s) (do
          fd ← deref ((sequences sort).list_get ys zero)
          esi_inf ←
              deref
                (obtain_esi_information_by_id (sequences sort) fd (record s { ready_queue = ys }))
          ok (fd, record s { ready_queue = ys }))
    unfolding obtain_esi_information_by_id
    IsChoice-of_sorted [] same some_ready known order mean =
        absurd (omega (arith, same (λ _. true)))
    IsChoice-of_sorted (y ∷ ys) same some_ready known order mean =
        Ends-deref (IsChoice fl Better s) _ _ (k.0, k.1)
          λ _. record {
            is_ready = here;
            same_esis = same;
            only_the_queue = refl;
            is_best = λ g m. best g m (Bool-cases (same_int y g));
          }
      where
        here : 0 < placed y s.ready_queue
        here = ground (arith, same (λ x. same_int x y), same_int_iff y y)

        k : IsKnown fl s IsGood y
        k = known y here

        better :
            (g : ℤ)
            → 0 < placed g s.ready_queue
            → Before (compare_esis fl (sequences sort) before s) y g
            → (g ≡ y)
              ⊎ ((e f : EsiInformation Float) × IsInformationOf fl s y e
                  × IsInformationOf fl s g f
                  × Better e f)
        better g m (inl c) =
            let l = known g m in
            inr (
              k.0,
              l.0,
              k.1,
              l.1,
              mean y g k.0 l.0 k.2 l.2 (sym (compare_esis-known y g k.0 l.0 k.1 l.1) ∙ c),
            )
        better g m (inr e) = inl (sym e)

        best :
            (g : ℤ)
            → 0 < placed g s.ready_queue
            → (same_int y g ≡ true) ⊎ (same_int y g ≡ false)
            → (g ≡ y)
              ⊎ ((e f : EsiInformation Float) × IsInformationOf fl s y e
                  × IsInformationOf fl s g f
                  × Better e f)
        best g m (inl e) = inl (sym ((same_int_iff y g).0 e))
        best g m (inr e) = better g m (
            placed-of_All (Before (compare_esis fl (sequences sort) before s) y) ys g order.0
              (ground (arith, same (λ x. same_int x g))))
