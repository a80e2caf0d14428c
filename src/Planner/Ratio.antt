-- ===== src/Planner/Ratio.antt =====
-- The choice of HRRN, `schedule_esis` in planificador/planificador.c: the greatest response ratio.
use tp_so_1c.Prelude.{◌<◌, ◌≡◌, ℤ, arith, true, count_if, inl, inr, ◌∙◌, sym}
use tp_so_1c.Commons.{ListLib, Documented, Documented-eq, Sort, Sorts, Orders, Before, sequences}
use tp_so_1c.Floats.{FloatLib, IsIeee}
use tp_so_1c.Planner.State.{Planner, Setup, hrrn}
use tp_so_1c.Planner.Schedule.{
  response_ratio, hrrn_before, compare_esis, arrange_ready, schedule_esis,
}
use tp_so_1c.Planner.Inv.{Ends, placed}
use tp_so_1c.Planner.Choice.{IsChoice, IsKnown, compare_esis-known}
use tp_so_1c.Planner.Policies.{HasNumber, GreaterRatio, sorted-IsChoice}

module _ (fl : FloatLib) (sort : Sort) (sorts : Sorts sort) (ieee : IsIeee fl)
    (s : Planner fl.Float) where
  abbrev RatioKnown : ℤ → Type 0
  RatioKnown = IsKnown fl s (HasNumber fl (response_ratio fl))

  hrrn-Orders : Orders RatioKnown (compare_esis fl (sequences sort) (λ _. hrrn_before fl) s)
  unfolding hrrn_before
  hrrn-Orders = record {
    total = λ a b k l. ground (
      arith,
      compare a b k l,
      compare b a l k,
      ieee.le_total (response_ratio fl k.0) (response_ratio fl l.0) k.2 l.2,
    );
    trans = chain;
  }
    where
      compare :
          (a b : ℤ) (k : RatioKnown a) (l : RatioKnown b)
          → compare_esis fl (sequences sort) (λ _. hrrn_before fl) s a b
            ≡ fl.le (response_ratio fl l.0) (response_ratio fl k.0)
      compare a b k l =
          compare_esis-known fl sort s (HasNumber fl (response_ratio fl)) (λ _. hrrn_before fl)
            (GreaterRatio fl) a b k.0 l.0 k.1 l.1

      chain :
          (a b c : ℤ)
          → RatioKnown a
          → RatioKnown b
          → RatioKnown c
          → Before (compare_esis fl (sequences sort) (λ _. hrrn_before fl) s) a b
          → Before (compare_esis fl (sequences sort) (λ _. hrrn_before fl) s) b c
          → Before (compare_esis fl (sequences sort) (λ _. hrrn_before fl) s) a c
      chain a b c k l m (inl h) (inl i) = inl (
          compare a c k m
          ∙ ieee.le_trans (response_ratio fl m.0) (response_ratio fl l.0) (response_ratio fl k.0)
              m.2 l.2 k.2 (sym (compare b c l m) ∙ i) (sym (compare a b k l) ∙ h))
      chain a b c k l m (inr h) i = rw h i
      chain a b c k l m (inl h) (inr i) = inl (rw (← i) h)

  schedule_esis-hrrn_sequences :
      (setup : Setup fl.Float)
      → setup.scheduling_algorithm ≡ hrrn
      → 0 < count_if (λ _. true) s.ready_queue
      → ((g : ℤ) → 0 < placed g s.ready_queue → RatioKnown g)
      → Ends (IsChoice fl (GreaterRatio fl) s) (schedule_esis fl (sequences sort) setup s)
  unfolding schedule_esis arrange_ready hrrn_before
  schedule_esis-hrrn_sequences setup e some_ready known =
      rw (e, schedule_esis)
        (sorted-IsChoice fl sort sorts s (HasNumber fl (response_ratio fl)) (λ _. hrrn_before fl)
          (GreaterRatio fl) some_ready known hrrn-Orders λ a b e f m n h. h)

module _ {lib : ListLib} (manual : Documented lib) (fl : FloatLib) (ieee : IsIeee fl) where
  -- Under HRRN, with some ESI ready, each of them known and of a response ratio that is a number,
  -- `schedule_esis` ends with a ready ESI whose response ratio is at least that of each other ready
  -- one; it only reorders the ready queue, and loses nobody.
  pub schedule_esis-hrrn :
      (setup : Setup fl.Float) (s : Planner fl.Float)
      → setup.scheduling_algorithm ≡ hrrn
      → 0 < count_if (λ _. true) s.ready_queue
      → ((g : ℤ) → 0 < placed g s.ready_queue → IsKnown fl s (HasNumber fl (response_ratio fl)) g)
      → Ends (IsChoice fl (GreaterRatio fl) s) (schedule_esis fl lib setup s)
  schedule_esis-hrrn setup s a r k =
      rw (Documented-eq manual) (
        schedule_esis-hrrn_sequences fl (λ A. lib.list_sort {A = A}) manual.sorts ieee s setup a r
          k)
