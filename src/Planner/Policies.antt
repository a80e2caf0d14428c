-- ===== src/Planner/Policies.antt =====
-- The choice of SJF, `schedule_esis` in planificador/planificador.c: the smallest estimation.
use tp_so_1c.Prelude.{
  ◌<◌, ◌≡◌, ℤ, same_int, same_int_iff, arith, Bool, true, count_if, ◌⊎◌, inl, inr, ◌∙◌, sym, zero,
}
use tp_so_1c.Outcome.{ok, ◌>>=◌, deref}
use tp_so_1c.Commons.{ListLib, Documented, Documented-eq, Sort, Sorts, Orders, Before, sequences}
use tp_so_1c.Floats.{FloatLib, IsIeee}
use tp_so_1c.Planner.State.{Planner, EsiInformation, Setup, sjfcd, sjfsd}
use tp_so_1c.Planner.Queues.{obtain_esi_information_by_id}
use tp_so_1c.Planner.Schedule.{
  estimation, response_ratio, sjf_before, compare_esis, sort_ready, known_all, arrange_ready,
  schedule_esis,
}
use tp_so_1c.Planner.Inv.{Ends, placed}
use tp_so_1c.Planner.Choice.{
  All-of_placed, fold-known, IsChoice, IsKnown, compare_esis-known, IsChoice-of_sorted,
}

module _ (fl : FloatLib) where
  open fl use {Float}

  abbrev pub HasNumber : (EsiInformation Float → Float) → EsiInformation Float → Type 0
  HasNumber f e = fl.IsNumber (f e)

  abbrev pub SmallerEstimation : EsiInformation Float → EsiInformation Float → Type 0
  SmallerEstimation e f = fl.le (estimation fl e) (estimation fl f) ≡ true

  abbrev pub GreaterRatio : EsiInformation Float → EsiInformation Float → Type 0
  GreaterRatio e f = fl.le (response_ratio fl f) (response_ratio fl e) ≡ true

module _ (fl : FloatLib) (sort : Sort) (sorts : Sorts sort) where
  open fl use {Float}

  module _ (s : Planner Float) (IsGood : EsiInformation Float → Type 0)
      (before : ℤ → EsiInformation Float → EsiInformation Float → Bool)
      (Better : EsiInformation Float → EsiInformation Float → Type 0) where
    known_all-sort_ready :
        ((g : ℤ) → 0 < placed g s.ready_queue → IsKnown fl s IsGood g)
        → known_all fl (sequences sort) (sort_ready fl (sequences sort) before s)
          ≡ ok (sort_ready fl (sequences sort) before s)
    unfolding known_all sort_ready
    known_all-sort_ready known = fold-known fl sort s _ _ (
        All-of_placed (sort ℤ s.ready_queue (compare_esis fl (sequences sort) before s)) λ g m.
          let k =
            known g (omega (arith, m, sorts.rearranges (λ x. same_int x g) s.ready_queue _)) in
          (k.0, k.1))

    pub sorted-IsChoice :
        0 < count_if (λ _. true) s.ready_queue
        → ((g : ℤ) → 0 < placed g s.ready_queue → IsKnown fl s IsGood g)
        → Orders (IsKnown fl s IsGood) (compare_esis fl (sequences sort) before s)
        → ((a b : ℤ) (e f : EsiInformation Float)
            → IsGood e
            → IsGood f
            → before b e f ≡ true
            → Better e f)
        → Ends (IsChoice fl Better s) (do
          t ← known_all fl (sequences sort) (sort_ready fl (sequences sort) before s)
          fd ← deref ((sequences sort).list_get t.ready_queue zero)
          esi_inf ← deref (obtain_esi_information_by_id (sequences sort) fd t)
          ok (fd, t))
    unfolding sort_ready
    sorted-IsChoice some_ready known cmp mean = rw (known_all-sort_ready known) (
        IsChoice-of_sorted fl sort s IsGood before Better
          (sort ℤ s.ready_queue (compare_esis fl (sequences sort) before s))
          (λ p. sorts.rearranges p s.ready_queue _) some_ready known
          (sorts.orders (IsKnown fl s IsGood) s.ready_queue _ (All-of_placed s.ready_queue known)
            cmp)
          mean)

  -- `sjf_before` puts a smaller estimation first, and the executing ESI last among equal ones.
  module _ (ieee : IsIeee fl) (s : Planner Float) where
    sjf_before_total :
        (x a b : ℤ) (e f : EsiInformation Float)
        → HasNumber fl (estimation fl) e
        → HasNumber fl (estimation fl) f
        → (sjf_before fl x b e f ≡ true) ⊎ (sjf_before fl x a f e ≡ true) ⊎ (b ≡ a)
    unfolding sjf_before
    sjf_before_total x a b e f m n = ground (
      arith,
      ieee.le_total (estimation fl e) (estimation fl f) m n,
      ieee.same_iff (estimation fl e) (estimation fl f) m n,
      ieee.same_iff (estimation fl f) (estimation fl e) n m,
      same_int_iff b x,
      same_int_iff a x,
    )

    sjf_before_trans :
        (x b c : ℤ) (e f g : EsiInformation Float)
        → HasNumber fl (estimation fl) e
        → HasNumber fl (estimation fl) f
        → HasNumber fl (estimation fl) g
        → sjf_before fl x b e f ≡ true
        → sjf_before fl x c f g ≡ true
        → sjf_before fl x c e g ≡ true
    unfolding sjf_before
    sjf_before_trans x b c e f g m n o h k = ground (
      arith,
      ieee.le_trans (estimation fl e) (estimation fl f) (estimation fl g) m n o,
      ieee.le_trans (estimation fl g) (estimation fl e) (estimation fl f) o m n,
      ieee.same_iff (estimation fl f) (estimation fl g) n o,
      ieee.same_iff (estimation fl e) (estimation fl g) m o,
    )

    abbrev SjfKnown : ℤ → Type 0
    SjfKnown = IsKnown fl s (HasNumber fl (estimation fl))

    sjf-Orders :
        Orders SjfKnown (compare_esis fl (sequences sort) (sjf_before fl s.executing_esi) s)
    sjf-Orders = record {
      total = λ a b k l. ground (
        arith,
        compare a b k l,
        compare b a l k,
        sjf_before_total s.executing_esi a b k.0 l.0 k.2 l.2,
      );
      trans = λ a b c k l m h i. chain a b c k l m h i;
    }
      where
        compare :
            (a b : ℤ) (k : SjfKnown a) (l : SjfKnown b)
            → compare_esis fl (sequences sort) (sjf_before fl s.executing_esi) s a b
              ≡ sjf_before fl s.executing_esi b k.0 l.0
        compare a b k l =
            compare_esis-known fl sort s (HasNumber fl (estimation fl))
              (sjf_before fl s.executing_esi) (SmallerEstimation fl) a b k.0 l.0 k.1 l.1

        chain :
            (a b c : ℤ)
            → SjfKnown a
            → SjfKnown b
            → SjfKnown c
            → Before (compare_esis fl (sequences sort) (sjf_before fl s.executing_esi) s) a b
            → Before (compare_esis fl (sequences sort) (sjf_before fl s.executing_esi) s) b c
            → Before (compare_esis fl (sequences sort) (sjf_before fl s.executing_esi) s) a c
        chain a b c k l m (inl h) (inl i) = inl (
            compare a c k m
            ∙ sjf_before_trans s.executing_esi b c k.0 l.0 m.0 k.2 l.2 m.2
                (sym (compare a b k l) ∙ h) (sym (compare b c l m) ∙ i))
        chain a b c k l m (inr h) i = rw h i
        chain a b c k l m (inl h) (inr i) = inl (rw (← i) h)

    sjf-IsChoice :
        0 < count_if (λ _. true) s.ready_queue
        → ((g : ℤ) → 0 < placed g s.ready_queue → SjfKnown g)
        → Ends (IsChoice fl (SmallerEstimation fl) s) (do
          t ←
              known_all fl
                (sequences sort)
                (sort_ready fl (sequences sort) (sjf_before fl s.executing_esi) s)
          fd ← deref ((sequences sort).list_get t.ready_queue zero)
          esi_inf ← deref (obtain_esi_information_by_id (sequences sort) fd t)
          ok (fd, t))
    unfolding sjf_before
    sjf-IsChoice some_ready known =
        sorted-IsChoice s (HasNumber fl (estimation fl)) (sjf_before fl s.executing_esi)
          (SmallerEstimation fl) some_ready known sjf-Orders λ a b e f m n h. ground arith

    schedule_esis-sjf_sequences :
        (setup : Setup Float)
        → (setup.scheduling_algorithm ≡ sjfcd) ⊎ (setup.scheduling_algorithm ≡ sjfsd)
        → 0 < count_if (λ _. true) s.ready_queue
        → ((g : ℤ) → 0 < placed g s.ready_queue → SjfKnown g)
        → Ends (IsChoice fl (SmallerEstimation fl) s) (schedule_esis fl (sequences sort) setup s)
    unfolding schedule_esis arrange_ready
    schedule_esis-sjf_sequences setup (inl e) some_ready known =
        rw (e, schedule_esis) (sjf-IsChoice some_ready known)
    schedule_esis-sjf_sequences setup (inr e) some_ready known =
        rw (e, schedule_esis) (sjf-IsChoice some_ready known)

module _ {lib : ListLib} (manual : Documented lib) (fl : FloatLib) (ieee : IsIeee fl) where
  -- Under SJF, with or without preemption, and with some ESI ready, each of them known and of an
  -- estimation that is a number, `schedule_esis` ends with a ready ESI whose estimation is at most
  -- that of each other ready one; it only reorders the ready queue, and loses nobody.
  pub schedule_esis-sjf :
      (setup : Setup fl.Float) (s : Planner fl.Float)
      → (setup.scheduling_algorithm ≡ sjfcd) ⊎ (setup.scheduling_algorithm ≡ sjfsd)
      → 0 < count_if (λ _. true) s.ready_queue
      → ((g : ℤ) → 0 < placed g s.ready_queue → IsKnown fl s (HasNumber fl (estimation fl)) g)
      → Ends (IsChoice fl (SmallerEstimation fl) s) (schedule_esis fl lib setup s)
  schedule_esis-sjf setup s a r k =
      rw (Documented-eq manual) (
        schedule_esis-sjf_sequences fl (λ A. lib.list_sort {A = A}) manual.sorts ieee s setup a r k)
