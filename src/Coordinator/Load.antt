-- ===== src/Coordinator/Load.antt =====
-- coordinador/distribution.c: `least_space_used`.
use tp_so_1c.Prelude.{
  ℕ, ◌≤◌, ◌<◌, ◌≡◌, refl, arith, leb→le, ◌==◌, String, Bool, true, Option, none, some, List, [],
  ◌∷◌, find_first, count_if, inl, inr, ◌∙◌, sym, Bool-cases, subst, ap,
}
use tp_so_1c.Commons.{
  ListLib, Documented, Documented-eq, Sort, Sorts, Orders, Ordered, Before, All, sequences,
}
use tp_so_1c.Coordinator.State.{Coordinator, DictLib}
use tp_so_1c.Coordinator.InstanceList.{
  instance_is_available, instance_is_connected, instance_list_sort,
}
use tp_so_1c.Coordinator.Dispatch.{equitative_load-first}
use tp_so_1c.Coordinator.Distribution.{equitative_load, least_space_used, sort_by_used_space}

-- How often a number stands in a list.
abbrev pub among : ℕ → List ℕ → ℕ
among j xs = count_if (λ x. x == j) xs

All-among : (P : ℕ → Type 0) (j : ℕ) (xs : List ℕ) → All P xs → 0 < among j xs → P j
All-among P j [] h m = elim m [ ]
All-among P j (x ∷ xs) h m = elim (Bool-cases (x == j)) [
  | inl e ↦ rw (← equal e) h.0
  | inr e ↦ All-among P j xs h.1 (ground arith)
]
  where
    equal : (x == j) ≡ true → x ≡ j
    equal e = ground arith

-- The first hit in an ordered list stands before the other hits.
Ordered-find_first :
    (le : ℕ → ℕ → Bool) (p : ℕ → Bool) (xs : List ℕ) (i j : ℕ)
    → Ordered le xs
    → find_first p xs ≡ some i
    → p j ≡ true
    → 0 < among j xs
    → Before le i j
Ordered-find_first le p [] i j o f h m = cc
Ordered-find_first le p (x ∷ xs) i j o f h m = elim (Bool-cases (p x)) [
  | inl e ↦ elim (Bool-cases (x == j)) [
    | inl d ↦ inr (ground arith)
    | inr d ↦ rw (← (first e)) (All-among (Before le x) j xs o.0 (ground arith))
  ]
  | inr e ↦ Ordered-find_first le p xs i j o.1 (ground arith) h (ground arith)
]
  where
    first : p x ≡ true → x ≡ i
    first e = ground arith

All-Unit : (xs : List ℕ) → All (λ _. Unit {0}) xs
All-Unit [] = tt
All-Unit (x ∷ xs) = (tt, All-Unit xs)

module _ (sort : Sort) (sorts : Sorts sort) (dict : DictLib) where
  sort_by_used_space-Orders :
      (s : Coordinator dict.Dict) → Orders (λ _. Unit) (sort_by_used_space (sequences sort) dict s)
  unfolding sort_by_used_space
  sort_by_used_space-Orders s = record { total = λ a b _ _. ground arith; trans = chain }
    where
      chain :
          (a b c : ℕ)
          → Unit {0}
          → Unit {0}
          → Unit {0}
          → Before (sort_by_used_space (sequences sort) dict s) a b
          → Before (sort_by_used_space (sequences sort) dict s) b c
          → Before (sort_by_used_space (sequences sort) dict s) a c
      chain a b c _ _ _ (inl h) (inl i) = inl (ground arith)
      chain a b c _ _ _ (inr h) i = rw h i
      chain a b c _ _ _ (inl h) (inr i) = inl (rw (← i) h)

  pub available-sorted :
      (le : ℕ → ℕ → Bool) (excluded : Option (List ℕ)) (s : Coordinator dict.Dict)
      → instance_is_available (sequences sort) excluded (instance_list_sort (sequences sort) le s)
        ≡ instance_is_available (sequences sort) excluded s
  unfolding instance_is_available instance_is_connected instance_list_sort
  available-sorted le none s = refl
  available-sorted le (some l) s = refl

  sort_by_used_space-le :
      (s : Coordinator dict.Dict) (i j : ℕ)
      → sort_by_used_space (sequences sort) dict s i j ≡ true
      → (s.instances i).used_entries ≤ (s.instances j).used_entries
  unfolding sort_by_used_space
  sort_by_used_space-le s i j l = leb→le (s.instances i).used_entries (s.instances j).used_entries l

  least_space_used-smallest_sequences :
      (key : String) (excluded : Option (List ℕ)) (s : Coordinator dict.Dict) (i j : ℕ)
      → (least_space_used (sequences sort) dict key excluded s).0 ≡ some i
      → 0 < among j s.instance_list
      → instance_is_available (sequences sort) excluded s j ≡ true
      → (s.instances i).used_entries ≤ (s.instances j).used_entries
  unfolding least_space_used equitative_load instance_list_sort
  least_space_used-smallest_sequences key excluded s i j h m a = smaller (
      Ordered-find_first (sort_by_used_space (sequences sort) dict s)
        (instance_is_available (sequences sort) excluded s)
        (sort ℕ s.instance_list (sort_by_used_space (sequences sort) dict s)) i j
        (sorts.orders (λ _. Unit) s.instance_list (sort_by_used_space (sequences sort) dict s)
          (All-Unit s.instance_list) (sort_by_used_space-Orders s))
        found a
        (omega (
          arith,
          m,
          sorts.rearranges (λ x. x == j) s.instance_list
              (sort_by_used_space (sequences sort) dict s),
        )))
    where
      found :
          find_first
            (instance_is_available (sequences sort) excluded s)
            (sort ℕ s.instance_list (sort_by_used_space (sequences sort) dict s))
          ≡ some i
      found =
          ap
            (λ p.
              find_first p (sort ℕ s.instance_list (sort_by_used_space (sequences sort) dict s)))
            (sym (available-sorted (sort_by_used_space (sequences sort) dict s) excluded s))
          ∙ sym (
              equitative_load-first dict sort key excluded (
                instance_list_sort (sequences sort) (sort_by_used_space (sequences sort) dict s) s))
          ∙ h

      smaller :
          Before (sort_by_used_space (sequences sort) dict s) i j
          → (s.instances i).used_entries ≤ (s.instances j).used_entries
      smaller (inl l) = sort_by_used_space-le s i j l
      smaller (inr e) = rw e (omega arith)

-- The instance that `least_space_used` returns has at most as many used entries as any other instance
-- of the list that is connected and not excluded.
pub least_space_used-smallest :
    {lib : ListLib}
    → Documented lib
    → (dict : DictLib) (key : String) (excluded : Option (List ℕ)) (s : Coordinator dict.Dict)
      (i j : ℕ)
    → (least_space_used lib dict key excluded s).0 ≡ some i
    → 0 < among j s.instance_list
    → instance_is_available lib excluded s j ≡ true
    → (s.instances i).used_entries ≤ (s.instances j).used_entries
least_space_used-smallest {lib} manual dict key excluded s i j h m a =
    least_space_used-smallest_sequences (λ A. lib.list_sort {A = A}) manual.sorts dict key excluded
      s i j
      (subst (λ l. (least_space_used l dict key excluded s).0 ≡ some i) (Documented-eq manual) h) m
      (subst (λ l. instance_is_available l excluded s j ≡ true) (Documented-eq manual) a)
