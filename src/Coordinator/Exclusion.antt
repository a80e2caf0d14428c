-- ===== src/Coordinator/Exclusion.antt =====
-- coordinador/distribution.c: the excluded instances.
use tp_so_1c.Prelude.{
  ℕ, ℤ, ◌≡◌, ◌≢◌, ◌==◌, arith, count_if, find_first, same_int_iff, refl, String, Bool, true, false,
  Option, none, some, Option-cases, List, [], ◌∷◌, inl, inr, ◌∙◌, sym, ap, subst,
}
use tp_so_1c.Commons.{ListLib, Documented, Documented-eq, Sort, Sorts, sequences}
use tp_so_1c.Coordinator.State.{
  Coordinator, CharLib, DictLib, DistributionAlgorithm, lsu, el, ke, disconnected,
}
use tp_so_1c.Coordinator.KeyTable.{key_table_get_instance}
use tp_so_1c.Coordinator.InstanceList.{
  instance_is_available, instance_is_connected, list_contains, instance_list_size,
  instance_list_get_by_index, instance_list_sort,
}
use tp_so_1c.Coordinator.Distribution.{
  equitative_load, least_space_used, key_explicit, distribute, dispatch, sort_by_used_space,
  explicit_quotient, to_int,
}
use tp_so_1c.Coordinator.Dispatch.{equitative_load-first, find_first-hit, find_available-hit}
use tp_so_1c.Coordinator.Load.{available-sorted}

find_first-count : (p : ℕ → Bool) (xs : List ℕ) → find_first p xs ≡ none → count_if p xs ≡ 0
find_first-count p [] h = refl
find_first-count p (x ∷ xs) h = ground (arith, find_first-count p xs)

module _ (sort : Sort) (sorts : Sorts sort) (dict : DictLib) where
  equitative_load-available :
      (key : String) (excluded : Option (List ℕ)) (s : Coordinator dict.Dict) (i : ℕ)
      → (equitative_load (sequences sort) dict key excluded s).0 ≡ some i
      → instance_is_available (sequences sort) excluded s i ≡ true
  equitative_load-available key excluded s i h =
      find_first-hit (instance_is_available (sequences sort) excluded s) s.instance_list i
        (sym (equitative_load-first dict sort key excluded s) ∙ h)

  least_space_used-available :
      (key : String) (excluded : Option (List ℕ)) (s : Coordinator dict.Dict) (i : ℕ)
      → (least_space_used (sequences sort) dict key excluded s).0 ≡ some i
      → instance_is_available (sequences sort) excluded s i ≡ true
  unfolding least_space_used equitative_load
  least_space_used-available key excluded s i h =
      let le = sort_by_used_space (sequences sort) dict s in
      ap (λ p. p i) (sym (available-sorted sort sorts dict le excluded s))
      ∙ equitative_load-available key excluded (instance_list_sort (sequences sort) le s) i h

  key_explicit-available :
      (chars : CharLib) (key : String) (excluded : Option (List ℕ)) (s : Coordinator dict.Dict)
      (i : ℕ)
      → (key_explicit (sequences sort) dict chars key excluded s).0 ≡ some i
      → instance_is_available (sequences sort) excluded s i ≡ true
  unfolding key_explicit instance_list_get_by_index
  key_explicit-available chars key excluded s i h =
      find_available-hit (instance_is_available (sequences sort) excluded s) index 0 s.instance_list
        i (sym first ∙ h)
    where
      index : ℤ
      index = to_int (
          explicit_quotient (chars.lower_first_char key)
            (instance_list_size (sequences sort) excluded s))

      first :
          (key_explicit (sequences sort) dict chars key excluded s).0
          ≡ instance_list_get_by_index (sequences sort) index excluded s
      first = elim (Option-cases (instance_list_get_by_index (sequences sort) index excluded s)) [
        | inl e ↦ rw (e, key_explicit) refl
        | inr (j, e) ↦ rw (e, key_explicit) refl
      ]

  distribute-available :
      (chars : CharLib) (distribution : DistributionAlgorithm) (key : String)
      (excluded : Option (List ℕ)) (s : Coordinator dict.Dict) (i : ℕ)
      → (distribute (sequences sort) dict chars distribution key excluded s).0 ≡ some i
      → instance_is_available (sequences sort) excluded s i ≡ true
  unfolding distribute
  distribute-available chars el key excluded s i h = equitative_load-available key excluded s i h
  distribute-available chars lsu key excluded s i h = least_space_used-available key excluded s i h
  distribute-available chars ke key excluded s i h = key_explicit-available chars key excluded s i h

  dispatch-distribute :
      (chars : CharLib) (distribution : DistributionAlgorithm) (key : String)
      (excluded : Option (List ℕ)) (s : Coordinator dict.Dict)
      → key_table_get_instance dict key s ≡ none
      → dispatch (sequences sort) dict chars distribution key excluded s
        ≡ distribute (sequences sort) dict chars distribution key excluded s
  unfolding dispatch
  dispatch-distribute chars distribution key excluded s e = rw (e, dispatch) refl

-- The excluded instances: a NULL list holds none.
abbrev pub listed : Option (List ℕ) → List ℕ
listed none = []
listed (some excluded) = excluded

list_contains-count :
    (sort : Sort) (xs : List ℕ) (i : ℕ)
    → list_contains (sequences sort) xs i ≡ false
    → count_if (λ j. j == i) xs ≡ 0
unfolding list_contains
list_contains-count sort xs i h = elim (Option-cases (find_first (λ found. found == i) xs)) [
  | inl e ↦ find_first-count (λ j. j == i) xs e
  | inr (j, e) ↦
      let held : list_contains (sequences sort) xs i ≡ true = rw (e, list_contains) refl in
      ground (arith, held, h)
]

connected-fd :
    {Dict : Type 0} (sort : Sort) (s : Coordinator Dict) (i : ℕ)
    → instance_is_connected (sequences sort) s i ≡ true
    → (s.instances i).fd ≢ disconnected
unfolding instance_is_connected
connected-fd sort s i h e = ground (arith, h, same_int_iff (s.instances i).fd disconnected, e)

available-parts :
    {Dict : Type 0} (sort : Sort) (excluded : Option (List ℕ)) (s : Coordinator Dict) (i : ℕ)
    → instance_is_available (sequences sort) excluded s i ≡ true
    → ((s.instances i).fd ≢ disconnected) × (count_if (λ j. j == i) (listed excluded) ≡ 0)
unfolding instance_is_available
available-parts sort none s i h = (connected-fd sort s i h, refl)
available-parts sort (some excluded) s i h = (
  connected-fd sort s i (ground (arith, h)),
  list_contains-count sort excluded i (ground (arith, h)),
)

-- Where the table has no instance for the key, the descriptor of an instance that `dispatch` returns is
-- not DISCONNECTED, and the instance does not occur in the list of those that are excluded.
pub dispatch_available :
    {lib : ListLib}
    → Documented lib
    → (dict : DictLib) (chars : CharLib) (distribution : DistributionAlgorithm) (key : String)
      (excluded : Option (List ℕ)) (s : Coordinator dict.Dict) (i : ℕ)
    → key_table_get_instance dict key s ≡ none
    → (dispatch lib dict chars distribution key excluded s).0 ≡ some i
    → ((s.instances i).fd ≢ disconnected) × (count_if (λ j. j == i) (listed excluded) ≡ 0)
dispatch_available {lib} manual dict chars distribution key excluded s i e h =
    let sort : Sort = λ A. lib.list_sort {A = A} in
    available-parts sort excluded s i (
      distribute-available sort manual.sorts dict chars distribution key excluded s i (
        ap (λ r. r.0)
          (sym (dispatch-distribute sort manual.sorts dict chars distribution key excluded s e))
        ∙ subst (λ l. (dispatch l dict chars distribution key excluded s).0 ≡ some i)
            (Documented-eq manual) h))
