-- ===== src/Coordinator/Rotation.antt =====
-- coordinador/distribution.c: the list of instances after a choice.
use tp_so_1c.Prelude.{
  ℕ, ◌≡◌, refl, arith, String, Bool, not, Option, none, some, Option-cases, List, [], ◌∷◌, ◌++◌,
  find_first, remove_first, count_if, count_if-append, inl, inr, ◌∙◌, ap, same_int, Bool-cases,
}
use tp_so_1c.Commons.{ListLib, Documented, Documented-eq, Sort, Sorts, sequences}
use tp_so_1c.Coordinator.State.{
  Coordinator, CharLib, DictLib, DistributionAlgorithm, lsu, el, ke, disconnected,
}
use tp_so_1c.Coordinator.KeyTable.{
  key_table_create_key, key_table_remove, key_table_get, key_table_get_instance,
}
use tp_so_1c.Coordinator.InstanceList.{
  instance_is_available, instance_list_size, instance_list_get_by_index, instance_list_sort,
  instance_list_pop, instance_list_first, instance_list_push,
}
use tp_so_1c.Coordinator.Distribution.{
  equitative_load, least_space_used, key_explicit, distribute, dispatch, sort_by_used_space,
  explicit_quotient, to_int,
}

remove_first-none : (p : ℕ → Bool) (xs : List ℕ) → find_first p xs ≡ none → remove_first p xs ≡ xs
remove_first-none p [] h = refl
remove_first-none p (x ∷ xs) h = elim (Bool-cases (p x)) [
  | inl e ↦ absurd (ground arith)
  | inr e ↦ rw e (ap (λ l. x ∷ l) (remove_first-none p xs (ground arith)))
]

count_if-rotate :
    (p q : ℕ → Bool) (xs : List ℕ) (i : ℕ)
    → find_first p xs ≡ some i
    → count_if q (remove_first p xs ++ i ∷ []) ≡ count_if q xs
count_if-rotate p q [] i h = cc
count_if-rotate p q (x ∷ xs) i h =
    ground (arith, count_if-rotate p q xs i, count_if-append q xs (i ∷ []))

module _ (sort : Sort) (sorts : Sorts sort) (dict : DictLib) (p : ℕ → Bool) where
  abbrev Kept : Coordinator dict.Dict → Option ℕ × Coordinator dict.Dict → Type 0
  Kept s r = count_if p r.1.instance_list ≡ count_if p s.instance_list

  instance_list-key_table_create_key :
      (key : String) (i : ℕ) (s : Coordinator dict.Dict)
      → (key_table_create_key dict key (some i) s).instance_list ≡ s.instance_list
  unfolding key_table_create_key key_table_get
  instance_list-key_table_create_key key i s =
      elim (Option-cases (dict.dictionary_get s.key_table key)) [
        | inl e ↦ rw (e, key_table_create_key) refl
        | inr (v, e) ↦ rw (e, key_table_create_key) refl
      ]

  equitative_load-Kept :
      (key : String) (excluded : Option (List ℕ)) (s : Coordinator dict.Dict)
      → Kept s (equitative_load (sequences sort) dict key excluded s)
  unfolding equitative_load instance_list_pop instance_list_first instance_list_push
  equitative_load-Kept key excluded s =
      let q = instance_is_available (sequences sort) excluded s in
      elim (Option-cases (find_first q s.instance_list)) [
        | inl e ↦ rw (e, equitative_load) (ap (count_if p) (remove_first-none q s.instance_list e))
        | inr (i, e) ↦
            rw (e, equitative_load)
              (ap (count_if p) (instance_list-key_table_create_key key i _)
                ∙ count_if-rotate q p s.instance_list i e)
      ]

  least_space_used-Kept :
      (key : String) (excluded : Option (List ℕ)) (s : Coordinator dict.Dict)
      → Kept s (least_space_used (sequences sort) dict key excluded s)
  unfolding least_space_used equitative_load instance_list_sort
  least_space_used-Kept key excluded s =
      let le = sort_by_used_space (sequences sort) dict s in
      equitative_load-Kept key excluded (instance_list_sort (sequences sort) le s)
      ∙ sorts.rearranges p s.instance_list le

  key_explicit-Kept :
      (chars : CharLib) (key : String) (excluded : Option (List ℕ)) (s : Coordinator dict.Dict)
      → Kept s (key_explicit (sequences sort) dict chars key excluded s)
  unfolding key_explicit
  key_explicit-Kept chars key excluded s =
      let index = to_int (
        explicit_quotient (chars.lower_first_char key)
          (instance_list_size (sequences sort) excluded s)) in
      elim (Option-cases (instance_list_get_by_index (sequences sort) index excluded s)) [
        | inl e ↦ rw (e, key_explicit) refl
        | inr (i, e) ↦
            rw (e, key_explicit) (ap (count_if p) (instance_list-key_table_create_key key i s))
      ]

  distribute-Kept :
      (chars : CharLib) (distribution : DistributionAlgorithm) (key : String)
      (excluded : Option (List ℕ)) (s : Coordinator dict.Dict)
      → Kept s (distribute (sequences sort) dict chars distribution key excluded s)
  unfolding distribute
  distribute-Kept chars el key excluded s = equitative_load-Kept key excluded s
  distribute-Kept chars lsu key excluded s = least_space_used-Kept key excluded s
  distribute-Kept chars ke key excluded s = key_explicit-Kept chars key excluded s

  dispatch-Kept :
      (chars : CharLib) (distribution : DistributionAlgorithm) (key : String)
      (excluded : Option (List ℕ)) (s : Coordinator dict.Dict)
      → Kept s (dispatch (sequences sort) dict chars distribution key excluded s)
  unfolding dispatch key_table_remove
  dispatch-Kept chars distribution key excluded s =
      elim (Option-cases (key_table_get_instance dict key s)) [
        | inl e ↦ rw (e, dispatch) (distribute-Kept chars distribution key excluded s)
        | inr (i, e) ↦ elim (Bool-cases (not (same_int (s.instances i).fd disconnected))) [
          | inl c ↦ rw (e, dispatch) (rw c refl)
          | inr c ↦
              rw (e, dispatch)
                (rw c
                  (distribute-Kept chars distribution key excluded (key_table_remove dict key s)))
        ]
      ]

-- Whatever the algorithm, the excluded instances and the state, `dispatch` only reorders the list of
-- instances: each instance stands in it as often as before.
pub dispatch-keeps_instances :
    {lib : ListLib}
    → Documented lib
    → (dict : DictLib) (chars : CharLib) (distribution : DistributionAlgorithm) (key : String)
      (excluded : Option (List ℕ)) (s : Coordinator dict.Dict) (p : ℕ → Bool)
    → count_if p (dispatch lib dict chars distribution key excluded s).1.instance_list
      ≡ count_if p s.instance_list
dispatch-keeps_instances {lib} manual dict chars distribution key excluded s p =
    rw (Documented-eq manual) (
      dispatch-Kept (λ A. lib.list_sort {A = A}) manual.sorts dict p chars distribution key excluded
        s)
