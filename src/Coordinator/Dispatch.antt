-- ===== src/Coordinator/Dispatch.antt =====
-- coordinador/distribution.c: what `dispatch` finds, and what it writes down.
use tp_so_1c.Prelude.{
  ℕ, ◌≡◌, refl, suc, ℤ, same_int, arith, String, Bool, true, not, Option, none, some, Option-cases,
  List, [], ◌∷◌, find_first, inl, inr, Bool-cases,
}
use tp_so_1c.Commons.{ListLib, Documented, Documented-eq, Sort, sequences}
use tp_so_1c.Coordinator.State.{
  Coordinator, CharLib, DictLib, DictDocumented, DistributionAlgorithm, lsu, el, ke, disconnected,
}
use tp_so_1c.Coordinator.KeyTable.{
  key_table_create_key, key_table_get, key_table_get_instance, key_table_remove,
  key_table_data_create,
}
use tp_so_1c.Coordinator.InstanceList.{
  instance_is_connected, instance_is_available, instance_list_first, instance_list_pop,
  instance_list_sort, instance_list_size, instance_list_get_by_index, find_available,
}
use tp_so_1c.Coordinator.Distribution.{
  equitative_load, least_space_used, key_explicit, distribute, dispatch, sort_by_used_space,
  explicit_quotient, to_int,
}

pub find_first-hit :
    {A : Type 0} (p : A → Bool) (xs : List A) (x : A) → find_first p xs ≡ some x → p x ≡ true
find_first-hit p [] x h = cc
find_first-hit p (y ∷ ys) x h = ground (arith, find_first-hit p ys x)

pub find_available-hit :
    (p : ℕ → Bool) (index : ℤ) (n : ℕ) (xs : List ℕ) (x : ℕ)
    → find_available p index n xs ≡ some x
    → p x ≡ true
unfolding find_available
find_available-hit p index n [] x h = cc
find_available-hit p index n (y ∷ ys) x h =
    ground (arith, find_available-hit p index n ys x, find_available-hit p index (suc n) ys x)

module _ (dict : DictLib) where
  pub equitative_load-first :
      (sort : Sort) (key : String) (excluded : Option (List ℕ)) (s : Coordinator dict.Dict)
      → (equitative_load (sequences sort) dict key excluded s).0
        ≡ find_first (instance_is_available (sequences sort) excluded s) s.instance_list
  unfolding equitative_load instance_list_pop instance_list_first
  equitative_load-first sort key excluded s =
      elim (Option-cases
        (find_first (instance_is_available (sequences sort) excluded s) s.instance_list)) [
          | inl e ↦ rw (e, equitative_load) refl
          | inr (i, e) ↦ rw (e, equitative_load) refl
        ]

  -- If an instance is returned, then it is connected, and it is the one that the table has for the key.
  abbrev pub Recorded :
      ListLib → String → Coordinator dict.Dict → Option ℕ × Coordinator dict.Dict → Type 0
  Recorded lib key s (none, t) = Unit
  Recorded lib key s (some i, t) =
      (key_table_get_instance dict key t ≡ some i) × (instance_is_connected lib s i ≡ true)

module _ {dict : DictLib} (manual : DictDocumented dict) where
  key_table_create_key-get_instance :
      (key : String) (i : ℕ) (s : Coordinator dict.Dict)
      → key_table_get_instance dict key (key_table_create_key dict key (some i) s) ≡ some i
  unfolding key_table_get_instance key_table_create_key key_table_get
  key_table_create_key-get_instance key i s =
      elim (Option-cases (dict.dictionary_get s.key_table key)) [
        | inl e ↦
            rw (e, key_table_create_key)
              (rw
                (
                  manual.gets_put s.key_table key (key_table_data_create (some i)),
                  key_table_get_instance,
                )
                refl)
        | inr (v, e) ↦
            rw (e, key_table_create_key)
              (rw
                (
                  manual.gets_put s.key_table key (record v { instance_of = some i }),
                  key_table_get_instance,
                )
                refl)
      ]

  module _ (sort : Sort) where
    available-connected :
        (excluded : Option (List ℕ)) (s : Coordinator dict.Dict) (i : ℕ)
        → instance_is_available (sequences sort) excluded s i ≡ true
        → instance_is_connected (sequences sort) s i ≡ true
    unfolding instance_is_available
    available-connected none s i h = h
    available-connected (some l) s i h = ground (arith)

    equitative_load-Recorded :
        (key : String) (excluded : Option (List ℕ)) (s : Coordinator dict.Dict)
        → Recorded dict
            (sequences sort)
            key
            s
            (equitative_load (sequences sort) dict key excluded s)
    unfolding equitative_load instance_list_pop instance_list_first
    equitative_load-Recorded key excluded s =
        elim (Option-cases
          (find_first (instance_is_available (sequences sort) excluded s) s.instance_list)) [
            | inl e ↦ rw (e, equitative_load) tt
            | inr (i, e) ↦
                rw (e, equitative_load)
                  (
                    key_table_create_key-get_instance key i _,
                    available-connected excluded s i (find_first-hit _ s.instance_list i e),
                  )
          ]

    least_space_used-Recorded :
        (key : String) (excluded : Option (List ℕ)) (s : Coordinator dict.Dict)
        → Recorded dict
            (sequences sort)
            key
            s
            (least_space_used (sequences sort) dict key excluded s)
    unfolding least_space_used equitative_load instance_list_sort instance_is_connected
    least_space_used-Recorded key excluded s =
        equitative_load-Recorded key excluded
          (instance_list_sort (sequences sort) (sort_by_used_space (sequences sort) dict s) s)

    key_explicit-Recorded :
        (chars : CharLib) (key : String) (excluded : Option (List ℕ)) (s : Coordinator dict.Dict)
        → Recorded dict
            (sequences sort)
            key
            s
            (key_explicit (sequences sort) dict chars key excluded s)
    unfolding key_explicit instance_list_get_by_index
    key_explicit-Recorded chars key excluded s =
        elim (Option-cases (
          instance_list_get_by_index (sequences sort)
            (to_int (
              explicit_quotient (chars.lower_first_char key)
                (instance_list_size (sequences sort) excluded s)))
            excluded s)) [
              | inl e ↦ rw (e, key_explicit) tt
              | inr (i, e) ↦
                  rw (e, key_explicit)
                    (
                      key_table_create_key-get_instance key i _,
                      available-connected excluded s i
                          (find_available-hit _ _ 0 s.instance_list i e),
                    )
            ]

    distribute-Recorded :
        (chars : CharLib) (distribution : DistributionAlgorithm) (key : String)
        (excluded : Option (List ℕ)) (s : Coordinator dict.Dict)
        → Recorded dict
            (sequences sort)
            key
            s
            (distribute (sequences sort) dict chars distribution key excluded s)
    unfolding distribute
    distribute-Recorded chars el key excluded s = equitative_load-Recorded key excluded s
    distribute-Recorded chars lsu key excluded s = least_space_used-Recorded key excluded s
    distribute-Recorded chars ke key excluded s = key_explicit-Recorded chars key excluded s

    dispatch-Recorded-sequences :
        (chars : CharLib) (distribution : DistributionAlgorithm) (key : String)
        (excluded : Option (List ℕ)) (s : Coordinator dict.Dict)
        → Recorded dict
            (sequences sort)
            key
            s
            (dispatch (sequences sort) dict chars distribution key excluded s)
    unfolding dispatch key_table_remove instance_is_connected
    dispatch-Recorded-sequences chars distribution key excluded s =
        elim (Option-cases (key_table_get_instance dict key s)) [
          | inl e ↦ rw (e, dispatch) (distribute-Recorded chars distribution key excluded s)
          | inr (i, e) ↦ elim (Bool-cases (not (same_int (s.instances i).fd disconnected))) [
            | inl c ↦ rw (e, dispatch) (rw c (e, c))
            | inr c ↦
                rw (e, dispatch)
                  (rw c (
                    distribute-Recorded chars distribution key excluded
                      (key_table_remove dict key s)))
          ]
        ]

-- Whatever the algorithm, the excluded instances and the state: where `dispatch` returns an instance,
-- it is connected, and the table has it for the key afterwards.
pub dispatch-Recorded :
    {lib : ListLib} {dict : DictLib}
    → Documented lib
    → (manual : DictDocumented dict) (chars : CharLib) (distribution : DistributionAlgorithm)
      (key : String) (excluded : Option (List ℕ)) (s : Coordinator dict.Dict)
    → Recorded dict lib key s (dispatch lib dict chars distribution key excluded s)
dispatch-Recorded {lib} documented manual chars distribution key excluded s =
    rw (Documented-eq documented) (
      dispatch-Recorded-sequences manual (λ A. lib.list_sort {A = A}) chars distribution key
        excluded s)
