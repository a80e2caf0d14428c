-- ===== src/Coordinator/Availability.antt =====
-- coordinador/distribution.c: when `dispatch` finds an instance.
use tp_so_1c.Prelude.{
  ℕ, ◌+◌, ◌-◌, ◌*◌, ◌/◌, ◌%◌, ◌≤◌, ◌<◌, ◌≡◌, refl, arith, suc, pos, same_int, leb, String, Bool,
  true, false, not, Option, none, some, Option-cases, List, [], ◌∷◌, find_first, count_if, ◌⊎◌, inl,
  inr, ◌∙◌, sym, Bool-cases, subst, ap,
}
use native.Mathlib.Nat.{mul-le-mul_right}
use tp_so_1c.Commons.{ListLib, Documented, Documented-eq, Sort, Sorts, sequences}
use tp_so_1c.Coordinator.State.{
  Coordinator, CharLib, DictLib, DistributionAlgorithm, lsu, el, ke, disconnected,
}
use tp_so_1c.Coordinator.KeyTable.{key_table_get_instance, key_table_remove}
use tp_so_1c.Coordinator.InstanceList.{
  instance_is_available, instance_is_connected, instance_list_size, instance_list_get_by_index,
  instance_list_sort, find_available,
}
use tp_so_1c.Coordinator.Distribution.{
  equitative_load, least_space_used, key_explicit, distribute, dispatch, sort_by_used_space,
  explicit_quotient, to_int,
}
use tp_so_1c.Coordinator.Dispatch.{equitative_load-first}
use tp_so_1c.Coordinator.Load.{available-sorted}

find_first-some :
    {A : Type 0} (p : A → Bool) (xs : List A)
    → 0 < count_if p xs
    → (x : A) × (find_first p xs ≡ some x)
find_first-some p [] h = elim h [ ]
find_first-some p (x ∷ xs) h = elim (Bool-cases (p x)) [
  | inl e ↦ (x, rw e refl)
  | inr e ↦ rw e (find_first-some p xs (ground arith))
]

find_available-some :
    (p : ℕ → Bool) (index n : ℕ) (xs : List ℕ)
    → n ≤ index
    → index < n + count_if p xs
    → (x : ℕ) × (find_available p (pos index) n xs ≡ some x)
unfolding find_available same_int
find_available-some p index n [] h k = absurd (omega arith)
find_available-some p index n (x ∷ xs) h k = elim (Bool-cases (p x)) [
  | inl e ↦ elim (Bool-cases (same_int (pos n) (pos index))) [
    | inl d ↦ (x, rw e (rw d refl))
    | inr d ↦ rw e (rw d (find_available-some p index (suc n) xs (ground arith) (ground arith)))
  ]
  | inr e ↦ rw e (find_available-some p index n xs h (ground arith))
]

-- A product below 26 times the second factor.
to_int-product :
    (size x : ℕ)
    → x ≤ 25 * size
    → 0 < size
    → size < 2147483648
    → (x / 26 < size) × (to_int (x % 18446744073709551616 / 26) ≡ pos (x / 26))
unfolding to_int
to_int-product size x h p b = (omega arith, ground arith)

-- The index of a letter is smaller than the number of instances.
explicit_index :
    (c size : ℕ)
    → 97 ≤ c
    → c ≤ 122
    → 0 < size
    → size < 2147483648
    → (k : ℕ) × (k < size) × (to_int (explicit_quotient (pos c) size) ≡ pos k)
unfolding explicit_quotient
explicit_index c size h k p b =
    let (small, same) =
      to_int-product size ((c - 97) * size) (mul-le-mul_right size (omega arith)) p b in
    ((c - 97) * size / 26, small, rw (lower (Bool-cases (leb 97 c))) same)
  where
    lower : (leb 97 c ≡ true) ⊎ (leb 97 c ≡ false) → leb 97 c ≡ true
    lower (inl e) = e
    lower (inr e) = ground arith

-- What the choice needs, to find one of so many instances.
abbrev pub Covers : CharLib → DistributionAlgorithm → String → ℕ → Type 0
Covers chars el key size = Unit
Covers chars lsu key size = Unit
Covers chars ke key size =
    (c : ℕ) × (chars.lower_first_char key ≡ pos c) × (97 ≤ c) × (c ≤ 122) × (size < 2147483648)

abbrev pub IsFound : {S : Type 0} → Option ℕ × S → Type 0
IsFound (none, t) = ⊥
IsFound (some i, t) = Unit

module _ (sort : Sort) (sorts : Sorts sort) (dict : DictLib) where
  IsFound-first : {S : Type 0} (r : Option ℕ × S) → (i : ℕ) × (r.0 ≡ some i) → IsFound r
  IsFound-first (none, t) (i, e) = cc
  IsFound-first (some _, t) (i, e) = tt

  least_space_used-IsFound :
      (key : String) (excluded : Option (List ℕ)) (s : Coordinator dict.Dict)
      → 0 < instance_list_size (sequences sort) excluded s
      → IsFound (least_space_used (sequences sort) dict key excluded s)
  unfolding least_space_used equitative_load instance_list_sort instance_list_size
  least_space_used-IsFound key excluded s h =
      let le = sort_by_used_space (sequences sort) dict s in
      let p = instance_is_available (sequences sort) excluded s in
      let t = instance_list_sort (sequences sort) le s in
      let (i, e) =
        find_first-some p (sort ℕ s.instance_list le)
          (omega (arith, h, sorts.rearranges p s.instance_list le)) in
      IsFound-first _ (
        i,
        equitative_load-first dict sort key excluded t
            ∙ ap (λ q. find_first q (sort ℕ s.instance_list le))
                (available-sorted sort sorts dict le excluded s)
            ∙ e,
      )

  key_explicit-IsFound :
      (chars : CharLib) (key : String) (excluded : Option (List ℕ)) (s : Coordinator dict.Dict)
      (c : ℕ)
      → chars.lower_first_char key ≡ pos c
      → 97 ≤ c
      → c ≤ 122
      → instance_list_size (sequences sort) excluded s < 2147483648
      → 0 < instance_list_size (sequences sort) excluded s
      → IsFound (key_explicit (sequences sort) dict chars key excluded s)
  unfolding key_explicit instance_list_get_by_index instance_list_size
  key_explicit-IsFound chars key excluded s c l a z b h =
      let p = instance_is_available (sequences sort) excluded s in
      let (k, small, index) = explicit_index c (count_if p s.instance_list) a z h b in
      let (i, e) = find_available-some p k 0 s.instance_list (omega arith) (omega (arith, small)) in
      rw
        (
          ap
                (λ q.
                  find_available p (to_int (explicit_quotient q (count_if p s.instance_list))) 0
                    s.instance_list)
                l
              ∙ ap (λ q. find_available p q 0 s.instance_list) index
              ∙ e,
          key_explicit,
        )
        tt

  distribute-IsFound :
      (chars : CharLib) (distribution : DistributionAlgorithm) (key : String)
      (excluded : Option (List ℕ)) (s : Coordinator dict.Dict)
      → Covers chars distribution key (instance_list_size (sequences sort) excluded s)
      → 0 < instance_list_size (sequences sort) excluded s
      → IsFound (distribute (sequences sort) dict chars distribution key excluded s)
  unfolding distribute instance_list_size
  distribute-IsFound chars el key excluded s c h =
      let (i, e) = find_first-some _ s.instance_list h in
      IsFound-first _ (i, equitative_load-first dict sort key excluded s ∙ e)
  distribute-IsFound chars lsu key excluded s c h = least_space_used-IsFound key excluded s h
  distribute-IsFound chars ke key excluded s (c, l, a, z, b) h =
      key_explicit-IsFound chars key excluded s c l a z b h

  instance_list_size-key_table_remove :
      (key : String) (excluded : Option (List ℕ)) (s : Coordinator dict.Dict)
      → instance_list_size (sequences sort) excluded (key_table_remove dict key s)
        ≡ instance_list_size (sequences sort) excluded s
  unfolding instance_list_size instance_is_available instance_is_connected key_table_remove
  instance_list_size-key_table_remove key none s = refl
  instance_list_size-key_table_remove key (some l) s = refl

  dispatch-IsFound-sequences :
      (chars : CharLib) (distribution : DistributionAlgorithm) (key : String)
      (excluded : Option (List ℕ)) (s : Coordinator dict.Dict)
      → Covers chars distribution key (instance_list_size (sequences sort) excluded s)
      → 0 < instance_list_size (sequences sort) excluded s
      → IsFound (dispatch (sequences sort) dict chars distribution key excluded s)
  unfolding dispatch
  dispatch-IsFound-sequences chars distribution key excluded s c h =
      elim (Option-cases (key_table_get_instance dict key s)) [
        | inl e ↦ rw (e, dispatch) (distribute-IsFound chars distribution key excluded s c h)
        | inr (i, e) ↦ elim (Bool-cases (not (same_int (s.instances i).fd disconnected))) [
          | inl c ↦ rw (e, dispatch) (rw c tt)
          | inr d ↦
              rw (e, dispatch)
                (rw d (
                  distribute-IsFound chars distribution key excluded (key_table_remove dict key s)
                    (subst (Covers chars distribution key)
                      (sym (instance_list_size-key_table_remove key excluded s)) c)
                    (omega (arith, h, instance_list_size-key_table_remove key excluded s))))
        ]
      ]

-- Where some instance of the list is connected and not excluded, `dispatch` returns an instance; with
-- the distribution by key the key must begin with a letter, and the instances be fewer than 2^31.
pub dispatch-IsFound :
    {lib : ListLib}
    → Documented lib
    → (dict : DictLib) (chars : CharLib) (distribution : DistributionAlgorithm) (key : String)
      (excluded : Option (List ℕ)) (s : Coordinator dict.Dict)
    → Covers chars distribution key (instance_list_size lib excluded s)
    → 0 < instance_list_size lib excluded s
    → IsFound (dispatch lib dict chars distribution key excluded s)
dispatch-IsFound {lib} manual dict chars distribution key excluded s c h =
    rw (Documented-eq manual) (
      dispatch-IsFound-sequences (λ A. lib.list_sort {A = A}) manual.sorts dict chars distribution
        key excluded s
        (subst (λ l. Covers chars distribution key (instance_list_size l excluded s))
          (Documented-eq manual) c)
        (subst (λ l. 0 < instance_list_size l excluded s) (Documented-eq manual) h))
