-- ===== src/Commons/Insertion.antt =====
-- A sort that does what the manual of `list_sort` says: the parameter of the model can be met.
use tp_so_1c.Prelude.{
  ◌≡◌, refl, Bool, true, false, List, [], ◌∷◌, count_if, arith, if◌then◌else◌, inl, inr, ◌⊎◌,
  Bool-cases,
}
use tp_so_1c.Commons.{All, Before, Ordered, Orders, Sort, Sorts, ListLib, Documented, sequences}

module _ {A : Type 0} (le : A → A → Bool) where
  insert : A → List A → List A
  insert x [] = x ∷ []
  insert x (y ∷ ys) = if le x y then x ∷ y ∷ ys else y ∷ insert x ys

  isort : List A → List A
  isort [] = []
  isort (x ∷ xs) = insert x (isort xs)

  count_if-insert :
      (p : A → Bool) (x : A) (ys : List A) → count_if p (insert x ys) ≡ count_if p (x ∷ ys)
  unfolding insert
  count_if-insert p x [] = refl
  count_if-insert p x (y ∷ ys) = ground (arith, count_if-insert p x ys)

  count_if-isort : (p : A → Bool) (xs : List A) → count_if p (isort xs) ≡ count_if p xs
  unfolding isort
  count_if-isort p [] = refl
  count_if-isort p (x ∷ xs) = ground (arith, count_if-insert p x (isort xs), count_if-isort p xs)

  All-insert : (Q : A → Type 0) (x : A) (ys : List A) → Q x → All Q ys → All Q (insert x ys)
  unfolding insert
  All-insert Q x [] q h = (q, tt)
  All-insert Q x (y ∷ ys) q h = elim (Bool-cases (le x y)) [
    | inl e ↦ rw e (q, h)
    | inr e ↦ rw e (h.0, All-insert Q x ys q h.1)
  ]

  All-isort : (Q : A → Type 0) (xs : List A) → All Q xs → All Q (isort xs)
  unfolding isort
  All-isort Q [] h = tt
  All-isort Q (x ∷ xs) h = All-insert Q x (isort xs) h.0 (All-isort Q xs h.1)

  module _ (P : A → Type 0) (o : Orders P le) where
    All-Before :
        (x y : A) (ys : List A)
        → P x
        → P y
        → All P ys
        → Before le x y
        → All (Before le y) ys
        → All (Before le x) ys
    All-Before x y [] px py ps h b = tt
    All-Before x y (z ∷ zs) px py ps h b =
        (o.trans x y z px py ps.0 h b.0, All-Before x y zs px py ps.1 h b.1)

    insert-Ordered :
        (x : A) (ys : List A) → P x → All P ys → Ordered le ys → Ordered le (insert x ys)
    unfolding insert
    insert-Ordered x [] px ps s = (tt, tt)
    insert-Ordered x (y ∷ ys) px ps s = elim (Bool-cases (le x y)) [
      | inl e ↦ rw e ((inl e, All-Before x y ys px ps.0 ps.1 (inl e) s.0), (s.0, s.1))
      | inr e ↦ rw e (
        All-insert (Before le y) x ys (after (o.total x y px ps.0) e) s.0,
        insert-Ordered x ys px ps.1 s.1,
      )
    ]
      where
        after : (le x y ≡ true) ⊎ Before le y x → le x y ≡ false → Before le y x
        after (inl h) e = cc
        after (inr h) e = h

    isort-Ordered : (xs : List A) → All P xs → Ordered le (isort xs)
    unfolding isort
    isort-Ordered [] ps = tt
    isort-Ordered (x ∷ xs) ps =
        insert-Ordered x (isort xs) ps.0 (All-isort P xs ps.1) (isort-Ordered xs ps.1)

unfoldable pub insertion_sort : Sort
unfolding isort insert
insertion_sort A xs le = isort le xs

pub insertion_sort-Sorts : Sorts insertion_sort
unfolding insertion_sort
insertion_sort-Sorts = record {
  rearranges = λ p xs le. count_if-isort le p xs;
  orders = λ P xs le ps o. isort-Ordered le P o xs ps;
}

-- The list library over that sort.
abbrev pub list_lib : ListLib
list_lib = sequences insertion_sort

pub list_lib-Documented : Documented list_lib
list_lib-Documented = record {
  adds_last = λ xs x. refl;
  appends = λ xs ys. refl;
  adds_at = λ xs i x. refl;
  gets = λ xs i. refl;
  counts_all = λ xs. refl;
  finds_first = λ xs p. refl;
  tests_any = λ xs p. refl;
  counts_hits = λ xs p. refl;
  filters = λ xs p. refl;
  maps = λ xs f. refl;
  removes_first = λ xs p. refl;
  iterates = λ xs s f. refl;
  pushes_last = λ xs x. refl;
  pops_first = λ xs. refl;
  sorts = insertion_sort-Sorts;
}
