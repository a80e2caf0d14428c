-- ===== src/Commons.antt =====
-- The list library that every process is linked with (so-commons, `commons/collections/list.h`), which
-- is not part of the repository: its functions are a parameter, and `Documented` is its manual.
pub mod Insertion
use tp_so_1c.Prelude.{
  ℕ, ◌≡◌, ◌⊎◌, Bool, true, Option, List, [], ◌∷◌, ◌++◌, map, find_first, remove_first, keep, any,
  count_if, fold, length, get_elem?, insert_at, pop_first,
}

abbrev pub All {ℓ κ} : {A : Type ℓ} → (A → Type κ) → List A → Type κ
All P [] = Unit
All P (x ∷ xs) = P x × All P xs

-- Each element stands before the later ones by the comparator, unless it is equal to them.
abbrev pub Before : {A : Type 0} → (A → A → Bool) → A → A → Type 0
Before le a b = (le a b ≡ true) ⊎ (a ≡ b)

abbrev pub Ordered : {A : Type 0} → (A → A → Bool) → List A → Type 0
Ordered le [] = Unit
Ordered le (x ∷ xs) = All (Before le x) xs × Ordered le xs

-- The comparator orders the values that meet `P`.
pub record Orders {A : Type 0} (P : A → Type 0) (le : A → A → Bool) : Type 0 where
  pub total : (a b : A) → P a → P b → (le a b ≡ true) ⊎ Before le b a
  pub trans : (a b c : A) → P a → P b → P c → Before le a b → Before le b c → Before le a c

abbrev pub Sort : Type 1
Sort = (A : Type 0) → List A → (A → A → Bool) → List A

-- `list_sort` rearranges a list, and puts it in the order of a comparator that is one on its elements.
pub record Sorts (sort : Sort) : Type 1 where
  pub rearranges :
      {A : Type 0} (p : A → Bool) (xs : List A) (le : A → A → Bool)
      → count_if p (sort A xs le) ≡ count_if p xs
  pub orders :
      {A : Type 0} (P : A → Type 0) (xs : List A) (le : A → A → Bool)
      → All P xs
      → Orders P le
      → Ordered le (sort A xs le)

pub record ListLib : Type 1 where
  pub list_add : {A : Type 0} → List A → A → List A
  pub list_add_all : {A : Type 0} → List A → List A → List A
  pub list_add_in_index : {A : Type 0} → List A → ℕ → A → List A
  pub list_get : {A : Type 0} → List A → ℕ → Option A
  pub list_size : {A : Type 0} → List A → ℕ
  pub list_find : {A : Type 0} → List A → (A → Bool) → Option A
  pub list_any_satisfy : {A : Type 0} → List A → (A → Bool) → Bool
  pub list_count_satisfying : {A : Type 0} → List A → (A → Bool) → ℕ
  pub list_filter : {A : Type 0} → List A → (A → Bool) → List A
  pub list_map : {A B : Type 0} → List A → (A → B) → List B
  pub list_remove_by_condition : {A : Type 0} → List A → (A → Bool) → List A
  pub list_iterate : {A S : Type 0} → List A → S → (S → A → S) → S
  pub list_sort : {A : Type 0} → List A → (A → A → Bool) → List A
  pub queue_push : {A : Type 0} → List A → A → List A
  pub queue_pop : {A : Type 0} → List A → Option A × List A

-- What the manual says of each function.
pub record Documented (l : ListLib) : Type 1 where
  pub adds_last : {A : Type 0} (xs : List A) (x : A) → l.list_add xs x ≡ xs ++ x ∷ []
  pub appends : {A : Type 0} (xs ys : List A) → l.list_add_all xs ys ≡ xs ++ ys
  pub adds_at :
      {A : Type 0} (xs : List A) (i : ℕ) (x : A) → l.list_add_in_index xs i x ≡ insert_at i x xs
  pub gets : {A : Type 0} (xs : List A) (i : ℕ) → l.list_get xs i ≡ get_elem? xs i
  pub counts_all : {A : Type 0} (xs : List A) → l.list_size xs ≡ length xs
  pub finds_first : {A : Type 0} (xs : List A) (p : A → Bool) → l.list_find xs p ≡ find_first p xs
  pub tests_any : {A : Type 0} (xs : List A) (p : A → Bool) → l.list_any_satisfy xs p ≡ any p xs
  pub counts_hits :
      {A : Type 0} (xs : List A) (p : A → Bool) → l.list_count_satisfying xs p ≡ count_if p xs
  pub filters : {A : Type 0} (xs : List A) (p : A → Bool) → l.list_filter xs p ≡ keep p xs
  pub maps : {A B : Type 0} (xs : List A) (f : A → B) → l.list_map xs f ≡ map f xs
  pub removes_first :
      {A : Type 0} (xs : List A) (p : A → Bool)
      → l.list_remove_by_condition xs p ≡ remove_first p xs
  pub iterates :
      {A S : Type 0} (xs : List A) (s : S) (f : S → A → S) → l.list_iterate xs s f ≡ fold f s xs
  pub pushes_last : {A : Type 0} (xs : List A) (x : A) → l.queue_push xs x ≡ xs ++ x ∷ []
  pub pops_first : {A : Type 0} (xs : List A) → l.queue_pop xs ≡ pop_first xs
  pub sorts : Sorts (λ A. l.list_sort {A = A})

-- The functions that the manual describes, over some sort.
abbrev pub sequences : Sort → ListLib
sequences sort = record {
  list_add = λ xs x. xs ++ x ∷ [];
  list_add_all = λ xs ys. xs ++ ys;
  list_add_in_index = λ xs i x. insert_at i x xs;
  list_get = get_elem?;
  list_size = length;
  list_find = λ xs p. find_first p xs;
  list_any_satisfy = λ xs p. any p xs;
  list_count_satisfying = λ xs p. count_if p xs;
  list_filter = λ xs p. keep p xs;
  list_map = λ xs f. map f xs;
  list_remove_by_condition = λ xs p. remove_first p xs;
  list_iterate = λ xs s f. fold f s xs;
  list_sort = λ xs le. sort _ xs le;
  queue_push = λ xs x. xs ++ x ∷ [];
  queue_pop = pop_first;
}

pub Documented-eq : {l : ListLib} → Documented l → l ≡ sequences (λ A. l.list_sort {A = A})
Documented-eq {l} d i = record {
  list_add = λ xs x. d.adds_last xs x i;
  list_add_all = λ xs ys. d.appends xs ys i;
  list_add_in_index = λ xs n x. d.adds_at xs n x i;
  list_get = λ xs n. d.gets xs n i;
  list_size = λ xs. d.counts_all xs i;
  list_find = λ xs p. d.finds_first xs p i;
  list_any_satisfy = λ xs p. d.tests_any xs p i;
  list_count_satisfying = λ xs p. d.counts_hits xs p i;
  list_filter = λ xs p. d.filters xs p i;
  list_map = λ xs f. d.maps xs f i;
  list_remove_by_condition = λ xs p. d.removes_first xs p i;
  list_iterate = λ xs s f. d.iterates xs s f i;
  list_sort = λ {A} xs le. l.list_sort xs le;
  queue_push = λ xs x. d.pushes_last xs x i;
  queue_pop = λ xs. d.pops_first xs i;
}
