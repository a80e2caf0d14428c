-- ===== src/Prelude/Search.antt =====
-- Sequential search by a Boolean test: what is found first, what is left, what is kept, how many.
use Prim.Native.Nat.{ℕ, zero, suc, ◌+◌, ◌-◌, ◌≤◌}
use mathlib.Core.Path.{◌≡◌, refl}
use mathlib.Core.Bool.{Bool, true, false}
use mathlib.Core.Option.{Option, none, some}
use mathlib.Core.List.{List, [], ◌∷◌, ◌++◌}
use native.Mathlib.Omega.{arith}
use tp_so_1c.Prelude.Tests.{if◌then◌else◌}

module _ {ℓ} {A : Type ℓ} where
  abbrev pub find_first : (A → Bool) → List A → Option A
  find_first p [] = none
  find_first p (x ∷ xs) = if p x then some x else find_first p xs

  abbrev pub remove_first : (A → Bool) → List A → List A
  remove_first p [] = []
  remove_first p (x ∷ xs) = if p x then xs else x ∷ remove_first p xs

  abbrev pub keep : (A → Bool) → List A → List A
  keep p [] = []
  keep p (x ∷ xs) = if p x then x ∷ keep p xs else keep p xs

  abbrev pub any : (A → Bool) → List A → Bool
  any p [] = false
  any p (x ∷ xs) = if p x then true else any p xs

  abbrev pub count_if : (A → Bool) → List A → ℕ
  count_if p [] = 0
  count_if p (x ∷ xs) = (if p x then 1 else 0) + count_if p xs

  abbrev pub fold {κ} : {S : Type κ} → (S → A → S) → S → List A → S
  fold f s [] = s
  fold f s (x ∷ xs) = fold f (f s x) xs

  -- An element more at a position, if the list reaches it.
  abbrev pub insert_at : ℕ → A → List A → List A
  insert_at zero x xs = x ∷ xs
  insert_at (suc n) x [] = []
  insert_at (suc n) x (y ∷ ys) = y ∷ insert_at n x ys

  abbrev pub pop_first : List A → Option A × List A
  pop_first [] = (none, [])
  pop_first (x ∷ xs) = (some x, xs)

  -- A write through the pointer to the first hit.
  abbrev pub update_first : (A → Bool) → (A → A) → List A → List A
  update_first p f [] = []
  update_first p f (x ∷ xs) = if p x then f x ∷ xs else x ∷ update_first p f xs

  pub count_if-append :
      (p : A → Bool) (xs ys : List A) → count_if p (xs ++ ys) ≡ count_if p xs + count_if p ys
  count_if-append p [] ys = omega arith
  count_if-append p (x ∷ xs) ys = omega (arith, count_if-append p xs ys)

  -- Removing the first hit of `p` takes one hit of `p` away, if there is one.
  pub count_if-remove_first_self :
      (p : A → Bool) (xs : List A) → count_if p (remove_first p xs) ≡ count_if p xs - 1
  count_if-remove_first_self p [] = omega arith
  count_if-remove_first_self p (x ∷ xs) = ground (arith, count_if-remove_first_self p xs)

  pub count_if-remove_first_le :
      (p q : A → Bool) (xs : List A) → count_if q (remove_first p xs) ≤ count_if q xs
  count_if-remove_first_le p q [] = omega arith
  count_if-remove_first_le p q (x ∷ xs) = ground (arith, count_if-remove_first_le p q xs)

  pub any-eq_count : (p : A → Bool) (xs : List A) → any p xs ≡ false → count_if p xs ≡ 0
  any-eq_count p [] h = refl
  any-eq_count p (x ∷ xs) h = ground (arith, any-eq_count p xs)
