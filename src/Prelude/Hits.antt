-- ===== src/Prelude/Hits.antt =====
-- How often a number occurs among the values of a function on a list.
use Prim.Native.Nat.{ℕ, ◌+◌, ◌-◌, ◌<◌}
use mathlib.Core.Path.{◌≡◌}
use mathlib.Core.Logic.{inl, inr}
use mathlib.Core.Option.{some}
use mathlib.Core.List.{List, [], ◌∷◌, ◌++◌}
use native.Mathlib.Omega.{arith}
use tp_so_1c.Prelude.Tests.{if◌then◌else◌, Bool-cases}
use tp_so_1c.Prelude.Int.{ℤ, same_int, same_int_iff}
use tp_so_1c.Prelude.Search.{find_first, remove_first, count_if, count_if-append}

-- 1 at the number, 0 elsewhere.
abbrev pub unit_at : ℤ → ℤ → ℕ
unit_at a b = if same_int a b then 1 else 0

module _ {ℓ} {A : Type ℓ} (f : A → ℤ) where
  abbrev pub hits : ℤ → List A → ℕ
  hits b xs = count_if (λ x. same_int (f x) b) xs

  pub hits-add : (b : ℤ) (xs : List A) (x : A) → hits b (xs ++ x ∷ []) ≡ hits b xs + unit_at (f x) b
  hits-add b xs x = omega (arith, count_if-append (λ y. same_int (f y) b) xs (x ∷ []))

  -- Removing the first occurrence of `a` takes one occurrence of `a` away.
  pub hits-remove_first :
      (a b : ℤ) (xs : List A)
      → hits b (remove_first (λ x. same_int (f x) a) xs) ≡ hits b xs - unit_at a b
  hits-remove_first a b [] = omega arith
  hits-remove_first a b (x ∷ xs) = ground (
    arith,
    same_int_iff (f x) a,
    same_int_iff (f x) b,
    same_int_iff a b,
    hits-remove_first a b xs,
  )

  pub hits-find :
      (a : ℤ) (xs : List A)
      → 0 < hits a xs
      → (x : A) × (find_first (λ y. same_int (f y) a) xs ≡ some x)
  hits-find a [] h = elim h [ ]
  hits-find a (x ∷ xs) h = elim (Bool-cases (same_int (f x) a)) [
    | inl e ↦ (x, rw e)
    | inr e ↦ rw e (hits-find a xs (ground arith))
  ]
