-- ===== src/Instancia/Steps.antt =====
-- instancia/algorithms.c: the steps of a replacement.
use tp_so_1c.Prelude.{
  ℕ, zero, suc, ◌+◌, ◌≡◌, refl, sym, ◌∙◌, arith, List, [], ◌∷◌, ◌++◌, ++-assoc, ++-nil, length, set,
  get_elem?, String, some, Bool, true, false, count_if,
}
use tp_so_1c.Instancia.Algorithms.{EntryStatus, atomic, non_atomic, free, used, is_atomic, Status}

unfoldable pub is_used : Status → Bool
is_used s = elim s.status [ used ↦ true | _ ↦ false ]

-- Steps each of which takes one entry that is atomic, makes it used and adds its key.
pub data Takes : List Status → List String → List Status → List String → Type 0 where
  nothing : (statuses : List Status) (keys : List String) → Takes statuses keys statuses keys
  one :
      (statuses : List Status) (keys : List String) (i : ℕ) (status : Status)
      (statuses' : List Status) (keys' : List String)
      → get_elem? statuses i ≡ some status
      → is_atomic status.status ≡ true
      → Takes
          (set statuses i (record status { status = used }))
          (keys ++ status.key ∷ [])
          statuses'
          keys'
      → Takes statuses keys statuses' keys'

pub Takes-trans :
    (a : List Status) (j : List String) (b : List Status) (k : List String) (c : List Status)
    (l : List String)
    → Takes a j b k
    → Takes b k c l
    → Takes a j c l
Takes-trans a j b k c l (nothing _ _) u = u
Takes-trans a j b k c l (one _ _ i status _ _ h e t) u =
    one a j i status c l h e (Takes-trans _ _ b k c l t u)

count_if-set :
    (statuses : List Status) (i : ℕ) (status new : Status)
    → get_elem? statuses i ≡ some status
    → is_used status ≡ false
    → is_used new ≡ true
    → count_if is_used (set statuses i new) ≡ suc (count_if is_used statuses)
count_if-set [] i status new h e f = ground arith
count_if-set (s ∷ statuses) zero status new h e f =
    let same : s ≡ status = ground (arith, h) in rw (f, same) (rw e (omega arith))
count_if-set (s ∷ statuses) (suc i) status new h e f =
    omega (arith, count_if-set statuses i status new h e f)

atomic_unused :
    (status : EntryStatus)
    → is_atomic status ≡ true
    → (elim status [ used ↦ true | _ ↦ false ]) ≡ false
unfolding is_atomic
atomic_unused atomic h = refl
atomic_unused non_atomic h = refl
atomic_unused free h = refl
atomic_unused used h = ground arith

-- As many entries are used more as keys are added.
pub Takes-counts :
    (statuses : List Status) (keys : List String) (statuses' : List Status) (keys' : List String)
    → Takes statuses keys statuses' keys'
    → (added : List String) × (keys' ≡ keys ++ added
        × count_if is_used statuses' ≡ count_if is_used statuses + length added)
unfolding is_used
Takes-counts statuses keys statuses' keys' (nothing _ _) = ([], (sym (++-nil keys), omega arith))
Takes-counts statuses keys statuses' keys' (one _ _ i status _ _ h e t) =
    let r = Takes-counts _ _ statuses' keys' t in
    (
      status.key ∷ r.0,
      (
        r.1.0 ∙ ++-assoc keys (status.key ∷ []) r.0,
        omega (
          arith,
          r.1.1,
          count_if-set statuses i status (record status { status = used }) h
              (atomic_unused status.status e) refl,
        ),
      ),
    )
