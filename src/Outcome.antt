-- ===== src/Outcome.antt =====
-- How a run of a C function ends: with a result, at a null or dangling pointer, or waiting for ever.
use tp_so_1c.Prelude.{Option, none, some, ◌≡◌, refl}

pub data Outcome {ℓ} (A : Type ℓ) : Type ℓ where
  ok : A → Outcome A
  crash : Outcome A
  hang : Outcome A

infixl 5 ◌>>=◌
abbrev pub ◌>>=◌ {ℓ κ} : {A : Type ℓ} {B : Type κ} → Outcome A → (A → Outcome B) → Outcome B
ok a >>= f = f a
crash >>= f = crash
hang >>= f = hang

-- `p->field` for a pointer that may be NULL.
abbrev pub deref {ℓ} : {A : Type ℓ} → Option A → Outcome A
deref none = crash
deref (some a) = ok a

-- The run ends, with a result that meets `P` or at a bad pointer.
abbrev pub Settles : {A : Type 0} → (A → Type 0) → Outcome A → Type 0
Settles P (ok a) = P a
Settles P crash = Unit
Settles P hang = ⊥

pub Settles-bind :
    {A B : Type 0} (P : A → Type 0) (Q : B → Type 0) (m : Outcome A) (f : A → Outcome B)
    → Settles P m
    → ((a : A) → P a → Settles Q (f a))
    → Settles Q (m >>= f)
Settles-bind P Q (ok a) f h k = k a h
Settles-bind P Q crash f h k = tt
Settles-bind P Q hang f h k = elim h [ ]

pub Settles-deref :
    {A B : Type 0} (Q : B → Type 0) (o : Option A) (f : A → Outcome B)
    → ((a : A) → o ≡ some a → Settles Q (f a))
    → Settles Q (deref o >>= f)
Settles-deref Q none f k = tt
Settles-deref Q (some a) f k = k a refl

pub Settles-weaken :
    {A : Type 0} (P Q : A → Type 0) (m : Outcome A)
    → Settles P m
    → ((a : A) → P a → Q a)
    → Settles Q m
Settles-weaken P Q (ok a) h k = k a h
Settles-weaken P Q crash h k = tt
Settles-weaken P Q hang h k = elim h [ ]
