-- ===== src/Floats.antt =====
-- The C `float` of the estimations: its arithmetic is the machine's, so the type and its operations
-- are a parameter. `IsNumber` sets the NaN apart, on which the comparisons are no order.
use tp_so_1c.Prelude.{ℕ, ◌≡◌, ◌⊎◌, ◌↔◌, Bool, true}

pub record FloatLib : Type 1 where
  pub Float : Type 0
  pub of_int : ℕ → Float
  pub add : Float → Float → Float
  pub sub : Float → Float → Float
  pub mul : Float → Float → Float
  pub div : Float → Float → Float
  pub le : Float → Float → Bool
  pub same : Float → Float → Bool
  pub IsNumber : Float → Type 0

-- IEEE 754: `<=` is a total preorder on the values that are no NaN, and `==` agrees with it.
pub record IsIeee (fl : FloatLib) : Type 0 where
  pub le_total :
      (a b : fl.Float) → fl.IsNumber a → fl.IsNumber b → (fl.le a b ≡ true) ⊎ (fl.le b a ≡ true)
  pub le_trans :
      (a b c : fl.Float)
      → fl.IsNumber a
      → fl.IsNumber b
      → fl.IsNumber c
      → fl.le a b ≡ true
      → fl.le b c ≡ true
      → fl.le a c ≡ true
  pub same_iff :
      (a b : fl.Float)
      → fl.IsNumber a
      → fl.IsNumber b
      → (fl.same a b ≡ true) ↔ ((fl.le a b ≡ true) × (fl.le b a ≡ true))
