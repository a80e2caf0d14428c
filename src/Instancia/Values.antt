-- ===== src/Instancia/Values.antt =====
-- instancia/storage.c: the values of the keys of a table.
use native.Mathlib.Nat.{add-mul, mul-le-mul_right}
use tp_so_1c.Prelude.{
  ℕ, ◌+◌, ◌*◌, ◌%◌, ◌==◌, ◌≤◌, ◌<◌, ◌≡◌, refl, ap, ◌∙◌, subst, arith, List, [], ◌∷◌, ◌++◌,
  Bool-cases, false, inl, inr, pos, ltb, length, take, drop, length-drop,
}
use tp_so_1c.Outcome.{Outcome, ok}
use tp_so_1c.Commons.{All}
use tp_so_1c.Wire.Messages.{StorageSetup}
use tp_so_1c.Instancia.State.{Entry}
use tp_so_1c.Instancia.EntryTable.{req_entries}
use tp_so_1c.Instancia.Layout.{Laid, used}
use tp_so_1c.Instancia.Packed.{pack_from}
use tp_so_1c.Instancia.Storage.{Storage, strg_limit, storage_retrieve}
use tp_so_1c.Instancia.Bytes.{IsWhole, Apart, Writes, length-take_le}

-- What the storage gives for each key.
abbrev pub values : Storage → List Entry → List (Outcome (List ℕ))
values storage [] = []
values storage (e ∷ later) = storage_retrieve (pos e.number) e.size storage ∷ values storage later

pub values-append :
    (storage : Storage) (xs ys : List Entry)
    → values storage (xs ++ ys) ≡ values storage xs ++ values storage ys
values-append storage [] ys = refl
values-append storage (x ∷ xs) ys =
    ap (λ l. storage_retrieve (pos x.number) x.size storage ∷ l) (values-append storage xs ys)

-- A value within the storage is read whole.
pub storage_retrieve-whole :
    (storage : Storage) (i size : ℕ)
    → IsWhole storage
    → i * storage.entry_size + size ≤ storage.entries * storage.entry_size
    → (value : List ℕ) × (storage_retrieve (pos i) size storage ≡ ok value × length value ≡ size)
unfolding storage_retrieve strg_limit
storage_retrieve-whole storage i size w h = (
  take size (drop p storage.bytes),
  (
    rw runs refl,
    length-take_le size (drop p storage.bytes) (omega (arith, length-drop p storage.bytes, w, h)),
  ),
)
  where
    p : ℕ
    p = i * storage.entry_size

    runs : ltb (storage.entries * storage.entry_size) (p + size) ≡ false
    runs = ground (arith, h)

-- A write leaves the values that lie apart from it.
pub Writes-values :
    (storage : Storage) (i : ℕ) (value : List ℕ) (after : Storage) (entries : List Entry)
    → Writes storage i value after
    → All (λ e. Apart storage i (length value) e.number e.size) entries
    → values after entries ≡ values storage entries
Writes-values storage i value after [] w h = refl
Writes-values storage i value after (e ∷ later) w (a, h) =
    ap (λ v. v ∷ values after later) (w.2 e.number e.size a)
    ∙ ap (λ l. storage_retrieve (pos e.number) e.size storage ∷ l)
        (Writes-values storage i value after later w h)

module _ (setup : StorageSetup) (positive : 0 < setup.entry_size) where
  -- The entries of a value hold it.
  pub req_entries-holds : (size : ℕ) → size ≤ req_entries setup size * setup.entry_size
  unfolding req_entries
  req_entries-holds size = elim (Bool-cases (size % setup.entry_size == 0)) [
    | inl e ↦ rw e (grind arith)
    | inr e ↦ rw e (grind arith)
  ]

  -- A value ends before the bytes of an entry that its key does not reach.
  pub ends_before :
      (n size c : ℕ)
      → n + req_entries setup size ≤ c
      → n * setup.entry_size + size ≤ c * setup.entry_size
  ends_before n size c h = ground (arith, req_entries-holds size, scaled)
    where
      scaled :
          n * setup.entry_size + req_entries setup size * setup.entry_size ≤ c * setup.entry_size
      scaled =
          subst (λ x. x ≤ c * setup.entry_size)
            (add-mul n (req_entries setup size) setup.entry_size)
            (mul-le-mul_right setup.entry_size h)

  module _ (storage : Storage) (same : storage.entry_size ≡ setup.entry_size) where
    pub Laid-Apart :
        (c size lo : ℕ) (entries : List Entry)
        → c + req_entries setup size ≤ lo
        → Laid setup lo entries
        → All (λ e. Apart storage c size e.number e.size) entries
    Laid-Apart c size lo [] h l = tt
    Laid-Apart c size lo (e ∷ later) h (i, l) = (
      inl (rw same (ends_before c size e.number (omega (arith, h, i)))),
      Laid-Apart c size (e.number + req_entries setup e.size) later (omega (arith, h, i)) l,
    )

    pub pack_from-Apart :
        (c size n : ℕ) (xs : List Entry)
        → n + used setup xs ≤ c
        → All (λ e. Apart storage c size e.number e.size) (pack_from setup n xs)
    pack_from-Apart c size n [] h = tt
    pack_from-Apart c size n (e ∷ later) h = (
      inr (rw same (ends_before n e.size c (omega (arith, h)))),
      pack_from-Apart c size (n + req_entries setup e.size) later (omega (arith, h)),
    )
