-- ===== src/Instancia/Cells.antt =====
-- instancia/entry_table.c: which keys have an entry of the storage, whatever the order of the table.
use tp_so_1c.Prelude.{
  ℕ, zero, suc, ◌+◌, ◌-◌, ◌≤◌, ◌<◌, ◌≡◌, refl, sym, arith, List, [], ◌∷◌, Bool, ◌&&◌, inl, inr, ltb,
  leb, if◌then◌else◌, count_if,
}
use tp_so_1c.Commons.{All, Ordered, Before}
use tp_so_1c.Wire.Messages.{StorageSetup}
use tp_so_1c.Instancia.State.{Entry}
use tp_so_1c.Instancia.EntryTable.{req_entries, ascending}
use tp_so_1c.Instancia.Layout.{Laid, HasRoom, used, Laid-used}

module _ (setup : StorageSetup) where
  abbrev pub covers : ℕ → Entry → Bool
  covers c e = leb e.number c && ltb c (e.number + req_entries setup e.size)

  -- How many keys have the entry.
  abbrev pub keys_at : ℕ → List Entry → ℕ
  keys_at c entries = count_if (covers c) entries

  abbrev pub is_empty : Entry → Bool
  is_empty e = leb (req_entries setup e.size) 0

  pub keys_at-below :
      (lo c : ℕ) (entries : List Entry) → Laid setup lo entries → c < lo → keys_at c entries ≡ 0
  keys_at-below lo c [] l h = refl
  keys_at-below lo c (e ∷ later) (i, l) h =
      ground (arith, i, h, keys_at-below (e.number + req_entries setup e.size) c later l)

  pub keys_at-Laid :
      (lo c : ℕ) (entries : List Entry) → Laid setup lo entries → keys_at c entries ≤ 1
  keys_at-Laid lo c [] l = omega arith
  keys_at-Laid lo c (e ∷ later) (i, l) = ground (
    arith,
    keys_at-below (e.number + req_entries setup e.size) c later l,
    keys_at-Laid (e.number + req_entries setup e.size) c later l,
  )

  pub keys_at-beyond :
      (lo c : ℕ) (entries : List Entry)
      → Laid setup lo entries
      → setup.total_entries ≤ c
      → keys_at c entries ≡ 0
  keys_at-beyond lo c [] l h = refl
  keys_at-beyond lo c (e ∷ later) (i, l) h = ground (
    arith,
    h,
    keys_at-beyond (e.number + req_entries setup e.size) c later l h,
    Laid-used setup (e.number + req_entries setup e.size) later l,
  )

  pub HasRoom-from :
      (lo needed n : ℕ) (entries : List Entry)
      → Laid setup lo entries
      → HasRoom setup lo needed entries n
      → lo ≤ n
  HasRoom-from lo needed n [] l (h, k) = h
  HasRoom-from lo needed n (e ∷ later) (i, l) (inl (h, k)) = h
  HasRoom-from lo needed n (e ∷ later) (i, l) (inr r) =
      omega (arith, i, HasRoom-from (e.number + req_entries setup e.size) needed n later l r)

  pub keys_at-HasRoom :
      (lo needed n c : ℕ) (entries : List Entry)
      → Laid setup lo entries
      → HasRoom setup lo needed entries n
      → n ≤ c
      → c < n + needed
      → keys_at c entries ≡ 0
  keys_at-HasRoom lo needed n c [] l r h k = refl
  keys_at-HasRoom lo needed n c (e ∷ later) (i, l) (inl (p, q)) h k =
      keys_at-below e.number c (e ∷ later) (omega arith, l) (omega (arith, q, k))
  keys_at-HasRoom lo needed n c (e ∷ later) (i, l) (inr r) h k = ground (
    arith,
    h,
    HasRoom-from (e.number + req_entries setup e.size) needed n later l r,
    keys_at-HasRoom (e.number + req_entries setup e.size) needed n c later l r h k,
  )

  Before-le : (a b : Entry) → Before ascending a b → a.number ≤ b.number
  unfolding ascending
  Before-le a b (inl h) = ground (arith, h)
  Before-le a b (inr h) = rw h (omega arith)

  keys_at-Before :
      (e : Entry) (c : ℕ) (later : List Entry)
      → All (Before ascending e) later
      → c < e.number
      → keys_at c later ≡ 0
  keys_at-Before e c [] b h = refl
  keys_at-Before e c (x ∷ later) (b, bs) h =
      ground (arith, h, Before-le e x b, keys_at-Before e c later bs h)

  -- A table in the order of the numbers in which no entry has two keys lies one key after the other.
  pub Laid-keys_at :
      (lo : ℕ) (entries : List Entry)
      → lo ≤ setup.total_entries
      → Ordered ascending entries
      → count_if is_empty entries ≡ 0
      → ((c : ℕ) → keys_at c entries ≤ 1)
      → ((c : ℕ) → setup.total_entries ≤ c → keys_at c entries ≡ 0)
      → ((c : ℕ) → c < lo → keys_at c entries ≡ 0)
      → Laid setup lo entries
  Laid-keys_at lo [] t o p one none low = t
  Laid-keys_at lo (e ∷ later) t (b, o) p one none low = (
    ground (arith, low e.number, p),
    Laid-keys_at end later (ground (arith, none (end - 1), p)) o (ground (arith, p))
        (λ c. ground (arith, one c)) (λ c h. ground (arith, none c h))
        (λ c h. ground (arith, h, one c, keys_at-Before e c later b)),
  )
    where
      end : ℕ
      end = e.number + req_entries setup e.size

  -- The entries that the keys have are counted one by one.
  abbrev pub keys_below : ℕ → List Entry → ℕ
  keys_below zero entries = 0
  keys_below (suc c) entries = keys_below c entries + keys_at c entries

  keys_below-cons :
      (c : ℕ) (e : Entry) (later : List Entry)
      → c ≤ setup.total_entries
      → keys_below c (e ∷ later) ≡ keys_below c (e ∷ []) + keys_below c later
  keys_below-cons zero e later h = refl
  keys_below-cons (suc c) e later h = ground (arith, keys_below-cons c e later)

  keys_below-nil : (c : ℕ) → keys_below c [] ≡ 0
  keys_below-nil zero = refl
  keys_below-nil (suc c) = omega (arith, keys_below-nil c)

  keys_below-one :
      (c : ℕ) (e : Entry)
      → keys_below c (e ∷ []) ≡ (
          if leb c e.number
          then 0
          else if leb c (e.number + req_entries setup e.size)
          then c - e.number
          else req_entries setup e.size)
  keys_below-one zero e = ground arith
  keys_below-one (suc c) e = ground (arith, keys_below-one c e)

  pub used-keys_below :
      (lo : ℕ) (entries : List Entry)
      → Laid setup lo entries
      → used setup entries ≡ keys_below setup.total_entries entries
  used-keys_below lo [] l = sym (keys_below-nil setup.total_entries)
  used-keys_below lo (e ∷ later) (i, l) = ground (
    arith,
    keys_below-cons setup.total_entries e later (omega arith),
    keys_below-one setup.total_entries e,
    Laid-used setup (e.number + req_entries setup e.size) later l,
    used-keys_below (e.number + req_entries setup e.size) later l,
  )

  pub keys_below-same :
      (c : ℕ) (xs ys : List Entry)
      → ((d : ℕ) → keys_at d xs ≡ keys_at d ys)
      → keys_below c xs ≡ keys_below c ys
  keys_below-same zero xs ys h = refl
  keys_below-same (suc c) xs ys h = omega (arith, keys_below-same c xs ys h, h c)
