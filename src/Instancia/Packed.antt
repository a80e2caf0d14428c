-- ===== src/Instancia/Packed.antt =====
-- instancia/entry_table.c: tables whose first keys lie without gaps.
use tp_so_1c.Prelude.{
  ℕ, suc, ◌+◌, ◌==◌, ◌<◌, ◌≡◌, refl, sym, ap, ◌∙◌, subst, arith, List, [], ◌∷◌, ◌++◌, Bool, true,
  Bool-cases, inl, inr, pos, ◌-ℤ◌, ◌&&◌, none, some, same_key, eq_iff, find_first, remove_first,
  length, get_elem?, count_if, if◌then◌else◌,
}
use tp_so_1c.Commons.{All, Ordered, Before}
use tp_so_1c.Wire.Messages.{StorageSetup}
use tp_so_1c.Instancia.State.{Entry}
use tp_so_1c.Instancia.EntryTable.{
  size_limit, req_entries, entry_end, ascending, gap_after, first_gap,
}
use tp_so_1c.Instancia.Layout.{Laid, used}
use tp_so_1c.Instancia.Cells.{is_empty}

unfoldable pub same_entry : Entry → Entry → Bool
same_entry a b = (a.number == b.number && a.size == b.size) && same_key a.key b.key

pub same_entry_self : (a : Entry) → same_entry a a ≡ true
unfolding same_entry
same_entry_self a = ground (arith, eq_iff a.key a.key)

pub eq_of_same_entry : (a b : Entry) → same_entry a b ≡ true → a ≡ b
unfolding same_entry
eq_of_same_entry a b h = ground (arith, eq_iff a.key b.key)

same_entry_comm : (a b : Entry) → same_entry a b ≡ same_entry b a
unfolding same_entry
same_entry_comm a b = ground (arith, eq_iff a.key b.key, eq_iff b.key a.key)

-- What all elements meet, those that are counted meet.
pub All-same_entry :
    (P : Entry → Type 0) (a : Entry) (xs : List Entry)
    → All P xs
    → 0 < count_if (same_entry a) xs
    → P a
All-same_entry P a [] h c = elim c [ ]
All-same_entry P a (x ∷ xs) (h, k) c = elim (Bool-cases (same_entry a x)) [
  | inl e ↦ subst P (sym (eq_of_same_entry a x e)) h
  | inr e ↦ All-same_entry P a xs k (ground (arith, e))
]

pub get_elem?-append {ℓ} :
    {A : Type ℓ} (xs : List A) (y : A) (ys : List A) → get_elem? (xs ++ y ∷ ys) (length xs) ≡ some y
get_elem?-append [] y ys = refl
get_elem?-append (x ∷ xs) y ys = get_elem?-append xs y ys

pub count-zero-find {ℓ} :
    {A : Type ℓ} (p : A → Bool) (xs : List A) → count_if p xs ≡ 0 → find_first p xs ≡ none
count-zero-find p [] h = refl
count-zero-find p (x ∷ xs) h = ground (arith, count-zero-find p xs)

pub find_first-append {ℓ} :
    {A : Type ℓ} (p : A → Bool) (xs ys : List A)
    → count_if p xs ≡ 0
    → find_first p (xs ++ ys) ≡ find_first p ys
find_first-append p [] ys h = refl
find_first-append p (x ∷ xs) ys h = ground (arith, find_first-append p xs ys)

pub remove_first-append {ℓ} :
    {A : Type ℓ} (p : A → Bool) (xs ys : List A)
    → count_if p xs ≡ 0
    → remove_first p (xs ++ ys) ≡ xs ++ remove_first p ys
remove_first-append p [] ys h = refl
remove_first-append p (x ∷ xs) ys h = ground (arith, remove_first-append p xs ys)

module _ (setup : StorageSetup) where
  -- The entries with the numbers that they have when they lie side by side from a number on.
  abbrev pub pack_from : ℕ → List Entry → List Entry
  pack_from c [] = []
  pack_from c (e ∷ later) = record e { number = c } ∷ pack_from (c + req_entries setup e.size) later

  Laid-above :
      (c lo : ℕ) (entries : List Entry)
      → c < lo
      → Laid setup lo entries
      → All (λ e. c < e.number) entries
  Laid-above c lo [] h l = tt
  Laid-above c lo (e ∷ later) h (i, l) = (
    omega (arith, h, i),
    Laid-above c (e.number + req_entries setup e.size) later (omega (arith, h, i)) l,
  )

  -- A list in order with the entries of one whose keys lie one after the other is that list.
  pub Ordered-unique :
      (lo : ℕ) (xs ys : List Entry)
      → Ordered ascending xs
      → Laid setup lo ys
      → count_if (is_empty setup) ys ≡ 0
      → ((p : Entry → Bool) → count_if p xs ≡ count_if p ys)
      → xs ≡ ys
  unfolding ascending
  Ordered-unique lo [] [] o l f same = refl
  Ordered-unique lo (x ∷ xs) [] o l f same = absurd (omega (arith, same (λ _. true)))
  Ordered-unique lo [] (y ∷ ys) o l f same = absurd (omega (arith, same (λ _. true)))
  Ordered-unique lo (x ∷ xs) (y ∷ ys) (b, o) (i, l) f same = elim (Bool-cases (same_entry y x)) [
    | inl e ↦
        let q = eq_of_same_entry y x e in
        subst (λ z. z ∷ xs ≡ y ∷ ys) q
          (ap (λ zs. y ∷ zs)
            (Ordered-unique (y.number + req_entries setup y.size) xs ys o l (ground (arith, f))
              λ p. omega (arith, same p, ap {B = ℕ} (λ z. if p z then 1 else 0) q)))
    | inr e ↦ absurd (
        ground (
          arith,
          All-same_entry (Before ascending x) y xs b
              (ground (arith, same (same_entry y), same_entry_self y, e)),
          All-same_entry (λ z. y.number < z.number) x ys
              (Laid-above y.number (y.number + req_entries setup y.size) ys (ground (arith, f)) l)
              (ground (arith, same (same_entry x), same_entry_self x, same_entry_comm x y, e)),
          same_entry_self x,
        ))
  ]

  pub used-append : (xs ys : List Entry) → used setup (xs ++ ys) ≡ used setup xs + used setup ys
  used-append [] ys = omega arith
  used-append (x ∷ xs) ys = omega (arith, used-append xs ys)

  pub used-pack_from : (c : ℕ) (xs : List Entry) → used setup (pack_from c xs) ≡ used setup xs
  used-pack_from c [] = refl
  used-pack_from c (x ∷ xs) = omega (arith, used-pack_from (c + req_entries setup x.size) xs)

  pub pack_from-append :
      (c : ℕ) (xs ys : List Entry)
      → pack_from c (xs ++ ys) ≡ pack_from c xs ++ pack_from (c + used setup xs) ys
  pack_from-append c [] ys = ap (λ n. pack_from n ys) (omega arith)
  pack_from-append c (x ∷ xs) ys =
      ap (λ l. record x { number = c } ∷ l)
        (pack_from-append (c + req_entries setup x.size) xs ys
          ∙ ap (λ n. pack_from (c + req_entries setup x.size) xs ++ pack_from n ys) (omega arith))

  pub length-pack_from : (c : ℕ) (xs : List Entry) → length (pack_from c xs) ≡ length xs
  length-pack_from c [] = refl
  length-pack_from c (x ∷ xs) = ap suc (length-pack_from (c + req_entries setup x.size) xs)

  -- A test that does not look at the number counts the same.
  pub count_if-pack_from :
      (p : Entry → Bool)
      → ((e : Entry) (n : ℕ) → p (record e { number = n }) ≡ p e)
      → (c : ℕ) (xs : List Entry) → count_if p (pack_from c xs) ≡ count_if p xs
  count_if-pack_from p h c [] = refl
  count_if-pack_from p h c (x ∷ xs) = omega (
    arith,
    ap {B = ℕ} (λ b. if b then 1 else 0) (h x c),
    count_if-pack_from p h (c + req_entries setup x.size) xs,
  )

  pub Laid-pack_from :
      (c : ℕ) (xs later : List Entry)
      → Laid setup (c + used setup xs) later
      → Laid setup c (pack_from c xs ++ later)
  Laid-pack_from c [] later l = subst (λ n. Laid setup n later) (omega arith) l
  Laid-pack_from c (x ∷ xs) later l = (
    omega arith,
    Laid-pack_from (c + req_entries setup x.size) xs later
        (subst (λ n. Laid setup n later) (omega arith) l),
  )

  -- What follows keys that lie side by side is laid from their end on.
  pub Laid-behind :
      (c : ℕ) (xs later : List Entry)
      → Laid setup c (pack_from c xs ++ later)
      → Laid setup (c + used setup xs) later
  Laid-behind c [] later l = subst (λ n. Laid setup n later) (omega arith) l
  Laid-behind c (x ∷ xs) later (i, l) =
      subst (λ n. Laid setup n later) (omega arith)
        (Laid-behind (c + req_entries setup x.size) xs later l)

  module _ (total : setup.total_entries < size_limit) (needed : ℕ) (positive : 0 < needed) where
    gap_after-pack_from :
        (d : Entry) (xs later : List Entry)
        → Laid setup (entry_end setup d + used setup xs + needed) later
        → gap_after setup needed d (pack_from (entry_end setup d) xs ++ later)
          ≡ pos (entry_end setup d + used setup xs)
    unfolding gap_after entry_end ◌-ℤ◌
    gap_after-pack_from d [] [] l = ground (arith, l, total)
    gap_after-pack_from d [] (e ∷ later) l = ground (arith, l)
    gap_after-pack_from d (x ∷ xs) later l =
        let again =
          gap_after-pack_from (record x { number = entry_end setup d }) xs later
            (subst (λ n. Laid setup n later) (omega arith) l) in
        ground (arith, positive, again)

    -- Behind keys that lie side by side from the beginning, the first gap is the one that follows
    -- them, if it is large enough.
    pub first_gap-pack_from :
        (xs later : List Entry)
        → Laid setup (used setup xs + needed) later
        → first_gap setup needed (pack_from 0 xs ++ later) ≡ pos (used setup xs)
    unfolding first_gap
    first_gap-pack_from [] [] l = refl
    first_gap-pack_from [] (e ∷ later) l = ground (arith, positive, l)
    first_gap-pack_from (x ∷ xs) later l =
        let e = record x { number = 0 } in
        gap_after-pack_from e xs later (subst (λ n. Laid setup n later) (omega arith) l)
        ∙ ap pos (omega arith)
