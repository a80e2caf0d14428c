-- ===== src/Instancia/Layout.antt =====
-- instancia/entry_table.c: the entries of the keys lie one after the other, and where there is room.
use tp_so_1c.Prelude.{
  ℕ, ◌+◌, ◌-◌, ◌≤◌, ◌<◌, ◌≡◌, refl, arith, ℤ, pos, negsuc, minus_one, leb_ℤ, ◌-ℤ◌, List, [], ◌∷◌,
  none, Bool, true, false, ◌&&◌, Bool-cases, inl, inr, ◌⊎◌, ltb, leb, leb→le, if◌then◌else◌,
}
use tp_so_1c.Wire.Messages.{StorageSetup}
use tp_so_1c.Instancia.State.{KeyValue, Entry, EntryTable}
use tp_so_1c.Instancia.EntryTable.{
  size_limit, unsigned_sub, req_entries, entry_end, entry_table_entries_needed,
  entry_table_get_entry, entry_table_have_entries, gap_after, first_gap, entry_table_next_entry,
}

unsigned_sub-eq : (a b : ℕ) → b ≤ a → a < size_limit → unsigned_sub a b ≡ a - b
unsigned_sub-eq a b h k = omega (arith, h, k)

choose-cases :
    (test : Bool) (m : ℕ) (next : ℤ) (n : ℕ)
    → (if test then pos m else next) ≡ pos n
    → (test ≡ true × m ≡ n) ⊎ (test ≡ false × next ≡ pos n)
choose-cases true m next n h = inl (refl, ground (arith, h))
choose-cases false m next n h = inr (refl, h)

gap-fits :
    (needed next end : ℕ) → leb_ℤ (pos needed) (pos next -ℤ pos end) ≡ true → end + needed ≤ next
unfolding ◌-ℤ◌
gap-fits needed next end h = ground (arith, h)

gap-full :
    (needed next end : ℕ)
    → leb_ℤ (pos needed) (pos next -ℤ pos end) ≡ false
    → (n : ℕ) → end ≤ n
    → next < n + needed
unfolding ◌-ℤ◌
gap-full needed next end h n k = ground (arith, h, k)

module _ (setup : StorageSetup) where
  -- The entries from a number on: each begins where the one before has ended or later, and the last
  -- ends within the storage.
  abbrev pub Laid : ℕ → List Entry → Type 0
  Laid lo [] = lo ≤ setup.total_entries
  Laid lo (e ∷ later) = lo ≤ e.number × Laid (e.number + req_entries setup e.size) later

  -- So many entries have room at a number: they lie between two keys, or before or after them all.
  abbrev pub HasRoom : ℕ → ℕ → List Entry → ℕ → Type 0
  HasRoom lo needed [] n = lo ≤ n × n + needed ≤ setup.total_entries
  HasRoom lo needed (e ∷ later) n =
      (lo ≤ n × n + needed ≤ e.number)
      ⊎ HasRoom (e.number + req_entries setup e.size) needed later n

  -- How many entries the keys have.
  abbrev pub used : List Entry → ℕ
  used [] = 0
  used (e ∷ later) = req_entries setup e.size + used later

  pub Laid-used :
      (lo : ℕ) (entries : List Entry) → Laid lo entries → lo + used entries ≤ setup.total_entries
  Laid-used lo [] h = omega (arith, h)
  Laid-used lo (e ∷ later) (h, k) =
      omega (arith, h, Laid-used (e.number + req_entries setup e.size) later k)

  pub HasRoom-used :
      (lo needed n : ℕ) (entries : List Entry)
      → Laid lo entries
      → HasRoom lo needed entries n
      → lo + used entries + needed ≤ setup.total_entries
  HasRoom-used lo needed n [] l (h, k) = omega (arith, h, k)
  HasRoom-used lo needed n (e ∷ later) (l, ls) (inl (h, k)) =
      omega (arith, h, k, Laid-used (e.number + req_entries setup e.size) later ls)
  HasRoom-used lo needed n (e ∷ later) (l, ls) (inr h) =
      omega (arith, l, HasRoom-used (e.number + req_entries setup e.size) needed n later ls h)

  -- The keys lie one after the other in the storage, and what they leave is counted.
  abbrev pub IsLaidOut : EntryTable → Type 0
  IsLaidOut table =
      Laid 0 table.entries × table.entries_left ≡ pos (setup.total_entries - used table.entries)

  -- What a search for a gap returns: a number where there is room, or -1 where there is none.
  abbrev pub Finds : ℤ → ℕ → ℕ → List Entry → Type 0
  Finds (pos n) lo needed entries = HasRoom lo needed entries n
  Finds (negsuc _) lo needed entries = (n : ℕ) → ¬ HasRoom lo needed entries n

  Finds-later :
      (r : ℤ) (lo needed : ℕ) (e : Entry) (later : List Entry)
      → ((n : ℕ) → lo ≤ n → e.number < n + needed)
      → Finds r (e.number + req_entries setup e.size) needed later
      → Finds r lo needed (e ∷ later)
  Finds-later (pos n) lo needed e later full h = inr h
  Finds-later (negsuc m) lo needed e later full h =
      λ n r. elim r [ inl (i, j) ↦ omega (arith, j, full n i) | inr k ↦ h n k ]

  module _ (total : setup.total_entries < size_limit) where
    last-Finds :
        (needed end : ℕ)
        → end ≤ setup.total_entries
        → Finds
            (if leb needed (unsigned_sub setup.total_entries end) then pos end else minus_one)
            end
            needed
            []
    last-Finds needed end h =
        rw (unsigned_sub-eq setup.total_entries end h total)
          (elim (Bool-cases (leb needed (setup.total_entries - end))) [
            | inl e ↦ rw e (omega arith, omega (arith, h, leb→le needed _ e))
            | inr e ↦ rw e λ n r. ground (arith, e, r)
          ])

    gap_after-Finds :
        (needed : ℕ) (e : Entry) (later : List Entry)
        → Laid (e.number + req_entries setup e.size) later
        → Finds (gap_after setup needed e later) (e.number + req_entries setup e.size) needed later
    unfolding gap_after entry_end
    gap_after-Finds needed e [] h = last-Finds needed (e.number + req_entries setup e.size) h
    gap_after-Finds needed e (e2 ∷ later) (h, k) =
        elim (Bool-cases
          (leb_ℤ (pos needed) (pos e2.number -ℤ pos (e.number + req_entries setup e.size)))) [
            | inl fits ↦ rw fits (
                inl (
                  omega arith,
                  gap-fits needed e2.number (e.number + req_entries setup e.size) fits,
                ))
            | inr full ↦ rw full (
                Finds-later (gap_after setup needed e2 later) (e.number + req_entries setup e.size)
                  needed e2 later
                  (gap-full needed e2.number (e.number + req_entries setup e.size) full)
                  (gap_after-Finds needed e2 later k))
          ]

    first_gap-Finds :
        (needed : ℕ) (entries : List Entry)
        → 0 < needed
        → needed ≤ setup.total_entries
        → Laid 0 entries
        → Finds (first_gap setup needed entries) 0 needed entries
    unfolding first_gap
    first_gap-Finds needed [] p h l = (omega arith, omega (arith, h))
    first_gap-Finds needed (e ∷ later) p h (i, l) =
        elim (Bool-cases (ltb 0 e.number && leb needed e.number)) [
          | inl fits ↦ rw fits (inl (omega arith, ground (arith, fits)))
          | inr full ↦ rw full (
              Finds-later (gap_after setup needed e later) 0 needed e later
                (λ n k. ground (arith, full, p)) (gap_after-Finds needed e later l))
        ]

    -- For a key without entries, entry_table_next_entry returns a number from which on the value's
    -- entries are free, and -1 only where the table has no such number, if the keys lie one after the
    -- other and what they leave is counted, the value takes some entry, and there are fewer entries
    -- than a pointer has values.
    pub entry_table_next_entry-Finds :
        (table : EntryTable) (key_value : KeyValue)
        → IsLaidOut table
        → entry_table_get_entry table key_value.key ≡ none
        → 0 < entry_table_entries_needed setup key_value
        → Finds
            (entry_table_next_entry setup table key_value)
            0
            (entry_table_entries_needed setup key_value)
            table.entries
    unfolding entry_table_next_entry entry_table_have_entries
    entry_table_next_entry-Finds table key_value (l, left) absent p =
        rw (absent, entry_table_next_entry)
          (rw (left, entry_table_have_entries)
            (elim (Bool-cases
              (leb_ℤ (pos needed) (pos (setup.total_entries - used table.entries)))) [
                | inl enough ↦ rw enough (
                    first_gap-Finds needed table.entries p
                      (omega (
                        arith,
                        leb→le needed (setup.total_entries - used table.entries)
                            (ground (arith, enough)),
                      ))
                      l)
                | inr too_few ↦
                    rw too_few
                      λ n r. ground (arith, HasRoom-used 0 needed n table.entries l r, too_few)
              ]))
      where
        needed : ℕ
        needed = entry_table_entries_needed setup key_value
