-- ===== src/Instancia/Placing.antt =====
-- instancia/entry_table.c: what the table is after a new key is inserted.
use tp_so_1c.Prelude.{
  ℕ, zero, suc, ◌+◌, ◌-◌, ◌≤◌, ◌<◌, ◌≡◌, refl, sym, ap, ◌∙◌, subst, arith, ℤ, pos, negsuc, ◌-ℤ◌,
  List, [], ◌∷◌, ◌++◌, Bool, true, Bool-cases, inl, inr, ltb, none, count_if, count_if-append,
}
use tp_so_1c.Commons.{ListLib, Documented, All, Ordered, Orders, Before}
use tp_so_1c.Wire.Messages.{StorageSetup}
use tp_so_1c.Instancia.State.{KeyValue, Entry, EntryTable}
use tp_so_1c.Instancia.EntryTable.{
  size_limit, req_entries, ascending, entry_table_entries_needed, entry_table_get_entry,
  convert_key_value_t_to_entry_t, insert_new, entry_table_insert, entry_table_next_entry,
}
use tp_so_1c.Instancia.Layout.{
  Laid, HasRoom, HasRoom-used, used, Laid-used, IsLaidOut, Finds, entry_table_next_entry-Finds,
}
use tp_so_1c.Instancia.Cells.{
  covers, keys_at, is_empty, keys_at-Laid, keys_at-beyond, keys_at-HasRoom, Laid-keys_at,
  keys_below, used-keys_below, keys_below-same,
}

ascending-Orders : Orders (λ _. Unit {0}) ascending
unfolding ascending
ascending-Orders = record {
  total = λ a b _ _. elim (Bool-cases (ltb b.number a.number)) [
    | inl e ↦ inr (inl (ground (arith, e)))
    | inr e ↦ inl (rw e refl)
  ];
  trans = ascending-trans;
}
  where
    ascending-trans :
        (a b c : Entry)
        → Unit {0}
        → Unit {0}
        → Unit {0}
        → Before ascending a b
        → Before ascending b c
        → Before ascending a c
    ascending-trans a b c _ _ _ (inl h) (inl k) = inl (ground (arith, h, k))
    ascending-trans a b c _ _ _ (inl h) (inr k) = inl (subst (λ x. ascending a x ≡ true) k h)
    ascending-trans a b c _ _ _ (inr h) k = subst (λ x. Before ascending x c) (sym h) k

All-Unit : {A : Type 0} (xs : List A) → All (λ _. Unit {0}) xs
All-Unit [] = tt
All-Unit (x ∷ xs) = (tt, All-Unit xs)

module _ (setup : StorageSetup) where
  -- The keys lie one after the other, what they leave is counted, and each has some entry.
  abbrev pub IsSound : EntryTable → Type 0
  IsSound table = IsLaidOut setup table × count_if (is_empty setup) table.entries ≡ 0

  pub HasRoom-within :
      (lo needed n : ℕ) (entries : List Entry)
      → Laid setup lo entries
      → HasRoom setup lo needed entries n
      → n + needed ≤ setup.total_entries
  HasRoom-within lo needed n [] l (h, k) = k
  HasRoom-within lo needed n (e ∷ later) (i, l) (inl (h, k)) =
      omega (arith, k, Laid-used setup (e.number + req_entries setup e.size) later l)
  HasRoom-within lo needed n (e ∷ later) (i, l) (inr r) =
      HasRoom-within (e.number + req_entries setup e.size) needed n later l r

  keys_below-append :
      (c : ℕ) (xs ys : List Entry)
      → keys_below setup c (xs ++ ys) ≡ keys_below setup c xs + keys_below setup c ys
  keys_below-append zero xs ys = refl
  keys_below-append (suc c) xs ys =
      omega (arith, keys_below-append c xs ys, count_if-append (covers setup c) xs ys)

  module _ (entries : List Entry) (new : Entry) (l : Laid setup 0 entries)
      (some_entry : 0 < req_entries setup new.size)
      (room : HasRoom setup 0 (req_entries setup new.size) entries new.number) where
    one_key : (c : ℕ) → keys_at setup c (entries ++ new ∷ []) ≤ 1
    one_key c = ground (
      arith,
      count_if-append (covers setup c) entries (new ∷ []),
      keys_at-Laid setup 0 c entries l,
      keys_at-HasRoom setup 0 (req_entries setup new.size) new.number c entries l room,
    )

    no_key_beyond : (c : ℕ) → setup.total_entries ≤ c → keys_at setup c (entries ++ new ∷ []) ≡ 0
    no_key_beyond c h = ground (
      arith,
      h,
      count_if-append (covers setup c) entries (new ∷ []),
      keys_at-beyond setup 0 c entries l h,
      HasRoom-within 0 (req_entries setup new.size) new.number entries l room,
    )

    -- Any list with the same entries in the order of their numbers.
    module _ (sorted : List Entry) (o : Ordered ascending sorted)
        (same : (p : Entry → Bool) → count_if p sorted ≡ count_if p (entries ++ new ∷ []))
        (full : count_if (is_empty setup) entries ≡ 0) where
      sorted-full : count_if (is_empty setup) sorted ≡ 0
      sorted-full = ground (
        arith,
        same (is_empty setup),
        full,
        some_entry,
        count_if-append (is_empty setup) entries (new ∷ []),
      )

      sorted-Laid : Laid setup 0 sorted
      sorted-Laid =
          Laid-keys_at setup 0 sorted (omega arith) o sorted-full
            (λ c. omega (arith, same (covers setup c), one_key c))
            (λ c h. omega (arith, same (covers setup c), no_key_beyond c h))
            (λ c h. absurd (omega (arith, h)))

      used-sorted : used setup sorted ≡ used setup entries + req_entries setup new.size
      used-sorted = omega (
        arith,
        used-keys_below setup 0 sorted sorted-Laid,
        keys_below-same setup setup.total_entries sorted (entries ++ new ∷ [])
            (λ d. same (covers setup d)),
        keys_below-append setup.total_entries entries (new ∷ []),
        used-keys_below setup 0 entries l,
        used-keys_below setup 0 (new ∷ [])
            (omega arith, HasRoom-within 0 (req_entries setup new.size) new.number entries l room),
      )

  left_after :
      (total before needed : ℕ)
      → before + needed ≤ total
      → pos (total - before) -ℤ pos needed ≡ pos (total - (before + needed))
  unfolding ◌-ℤ◌
  left_after total before needed h = ground (arith, h)

  module _ (lib : ListLib) (manual : Documented lib) where
    pub insert_new-Ordered :
        (n : ℕ) (key_value : KeyValue) (table : EntryTable)
        → Ordered ascending (insert_new lib setup n key_value table).entries
    unfolding insert_new
    insert_new-Ordered n key_value table =
        let added = lib.list_add table.entries (convert_key_value_t_to_entry_t n key_value) in
        manual.sorts.orders (λ _. Unit {0}) added ascending (All-Unit added) ascending-Orders

    pub insert_new-counts :
        (n : ℕ) (key_value : KeyValue) (table : EntryTable) (q : Entry → Bool)
        → count_if q (insert_new lib setup n key_value table).entries
          ≡ count_if q (table.entries ++ convert_key_value_t_to_entry_t n key_value ∷ [])
    unfolding insert_new
    insert_new-counts n key_value table q =
        let new = convert_key_value_t_to_entry_t n key_value in
        manual.sorts.rearranges q (lib.list_add table.entries new) ascending
        ∙ ap (count_if q) (manual.adds_last table.entries new)

    pub insert_new-IsSound :
        (n : ℕ) (key_value : KeyValue) (table : EntryTable)
        → IsSound table
        → 0 < entry_table_entries_needed setup key_value
        → HasRoom setup 0 (entry_table_entries_needed setup key_value) table.entries n
        → IsSound (insert_new lib setup n key_value table)
    unfolding insert_new entry_table_entries_needed convert_key_value_t_to_entry_t
    insert_new-IsSound n key_value table ((l, left), full) p room = (
      (
        sorted-Laid table.entries new l p room sorted ordered same full,
        rw left (
            left_after setup.total_entries (used setup table.entries)
              (req_entries setup key_value.size)
              (omega (
                arith,
                HasRoom-used setup 0 (req_entries setup key_value.size) n table.entries l room,
              ))
            ∙ ap (λ m. pos (setup.total_entries - m))
                (sym (used-sorted table.entries new l p room sorted ordered same full))),
      ),
      sorted-full table.entries new l p room sorted ordered same full,
    )
      where
        new : Entry
        new = convert_key_value_t_to_entry_t n key_value

        sorted : List Entry
        sorted = lib.list_sort (lib.list_add table.entries new) ascending

        ordered : Ordered ascending sorted
        ordered = insert_new-Ordered n key_value table

        same : (q : Entry → Bool) → count_if q sorted ≡ count_if q (table.entries ++ new ∷ [])
        same q = insert_new-counts n key_value table q

    -- A key without entries that is inserted where entry_table_next_entry says leaves a sound table,
    -- also where that is -1: the keys lie one after the other in the storage, what they leave is
    -- counted, and each has some entry, if that holds before, the value takes some entry, and there are
    -- fewer entries than a pointer has values.
    pub entry_table_insert-IsSound :
        (key_value : KeyValue) (table : EntryTable)
        → setup.total_entries < size_limit
        → IsSound table
        → entry_table_get_entry table key_value.key ≡ none
        → 0 < entry_table_entries_needed setup key_value
        → IsSound
            (entry_table_insert lib setup
              (entry_table_next_entry setup table key_value)
              key_value
              table).1
    unfolding entry_table_insert
    entry_table_insert-IsSound key_value table total h absent p =
        placed (entry_table_next_entry setup table key_value)
          (entry_table_next_entry-Finds setup total table key_value h.0 absent p)
      where
        placed :
            (next : ℤ)
            → Finds setup next 0 (entry_table_entries_needed setup key_value) table.entries
            → IsSound (entry_table_insert lib setup next key_value table).1
        placed (negsuc m) f = h
        placed (pos n) f =
            rw (absent, entry_table_insert) (insert_new-IsSound n key_value table h p f)
