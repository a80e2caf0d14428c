-- ===== src/Instancia/Moving.antt =====
-- instancia/compactation.c: what a turn of the loop does to the table of entries.
use tp_so_1c.Prelude.{
  ℕ, suc, ◌+◌, ◌-◌, ◌≤◌, ◌<◌, ◌≡◌, refl, ap, ◌∙◌, subst, arith, String, List, [], ◌∷◌, ◌++◌, true,
  pos, leb_ℤ, ◌+ℤ◌, none, some, same_key, eq_iff, find_first, remove_first, count_if,
  count_if-append, count_if-remove_first_le,
}
use tp_so_1c.Commons.{ListLib, Documented}
use tp_so_1c.Wire.Messages.{StorageSetup}
use tp_so_1c.Instancia.State.{KeyValue, Entry, EntryTable}
use tp_so_1c.Instancia.EntryTable.{
  size_limit, req_entries, entry_table_get_entry, entry_table_entries_needed,
  entry_table_have_entries, entry_table_next_entry, entry_table_delete, entry_table_insert,
  first_gap, convert_key_value_t_to_entry_t,
}
use tp_so_1c.Instancia.Layout.{Laid, used, Laid-used}
use tp_so_1c.Instancia.Cells.{is_empty}
use tp_so_1c.Instancia.Removal.{Laid-weaken, entry_table_delete-IsLaidOut}
use tp_so_1c.Instancia.Placing.{
  IsSound, entry_table_insert-IsSound, insert_new-Ordered, insert_new-counts,
}
use tp_so_1c.Instancia.Packed.{
  pack_from, Ordered-unique, used-append, used-pack_from, Laid-pack_from, Laid-behind,
  first_gap-pack_from, count-zero-find, find_first-append, remove_first-append,
}

-- How many entries of the table are of the key.
abbrev pub keys_named : String → List Entry → ℕ
keys_named key entries = count_if (λ e. same_key key e.key) entries

pub same_key_self : (key : String) → same_key key key ≡ true
same_key_self key = ground (arith, eq_iff key key)

module _ (lib : ListLib) (manual : Documented lib) (setup : StorageSetup)
    (total : setup.total_entries < size_limit) (table : EntryTable) (xs later : List Entry)
    (e : Entry) (value : List ℕ) (split : table.entries ≡ pack_from setup 0 xs ++ e ∷ later)
    (sound : IsSound setup table)
    (distinct : (key : String) → keys_named key table.entries ≤ 1) where
  -- What stands in for the value of the key while it moves.
  abbrev pub moving : KeyValue
  moving = record { key = e.key; value = value; size = e.size }

  abbrev pub without : EntryTable
  without = (entry_table_delete setup table moving).1

  named :
      (xs : List Entry)
      → keys_named e.key (xs ++ e ∷ later) ≡ suc (keys_named e.key xs + keys_named e.key later)
  named ys =
      ground
        (arith, count_if-append (λ d. same_key e.key d.key) ys (e ∷ later), same_key_self e.key)

  none_before : keys_named e.key (pack_from setup 0 xs) ≡ 0
  none_before =
      omega (arith, named (pack_from setup 0 xs), distinct e.key, ap (keys_named e.key) split)

  none_after : keys_named e.key later ≡ 0
  none_after =
      omega (arith, named (pack_from setup 0 xs), distinct e.key, ap (keys_named e.key) split)

  found : entry_table_get_entry table e.key ≡ some e
  unfolding entry_table_get_entry
  found =
      ap (find_first (λ d. same_key e.key d.key)) split
      ∙ find_first-append (λ d. same_key e.key d.key) (pack_from setup 0 xs) (e ∷ later) none_before
      ∙ rw (same_key_self e.key) refl

  removed : without.entries ≡ remove_first (λ d. same_key e.key d.key) table.entries
  unfolding entry_table_delete
  removed = ap (λ r. r.1.entries) deletes
    where
      deletes : entry_table_delete setup table moving ≡ (
        true,
        record {
          entries = remove_first (λ d. same_key e.key d.key) table.entries;
          entries_left = table.entries_left +ℤ pos (req_entries setup e.size);
        },
      )
      deletes = rw (found, entry_table_delete) refl

  pub without-entries : without.entries ≡ pack_from setup 0 xs ++ later
  without-entries =
      removed
      ∙ ap (remove_first (λ d. same_key e.key d.key)) split
      ∙ remove_first-append (λ d. same_key e.key d.key) (pack_from setup 0 xs) (e ∷ later)
          none_before
      ∙ rw (same_key_self e.key) refl

  without-absent : entry_table_get_entry without e.key ≡ none
  unfolding entry_table_get_entry
  without-absent =
      ap (find_first (λ d. same_key e.key d.key)) without-entries
      ∙ find_first-append (λ d. same_key e.key d.key) (pack_from setup 0 xs) later none_before
      ∙ count-zero-find (λ d. same_key e.key d.key) later none_after

  some_entry : 0 < req_entries setup e.size
  some_entry = ground (
    arith,
    count_if-append (is_empty setup) (pack_from setup 0 xs) (e ∷ later),
    ap (count_if (is_empty setup)) split,
    sound.1,
  )

  without-IsSound : IsSound setup without
  without-IsSound = (
    entry_table_delete-IsLaidOut setup table moving sound.0,
    omega (
      arith,
      sound.1,
      ap (count_if (is_empty setup)) removed,
      count_if-remove_first_le (λ d. same_key e.key d.key) (is_empty setup) table.entries,
    ),
  )

  pub behind : Laid setup (used setup xs) (e ∷ later)
  behind =
      subst (λ n. Laid setup n (e ∷ later)) (omega arith)
        (Laid-behind setup 0 xs (e ∷ later) (subst (Laid setup 0) split sound.0.0))

  pub rest_Laid : Laid setup (used setup xs + req_entries setup e.size) later
  rest_Laid =
      Laid-weaken setup _ (e.number + req_entries setup e.size) later (omega (arith, behind.0))
        behind.1

  room : used setup without.entries + req_entries setup e.size ≤ setup.total_entries
  room = omega (
    arith,
    ap (used setup) without-entries,
    used-append setup (pack_from setup 0 xs) later,
    used-pack_from setup 0 xs,
    Laid-used setup (used setup xs + req_entries setup e.size) later rest_Laid,
  )

  pub moving-next : entry_table_next_entry setup without moving ≡ pos (used setup xs)
  unfolding entry_table_next_entry entry_table_have_entries entry_table_entries_needed
  moving-next =
      rw (without-absent, entry_table_next_entry)
        (rw (without-IsSound.0.1, entry_table_have_entries)
          (rw enough (
            ap (first_gap setup (req_entries setup e.size)) without-entries
            ∙ first_gap-pack_from setup total (req_entries setup e.size) some_entry xs later
                rest_Laid)))
    where
      enough :
          leb_ℤ
            (pos (req_entries setup e.size))
            (pos (setup.total_entries - used setup without.entries))
          ≡ true
      enough = ground (arith, room)

  -- The key stands where it stood in the table, with its entries behind those of the keys before it.
  abbrev pub moved : List Entry
  moved = pack_from setup 0 xs ++ record e { number = used setup xs } ∷ later

  pub inserted-IsSound :
      IsSound setup (entry_table_insert lib setup (pos (used setup xs)) moving without).1
  unfolding entry_table_entries_needed
  inserted-IsSound =
      subst (λ n. IsSound setup (entry_table_insert lib setup n moving without).1) moving-next
        (entry_table_insert-IsSound setup lib manual moving without total without-IsSound
          without-absent some_entry)

  pub inserted-entries :
      (entry_table_insert lib setup (pos (used setup xs)) moving without).1.entries ≡ moved
  unfolding entry_table_insert convert_key_value_t_to_entry_t
  inserted-entries =
      rw (without-absent, entry_table_insert)
        (Ordered-unique setup 0 _ _
          (insert_new-Ordered setup lib manual (used setup xs) moving without)
          (Laid-pack_from setup 0 xs (record e { number = used setup xs } ∷ later)
            (omega arith, rest_Laid))
          (ground (
            arith,
            count_if-append (is_empty setup) (pack_from setup 0 xs) (e ∷ later),
            count_if-append (is_empty setup) (pack_from setup 0 xs)
                (record e { number = used setup xs } ∷ later),
            ap (count_if (is_empty setup)) split,
            sound.1,
          ))
          λ p. omega (
            arith,
            insert_new-counts setup lib manual (used setup xs) moving without p,
            ap (λ l. count_if p (l ++ record e { number = used setup xs } ∷ [])) without-entries,
            count_if-append p (pack_from setup 0 xs ++ later)
                (record e { number = used setup xs } ∷ []),
            count_if-append p (pack_from setup 0 xs) later,
            count_if-append p (pack_from setup 0 xs) (record e { number = used setup xs } ∷ later),
          ))
