-- ===== src/Instancia/Removal.antt =====
-- instancia/entry_table.c: what the table is after keys are deleted.
use tp_so_1c.Prelude.{
  ℕ, ◌+◌, ◌-◌, ◌≤◌, ◌≡◌, arith, pos, ◌+ℤ◌, String, List, [], ◌∷◌, Option, some, Bool, Bool-cases,
  Option-cases, inl, inr, if◌then◌else◌, same_key, remove_first, find_first, subst,
}
use tp_so_1c.Wire.Messages.{StorageSetup}
use tp_so_1c.Instancia.State.{StringLib, KeyValue, Entry, EntryTable}
use tp_so_1c.Instancia.EntryTable.{
  req_entries, entry_table_get_entry, entry_table_delete, delete_key, entry_table_delete_few,
}
use tp_so_1c.Instancia.Layout.{Laid, used, Laid-used, IsLaidOut}

module _ (setup : StorageSetup) where
  pub Laid-weaken :
      (lo hi : ℕ) (entries : List Entry) → lo ≤ hi → Laid setup hi entries → Laid setup lo entries
  Laid-weaken lo hi [] h l = omega (arith, h, l)
  Laid-weaken lo hi (e ∷ later) h (i, l) = (omega (arith, h, i), l)

  -- Without the first hit, the rest lies as it did.
  Laid-remove_first :
      (p : Entry → Bool) (lo : ℕ) (entries : List Entry)
      → Laid setup lo entries
      → Laid setup lo (remove_first p entries)
  Laid-remove_first p lo [] h = h
  Laid-remove_first p lo (e ∷ later) (i, l) = elim (Bool-cases (p e)) [
    | inl eq ↦
        rw eq (Laid-weaken lo (e.number + req_entries setup e.size) later (omega (arith, i)) l)
    | inr eq ↦ rw eq (i, Laid-remove_first p (e.number + req_entries setup e.size) later l)
  ]

  used-remove_first :
      (p : Entry → Bool) (entries : List Entry) (entry : Entry)
      → find_first p entries ≡ some entry
      → used setup (remove_first p entries) + req_entries setup entry.size ≡ used setup entries
  used-remove_first p [] entry h = ground arith
  used-remove_first p (e ∷ later) entry h = elim (Bool-cases (p e)) [
    | inl eq ↦ rw eq (
        let same : some e ≡ some entry = subst (λ b. hit b ≡ some entry) eq h in
        ground (arith, same))
    | inr eq ↦
        rw eq
          (omega (arith, used-remove_first p later entry (subst (λ b. hit b ≡ some entry) eq h)))
  ]
    where
      hit : Bool → Option Entry
      hit b = if b then some e else find_first p later

  given_back :
      (total before after r : ℕ)
      → before ≤ total
      → after + r ≡ before
      → pos (total - before) +ℤ pos r ≡ pos (total - after)
  unfolding ◌+ℤ◌
  given_back total before after r h e = ground (arith, h, e)

  -- A deletion, of a key that has entries or of one that has none, leaves the keys one after the other
  -- in the storage and what they leave counted.
  pub entry_table_delete-IsLaidOut :
      (table : EntryTable) (key_value : KeyValue)
      → IsLaidOut setup table
      → IsLaidOut setup (entry_table_delete setup table key_value).1
  unfolding entry_table_delete entry_table_get_entry
  entry_table_delete-IsLaidOut table key_value (l, left) =
      elim (Option-cases (find_first p table.entries)) [
        | inl e ↦ rw (e, entry_table_delete) (l, left)
        | inr (entry, e) ↦
            rw (e, entry_table_delete)
              (
                Laid-remove_first p 0 table.entries l,
                rw left (
                    given_back setup.total_entries (used setup table.entries)
                      (used setup (remove_first p table.entries)) (req_entries setup entry.size)
                      (omega (arith, Laid-used setup 0 table.entries l))
                      (used-remove_first p table.entries entry e)),
              )
      ]
    where
      p : Entry → Bool
      p e = same_key key_value.key e.key

  -- So does the deletion of several keys.
  pub entry_table_delete_few-IsLaidOut :
      (strings : StringLib) (keys : List String) (table : EntryTable)
      → IsLaidOut setup table
      → IsLaidOut setup (entry_table_delete_few strings setup table keys)
  unfolding entry_table_delete_few delete_key
  entry_table_delete_few-IsLaidOut strings [] table h = h
  entry_table_delete_few-IsLaidOut strings (key ∷ keys) table h =
      entry_table_delete_few-IsLaidOut strings keys _ (
        entry_table_delete-IsLaidOut table
          (record { key = strings.string_substring_until key 40; value = []; size = 0 }) h)
