-- ===== src/Instancia/Continuous.antt =====
-- instancia/entry_table.c: whether a key finds its entries side by side.
use tp_so_1c.Prelude.{
  ℕ, ◌+◌, ◌-◌, ◌%◌, ℤ, pos, negsuc, minus_one, same_int, List, [], ◌∷◌, Bool, true, false, not,
  ◌&&◌, ◌==◌, ltb, if◌then◌else◌,
}
use tp_so_1c.Outcome.{Outcome, ok, ◌>>=◌, deref}
use tp_so_1c.Commons.{ListLib}
use tp_so_1c.Wire.Messages.{StorageSetup}
use tp_so_1c.Instancia.State.{KeyValue, Entry, EntryTable, StringLib}
use tp_so_1c.Instancia.EntryTable.{
  size_limit, unsigned_sub, req_entries, entry_end, entry_table_has_key, entry_table_diff_entries,
  entry_table_entries_needed, first_gap,
}

-- An `int` where an unsigned number of eight bytes is wanted.
abbrev pub to_unsigned : ℤ → ℕ
to_unsigned (pos n) = n % size_limit
to_unsigned (negsuc n) = size_limit - 1 - n

-- The first of the entries that does not begin before a number, or else the last.
unfoldable pub following : ℕ → Entry → List Entry → Entry
following number entry [] = entry
following number entry (next ∷ later) =
    let rest = following number next later in if ltb entry.number number then rest else entry

-- The tests on the key's entry and the one that follows it.
unfoldable pub room_where_it_is : StorageSetup → EntryTable → KeyValue → Entry → Entry → Bool
unfolding req_entries entry_end entry_table_diff_entries
room_where_it_is setup table key_value current_entry following_entry =
    if ltb following_entry.number current_entry.number
      && not (
          ((unsigned_sub setup.total_entries current_entry.number
              + req_entries setup key_value.size)
            % size_limit)
          == 0)
    then true
    else ltb
        ((entry_end setup current_entry
            + to_unsigned (entry_table_diff_entries setup table key_value))
          % size_limit)
        following_entry.number

-- The gaps between the entries of the other keys.
unfoldable pub room_in_a_gap : StorageSetup → KeyValue → List Entry → Bool
unfolding first_gap entry_table_entries_needed
room_in_a_gap setup key_value entries =
    not (same_int (first_gap setup (entry_table_entries_needed setup key_value) entries) minus_one)

unfoldable pub room_for_old : StorageSetup → EntryTable → KeyValue → Entry → List Entry → Bool
unfolding following room_where_it_is room_in_a_gap
room_for_old setup table key_value current_entry [] = true
room_for_old setup table key_value current_entry (e ∷ others) =
    if room_where_it_is setup table key_value current_entry
      (following current_entry.number e others)
    then true
    else room_in_a_gap setup key_value (e ∷ others)

unfoldable pub entry_table_has_continous_entries :
    ListLib → StringLib → StorageSetup → EntryTable → KeyValue → Outcome Bool
unfolding entry_table_has_key room_for_old room_in_a_gap
entry_table_has_continous_entries lib strings setup table key_value =
    if entry_table_has_key table key_value.key false
    then (do
      let same = λ (entry : Entry). strings.string_equals_ignore_case key_value.key entry.key
      current_entry ← deref (lib.list_find table.entries same)
      ok (
          room_for_old setup table key_value current_entry
            (lib.list_remove_by_condition table.entries same)))
    else ok (room_in_a_gap setup key_value table.entries)
