-- ===== src/Instancia/EntryTable.antt =====
-- instancia/entry_table.c: which entries each key has.
use tp_so_1c.Prelude.{
  ℕ, zero, suc, ◌+◌, ◌-◌, ◌/◌, ◌%◌, ℤ, pos, negsuc, minus_one, ◌+ℤ◌, ◌-ℤ◌, leb_ℤ, String, List, [],
  ◌∷◌, Option, none, some, Bool, true, false, not, ◌&&◌, ◌==◌, ltb, leb, same_key, find_first,
  remove_first, update_first, any, if◌then◌else◌, count_if, fold,
}
use tp_so_1c.Commons.{ListLib}
use tp_so_1c.Wire.Messages.{StorageSetup}
use tp_so_1c.Instancia.State.{StringLib, KeyValue, Entry, EntryTable}

-- A size of pointers, 2 ^ 64.
abbrev pub size_limit : ℕ
size_limit = 18446744073709551616

-- a - b on unsigned numbers of eight bytes.
abbrev pub unsigned_sub : ℕ → ℕ → ℕ
unsigned_sub a b = (a + (size_limit - b)) % size_limit

-- How many entries so many bytes take.
unfoldable pub req_entries : StorageSetup → ℕ → ℕ
req_entries setup size =
    if size % setup.entry_size == 0 then size / setup.entry_size else size / setup.entry_size + 1

unfoldable pub entry_table_entries_needed : StorageSetup → KeyValue → ℕ
unfolding req_entries
entry_table_entries_needed setup key_value = req_entries setup key_value.size

-- The entry after the last one of a key.
unfoldable pub entry_end : StorageSetup → Entry → ℕ
unfolding req_entries
entry_end setup entry = entry.number + req_entries setup entry.size

-- The loops over the list stop at the first hit.
unfoldable pub entry_table_get_entry : EntryTable → String → Option Entry
entry_table_get_entry table key = find_first (λ entry. same_key key entry.key) table.entries

unfoldable pub entry_table_has_key : EntryTable → String → Bool → Bool
entry_table_has_key table key is_new =
    if not is_new then any (λ entry. same_key key entry.key) table.entries else false

unfoldable pub entry_table_get_entry_by_entry_number : EntryTable → ℕ → Option Entry
entry_table_get_entry_by_entry_number table number =
    find_first (λ entry. entry.number == number) table.entries

unfoldable pub entry_table_diff_entries : StorageSetup → EntryTable → KeyValue → ℤ
unfolding req_entries entry_table_get_entry
entry_table_diff_entries setup table key_value =
    let current_req = pos (req_entries setup key_value.size) in
    elim (entry_table_get_entry table key_value.key) [
      | none ↦ current_req
      | some old_entry ↦ current_req -ℤ pos (req_entries setup old_entry.size)
    ]

unfoldable pub entry_table_init : StorageSetup → EntryTable
entry_table_init setup = record { entries = []; entries_left = pos setup.total_entries }

unfoldable pub entry_table_has_entries : StorageSetup → EntryTable → KeyValue → Bool
unfolding entry_table_diff_entries
entry_table_has_entries setup table key_value =
    leb_ℤ (entry_table_diff_entries setup table key_value) table.entries_left

unfoldable pub entry_table_have_entries : StorageSetup → EntryTable → KeyValue → Bool
unfolding entry_table_entries_needed
entry_table_have_entries setup table key_value =
    leb_ℤ (pos (entry_table_entries_needed setup key_value)) table.entries_left

unfoldable pub ascending : Entry → Entry → Bool
ascending e1 e2 = if ltb e2.number e1.number then false else true

unfoldable pub convert_key_value_t_to_entry_t : ℕ → KeyValue → Entry
convert_key_value_t_to_entry_t number key_value = record {
  number = number;
  size = key_value.size;
  key = key_value.key;
}

-- The first gap between an entry and the next that holds so many entries, and after the last.
unfoldable pub gap_after : StorageSetup → ℕ → Entry → List Entry → ℤ
unfolding entry_end
gap_after setup entries_needed e1 [] =
    if leb entries_needed (unsigned_sub setup.total_entries (entry_end setup e1))
    then pos (entry_end setup e1)
    else minus_one
gap_after setup entries_needed e1 (e2 ∷ later) =
    let next = gap_after setup entries_needed e2 later in
    if leb_ℤ (pos entries_needed) (pos e2.number -ℤ pos (entry_end setup e1))
    then pos (entry_end setup e1)
    else next

unfoldable pub first_gap : StorageSetup → ℕ → List Entry → ℤ
unfolding gap_after
first_gap setup entries_needed [] = pos 0
first_gap setup entries_needed (e1 ∷ later) =
    if ltb 0 e1.number && leb entries_needed e1.number
    then pos 0
    else gap_after setup entries_needed e1 later

-- No key begins in the entries from a number on.
unfoldable pub none_begins : EntryTable → ℕ → ℕ → Bool
unfolding entry_table_get_entry_by_entry_number
none_begins table number zero = true
none_begins table number (suc n) =
    let rest = none_begins table (suc number) n in
    elim (entry_table_get_entry_by_entry_number table number) [ none ↦ rest | some e ↦ false ]

-- Whether the key can stay where it is.
unfoldable pub stays : StorageSetup → EntryTable → KeyValue → Entry → Bool
unfolding entry_table_entries_needed req_entries none_begins
stays setup table key_value old_entry =
    if leb key_value.size old_entry.size
    then true
    else (let old = req_entries setup old_entry.size in
        let extra = entry_table_entries_needed setup key_value - old in
        leb_ℤ (pos extra) table.entries_left && none_begins table (old_entry.number + old) extra)

unfoldable pub entry_table_next_entry : StorageSetup → EntryTable → KeyValue → ℤ
unfolding entry_table_get_entry stays first_gap entry_table_have_entries entry_table_entries_needed
entry_table_next_entry setup table key_value =
    let gap = first_gap setup (entry_table_entries_needed setup key_value) table.entries in
    elim (entry_table_get_entry table key_value.key) [
      | none ↦ if entry_table_have_entries setup table key_value then gap else minus_one
      | some old_entry ↦ if stays setup table key_value old_entry then pos old_entry.number else gap
    ]

-- The first entry of the key goes, and its entries are free.
unfoldable pub entry_table_delete : StorageSetup → EntryTable → KeyValue → Bool × EntryTable
unfolding entry_table_get_entry req_entries
entry_table_delete setup table key_value = elim (entry_table_get_entry table key_value.key) [
  | none ↦ (false, table)
  | some entry ↦ (
    true,
    record {
      entries = remove_first (λ e. same_key key_value.key e.key) table.entries;
      entries_left = table.entries_left +ℤ pos (req_entries setup entry.size);
    },
  )
]

-- `key_value_generator` takes the first characters of the key.
unfoldable pub delete_key : StringLib → StorageSetup → EntryTable → String → EntryTable
unfolding entry_table_delete
delete_key strings setup table key =
    (entry_table_delete setup table
      (record { key = strings.string_substring_until key 40; value = []; size = 0 })).1

unfoldable pub entry_table_delete_few :
    StringLib → StorageSetup → EntryTable → List String → EntryTable
unfolding delete_key
entry_table_delete_few strings setup table keys = fold (delete_key strings setup) table keys

unfoldable pub entry_table_is_entry_atomic : StorageSetup → Entry → Bool
entry_table_is_entry_atomic setup entry = leb entry.size setup.entry_size

unfoldable pub entry_table_atomic_entries_count : StorageSetup → EntryTable → ℕ
unfolding entry_table_is_entry_atomic
entry_table_atomic_entries_count setup table =
    count_if (entry_table_is_entry_atomic setup) table.entries

module _ (lib : ListLib) (setup : StorageSetup) where
  -- A key that has no entry gets its first one.
  unfoldable pub insert_new : ℕ → KeyValue → EntryTable → EntryTable
  unfolding convert_key_value_t_to_entry_t entry_table_entries_needed ascending
  insert_new next_entry key_value table = record {
    entries =
        lib.list_sort
          (lib.list_add table.entries (convert_key_value_t_to_entry_t next_entry key_value))
          ascending;
    entries_left = table.entries_left -ℤ pos (entry_table_entries_needed setup key_value);
  }

  -- A key that has an entry gets a size, and a place if it moves.
  unfoldable pub replace_old : ℕ → KeyValue → Entry → EntryTable → EntryTable
  unfolding req_entries entry_table_entries_needed ascending
  replace_old next_entry key_value old_entry table =
      let entries =
        update_first (λ e. same_key key_value.key e.key)
          (λ e. record e { number = next_entry; size = key_value.size }) table.entries in
      record {
        entries =
            if next_entry == old_entry.number then entries else lib.list_sort entries ascending;
        entries_left =
            table.entries_left
            +ℤ pos (req_entries setup old_entry.size)
            -ℤ pos (entry_table_entries_needed setup key_value);
      }

  unfoldable pub entry_table_insert : ℤ → KeyValue → EntryTable → Bool × EntryTable
  unfolding entry_table_get_entry insert_new replace_old
  entry_table_insert (negsuc n) key_value table = (false, table)
  entry_table_insert (pos next_entry) key_value table = (
    true,
    elim (entry_table_get_entry table key_value.key) [
      | none ↦ insert_new next_entry key_value table
      | some old_entry ↦ replace_old next_entry key_value old_entry table
    ],
  )

  unfoldable pub entry_table_get_key_list : EntryTable → List String
  entry_table_get_key_list table = lib.list_map table.entries (λ e. e.key)
