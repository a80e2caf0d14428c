-- ===== src/Instancia/Tests.antt =====
-- instancia: runs on small inputs.
use tp_so_1c.Prelude.{same_key, set, List, ◌≡◌, refl, arith, pos, [], ◌∷◌}
use tp_so_1c.Outcome.{ok, Settles}
use tp_so_1c.Commons.Insertion.{list_lib, list_lib-Documented}
use tp_so_1c.Wire.Messages.{StorageSetup}
use tp_so_1c.Instancia.State.{KeyValue, EntryTable, StringLib}
use tp_so_1c.Instancia.EntryTable.{
  entry_table_get_entry, entry_table_entries_needed, entry_table_next_entry, entry_table_insert,
  entry_table_delete, req_entries,
}
use tp_so_1c.Instancia.Layout.{Finds, IsLaidOut, entry_table_next_entry-Finds}
use tp_so_1c.Instancia.Removal.{entry_table_delete-IsLaidOut}
use tp_so_1c.Instancia.Placing.{IsSound, entry_table_insert-IsSound}
use tp_so_1c.Instancia.Algorithms.{Status, atomic, algorithms_exec}
use tp_so_1c.Instancia.Replacing.{Replaces, algorithms_exec-Replaces}
use tp_so_1c.Instancia.StatusTable.{StatusLib}
use tp_so_1c.Instancia.Requests.{Memory, instance_set}
use tp_so_1c.Instancia.Writing.{SetsOrKeeps, instance_set-SetsOrKeeps}
use tp_so_1c.Instancia.Storage.{Storage, strg_success, storage_init, storage_set}
use tp_so_1c.Instancia.Bytes.{Writes, storage_set-Writes}

-- Three entries of two bytes.
storage_set-Writes_example :
    (after : Storage) × (storage_set (pos 1) (7 ∷ 8 ∷ 9 ∷ []) (storage_init 3 2)
        ≡ ok (strg_success, after)
      × Writes (storage_init 3 2) 1 (7 ∷ 8 ∷ 9 ∷ []) after)
unfolding storage_init
storage_set-Writes_example =
    storage_set-Writes (storage_init 3 2) 1 (7 ∷ 8 ∷ 9 ∷ []) refl (omega arith)

-- Six entries of two bytes, of which two keys have three.
abbrev setup : StorageSetup
setup = record { total_entries = 6; entry_size = 2 }

abbrev table : EntryTable
table = record {
  entries =
      record { number = 0; size = 3; key = "a" } ∷ record { number = 3; size = 2; key = "b" } ∷ [];
  entries_left = pos 3;
}

abbrev key_c : KeyValue
key_c = record { key = "c"; value = 1 ∷ 2 ∷ 3 ∷ []; size = 3 }

table-IsLaidOut : IsLaidOut setup table
unfolding req_entries
table-IsLaidOut = ((omega arith, (omega arith, omega arith)), refl)

entry_table_next_entry-Finds_example :
    Finds setup
      (entry_table_next_entry setup table key_c)
      0
      (entry_table_entries_needed setup key_c)
      table.entries
unfolding entry_table_get_entry entry_table_entries_needed
entry_table_next_entry-Finds_example =
    entry_table_next_entry-Finds setup (omega arith) table key_c table-IsLaidOut refl (omega arith)

entry_table_delete-IsLaidOut_example :
    IsLaidOut setup (entry_table_delete setup table (record key_c { key = "b" })).1
entry_table_delete-IsLaidOut_example =
    entry_table_delete-IsLaidOut setup table (record key_c { key = "b" }) table-IsLaidOut

table-IsSound : IsSound setup table
unfolding req_entries
table-IsSound = (table-IsLaidOut, refl)

entry_table_insert-IsSound_example :
    IsSound setup
      (entry_table_insert list_lib setup (entry_table_next_entry setup table key_c) key_c table).1
unfolding entry_table_get_entry entry_table_entries_needed
entry_table_insert-IsSound_example =
    entry_table_insert-IsSound setup list_lib list_lib-Documented key_c table (omega arith)
      table-IsSound refl (omega arith)

abbrev full_setup : StorageSetup
full_setup = record { total_entries = 2; entry_size = 2 }

abbrev full_table : EntryTable
full_table = record {
  entries =
      record { number = 0; size = 1; key = "a" } ∷ record { number = 1; size = 2; key = "b" } ∷ [];
  entries_left = pos 0;
}

abbrev full_statuses : List Status
full_statuses =
    record { status = atomic; key = "a"; last_referenced = 3; space_used = pos 1 }
    ∷ record { status = atomic; key = "b"; last_referenced = 5; space_used = pos 2 }
    ∷ []

algorithms_exec-Replaces_example : Settles (Replaces full_statuses []) (
    algorithms_exec list_lib full_setup full_table 76 0
      (record key_c { size = 2 })
      full_statuses
      [])
algorithms_exec-Replaces_example =
    algorithms_exec-Replaces list_lib list_lib-Documented full_setup full_table 76 0
      (record key_c { size = 2 }) full_statuses []

-- The keys are short.
abbrev by_case : StringLib
by_case = record {
  string_equals_ignore_case = λ a b. same_key a b;
  string_substring_until = λ key n. key;
}

abbrev replacing_lib : StatusLib
replacing_lib = record {
  list_replace = λ xs i x. set xs i x;
  strcasecmp_same = λ a b. same_key a b;
}

abbrev memory : Memory
memory = record {
  table = full_table;
  statuses = full_statuses;
  circular_pointer = 0;
  storage = storage_init 2 2;
  dumped = [];
}

instance_set-SetsOrKeeps_example :
    Settles
      (λ p. SetsOrKeeps (record key_c { size = 2 }) memory p.0 p.1.0)
      (instance_set list_lib by_case replacing_lib full_setup 76
        (record key_c { size = 2 })
        []
        memory)
instance_set-SetsOrKeeps_example =
    instance_set-SetsOrKeeps list_lib list_lib-Documented by_case replacing_lib full_setup 76
      (record key_c { size = 2 }) [] memory
