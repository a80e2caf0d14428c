-- ===== src/Instancia/ServiceTests.antt =====
-- instancia: runs of the service of an instance on small inputs.
use tp_so_1c.Prelude.{
  ℕ, ◌≤◌, ◌≡◌, ◌⊎◌, refl, arith, String, List, [], ◌∷◌, set, same_key, eq_iff, true, some, pos,
  replicate,
}
use tp_so_1c.Outcome.{ok}
use tp_so_1c.Commons.Insertion.{list_lib, list_lib-Documented}
use tp_so_1c.Wire.Messages.{StorageSetup}
use tp_so_1c.Instancia.State.{KeyValue, Entry, StringLib}
use tp_so_1c.Instancia.EntryTable.{
  req_entries, entry_table_get_entry, entry_table_entries_needed, entry_table_has_entries,
}
use tp_so_1c.Instancia.StatusTable.{StatusLib, free_status}
use tp_so_1c.Instancia.Statuses.{StatusDocumented}
use tp_so_1c.Instancia.Storage.{Storage}
use tp_so_1c.Instancia.Packed.{pack_from}
use tp_so_1c.Instancia.Values.{values}
use tp_so_1c.Instancia.Moving.{keys_named}
use tp_so_1c.Instancia.Requests.{StatusCi, DumpAction, status_ok, status_compact, Memory}
use tp_so_1c.Instancia.Compaction.{compactation_compact}
use tp_so_1c.Instancia.Compacting.{IsReady}
use tp_so_1c.Instancia.Compacted.{compactation_compact-packs}
use tp_so_1c.Instancia.Storing.{Stores}
use tp_so_1c.Instancia.Dumping.{Dumps, dump_round-Dumps}
use tp_so_1c.Instancia.Service.{
  RequestTurn, Served, notify_set, set_request, goes_on, dump_round, serve,
}
use tp_so_1c.Instancia.Serving.{serve-Stores}

-- Four entries of two bytes, of which two keys have the first and the third.
abbrev setup : StorageSetup
setup = record { total_entries = 4; entry_size = 2 }

abbrev entries : List Entry
entries =
    record { number = 0; size = 2; key = "a" } ∷ record { number = 2; size = 1; key = "b" } ∷ []

abbrev storage : Storage
storage = record { entries = 4; entry_size = 2; bytes = 65 ∷ 66 ∷ 0 ∷ 0 ∷ 67 ∷ 0 ∷ 0 ∷ 0 ∷ [] }

abbrev memory : Memory
memory = record {
  table = record { entries = entries; entries_left = pos 2 };
  statuses = replicate 4 (free_status "");
  circular_pointer = 0;
  storage = storage;
  dumped = [];
}

-- The keys are short.
abbrev by_case : StringLib
by_case = record {
  string_equals_ignore_case = λ a b. same_key a b;
  string_substring_until = λ key n. key;
}

abbrev status_lib : StatusLib
status_lib = record { list_replace = λ xs i x. set xs i x; strcasecmp_same = λ a b. same_key a b }

status_lib-Documented : StatusDocumented status_lib
status_lib-Documented = record { replaces = λ xs i x. refl }

-- Two entries that are not side by side before the compaction.
abbrev key_c : KeyValue
key_c = record { key = "c"; value = 70 ∷ 71 ∷ 72 ∷ []; size = 3 }

entries-distinct : (key : String) → keys_named key entries ≤ 1
entries-distinct key = ground (arith, eq_iff key "a", eq_iff key "b", eq_iff "a" "b")

memory-IsReady : IsReady setup memory
unfolding req_entries
memory-IsReady = record {
  sound = (((omega arith, (omega arith, omega arith)), refl), refl);
  distinct = entries-distinct;
  whole = refl;
  as_many = refl;
  as_large = refl;
  covered = omega arith;
}

compactation_compact-packs_example :
    (n : Memory) × (compactation_compact list_lib by_case status_lib setup 3 memory ≡ ok n
      × n.table ≡ record { entries = pack_from setup 0 entries; entries_left = pos 2 }
      × values n.storage n.table.entries ≡ values storage entries
      × IsReady setup n
      × n.circular_pointer ≡ 0
      × n.dumped ≡ [])
compactation_compact-packs_example =
    compactation_compact-packs list_lib list_lib-Documented by_case status_lib status_lib-Documented
      setup (omega arith) (omega arith) memory memory-IsReady (refl, (refl, tt))

dump_round-Dumps_example :
    (files : List DumpAction) × (dump_round list_lib setup memory
        ≡ ok (record memory { dumped = files })
      × Dumps storage entries files)
dump_round-Dumps_example =
    dump_round-Dumps list_lib list_lib-Documented setup (omega arith) memory memory-IsReady

abbrev turn : RequestTurn
turn = record { incoming = set_request (some (true, key_c)); sends = true; dump_between = true }

serve-Stores_example :
    (s : Served) × (serve list_lib by_case status_lib setup 76 turn
          (set_request (some (true, key_c)))
          memory
        ≡ ok s
      × Stores setup key_c memory s.memory
      × goes_on s.result ≡ true
      × (n : ℕ) × (code : StatusCi) × (s.notices ≡ notify_set n code ∷ [])
      × ((code ≡ status_ok) ⊎ (code ≡ status_compact)))
unfolding entry_table_get_entry entry_table_entries_needed entry_table_has_entries
serve-Stores_example =
    serve-Stores list_lib list_lib-Documented by_case status_lib status_lib-Documented setup 76
      (omega arith) (omega arith) key_c (omega arith) refl turn memory refl memory-IsReady refl refl
      (refl, (refl, tt))
