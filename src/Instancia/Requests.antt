-- ===== src/Instancia/Requests.antt =====
-- instancia/instancia.c: what an instance does for a SET, a STORE and the request of a value.
use tp_so_1c.Prelude.{
  ℕ, ℤ, pos, negsuc, same_int, String, List, [], ◌∷◌, ◌++◌, take, Option, none, some, Bool, true,
  false, not, if◌then◌else◌,
}
use tp_so_1c.Outcome.{Outcome, ok, ◌>>=◌}
use tp_so_1c.Commons.{ListLib}
use tp_so_1c.Wire.Bytes.{c_string}
use tp_so_1c.Wire.Messages.{StorageSetup}
use tp_so_1c.Instancia.State.{KeyValue, EntryTable, StringLib}
use tp_so_1c.Instancia.EntryTable.{
  entry_table_has_entries, entry_table_has_key, entry_table_get_entry, entry_table_next_entry,
  entry_table_insert, entry_table_delete, entry_table_delete_few,
}
use tp_so_1c.Instancia.Continuous.{entry_table_has_continous_entries}
use tp_so_1c.Instancia.Storage.{Storage, StorageStatus, strg_success, storage_set, storage_retrieve}
use tp_so_1c.Instancia.Algorithms.{Status, new_value_fits_with_replaced, algorithms_exec}
use tp_so_1c.Instancia.StatusTable.{
  StatusLib, entry_table_status_add_kv, entry_table_status_delete_kv,
}

pub data StatusCi : Type 0 where
  status_compact : StatusCi
  status_ok : StatusCi
  status_replaced : StatusCi
  status_no_space : StatusCi
  status_error : StatusCi

-- What the dumper is told: a key's file goes, or gets a value.
pub data DumpAction : Type 0 where
  dumper_remove_key_value : String → DumpAction
  dumper_store : String → List ℕ → DumpAction

pub record Memory : Type 0 where
  pub table : EntryTable
  pub statuses : List Status
  pub circular_pointer : ℕ
  pub storage : Storage
  pub dumped : List DumpAction

unfoldable pub removals : List String → List DumpAction
removals [] = []
removals (key ∷ keys) = dumper_remove_key_value key ∷ removals keys

unfoldable pub is_success : StorageStatus → Bool
is_success strg_success = true
is_success _ = false

module _ (lib : ListLib) (strings : StringLib) (status_lib : StatusLib) (setup : StorageSetup)
    (replacement_algorithm_id : ℕ) where
  -- The replacement, if one is needed: whether to go on, the memory, and the replaced keys.
  unfoldable pub make_room :
      KeyValue → List String → Memory → Outcome (Bool × (Memory × List String))
  unfolding entry_table_has_entries algorithms_exec entry_table_delete_few removals
  make_room key_value replaced_keys m =
      if entry_table_has_entries setup m.table key_value then ok (true, (m, replaced_keys)) else (do
        (operation_result, (pointer, r)) ←
            algorithms_exec lib setup m.table replacement_algorithm_id m.circular_pointer key_value
              m.statuses replaced_keys
        let n = record m { statuses = r.statuses; circular_pointer = pointer }
        ok (
            if same_int operation_result (pos 0) then (false, (n, r.replaced_keys)) else (
              true,
              (
                record n {
                  table = entry_table_delete_few strings setup n.table r.replaced_keys;
                  dumped = n.dumped ++ removals r.replaced_keys;
                },
                r.replaced_keys,
              ),
            )))

  -- The key goes, so that a compaction makes room for its new value.
  unfoldable pub leave_for_compaction : KeyValue → Memory → Outcome (StatusCi × Memory)
  unfolding entry_table_has_key entry_table_delete entry_table_status_delete_kv
  leave_for_compaction key_value m =
      if entry_table_has_key m.table key_value.key false
      then (do
        statuses ← entry_table_status_delete_kv lib status_lib setup key_value m.statuses
        ok (
          status_compact,
          record m { table = (entry_table_delete setup m.table key_value).1; statuses = statuses },
        ))
      else ok (status_compact, m)

  -- The value goes to an entry, and the key with it.
  unfoldable pub write_entry : ℤ → KeyValue → Memory → Outcome (StatusCi × Memory)
  unfolding storage_set is_success entry_table_insert entry_table_status_add_kv
  write_entry next_entry key_value m = do
    (written, storage) ← storage_set next_entry (take key_value.size key_value.value) m.storage
    if not (is_success written) then ok (status_error, m) else (do
      statuses ← entry_table_status_add_kv lib status_lib setup key_value next_entry m.statuses
      let inserted = entry_table_insert lib setup next_entry key_value m.table
      ok (
        if inserted.0 then status_ok else status_error,
        record m { table = inserted.1; statuses = statuses; storage = storage },
      ))

  unfoldable pub place_value : KeyValue → Memory → Outcome (StatusCi × Memory)
  unfolding entry_table_has_continous_entries leave_for_compaction entry_table_next_entry
      write_entry
  place_value key_value m = do
    fits ← entry_table_has_continous_entries lib strings setup m.table key_value
    if not fits
        then leave_for_compaction key_value m
        else (elim (entry_table_next_entry setup m.table key_value) [
          | negsuc n ↦ ok (status_error, m)
          | pos n ↦ write_entry (pos n) key_value m
        ])

  -- The status, the memory, and the replaced keys.
  unfoldable pub instance_set :
      KeyValue → List String → Memory → Outcome (StatusCi × (Memory × List String))
  unfolding new_value_fits_with_replaced make_room place_value
  instance_set key_value replaced_keys m =
      if not (new_value_fits_with_replaced setup m.table key_value)
      then ok (status_no_space, (m, replaced_keys))
      else (do
        (go_on, (n, replaced)) ← make_room key_value replaced_keys m
        if not go_on
            then ok (status_error, (n, replaced))
            else (do (status, o) ← place_value key_value n; ok (status, (o, replaced))))

-- The key's value goes to the dumper.
unfoldable pub instance_store : String → Memory → Outcome (StatusCi × Memory)
unfolding entry_table_get_entry storage_retrieve
instance_store key m = elim (entry_table_get_entry m.table key) [
  | none ↦ ok (status_replaced, m)
  | some entry ↦ do
    value ← storage_retrieve (pos entry.number) entry.size m.storage
    ok (status_ok, record m { dumped = m.dumped ++ dumper_store key value ∷ [] })
]

-- The value of the key, if it has one: key_value_create takes it as a string.
unfoldable pub instance_status : String → Memory → Outcome (StatusCi × Option (List ℕ))
unfolding entry_table_get_entry storage_retrieve c_string
instance_status key m = elim (entry_table_get_entry m.table key) [
  | none ↦ ok (status_replaced, none)
  | some entry ↦ do
    value ← storage_retrieve (pos entry.number) entry.size m.storage
    ok (status_ok, some (c_string value))
]
