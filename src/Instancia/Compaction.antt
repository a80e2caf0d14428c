-- ===== src/Instancia/Compaction.antt =====
-- instancia/compactation.c: the values are moved together.
use tp_so_1c.Prelude.{ℕ, zero, suc, pos, String, replicate, ltb, if◌then◌else◌}
use tp_so_1c.Outcome.{Outcome, ok, hang, ◌>>=◌, deref}
use tp_so_1c.Commons.{ListLib}
use tp_so_1c.Wire.Messages.{StorageSetup}
use tp_so_1c.Instancia.State.{StringLib, KeyValue, Entry}
use tp_so_1c.Instancia.EntryTable.{entry_table_next_entry, entry_table_insert, entry_table_delete}
use tp_so_1c.Instancia.Storage.{storage_set, storage_retrieve}
use tp_so_1c.Instancia.StatusTable.{
  StatusLib, entry_table_status_add_kv, entry_table_status_delete_kv,
}
use tp_so_1c.Instancia.Requests.{Memory}

-- As many X as the size says.
unfoldable pub key_value_generator : StringLib → String → ℕ → KeyValue
key_value_generator strings key size = record {
  key = strings.string_substring_until key 40;
  value = replicate size 88;
  size = size;
}

module _ (lib : ListLib) (strings : StringLib) (status_lib : StatusLib) (setup : StorageSetup) where
  -- A turn of the loop: the key goes out of the tables, and back to where there is room.
  unfoldable pub move_entry : Entry → Memory → Outcome Memory
  unfolding key_value_generator storage_retrieve entry_table_delete entry_table_status_delete_kv
      entry_table_next_entry entry_table_insert entry_table_status_add_kv storage_set
  move_entry entry m = do
    value ← storage_retrieve (pos entry.number) entry.size m.storage
    let key_value = key_value_generator strings entry.key entry.size
    let table = (entry_table_delete setup m.table key_value).1
    deleted ← entry_table_status_delete_kv lib status_lib setup key_value m.statuses
    let next_entry = entry_table_next_entry setup table key_value
    let inserted = (entry_table_insert lib setup next_entry key_value table).1
    statuses ← entry_table_status_add_kv lib status_lib setup key_value next_entry deleted
    (written, storage) ← storage_set next_entry value m.storage
    ok (record m { table = inserted; statuses = statuses; storage = storage })

  -- `fuel` bounds the tests of the loop, whose limit is the size that the list has by then.
  unfoldable pub compact_from : ℕ → ℕ → Memory → Outcome Memory
  unfolding move_entry
  compact_from zero i m = hang
  compact_from (suc fuel) i m =
      if ltb i (lib.list_size m.table.entries)
      then (do
        entry ← deref (lib.list_get m.table.entries i)
        n ← move_entry entry m
        compact_from fuel (suc i) n)
      else ok m

  unfoldable pub compactation_compact : ℕ → Memory → Outcome Memory
  unfolding compact_from
  compactation_compact fuel m = compact_from fuel 0 m
