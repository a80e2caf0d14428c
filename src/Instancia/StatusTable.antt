-- ===== src/Instancia/StatusTable.antt =====
-- instancia/algorithms.c: the table of the statuses of the entries.
use tp_so_1c.Prelude.{
  ℕ, zero, suc, ◌+◌, ◌-◌, ℤ, pos, negsuc, minus_one, String, List, [], ◌∷◌, ◌++◌, set, take, drop,
  length, map, replicate, none, some, Bool, not, ◌==◌, ltb, if◌then◌else◌,
}
use tp_so_1c.Outcome.{Outcome, ok, crash, ◌>>=◌, deref}
use tp_so_1c.Commons.{ListLib}
use tp_so_1c.Wire.Messages.{StorageSetup}
use tp_so_1c.Instancia.State.{KeyValue, EntryTable}
use tp_so_1c.Instancia.EntryTable.{
  req_entries, entry_table_entries_needed, entry_table_is_entry_atomic,
  entry_table_get_entry_by_entry_number, convert_key_value_t_to_entry_t,
}
use tp_so_1c.Instancia.Algorithms.{free, is_free, Status, convert_entry_t_to_status_t}

-- `list_replace_and_destroy_element` of the commons, and whether `strcasecmp` gives 0.
pub record StatusLib : Type 1 where
  pub list_replace : {A : Type 0} → List A → ℕ → A → List A
  pub strcasecmp_same : String → String → Bool

unfoldable pub free_status : String → Status
free_status key = record { status = free; key = key; last_referenced = 0; space_used = pos 0 }

module _ (setup : StorageSetup) where
  -- `fuel` bounds the numbers from the one on that is looked at.
  unfoldable pub migrate : EntryTable → ℕ → ℕ → List Status
  unfolding entry_table_get_entry_by_entry_number entry_table_is_entry_atomic
      convert_entry_t_to_status_t req_entries free_status
  migrate table zero number = []
  migrate table (suc fuel) number =
      let again = migrate table fuel in
      if not (ltb number setup.total_entries)
      then []
      else elim (entry_table_get_entry_by_entry_number table number) [
        | none ↦ free_status "" ∷ again (suc number)
        | some entry ↦
            if entry_table_is_entry_atomic setup entry
            then convert_entry_t_to_status_t setup entry ∷ again (suc number)
            else replicate (req_entries setup entry.size) (convert_entry_t_to_status_t setup entry)
              ++ again (number + req_entries setup entry.size)
      ]

  unfoldable pub original_entry_table_migration_to_entry_table_status : EntryTable → List Status
  unfolding migrate
  original_entry_table_migration_to_entry_table_status table = migrate table setup.total_entries 0

  unfoldable pub age : Status → Status
  unfolding is_free
  age status =
      if is_free status.status
      then status
      else record status { last_referenced = suc status.last_referenced }

  unfoldable pub entry_table_status_last_referenced_add_all : List Status → Outcome (List Status)
  unfolding age
  entry_table_status_last_referenced_add_all statuses =
      if ltb (length statuses) setup.total_entries
      then crash
      else ok (map age (take setup.total_entries statuses) ++ drop setup.total_entries statuses)

module _ (lib : ListLib) (strings : StatusLib) (setup : StorageSetup) where
  -- The entry and those after it get the status.
  unfoldable pub replace_run : ℕ → ℕ → Status → List Status → List Status
  replace_run zero number status statuses = statuses
  replace_run (suc n) number status statuses =
      replace_run n (suc number) status (strings.list_replace statuses number status)

  unfoldable pub entry_table_status_add_kv : KeyValue → ℤ → List Status → Outcome (List Status)
  unfolding entry_table_status_last_referenced_add_all convert_key_value_t_to_entry_t
      entry_table_is_entry_atomic convert_entry_t_to_status_t replace_run req_entries
  entry_table_status_add_kv key_value (negsuc n) statuses =
      entry_table_status_last_referenced_add_all setup statuses
  entry_table_status_add_kv key_value (pos number) statuses = do
    aged ← entry_table_status_last_referenced_add_all setup statuses
    let entry = convert_key_value_t_to_entry_t number key_value
    let status = convert_entry_t_to_status_t setup entry
    ok (
        if entry_table_is_entry_atomic setup entry
        then strings.list_replace aged number status
        else replace_run (req_entries setup entry.size) number status aged)

  -- `n` entries from a number on are looked at, while some are still to be deleted.
  unfoldable pub free_run : ℕ → ℕ → String → ℕ → List Status → Outcome (List Status)
  unfolding free_status
  free_run zero number key left statuses = ok statuses
  free_run (suc n) number key left statuses =
      let again = free_run n (suc number) key in
      if left == 0 then ok statuses else (do
        status ← deref (lib.list_get statuses number)
        if strings.strcasecmp_same status.key key
            then again (left - 1) (set statuses number (free_status "NULL"))
            else again left statuses)

  unfoldable pub entry_table_status_delete_kv : KeyValue → List Status → Outcome (List Status)
  unfolding free_run entry_table_entries_needed
  entry_table_status_delete_kv key_value statuses =
      free_run setup.total_entries 0 key_value.key (entry_table_entries_needed setup key_value)
        statuses

  unfoldable pub find_from : ℕ → ℕ → String → List Status → Outcome ℤ
  find_from zero number key statuses = ok minus_one
  find_from (suc n) number key statuses = do
    status ← deref (lib.list_get statuses number)
    if strings.strcasecmp_same key status.key
        then ok (pos number)
        else find_from n (suc number) key statuses

  unfoldable pub entry_table_status_find_and_get_index : String → List Status → Outcome ℤ
  unfolding find_from
  entry_table_status_find_and_get_index key statuses = find_from setup.total_entries 0 key statuses
