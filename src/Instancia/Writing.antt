-- ===== src/Instancia/Writing.antt =====
-- instancia/instancia.c: when a SET writes the storage.
use tp_so_1c.Prelude.{
  arith, ℕ, zero, suc, ◌+◌, ◌-◌, ◌*◌, ◌≡◌, ◌≢◌, refl, sym, ap, ◌∙◌, ◌⊎◌, inl, inr, ℤ, pos, negsuc,
  same_int, String, List, length, take, true, false, Bool-cases, ◌==◌, ltb,
}
use tp_so_1c.Outcome.{Outcome, ok, crash, hang, Settles, Settles-bind, Settles-deref}
use tp_so_1c.Commons.{ListLib, Documented}
use tp_so_1c.Wire.Messages.{StorageSetup}
use tp_so_1c.Instancia.State.{KeyValue, EntryTable, StringLib}
use tp_so_1c.Instancia.EntryTable.{
  entry_table_has_entries, entry_table_has_key, entry_table_next_entry, entry_table_insert,
  entry_table_entries_needed,
}
use tp_so_1c.Instancia.Continuous.{entry_table_has_continous_entries}
use tp_so_1c.Instancia.Storage.{
  Storage, StorageStatus, strg_success, strg_error_init, strg_error_set, strg_limit, storage_set,
}
use tp_so_1c.Instancia.Algorithms.{Status, new_value_fits_with_replaced, algorithms_exec}
use tp_so_1c.Instancia.StatusTable.{
  StatusLib, entry_table_status_add_kv, entry_table_status_delete_kv,
  entry_table_status_last_referenced_add_all, free_run,
}
use tp_so_1c.Instancia.Replacing.{Replaces, algorithms_exec-Replaces}
use tp_so_1c.Instancia.Requests.{
  StatusCi, status_ok, status_error, Memory, is_success, make_room, leave_for_compaction,
  write_entry, place_value, instance_set,
}

-- The run ends.
abbrev pub Stops : {A : Type 0} → Outcome A → Type 0
Stops m = Settles (λ _. Unit {0}) m

Stops-equation : {A : Type 0} (m : Outcome A) → Stops m → Settles (λ a. m ≡ ok a) m
Stops-equation (ok a) h = refl
Stops-equation crash h = tt
Stops-equation hang h = elim h [ ]

storage_set-Stops :
    (next : ℤ) (value : List ℕ) (storage : Storage) → Stops (storage_set next value storage)
unfolding storage_set
storage_set-Stops (negsuc n) value storage = tt
storage_set-Stops (pos n) value storage =
    elim (Bool-cases (ltb (strg_limit storage) (n * storage.entry_size + length value))) [
      | inl e ↦ rw e tt
      | inr e ↦ rw e tt
    ]

is_success-eq : (status : StorageStatus) → is_success status ≡ true → status ≡ strg_success
unfolding is_success
is_success-eq strg_success h = refl
is_success-eq strg_error_init h = ground arith
is_success-eq strg_error_set h = ground arith

module _ (lib : ListLib) (status_lib : StatusLib) (setup : StorageSetup) where
  add_all-Stops :
      (statuses : List Status) → Stops (entry_table_status_last_referenced_add_all setup statuses)
  unfolding entry_table_status_last_referenced_add_all
  add_all-Stops statuses = elim (Bool-cases (ltb (length statuses) setup.total_entries)) [
    | inl e ↦ rw e tt
    | inr e ↦ rw e tt
  ]

  add_kv-Stops :
      (key_value : KeyValue) (next : ℤ) (statuses : List Status)
      → Stops (entry_table_status_add_kv lib status_lib setup key_value next statuses)
  unfolding entry_table_status_add_kv
  add_kv-Stops key_value (negsuc n) statuses = add_all-Stops statuses
  add_kv-Stops key_value (pos n) statuses =
      Settles-bind (λ _. Unit {0}) (λ _. Unit {0})
        (entry_table_status_last_referenced_add_all setup statuses) _ (add_all-Stops statuses)
        λ s _. tt

  free_run-Stops :
      (n number : ℕ) (key : String) (left : ℕ) (statuses : List Status)
      → Stops (free_run lib status_lib setup n number key left statuses)
  unfolding free_run
  free_run-Stops zero number key left statuses = tt
  free_run-Stops (suc n) number key left statuses = elim (Bool-cases (left == 0)) [
    | inl e ↦ rw e tt
    | inr e ↦ rw e (
        Settles-deref (λ _. Unit {0}) (lib.list_get statuses number) _
          λ status h. elim (Bool-cases (status_lib.strcasecmp_same status.key key)) [
            | inl c ↦ rw c (free_run-Stops n (suc number) key (left - 1) _)
            | inr c ↦ rw c (free_run-Stops n (suc number) key left statuses)
          ])
  ]

-- What a SET does to the storage: with OK the value was written from some entry on, and with any other
-- status the storage is as it was.
abbrev pub SetsOrKeeps : KeyValue → Memory → StatusCi → Memory → Type 0
SetsOrKeeps key_value m status after =
    (status ≡ status_ok
      × (n : ℕ) × storage_set (pos n) (take key_value.size key_value.value) m.storage
          ≡ ok (strg_success, after.storage))
    ⊎ (status ≢ status_ok × after.storage ≡ m.storage)

module _ (lib : ListLib) (manual : Documented lib) (strings : StringLib) (status_lib : StatusLib)
    (setup : StorageSetup) (replacement_algorithm_id : ℕ) where
  write_entry-SetsOrKeeps :
      (n : ℕ) (key_value : KeyValue) (m : Memory)
      → Settles
          (λ p. SetsOrKeeps key_value m p.0 p.1)
          (write_entry lib strings status_lib setup replacement_algorithm_id (pos n) key_value m)
  unfolding write_entry entry_table_insert
  write_entry-SetsOrKeeps n key_value m =
      Settles-bind (λ a. run ≡ ok a) (λ p. SetsOrKeeps key_value m p.0 p.1) run _
        (Stops-equation run
          (storage_set-Stops (pos n) (take key_value.size key_value.value) m.storage))
        λ w e. elim (Bool-cases (is_success w.0)) [
          | inr failed ↦ rw failed (inr ((λ h. ground (arith, h)), refl))
          | inl done ↦ rw done (
              Settles-bind (λ _. Unit {0}) (λ p. SetsOrKeeps key_value m p.0 p.1)
                (entry_table_status_add_kv lib status_lib setup key_value (pos n) m.statuses) _
                (add_kv-Stops lib status_lib setup key_value (pos n) m.statuses)
                λ statuses _. inl (refl, n, e ∙ ap (λ x. ok (x, w.1)) (is_success-eq w.0 done)))
        ]
    where
      run : Outcome (StorageStatus × Storage)
      run = storage_set (pos n) (take key_value.size key_value.value) m.storage

  leave-SetsOrKeeps :
      (key_value : KeyValue) (m : Memory)
      → Settles
          (λ p. SetsOrKeeps key_value m p.0 p.1)
          (leave_for_compaction lib strings status_lib setup replacement_algorithm_id key_value m)
  unfolding leave_for_compaction entry_table_status_delete_kv
  leave-SetsOrKeeps key_value m =
      elim (Bool-cases (entry_table_has_key m.table key_value.key false)) [
        | inr absent ↦ rw absent (inr ((λ h. ground (arith, h)), refl))
        | inl has ↦ rw has (
            Settles-bind (λ _. Unit {0}) (λ p. SetsOrKeeps key_value m p.0 p.1)
              (entry_table_status_delete_kv lib status_lib setup key_value m.statuses) _
              (free_run-Stops lib status_lib setup setup.total_entries 0 key_value.key
                (entry_table_entries_needed setup key_value) m.statuses)
              λ statuses _. inr ((λ h. ground (arith, h)), refl))
      ]

  at_next :
      (next : ℤ) (key_value : KeyValue) (m : Memory)
      → Settles
          (λ p. SetsOrKeeps key_value m p.0 p.1)
          (elim next [
            | negsuc n ↦ ok (status_error, m)
            | pos n ↦
                write_entry lib strings status_lib setup replacement_algorithm_id
                  (pos n)
                  key_value
                  m
          ])
  at_next (negsuc n) key_value m = inr ((λ h. ground (arith, h)), refl)
  at_next (pos n) key_value m = write_entry-SetsOrKeeps n key_value m

  continous-Stops :
      (key_value : KeyValue) (table : EntryTable)
      → Stops (entry_table_has_continous_entries lib strings setup table key_value)
  unfolding entry_table_has_continous_entries
  continous-Stops key_value table =
      elim (Bool-cases (entry_table_has_key table key_value.key false)) [
        | inl has ↦ rw has (
            Settles-deref (λ _. Unit {0})
              (lib.list_find table.entries
                (λ entry. strings.string_equals_ignore_case key_value.key entry.key))
              _ λ e _. tt)
        | inr absent ↦ rw absent tt
      ]

  place_value-SetsOrKeeps :
      (key_value : KeyValue) (m : Memory)
      → Settles
          (λ p. SetsOrKeeps key_value m p.0 p.1)
          (place_value lib strings status_lib setup replacement_algorithm_id key_value m)
  unfolding place_value
  place_value-SetsOrKeeps key_value m =
      Settles-bind (λ _. Unit {0}) (λ p. SetsOrKeeps key_value m p.0 p.1)
        (entry_table_has_continous_entries lib strings setup m.table key_value) _
        (continous-Stops key_value m.table)
        λ fits _. elim (Bool-cases fits) [
          | inr no_room ↦ rw no_room (leave-SetsOrKeeps key_value m)
          | inl room ↦
              rw room (at_next (entry_table_next_entry setup m.table key_value) key_value m)
        ]

  make_room-keeps :
      (key_value : KeyValue) (keys : List String) (m : Memory)
      → Settles
          (λ p. p.1.0.storage ≡ m.storage)
          (make_room lib strings status_lib setup replacement_algorithm_id key_value keys m)
  unfolding make_room
  make_room-keeps key_value keys m =
      elim (Bool-cases (entry_table_has_entries setup m.table key_value)) [
        | inl has ↦ rw has refl
        | inr full ↦ rw full (
            Settles-bind (Replaces m.statuses keys) (λ p. p.1.0.storage ≡ m.storage)
              (algorithms_exec lib setup m.table replacement_algorithm_id m.circular_pointer
                key_value m.statuses keys)
              _
              (algorithms_exec-Replaces lib manual setup m.table replacement_algorithm_id
                m.circular_pointer key_value m.statuses keys)
              λ r _. elim (Bool-cases (same_int r.0 (pos 0))) [
                | inl z ↦ rw z refl
                | inr z ↦ rw z refl
              ])
      ]

  -- A SET ends, with a result or at a bad pointer; where its status is OK the value was written from
  -- some entry of the storage on, and with any other status the storage is as it was.
  pub instance_set-SetsOrKeeps :
      (key_value : KeyValue) (replaced_keys : List String) (m : Memory)
      → Settles
          (λ p. SetsOrKeeps key_value m p.0 p.1.0)
          (instance_set lib strings status_lib setup replacement_algorithm_id key_value
            replaced_keys m)
  unfolding instance_set
  instance_set-SetsOrKeeps key_value replaced_keys m =
      elim (Bool-cases (new_value_fits_with_replaced setup m.table key_value)) [
        | inr no_space ↦ rw no_space (inr ((λ h. ground (arith, h)), refl))
        | inl space ↦ rw space (
            Settles-bind (λ p. p.1.0.storage ≡ m.storage) (λ p. SetsOrKeeps key_value m p.0 p.1.0)
              (make_room lib strings status_lib setup replacement_algorithm_id key_value
                replaced_keys m)
              _ (make_room-keeps key_value replaced_keys m)
              λ r e. elim (Bool-cases r.0) [
                | inr stop ↦ rw stop (inr ((λ h. ground (arith, h)), e))
                | inl go_on ↦ rw go_on (
                    Settles-bind (λ p. SetsOrKeeps key_value r.1.0 p.0 p.1)
                      (λ p. SetsOrKeeps key_value m p.0 p.1.0)
                      (place_value lib strings status_lib setup replacement_algorithm_id key_value
                        r.1.0)
                      _ (place_value-SetsOrKeeps key_value r.1.0)
                      λ p h. from_the_same r.1.0 p.0 p.1 e h)
              ])
      ]
    where
      from_the_same :
          (before : Memory) (code : StatusCi) (after : Memory)
          → before.storage ≡ m.storage
          → SetsOrKeeps key_value before code after
          → SetsOrKeeps key_value m code after
      from_the_same before code after e (inl (done, n, w)) =
          inl (done, n, ap (storage_set (pos n) (take key_value.size key_value.value)) (sym e) ∙ w)
      from_the_same before code after e (inr (other, same)) = inr (other, same ∙ e)
