-- ===== src/Instancia/Algorithms.antt =====
-- instancia/algorithms.c: the status of each entry, and the keys that a new value replaces.
use tp_so_1c.Prelude.{
  ℕ, suc, ◌+◌, ◌-◌, ◌*◌, ◌%◌, ℤ, pos, negsuc, minus_one, same_int, ◌+ℤ◌, ◌-ℤ◌, leb_ℤ, ltb_ℤ, String,
  List, [], ◌∷◌, set, take, drop, length, map, Bool, true, false, not, ◌&&◌, ◌||◌, ◌==◌, ltb, leb,
  if◌then◌else◌,
}
use tp_so_1c.Outcome.{Outcome, ok, ◌>>=◌, deref}
use tp_so_1c.Commons.{ListLib}
use tp_so_1c.Wire.Messages.{StorageSetup}
use tp_so_1c.Instancia.State.{KeyValue, Entry, EntryTable}
use tp_so_1c.Instancia.EntryTable.{
  size_limit, entry_table_entries_needed, entry_table_have_entries, entry_table_diff_entries,
  entry_table_is_entry_atomic, entry_table_atomic_entries_count,
}

pub data EntryStatus : Type 0 where
  atomic : EntryStatus
  non_atomic : EntryStatus
  free : EntryStatus
  used : EntryStatus

unfoldable pub is_atomic : EntryStatus → Bool
is_atomic atomic = true
is_atomic _ = false

unfoldable pub is_free : EntryStatus → Bool
is_free free = true
is_free _ = false

pub record Status : Type 0 where
  pub status : EntryStatus
  pub key : String
  pub last_referenced : ℕ
  pub space_used : ℤ

unfoldable pub smallest_reference : Status → Status → Bool
smallest_reference e1 e2 = if ltb e1.last_referenced e2.last_referenced then false else true

unfoldable pub biggest_size : Status → Status → Bool
biggest_size e1 e2 = if ltb_ℤ e1.space_used e2.space_used then false else true

-- The pointers to the elements of a list, by number, with what they point to.
unfoldable pub pointers_from : ℕ → List Status → List (ℕ × Status)
pointers_from n [] = []
pointers_from n (status ∷ later) = (n, status) ∷ pointers_from (suc n) later

-- What a replacement reads and writes: the statuses, the replaced keys, how many entries are still
-- needed, and how many were replaced.
pub record Replacement : Type 0 where
  pub statuses : List Status
  pub replaced_keys : List String
  pub entries_needed : ℤ
  pub total_replaced : ℕ

module _ (setup : StorageSetup) where
  unfoldable pub new_value_fits : EntryTable → KeyValue → Bool
  unfolding entry_table_atomic_entries_count entry_table_entries_needed
  new_value_fits table key_value =
      leb_ℤ (pos (entry_table_entries_needed setup key_value))
        (table.entries_left +ℤ pos (entry_table_atomic_entries_count setup table))

  unfoldable pub new_value_fits_with_replaced : EntryTable → KeyValue → Bool
  unfolding entry_table_atomic_entries_count entry_table_diff_entries
  new_value_fits_with_replaced table key_value =
      leb_ℤ (entry_table_diff_entries setup table key_value)
        (table.entries_left +ℤ pos (entry_table_atomic_entries_count setup table))

  -- The guard of each algorithm.
  unfoldable pub must_replace : EntryTable → KeyValue → Bool
  unfolding entry_table_have_entries new_value_fits
  must_replace table key_value =
      not (entry_table_have_entries setup table key_value) && new_value_fits table key_value

  unfoldable pub convert_entry_t_to_status_t : Entry → Status
  unfolding entry_table_is_entry_atomic
  convert_entry_t_to_status_t entry =
      if entry_table_is_entry_atomic setup entry
      then record {
        status = atomic;
        key = entry.key;
        last_referenced = 0;
        space_used = pos entry.size;
      }
      else record {
        status = non_atomic;
        key = entry.key;
        last_referenced = 0;
        space_used = minus_one;
      }

module _ (lib : ListLib) where
  -- The entry behind a pointer is replaced if it is atomic.
  unfoldable pub replace_entry : ℕ → Replacement → Outcome Replacement
  unfolding is_atomic
  replace_entry i r = do
    status ← deref (lib.list_get r.statuses i)
    ok (
        if is_atomic status.status
        then record {
          statuses = set r.statuses i (record status { status = used });
          replaced_keys = lib.list_add r.replaced_keys status.key;
          entries_needed = r.entries_needed -ℤ pos 1;
          total_replaced = suc r.total_replaced;
        }
        else r)

  -- A loop over pointers while entries are needed, and how many pointers it passes.
  unfoldable pub sweep : List ℕ → Replacement → Outcome (Replacement × ℕ)
  unfolding replace_entry
  sweep [] r = ok (r, 0)
  sweep (i ∷ pointers) r =
      let later = (do t ← replace_entry i r; (u, n) ← sweep pointers t; ok (u, suc n)) in
      if same_int r.entries_needed (pos 0) then ok (r, 0) else later

  -- The loop from the pointer on, and the one up to where it stood: the new pointer as well.
  unfoldable pub circular_sweeps : ℕ → List ℕ → Replacement → Outcome (Replacement × ℕ)
  unfolding sweep
  circular_sweeps pointer pointers r =
      if leb (length pointers) pointer || pointer == 0 then sweep pointers r else (do
        (t, n) ← sweep (drop pointer pointers) r
        (u, m) ← sweep (take pointer pointers) t
        ok (u, pointer + n))

module _ (lib : ListLib) (setup : StorageSetup) (table : EntryTable) where
  abbrev pub start : List Status → List String → KeyValue → Replacement
  start statuses replaced_keys key_value = record {
    statuses = statuses;
    replaced_keys = replaced_keys;
    entries_needed = pos (entry_table_entries_needed setup key_value) -ℤ table.entries_left;
    total_replaced = 0;
  }

  -- The result, the pointer, and what was replaced. The list that is passed is one of pointers.
  unfoldable pub algorithm_circular :
      ℕ → List ℕ → KeyValue → List Status → List String → Outcome (ℤ × (ℕ × Replacement))
  unfolding must_replace circular_sweeps entry_table_entries_needed
  algorithm_circular pointer pointers key_value statuses replaced_keys =
      if must_replace setup table key_value
      then (do
        (r, next) ← circular_sweeps lib pointer pointers (start statuses replaced_keys key_value)
        ok (pos r.total_replaced, (next, r)))
      else ok (minus_one, (pointer, start statuses replaced_keys key_value))

  -- The pointers in the order of a comparator.
  unfoldable pub sorted_pointers : (Status → Status → Bool) → List Status → List ℕ
  unfolding pointers_from
  sorted_pointers le statuses =
      map (λ p. p.0) (lib.list_sort (pointers_from 0 statuses) (λ a b. le a.1 b.1))

  unfoldable pub algorithm_lru : KeyValue → List Status → List String → Outcome (ℤ × Replacement)
  unfolding must_replace sorted_pointers smallest_reference sweep entry_table_entries_needed
  algorithm_lru key_value statuses replaced_keys =
      if must_replace setup table key_value
      then (do
        (r, n) ←
            sweep lib (sorted_pointers smallest_reference statuses)
              (start statuses replaced_keys key_value)
        ok (pos 1, r))
      else ok (negsuc 665, start statuses replaced_keys key_value)

  -- The entries from a pointer on that take as much space, added to those that were found before.
  unfoldable pub add_same_size : ℤ → List ℕ → List Status → List ℕ → Outcome (List ℕ)
  add_same_size space [] statuses same = ok same
  add_same_size space (j ∷ pointers) statuses same = do
    status ← deref (lib.list_get statuses j)
    add_same_size space pointers statuses
        (if same_int status.space_used space then lib.list_add same j else same)

  -- Of the value that is made up for the circular replacement only the size counts.
  unfoldable pub key_value_generator : String → ℤ → KeyValue
  key_value_generator key (pos n) = record {
    key = key;
    value = [];
    size = (n * setup.entry_size) % size_limit;
  }
  key_value_generator key (negsuc n) = record {
    key = key;
    value = [];
    size = (size_limit - (suc n * setup.entry_size) % size_limit) % size_limit;
  }

  -- The loop over the sorted pointers. The list of entries of the same size is not emptied in between.
  unfoldable pub bsu_loop : KeyValue → List ℕ → List ℕ → ℕ → Replacement → Outcome (Replacement × ℕ)
  unfolding is_atomic add_same_size algorithm_circular key_value_generator replace_entry
  bsu_loop key_value [] same pointer r = ok (r, pointer)
  bsu_loop key_value (i ∷ later) same pointer r =
      let again = bsu_loop key_value later in
      if same_int r.entries_needed (pos 0) then ok (r, pointer) else (do
        status ← deref (lib.list_get r.statuses i)
        if not (is_atomic status.status) then again same pointer r else (do
          found ← add_same_size status.space_used (i ∷ later) r.statuses same
          if ltb 1 (length found)
              then (do
                (result, (next, u)) ←
                    algorithm_circular pointer found
                      (key_value_generator key_value.key r.entries_needed) r.statuses
                      r.replaced_keys
                again found next (record u { entries_needed = r.entries_needed -ℤ result }))
              else (do t ← replace_entry lib i r; again found pointer t)))

  unfoldable pub algorithm_bsu :
      ℕ → KeyValue → List Status → List String → Outcome (ℤ × (ℕ × Replacement))
  unfolding must_replace sorted_pointers biggest_size bsu_loop entry_table_entries_needed
  algorithm_bsu pointer key_value statuses replaced_keys =
      if must_replace setup table key_value
      then (do
        (r, next) ←
            bsu_loop key_value (sorted_pointers biggest_size statuses) [] pointer
              (start statuses replaced_keys key_value)
        ok (pos 1, (next, r)))
      else ok (negsuc 665, (pointer, start statuses replaced_keys key_value))

  -- The letter of the configuration: 67 is C, 76 is L, 66 is B.
  unfoldable pub algorithms_exec :
      ℕ → ℕ → KeyValue → List Status → List String → Outcome (ℤ × (ℕ × Replacement))
  unfolding algorithm_circular algorithm_lru algorithm_bsu pointers_from
  algorithms_exec algorithm_id pointer key_value statuses replaced_keys =
      if algorithm_id == 67
      then algorithm_circular pointer (map (λ p. p.0) (pointers_from 0 statuses)) key_value statuses
          replaced_keys
      else if algorithm_id == 76
      then (do
        (result, r) ← algorithm_lru key_value statuses replaced_keys
        ok (result, (pointer, r)))
      else if algorithm_id == 66
      then algorithm_bsu pointer key_value statuses replaced_keys
      else ok (minus_one, (pointer, start statuses replaced_keys key_value))
