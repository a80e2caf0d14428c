-- ===== src/Instancia/Storing.antt =====
-- instancia/instancia.c: what a SET of a new key does where no replacement is needed.
use tp_so_1c.Prelude.{
  ℕ, ◌+◌, ◌-◌, ◌*◌, ◌≤◌, ◌<◌, ◌≡◌, refl, sym, ap, ◌∙◌, subst, arith, String, List, [], ◌∷◌, ◌++◌,
  Bool, true, false, ℤ, pos, minus_one, same_int, leb_ℤ, ◌+ℤ◌, ◌-ℤ◌, none, some, same_key,
  find_first, any, take, take-whole, length, count_if, not,
}
use tp_so_1c.Outcome.{ok}
use tp_so_1c.Commons.{ListLib, Documented, All}
use tp_so_1c.Wire.Bytes.{c_string}
use tp_so_1c.Wire.Messages.{StorageSetup}
use tp_so_1c.Instancia.State.{KeyValue, Entry, StringLib}
use tp_so_1c.Instancia.EntryTable.{
  size_limit, req_entries, entry_table_get_entry, entry_table_has_key, entry_table_entries_needed,
  entry_table_diff_entries, entry_table_has_entries, entry_table_have_entries, first_gap,
  entry_table_next_entry, entry_table_insert, insert_new, convert_key_value_t_to_entry_t,
}
use tp_so_1c.Instancia.Continuous.{entry_table_has_continous_entries, room_in_a_gap}
use tp_so_1c.Instancia.Layout.{
  HasRoom, HasRoom-used, Laid-used, used, Finds, entry_table_next_entry-Finds,
}
use tp_so_1c.Instancia.Placing.{HasRoom-within, insert_new-IsSound, insert_new-counts}
use tp_so_1c.Instancia.Storage.{strg_success, storage_retrieve}
use tp_so_1c.Instancia.Bytes.{Apart, storage_set-Writes, storage_set-sizes}
use tp_so_1c.Instancia.Algorithms.{new_value_fits_with_replaced}
use tp_so_1c.Instancia.StatusTable.{StatusLib}
use tp_so_1c.Instancia.Statuses.{StatusDocumented, add_kv-Keeps}
use tp_so_1c.Instancia.Requests.{
  status_ok, status_compact, Memory, is_success, instance_status, make_room, leave_for_compaction,
  write_entry, place_value, instance_set,
}
use tp_so_1c.Instancia.Values.{ends_before}
use tp_so_1c.Instancia.Moving.{keys_named}
use tp_so_1c.Instancia.Compacting.{IsReady}
use tp_so_1c.Instancia.Answers.{
  answer, string_answer, instance_status-answer, count-find_none, added-distinct, find_first-added,
  find_first-others, HasRoom-Apart, answer-Writes,
}

none-any : (p : Entry → Bool) (xs : List Entry) → find_first p xs ≡ none → any p xs ≡ false
none-any p [] h = refl
none-any p (x ∷ xs) h = ground (arith, none-any p xs)

-- After a SET: the memory is in order, the key has the value, and the others what they had.
pub record Stores (setup : StorageSetup) (key_value : KeyValue) (m n : Memory) : Type 0 where
  pub ready : IsReady setup n
  pub has_value : instance_status key_value.key n ≡ ok (status_ok, some (c_string key_value.value))
  pub others :
      (key : String)
      → same_key key key_value.key ≡ false
      → instance_status key n ≡ instance_status key m
  pub takes :
      used setup n.table.entries ≡ used setup m.table.entries + req_entries setup key_value.size

module _ (lib : ListLib) (manual : Documented lib) (strings : StringLib) (status_lib : StatusLib)
    (status_manual : StatusDocumented status_lib) (setup : StorageSetup)
    (replacement_algorithm_id : ℕ) (positive : 0 < setup.entry_size)
    (total : setup.total_entries < size_limit) (key_value : KeyValue)
    (some_byte : 0 < entry_table_entries_needed setup key_value)
    (whole_value : key_value.size ≡ length key_value.value) (m : Memory) (ready : IsReady setup m)
    (absent : entry_table_get_entry m.table key_value.key ≡ none) where
  needed : ℕ
  needed = entry_table_entries_needed setup key_value

  value_taken : take key_value.size key_value.value ≡ key_value.value
  value_taken = take-whole key_value.size key_value.value (omega (arith, whole_value))

  unnamed : keys_named key_value.key m.table.entries ≡ 0
  unfolding entry_table_get_entry
  unnamed = count-find_none (λ e. same_key key_value.key e.key) m.table.entries absent

  module _ (c : ℕ)
      (room : HasRoom setup 0 (req_entries setup key_value.size) m.table.entries c) where
    new : Entry
    new = convert_key_value_t_to_entry_t c key_value

    within :
        c * m.storage.entry_size + length key_value.value ≤ m.storage.entries * m.storage.entry_size
    within =
        rw (ready.as_many, ready.as_large, ← whole_value)
          (ends_before setup positive c key_value.size setup.total_entries (
            HasRoom-within setup 0 (req_entries setup key_value.size) c m.table.entries
              ready.sound.0.0 room))

    same :
        (p : Entry → Bool)
        → count_if p (insert_new lib setup c key_value m.table).entries
          ≡ count_if p (m.table.entries ++ new ∷ [])
    unfolding new
    same p = insert_new-counts setup lib manual c key_value m.table p

    used_after :
        used setup (insert_new lib setup c key_value m.table).entries
        ≡ used setup m.table.entries + req_entries setup key_value.size
    unfolding insert_new ◌-ℤ◌ entry_table_entries_needed
    used_after =
        let sound =
          insert_new-IsSound setup lib manual c key_value m.table ready.sound some_byte room in
        ground (
          arith,
          sound.0.1,
          ready.sound.0.1,
          Laid-used setup 0 (insert_new lib setup c key_value m.table).entries sound.0.0,
          HasRoom-used setup 0 (req_entries setup key_value.size) c m.table.entries ready.sound.0.0
              room,
        )

    write_entry-Stores :
        (n : Memory) × (write_entry lib strings status_lib setup replacement_algorithm_id
              (pos c)
              key_value
              m
            ≡ ok (status_ok, n)
          × Stores setup key_value m n)
    unfolding write_entry is_success entry_table_insert entry_table_entries_needed new
    write_entry-Stores =
        let (statuses, (adds, ls)) =
          add_kv-Keeps lib manual status_lib status_manual setup key_value (pos c) m.statuses
            ready.covered in
        let (storage, (sets, w)) =
          storage_set-Writes m.storage c key_value.value ready.whole within in
        let sizes = storage_set-sizes m.storage c key_value.value strg_success storage sets in
        let n = record m {
          table = insert_new lib setup c key_value m.table;
          statuses = statuses;
          storage = storage;
        } in
        (
          n,
          (
            rw value_taken (rw sets (rw adds rw (absent, entry_table_insert) refl)),
            record {
              ready = record {
                sound =
                    insert_new-IsSound setup lib manual c key_value m.table ready.sound some_byte
                      room;
                distinct = added-distinct m.table.entries _ new same ready.distinct unnamed;
                whole = w.0;
                as_many = sizes.0 ∙ ready.as_many;
                as_large = sizes.1 ∙ ready.as_large;
                covered = omega (arith, ls, ready.covered);
              };
              has_value =
                  instance_status-answer key_value.key n
                  ∙ ap (λ o. answer o storage)
                      (find_first-added m.table.entries _ new same ready.distinct unnamed)
                  ∙ ap string_answer
                      (ap (λ size. storage_retrieve (pos c) size storage) whole_value ∙ w.1);
              others = λ key other.
                  instance_status-answer key n
                  ∙ ap (λ o. answer o storage)
                      (find_first-others m.table.entries _ new same ready.distinct unnamed key
                        other)
                  ∙ answer-Writes m.storage c key_value.value storage (λ e. same_key key e.key)
                      m.table.entries w apart
                  ∙ sym (instance_status-answer key m);
              takes = used_after;
            },
          ),
        )
      where
        apart :
            All (λ e. Apart m.storage c (length key_value.value) e.number e.size) m.table.entries
        apart =
            subst (λ k. All (λ e. Apart m.storage c k e.number e.size) m.table.entries) whole_value
              (HasRoom-Apart setup positive m.storage ready.as_large 0 c key_value.size
                m.table.entries ready.sound.0.0 room)

  abbrev pub gap : ℤ
  gap = first_gap setup (req_entries setup key_value.size) m.table.entries

  -- The entries that the value needs are left.
  module _ (has : entry_table_has_entries setup m.table key_value ≡ true) where
    pub diff :
        entry_table_diff_entries setup m.table key_value ≡ pos (req_entries setup key_value.size)
    unfolding entry_table_diff_entries
    diff = rw (absent, entry_table_diff_entries) refl

    pub enough : req_entries setup key_value.size ≤ setup.total_entries - used setup m.table.entries
    unfolding entry_table_has_entries
    enough = ground (
      arith,
      subst (λ l. leb_ℤ (pos (req_entries setup key_value.size)) l ≡ true) ready.sound.0.1
          (subst (λ d. leb_ℤ d m.table.entries_left ≡ true) diff has),
    )

    fits : new_value_fits_with_replaced setup m.table key_value ≡ true
    unfolding new_value_fits_with_replaced ◌+ℤ◌
    fits = rw diff (rw ready.sound.0.1 (ground (arith, enough)))

    next_gap : entry_table_next_entry setup m.table key_value ≡ gap
    unfolding entry_table_next_entry entry_table_have_entries entry_table_entries_needed
    next_gap =
        rw (absent, entry_table_next_entry)
          (rw (ready.sound.0.1, entry_table_have_entries) (rw leaves refl))
      where
        leaves :
            leb_ℤ
              (pos (req_entries setup key_value.size))
              (pos (setup.total_entries - used setup m.table.entries))
            ≡ true
        leaves = ground (arith, enough)

    has_no_key : entry_table_has_key m.table key_value.key false ≡ false
    unfolding entry_table_has_key entry_table_get_entry
    has_no_key = none-any (λ e. same_key key_value.key e.key) m.table.entries absent

    continous :
        entry_table_has_continous_entries lib strings setup m.table key_value
        ≡ ok (not (same_int gap minus_one))
    unfolding entry_table_has_continous_entries room_in_a_gap entry_table_entries_needed
    continous = rw has_no_key refl

    -- Where no gap is large enough the SET answers COMPACT, and the memory is as it was.
    pub instance_set-compacts :
        (keys : List String)
        → gap ≡ minus_one
        → instance_set lib strings status_lib setup replacement_algorithm_id key_value keys m
          ≡ ok (status_compact, (m, keys))
    unfolding instance_set make_room place_value leave_for_compaction same_int
    instance_set-compacts keys none_large =
        rw fits (rw has (rw continous (rw none_large (rw has_no_key refl))))

    pub instance_set-Stores :
        (keys : List String) (c : ℕ)
        → gap ≡ pos c
        → (n : Memory) × (instance_set lib strings status_lib setup replacement_algorithm_id
                key_value keys m
              ≡ ok (status_ok, (n, keys))
            × Stores setup key_value m n)
    unfolding instance_set make_room place_value same_int
    instance_set-Stores keys c at =
        let (n, (writes, stores)) = write_entry-Stores c (
          subst (λ z. Finds setup z 0 (entry_table_entries_needed setup key_value) m.table.entries)
            (next_gap ∙ at)
            (entry_table_next_entry-Finds setup total m.table key_value ready.sound.0 absent
              some_byte)) in
        (n, (sets_at n writes, stores))
      where
        sets_at :
            (n : Memory)
            → write_entry lib strings status_lib setup replacement_algorithm_id (pos c) key_value m
              ≡ ok (status_ok, n)
            → instance_set lib strings status_lib setup replacement_algorithm_id key_value keys m
              ≡ ok (status_ok, (n, keys))
        sets_at n writes =
            rw fits (rw has (rw continous (rw at (rw (next_gap ∙ at) (rw writes refl)))))
