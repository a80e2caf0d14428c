-- ===== src/Instancia/Statuses.antt =====
-- instancia/algorithms.c: the table of statuses keeps its length, and its operations end.
use tp_so_1c.Prelude.{
  ℕ, zero, suc, ◌+◌, ◌-◌, ◌≤◌, ◌<◌, ◌≡◌, refl, sym, ap, ◌∙◌, arith, ℤ, pos, negsuc, String, List,
  [], ◌∷◌, ◌++◌, Bool, true, if◌then◌else◌, Bool-cases, inl, inr, ◌==◌, ltb, some, get_elem?, set,
  length-set, length, length-append, length-map, take, drop, take-append-drop, map, false,
}
use tp_so_1c.Outcome.{Outcome, ok}
use tp_so_1c.Commons.{ListLib, Documented}
use tp_so_1c.Wire.Messages.{StorageSetup}
use tp_so_1c.Instancia.State.{KeyValue}
use tp_so_1c.Instancia.Algorithms.{Status, convert_entry_t_to_status_t}
use tp_so_1c.Instancia.EntryTable.{
  convert_key_value_t_to_entry_t, entry_table_is_entry_atomic, entry_table_entries_needed,
  req_entries,
}
use tp_so_1c.Instancia.StatusTable.{
  StatusLib, free_status, age, entry_table_status_last_referenced_add_all, replace_run,
  entry_table_status_add_kv, free_run, entry_table_status_delete_kv,
}

-- What the manual says of list_replace_and_destroy_element.
pub record StatusDocumented (status_lib : StatusLib) : Type 1 where
  pub replaces :
      {A : Type 0} (xs : List A) (i : ℕ) (x : A) → status_lib.list_replace xs i x ≡ set xs i x

-- A run that gives a table of the same length.
abbrev pub Keeps : List Status → Outcome (List Status) → Type 0
Keeps statuses run = (after : List Status) × (run ≡ ok after × length after ≡ length statuses)

Keeps-trans :
    (a b : List Status) (run : Outcome (List Status))
    → length b ≡ length a
    → Keeps b run
    → Keeps a run
Keeps-trans a b run h (s, (e, l)) = (s, (e, l ∙ h))

pub get_elem?-within {ℓ} :
    {A : Type ℓ} (xs : List A) (i : ℕ) → i < length xs → (x : A) × (get_elem? xs i ≡ some x)
get_elem?-within [] i h = elim h [ ]
get_elem?-within (x ∷ xs) zero h = (x, refl)
get_elem?-within (x ∷ xs) (suc i) h = get_elem?-within xs i (omega (arith, h))

module _ (lib : ListLib) (manual : Documented lib) (status_lib : StatusLib)
    (status_manual : StatusDocumented status_lib) (setup : StorageSetup) where
  free_run-Keeps :
      (n number : ℕ) (key : String) (left : ℕ) (statuses : List Status)
      → number + n ≤ length statuses
      → Keeps statuses (free_run lib status_lib setup n number key left statuses)
  unfolding free_run
  free_run-Keeps zero number key left statuses h = (statuses, (refl, refl))
  free_run-Keeps (suc n) number key left statuses h = elim (Bool-cases (left == 0)) [
    | inl e ↦ rw e (statuses, (refl, refl))
    | inr e ↦
        let (status, found) = get_elem?-within statuses number (omega (arith, h)) in
        rw (e, manual.gets statuses number, found)
          (elim (Bool-cases (status_lib.strcasecmp_same status.key key)) [
            | inl c ↦ rw c (
                Keeps-trans statuses (set statuses number (free_status "NULL")) _
                  (length-set statuses number (free_status "NULL"))
                  (free_run-Keeps n (suc number) key (left - 1) _
                    (omega (arith, h, length-set statuses number (free_status "NULL")))))
            | inr c ↦ rw c (free_run-Keeps n (suc number) key left statuses (omega (arith, h)))
          ])
  ]

  pub delete_kv-Keeps :
      (key_value : KeyValue) (statuses : List Status)
      → setup.total_entries ≤ length statuses
      → Keeps statuses (entry_table_status_delete_kv lib status_lib setup key_value statuses)
  unfolding entry_table_status_delete_kv
  delete_kv-Keeps key_value statuses h =
      free_run-Keeps setup.total_entries 0 key_value.key
        (entry_table_entries_needed setup key_value) statuses (omega (arith, h))

  add_all-Keeps :
      (statuses : List Status)
      → setup.total_entries ≤ length statuses
      → Keeps statuses (entry_table_status_last_referenced_add_all setup statuses)
  unfolding entry_table_status_last_referenced_add_all
  add_all-Keeps statuses h =
      let long : ltb (length statuses) setup.total_entries ≡ false = ground (arith, h) in
      (
        map (age setup) (take setup.total_entries statuses) ++ drop setup.total_entries statuses,
        (
          rw long refl,
          length-append (map (age setup) (take setup.total_entries statuses))
                (drop setup.total_entries statuses)
              ∙ ap (λ n. n + length (drop setup.total_entries statuses))
                  (length-map (take setup.total_entries statuses) (age setup))
              ∙ sym (
                  length-append (take setup.total_entries statuses)
                    (drop setup.total_entries statuses))
              ∙ ap length (take-append-drop setup.total_entries statuses),
        ),
      )

  length-replace :
      (statuses : List Status) (i : ℕ) (status : Status)
      → length (status_lib.list_replace statuses i status) ≡ length statuses
  length-replace statuses i status =
      ap length (status_manual.replaces statuses i status) ∙ length-set statuses i status

  length-replace_run :
      (n number : ℕ) (status : Status) (statuses : List Status)
      → length (replace_run lib status_lib setup n number status statuses) ≡ length statuses
  unfolding replace_run
  length-replace_run zero number status statuses = refl
  length-replace_run (suc n) number status statuses =
      length-replace_run n (suc number) status (status_lib.list_replace statuses number status)
      ∙ length-replace statuses number status

  placed-Keeps :
      (alone : Bool) (n entries : ℕ) (status : Status) (statuses : List Status)
      → Keeps statuses (
          ok (
            if alone
            then status_lib.list_replace statuses n status
            else replace_run lib status_lib setup entries n status statuses))
  placed-Keeps true n entries status statuses = (_, (refl, length-replace statuses n status))
  placed-Keeps false n entries status statuses =
      (_, (refl, length-replace_run entries n status statuses))

  pub add_kv-Keeps :
      (key_value : KeyValue) (next : ℤ) (statuses : List Status)
      → setup.total_entries ≤ length statuses
      → Keeps statuses (entry_table_status_add_kv lib status_lib setup key_value next statuses)
  unfolding entry_table_status_add_kv
  add_kv-Keeps key_value (negsuc n) statuses h = add_all-Keeps statuses h
  add_kv-Keeps key_value (pos n) statuses h =
      let (aged, (e, l)) = add_all-Keeps statuses h in
      rw (e, entry_table_status_add_kv)
        (Keeps-trans statuses aged _ l (
          placed-Keeps
            (entry_table_is_entry_atomic setup (convert_key_value_t_to_entry_t n key_value)) n
            (req_entries setup (convert_key_value_t_to_entry_t n key_value).size)
            (convert_entry_t_to_status_t setup (convert_key_value_t_to_entry_t n key_value)) aged))
