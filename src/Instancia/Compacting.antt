-- ===== src/Instancia/Compacting.antt =====
-- instancia/compactation.c: what a turn of the loop leaves in memory.
use tp_so_1c.Prelude.{
  ℕ, ◌+◌, ◌*◌, ◌≤◌, ◌<◌, ◌≡◌, refl, sym, ap, ◌∙◌, subst, arith, String, List, ◌∷◌, ◌++◌, pos,
  length, replicate, same_key, count_if-append,
}
use tp_so_1c.Outcome.{ok}
use tp_so_1c.Commons.{ListLib, Documented, All}
use tp_so_1c.Wire.Messages.{StorageSetup}
use tp_so_1c.Instancia.State.{StringLib, Entry}
use tp_so_1c.Instancia.EntryTable.{size_limit, req_entries, entry_table_insert}
use tp_so_1c.Instancia.Layout.{Laid, Laid-used, used}
use tp_so_1c.Instancia.Storage.{Storage, strg_success, storage_retrieve}
use tp_so_1c.Instancia.Bytes.{IsWhole, Apart, Writes, storage_set-Writes, storage_set-sizes}
use tp_so_1c.Instancia.StatusTable.{StatusLib}
use tp_so_1c.Instancia.Requests.{Memory}
use tp_so_1c.Instancia.Placing.{IsSound}
use tp_so_1c.Instancia.Packed.{pack_from}
use tp_so_1c.Instancia.Values.{
  values, values-append, storage_retrieve-whole, Writes-values, ends_before, Laid-Apart,
  pack_from-Apart,
}
use tp_so_1c.Instancia.Statuses.{StatusDocumented, delete_kv-Keeps, add_kv-Keeps}
use tp_so_1c.Instancia.Moving.{
  keys_named, without, behind, rest_Laid, moving-next, inserted-IsSound, inserted-entries,
}
use tp_so_1c.Instancia.Compaction.{key_value_generator, move_entry}

-- The keys lie apart in a storage of the assigned sizes, no key has two entries of the table, and
-- there is a status for each entry.
pub record IsReady (setup : StorageSetup) (m : Memory) : Type 0 where
  pub sound : IsSound setup m.table
  pub distinct : (key : String) → keys_named key m.table.entries ≤ 1
  pub whole : IsWhole m.storage
  pub as_many : m.storage.entries ≡ setup.total_entries
  pub as_large : m.storage.entry_size ≡ setup.entry_size
  pub covered : setup.total_entries ≤ length m.statuses

module _ (lib : ListLib) (manual : Documented lib) (strings : StringLib) (status_lib : StatusLib)
    (status_manual : StatusDocumented status_lib) (setup : StorageSetup)
    (positive : 0 < setup.entry_size) (total : setup.total_entries < size_limit) where
  module _ (m : Memory) (ready : IsReady setup m) (xs later : List Entry) (e : Entry)
      (split : m.table.entries ≡ pack_from setup 0 xs ++ e ∷ later)
      (short : strings.string_substring_until e.key 40 ≡ e.key) where
    abbrev filler : List ℕ
    filler = replicate e.size 88

    abbrev pub in_place : List Entry
    in_place = pack_from setup 0 xs ++ record e { number = used setup xs } ∷ later

    begin : Laid setup (used setup xs) (e ∷ later)
    begin = behind lib manual setup total m.table xs later e filler split ready.sound ready.distinct

    rest : Laid setup (used setup xs + req_entries setup e.size) later
    rest =
        rest_Laid lib manual setup total m.table xs later e filler split ready.sound ready.distinct

    within :
        (n : ℕ)
        → n + req_entries setup e.size ≤ setup.total_entries
        → n * m.storage.entry_size + e.size ≤ m.storage.entries * m.storage.entry_size
    within n h =
        rw (ready.as_many, ready.as_large)
          (ends_before setup positive n e.size setup.total_entries h)

    -- The key is in its new place, and each value is read as before.
    abbrev pub Moves : Memory → Type 0
    Moves n =
        move_entry lib strings status_lib setup e m ≡ ok n
        × IsReady setup n
        × n.table.entries ≡ in_place
        × values n.storage n.table.entries ≡ values m.storage m.table.entries
        × n.circular_pointer ≡ m.circular_pointer
        × n.dumped ≡ m.dumped

    keys_named-moved :
        (key : String)
        → keys_named key in_place ≡ keys_named key (pack_from setup 0 xs ++ e ∷ later)
    keys_named-moved key = omega (
      arith,
      count_if-append (λ d. same_key key d.key) (pack_from setup 0 xs) (e ∷ later),
      count_if-append (λ d. same_key key d.key) (pack_from setup 0 xs)
          (record e { number = used setup xs } ∷ later),
    )

    values-moved :
        (value : List ℕ) (storage : Storage)
        → storage_retrieve (pos e.number) e.size m.storage ≡ ok value
        → length value ≡ e.size
        → Writes m.storage (used setup xs) value storage
        → values storage in_place ≡ values m.storage (pack_from setup 0 xs ++ e ∷ later)
    values-moved value storage read l w =
        values-append storage (pack_from setup 0 xs) (record e { number = used setup xs } ∷ later)
        ∙ ap (λ vs. vs ++ (storage_retrieve (pos c) e.size storage ∷ values storage later))
            (Writes-values m.storage c value storage (pack_from setup 0 xs) w (
              pack_from-Apart setup positive m.storage ready.as_large c (length value) 0 xs
                (omega arith)))
        ∙ ap (λ v. values m.storage (pack_from setup 0 xs) ++ (v ∷ values storage later))
            (ap (λ n. storage_retrieve (pos c) n storage) (sym l) ∙ w.1 ∙ sym read)
        ∙ ap
            (λ vs.
              values m.storage (pack_from setup 0 xs)
              ++ (storage_retrieve (pos e.number) e.size m.storage ∷ vs))
            (Writes-values m.storage c value storage later w (
              subst (λ n. All (λ d. Apart m.storage c n d.number d.size) later) (sym l)
                (Laid-Apart setup positive m.storage ready.as_large c e.size
                  (c + req_entries setup e.size) later (omega arith) rest)))
        ∙ sym (values-append m.storage (pack_from setup 0 xs) (e ∷ later))
      where
        c : ℕ
        c = used setup xs

    pub move_entry-Moves : (n : Memory) × Moves n
    unfolding move_entry key_value_generator
    move_entry-Moves =
        let (value, (read, l)) = storage_retrieve-whole m.storage e.number e.size ready.whole (
          within e.number
            (omega (arith, Laid-used setup (e.number + req_entries setup e.size) later begin.1))) in
        let (deleted, (deletes, ld)) =
          delete_kv-Keeps lib manual status_lib status_manual setup
            (record { key = e.key; value = filler; size = e.size }) m.statuses ready.covered in
        let (statuses, (adds, ls)) =
          add_kv-Keeps lib manual status_lib status_manual setup
            (record { key = e.key; value = filler; size = e.size }) (pos (used setup xs)) deleted
            (omega (arith, ld, ready.covered)) in
        let (storage, (sets, w)) = storage_set-Writes m.storage (used setup xs) value ready.whole (
          rw l (
            within (used setup xs) (
              omega
                (arith, Laid-used setup (used setup xs + req_entries setup e.size) later rest)))) in
        let sizes = storage_set-sizes m.storage (used setup xs) value strg_success storage sets in
        let next =
          moving-next lib manual setup total m.table xs later e filler split ready.sound
            ready.distinct in
        let entries =
          inserted-entries lib manual setup total m.table xs later e filler split ready.sound
            ready.distinct in
        (
          record m {
            table =
                (entry_table_insert lib setup (pos (used setup xs))
                  (record { key = e.key; value = filler; size = e.size })
                  (without lib manual setup total m.table xs later e filler split ready.sound
                    ready.distinct)).1;
            statuses = statuses;
            storage = storage;
          },
          (
            rw read (rw short (rw deletes (rw next (rw adds (rw sets refl))))),
            record {
              sound =
                  inserted-IsSound lib manual setup total m.table xs later e filler split
                    ready.sound ready.distinct;
              distinct = λ key. omega (
                arith,
                ap (keys_named key) entries,
                keys_named-moved key,
                ap (keys_named key) split,
                ready.distinct key,
              );
              whole = w.0;
              as_many = sizes.0 ∙ ready.as_many;
              as_large = sizes.1 ∙ ready.as_large;
              covered = omega (arith, ls, ld, ready.covered);
            },
            entries,
            ap (values storage) entries
                ∙ values-moved value storage read l w
                ∙ ap (values m.storage) (sym split),
            refl,
            refl,
          ),
        )
