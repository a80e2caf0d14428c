-- ===== src/Instancia/Dumping.antt =====
-- instancia/instancia.c: what a round of the thread that dumps writes.
use tp_so_1c.Prelude.{
  ℕ, ◌+◌, ◌*◌, ◌≤◌, ◌<◌, ◌≡◌, refl, sym, ap, ◌∙◌, arith, List, [], ◌∷◌, ◌++◌, ++-assoc, ++-nil,
  some, same_key, find_first, count_if, count_if-append, map, pos,
}
use tp_so_1c.Outcome.{ok}
use tp_so_1c.Commons.{ListLib, Documented, All}
use tp_so_1c.Wire.Messages.{StorageSetup}
use tp_so_1c.Instancia.State.{Entry}
use tp_so_1c.Instancia.EntryTable.{req_entries, entry_table_get_entry, entry_table_get_key_list}
use tp_so_1c.Instancia.Layout.{Laid, Laid-used}
use tp_so_1c.Instancia.Storage.{Storage, storage_retrieve}
use tp_so_1c.Instancia.Requests.{DumpAction, dumper_store, Memory}
use tp_so_1c.Instancia.Packed.{same_entry, same_entry_self}
use tp_so_1c.Instancia.Values.{ends_before, storage_retrieve-whole}
use tp_so_1c.Instancia.Moving.{same_key_self}
use tp_so_1c.Instancia.Compacting.{IsReady}
use tp_so_1c.Instancia.Answers.{find_first-only}
use tp_so_1c.Instancia.Service.{dump_key, dump_each, dump_round}

-- One write for each entry, of its key with its value.
abbrev pub Dumps : Storage → List Entry → List DumpAction → Type 0
Dumps storage [] [] = Unit
Dumps storage (e ∷ later) (dumper_store key value ∷ files) =
    (key ≡ e.key)
    × (storage_retrieve (pos e.number) e.size storage ≡ ok value)
    × Dumps storage later files
Dumps storage _ _ = ⊥

module _ (lib : ListLib) (manual : Documented lib) (setup : StorageSetup)
    (positive : 0 < setup.entry_size) where
  -- The key leads to the entry, which lies within the storage.
  abbrev Readable : Memory → Entry → Type 0
  Readable m e =
      (find_first (λ d. same_key e.key d.key) m.table.entries ≡ some e)
      × (e.number * m.storage.entry_size + e.size ≤ m.storage.entries * m.storage.entry_size)

  All-Readable :
      (m : Memory) (xs rest : List Entry) (lo : ℕ)
      → IsReady setup m
      → m.table.entries ≡ xs ++ rest
      → Laid setup lo rest
      → All (Readable m) rest
  All-Readable m xs [] lo ready split l = tt
  All-Readable m xs (e ∷ later) lo ready split (i, l) = (
    (
      find_first-only (λ d. same_key e.key d.key) e m.table.entries (same_key_self e.key)
          (ready.distinct e.key)
          (ground (
            arith,
            ap (count_if (same_entry e)) split,
            count_if-append (same_entry e) xs (e ∷ later),
            same_entry_self e,
          )),
      rw (ready.as_many, ready.as_large)
          (ends_before setup positive e.number e.size setup.total_entries
            (omega (arith, Laid-used setup (e.number + req_entries setup e.size) later l))),
    ),
    All-Readable m (xs ++ e ∷ []) later (e.number + req_entries setup e.size) ready
        (split ∙ sym (++-assoc xs (e ∷ []) later)) l,
  )

  dump_each-Dumps :
      (rest : List Entry) (m : Memory)
      → IsReady setup m
      → All (Readable m) rest
      → (files : List DumpAction) × (dump_each (map (λ e. e.key) rest) m
            ≡ ok (record m { dumped = m.dumped ++ files })
          × Dumps m.storage rest files)
  unfolding dump_each dump_key entry_table_get_entry
  dump_each-Dumps [] m ready h =
      ([], (ap (λ l. ok (record m { dumped = l })) (sym (++-nil m.dumped)), tt))
  dump_each-Dumps (e ∷ later) m ready ((found, within), h) =
      let (value, (read, l)) =
        storage_retrieve-whole m.storage e.number e.size ready.whole within in
      let n = record m { dumped = m.dumped ++ dumper_store e.key value ∷ [] } in
      let (files, (run, dumps)) =
        dump_each-Dumps later n
          (record {
            sound = ready.sound;
            distinct = ready.distinct;
            whole = ready.whole;
            as_many = ready.as_many;
            as_large = ready.as_large;
            covered = ready.covered;
          })
          h in
      (
        dumper_store e.key value ∷ files,
        (
          rw found (
              rw read (
                run
                ∙ ap (λ l. ok (record m { dumped = l }))
                    (++-assoc m.dumped (dumper_store e.key value ∷ []) files))),
          (refl, read, dumps),
        ),
      )

  -- A round of the thread that dumps ends; it writes the value of each key of the table, once and in
  -- the table's order, and changes nothing else, if the keys lie apart in a storage of the assigned
  -- sizes, no key has two entries of the table, and an entry has some byte.
  pub dump_round-Dumps :
      (m : Memory)
      → IsReady setup m
      → (files : List DumpAction) × (dump_round lib setup m
            ≡ ok (record m { dumped = m.dumped ++ files })
          × Dumps m.storage m.table.entries files)
  unfolding dump_round entry_table_get_key_list
  dump_round-Dumps m ready = rw (manual.maps m.table.entries (λ e. e.key)) (
      dump_each-Dumps m.table.entries m ready
        (All-Readable m [] m.table.entries 0 ready refl ready.sound.0.0))
