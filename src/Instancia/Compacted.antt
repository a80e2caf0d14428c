-- ===== src/Instancia/Compacted.antt =====
-- instancia/compactation.c: what the memory is after a compaction.
use tp_so_1c.Prelude.{
  suc, ◌+◌, ◌-◌, ◌<◌, ◌≡◌, refl, sym, ap, ◌∙◌, subst, arith, List, [], ◌∷◌, ◌++◌, ++-assoc, ++-nil,
  true, false, pos, ltb, some, length, length-append, get_elem?,
}
use tp_so_1c.Outcome.{Outcome, ok}
use tp_so_1c.Commons.{ListLib, Documented, All}
use tp_so_1c.Wire.Messages.{StorageSetup}
use tp_so_1c.Instancia.State.{StringLib, Entry}
use tp_so_1c.Instancia.EntryTable.{size_limit}
use tp_so_1c.Instancia.Layout.{used}
use tp_so_1c.Instancia.StatusTable.{StatusLib}
use tp_so_1c.Instancia.Requests.{Memory}
use tp_so_1c.Instancia.Packed.{
  pack_from, pack_from-append, length-pack_from, used-pack_from, get_elem?-append,
}
use tp_so_1c.Instancia.Values.{values}
use tp_so_1c.Instancia.Statuses.{StatusDocumented}
use tp_so_1c.Instancia.Compaction.{compact_from, compactation_compact}
use tp_so_1c.Instancia.Compacting.{IsReady, move_entry-Moves}

module _ (lib : ListLib) (manual : Documented lib) (strings : StringLib) (status_lib : StatusLib)
    (status_manual : StatusDocumented status_lib) (setup : StorageSetup)
    (positive : 0 < setup.entry_size) (total : setup.total_entries < size_limit) where
  -- What the loop leaves of the entries from a position on.
  abbrev Packs : List Entry → List Entry → Memory → Outcome Memory → Type 0
  Packs xs rest m run =
      (n : Memory) × (run ≡ ok n
        × IsReady setup n
        × n.table.entries ≡ pack_from setup 0 (xs ++ rest)
        × values n.storage n.table.entries ≡ values m.storage m.table.entries
        × n.circular_pointer ≡ m.circular_pointer
        × n.dumped ≡ m.dumped)

  compact_from-Packs :
      (rest xs : List Entry) (m : Memory)
      → IsReady setup m
      → m.table.entries ≡ pack_from setup 0 xs ++ rest
      → All (λ e. strings.string_substring_until e.key 40 ≡ e.key) rest
      → Packs xs rest m
          (compact_from lib strings status_lib setup (suc (length rest)) (length xs) m)
  unfolding compact_from
  compact_from-Packs [] xs m ready split short =
      rw (manual.counts_all m.table.entries, last)
        (
          m,
          (
            refl,
            ready,
            split ∙ ++-nil (pack_from setup 0 xs) ∙ ap (pack_from setup 0) (sym (++-nil xs)),
            refl,
            refl,
            refl,
          ),
        )
    where
      last : ltb (length xs) (length m.table.entries) ≡ false
      last =
          ground
            (arith, ap length (split ∙ ++-nil (pack_from setup 0 xs)), length-pack_from setup 0 xs)
  compact_from-Packs (e ∷ later) xs m ready split (short, shorts) =
      let (n, (run, ready', entries, same, pointer, dumps)) =
        move_entry-Moves lib manual strings status_lib status_manual setup positive total m ready xs
          later e split short in
      let (o, (runs, ready'', entries', same', pointer', dumps')) =
        compact_from-Packs later (xs ++ e ∷ []) n ready' (entries ∙ next_split) shorts in
      (
        o,
        (
          rw (manual.counts_all m.table.entries, more)
              (rw (manual.gets m.table.entries (length xs), here)
                (rw run (
                  subst
                    (λ i. compact_from lib strings status_lib setup (suc (length later)) i n ≡ ok o)
                    next_index runs))),
          ready'',
          entries' ∙ ap (pack_from setup 0) (++-assoc xs (e ∷ []) later),
          same' ∙ same,
          pointer' ∙ pointer,
          dumps' ∙ dumps,
        ),
      )
    where
      sizes : length m.table.entries ≡ length xs + suc (length later)
      sizes = omega (
        arith,
        ap length split,
        length-append (pack_from setup 0 xs) (e ∷ later),
        length-pack_from setup 0 xs,
      )

      more : ltb (length xs) (length m.table.entries) ≡ true
      more = ground (arith, sizes)

      here : get_elem? m.table.entries (length xs) ≡ some e
      here =
          ap (λ l. get_elem? l (length xs)) split
          ∙ ap (get_elem? (pack_from setup 0 xs ++ e ∷ later)) (sym (length-pack_from setup 0 xs))
          ∙ get_elem?-append (pack_from setup 0 xs) e later

      next_index : length (xs ++ e ∷ []) ≡ suc (length xs)
      next_index = omega (arith, length-append xs (e ∷ []))

      next_split :
          pack_from setup 0 xs ++ record e { number = used setup xs } ∷ later
          ≡ pack_from setup 0 (xs ++ e ∷ []) ++ later
      next_split =
          ap (λ c. pack_from setup 0 xs ++ record e { number = c } ∷ later) (omega arith)
          ∙ sym
              (++-assoc (pack_from setup 0 xs) (record e { number = 0 + used setup xs } ∷ []) later)
          ∙ ap (λ l. l ++ later) (sym (pack_from-append setup 0 xs (e ∷ [])))

  -- A compaction ends: with one turn for each key and none more, the keys lie side by side from the
  -- first entry on in the order that they had, with the sizes that they had, each value is read as
  -- before, and the number of entries that are left is the same, if before it the keys lie apart in a
  -- storage of the assigned sizes, no key has two entries of the table, there is a status for each
  -- entry, no key is longer than 40 characters, an entry has some byte, and there are fewer entries
  -- than a pointer has values.
  pub compactation_compact-packs :
      (m : Memory)
      → IsReady setup m
      → All (λ e. strings.string_substring_until e.key 40 ≡ e.key) m.table.entries
      → (n : Memory) × (compactation_compact lib strings status_lib setup
              (suc (length m.table.entries))
              m
            ≡ ok n
          × n.table ≡ record {
            entries = pack_from setup 0 m.table.entries;
            entries_left = m.table.entries_left;
          }
          × values n.storage n.table.entries ≡ values m.storage m.table.entries
          × IsReady setup n
          × n.circular_pointer ≡ m.circular_pointer
          × n.dumped ≡ m.dumped)
  unfolding compactation_compact
  compactation_compact-packs m ready short =
      let (n, (run, ready', entries, same, pointer, dumps)) =
        compact_from-Packs m.table.entries [] m ready refl short in
      (n, (run, table_eq n entries (left n ready' entries), same, ready', pointer, dumps))
    where
      left :
          (n : Memory)
          → IsReady setup n
          → n.table.entries ≡ pack_from setup 0 m.table.entries
          → n.table.entries_left ≡ m.table.entries_left
      left n ready' entries =
          ready'.sound.0.1
          ∙ ap (λ k. pos (setup.total_entries - k))
              (ap (used setup) entries ∙ used-pack_from setup 0 m.table.entries)
          ∙ sym ready.sound.0.1

      table_eq :
          (n : Memory)
          → n.table.entries ≡ pack_from setup 0 m.table.entries
          → n.table.entries_left ≡ m.table.entries_left
          → n.table ≡ record {
            entries = pack_from setup 0 m.table.entries;
            entries_left = m.table.entries_left;
          }
      table_eq n p q i = record { entries = p i; entries_left = q i }
