-- ===== src/Instancia/Serving.antt =====
-- instancia/instancia.c: a SET of a new key, from the request to the value that is stored.
use tp_so_1c.Prelude.{
  ℕ, suc, ◌+◌, ◌≤◌, ◌<◌, ◌≡◌, refl, sym, ap, ◌∙◌, arith, String, List, [], ◌∷◌, ◌++◌, ++-nil, Bool,
  true, false, inl, inr, ◌⊎◌, ℤ, pos, minus_one, leb_ℤ, ◌+ℤ◌, none, some, same_key, length,
  find_first, if◌then◌else◌,
}
use tp_so_1c.Outcome.{ok}
use tp_so_1c.Commons.{ListLib, Documented, All}
use tp_so_1c.Wire.Messages.{StorageSetup}
use tp_so_1c.Instancia.State.{KeyValue, Entry, EntryTable, StringLib}
use tp_so_1c.Instancia.EntryTable.{
  size_limit, req_entries, entry_table_get_entry, entry_table_entries_needed,
  entry_table_diff_entries, entry_table_has_entries, first_gap, gap_after,
}
use tp_so_1c.Instancia.Continuous.{to_unsigned}
use tp_so_1c.Instancia.Layout.{used}
use tp_so_1c.Instancia.StatusTable.{StatusLib}
use tp_so_1c.Instancia.Statuses.{StatusDocumented}
use tp_so_1c.Instancia.Requests.{
  StatusCi, DumpAction, status_ok, status_compact, Memory, instance_status, instance_set,
}
use tp_so_1c.Instancia.Packed.{
  pack_from, count_if-pack_from, first_gap-pack_from, used-pack_from, count-zero-find,
}
use tp_so_1c.Instancia.Values.{values}
use tp_so_1c.Instancia.Moving.{keys_named}
use tp_so_1c.Instancia.Compaction.{compactation_compact}
use tp_so_1c.Instancia.Compacting.{IsReady}
use tp_so_1c.Instancia.Compacted.{compactation_compact-packs}
use tp_so_1c.Instancia.Answers.{answer, instance_status-answer, answer-pack_from, count-find_none}
use tp_so_1c.Instancia.Storing.{Stores, enough, instance_set-compacts, instance_set-Stores}
use tp_so_1c.Instancia.Dumping.{dump_round-Dumps}
use tp_so_1c.Instancia.Service.{
  RequestTurn, Served, notify_set, instance_compact, request_success, entries_used, set_request,
  goes_on, serve, serve_set, answer_set,
}

dumped_status :
    (key : String) (m : Memory) (files : List DumpAction)
    → instance_status key (record m { dumped = files }) ≡ instance_status key m
unfolding instance_status
dumped_status key m files = refl

-- What a search for a gap can give.
abbrev Gap : ℤ → Type 0
Gap z = ((n : ℕ) × (z ≡ pos n)) ⊎ (z ≡ minus_one)

choose-Gap : (test : Bool) (n : ℕ) (next : ℤ) → Gap next → Gap (if test then pos n else next)
choose-Gap true n next h = inl (n, refl)
choose-Gap false n next h = h

gap_after-Gap :
    (setup : StorageSetup) (needed : ℕ) (e : Entry) (later : List Entry)
    → Gap (gap_after setup needed e later)
unfolding gap_after
gap_after-Gap setup needed e [] = choose-Gap _ _ minus_one (inr refl)
gap_after-Gap setup needed e (e2 ∷ later) = choose-Gap _ _ _ (gap_after-Gap setup needed e2 later)

first_gap-Gap :
    (setup : StorageSetup) (needed : ℕ) (entries : List Entry)
    → Gap (first_gap setup needed entries)
unfolding first_gap
first_gap-Gap setup needed [] = inl (0, refl)
first_gap-Gap setup needed (e ∷ later) = choose-Gap _ 0 _ (gap_after-Gap setup needed e later)

has-absent :
    (setup : StorageSetup) (table : EntryTable) (key_value : KeyValue)
    → entry_table_get_entry table key_value.key ≡ none
    → entry_table_has_entries setup table key_value
      ≡ leb_ℤ (pos (req_entries setup key_value.size)) table.entries_left
unfolding entry_table_has_entries entry_table_diff_entries
has-absent setup table key_value absent = rw (absent, entry_table_diff_entries) refl

Stores-trans :
    (setup : StorageSetup) (key_value : KeyValue) (l m n : Memory)
    → ((key : String) → instance_status key m ≡ instance_status key l)
    → used setup m.table.entries ≡ used setup l.table.entries
    → Stores setup key_value m n
    → Stores setup key_value l n
Stores-trans setup key_value l m n h u s = record {
  ready = s.ready;
  has_value = s.has_value;
  others = λ key other. s.others key other ∙ h key;
  takes = s.takes ∙ ap (λ k. k + req_entries setup key_value.size) u;
}

module _ (lib : ListLib) (manual : Documented lib) (strings : StringLib) (status_lib : StatusLib)
    (status_manual : StatusDocumented status_lib) (setup : StorageSetup)
    (replacement_algorithm_id : ℕ) (positive : 0 < setup.entry_size)
    (total : setup.total_entries < size_limit) (key_value : KeyValue)
    (some_byte : 0 < entry_table_entries_needed setup key_value)
    (whole_value : key_value.size ≡ length key_value.value) where
  -- The memory after a compaction has a gap for the new key, and the answers are as before.
  module _ (m : Memory) (ready : IsReady setup m)
      (absent : entry_table_get_entry m.table key_value.key ≡ none)
      (has : entry_table_has_entries setup m.table key_value ≡ true)
      (short : All (λ e. strings.string_substring_until e.key 40 ≡ e.key) m.table.entries) where
    compacts_and_Stores :
        (keys : List String)
        → (o p : Memory) × (compactation_compact lib strings status_lib setup
                (suc (length m.table.entries))
                m
              ≡ ok o
            × instance_set lib strings status_lib setup replacement_algorithm_id key_value keys o
              ≡ ok (status_ok, (p, keys))
            × Stores setup key_value m p)
    unfolding entry_table_get_entry entry_table_entries_needed
    compacts_and_Stores keys =
        let (o, (run, table, same, ready', pointer, dumps)) =
          compactation_compact-packs lib manual strings status_lib status_manual setup positive
            total m ready short in
        let entries : o.table.entries ≡ pack_from setup 0 m.table.entries =
          ap (λ t. t.entries) table in
        let absent' : entry_table_get_entry o.table key_value.key ≡ none =
          count-zero-find (λ e. same_key key_value.key e.key) o.table.entries
            (omega (
              arith,
              ap (keys_named key_value.key) entries,
              count_if-pack_from setup (λ e. same_key key_value.key e.key) (λ e n. refl) 0
                  m.table.entries,
              count-find_none (λ e. same_key key_value.key e.key) m.table.entries absent,
            )) in
        let has' : entry_table_has_entries setup o.table key_value ≡ true =
          has-absent setup o.table key_value absent'
          ∙ ap (λ t. leb_ℤ (pos (req_entries setup key_value.size)) t.entries_left) table
          ∙ sym (has-absent setup m.table key_value absent)
          ∙ has in
        let (p, (sets, stores)) =
          instance_set-Stores lib manual strings status_lib status_manual setup
            replacement_algorithm_id positive total key_value some_byte whole_value o ready' absent'
            has' keys (used setup m.table.entries)
            (ap (first_gap setup (req_entries setup key_value.size)) (entries ∙ sym (++-nil _))
              ∙ first_gap-pack_from setup total (req_entries setup key_value.size) some_byte
                  m.table.entries [] room) in
        (
          o,
          p,
          (
            run,
            sets,
            Stores-trans setup key_value m o p
                (λ key.
                  instance_status-answer key o
                  ∙ ap (λ l. answer (find_first (λ e. same_key key e.key) l) o.storage) entries
                  ∙ answer-pack_from setup key m.storage o.storage 0 m.table.entries
                      (ap (values o.storage) (sym entries) ∙ same)
                  ∙ sym (instance_status-answer key m))
                (ap (used setup) entries ∙ used-pack_from setup 0 m.table.entries) stores,
          ),
        )
      where
        room : used setup m.table.entries + req_entries setup key_value.size ≤ setup.total_entries
        room = omega (
          arith,
          enough lib manual strings status_lib status_manual setup replacement_algorithm_id positive
              total key_value some_byte whole_value m ready absent has,
          some_byte,
        )

  -- The answer to a SET that compacts, with the memory that is left.
  abbrev compact_answer : Memory → Memory → Served
  compact_answer m p = record {
    result = instance_compact;
    memory = p;
    notices =
        notify_set
          (to_unsigned (
            entries_used lib strings status_lib setup replacement_algorithm_id m.table
            +ℤ entry_table_diff_entries setup m.table key_value))
          status_compact
        ∷ [];
  }

  -- Where the answer of the first SET is COMPACT, the second one stores the value.
  finish_compact :
      (dump_between : Bool) (m : Memory)
      → IsReady setup m
      → entry_table_get_entry m.table key_value.key ≡ none
      → entry_table_has_entries setup m.table key_value ≡ true
      → All (λ e. strings.string_substring_until e.key 40 ≡ e.key) m.table.entries
      → (p : Memory) × (answer_set lib strings status_lib setup replacement_algorithm_id true
              dump_between key_value status_compact m []
            ≡ ok (compact_answer m p)
          × Stores setup key_value m p)
  unfolding answer_set
  finish_compact false m ready absent has short =
      let (o, p, (run, sets, stores)) = compacts_and_Stores m ready absent has short [] in
      (p, (rw run (rw sets refl), stores))
  finish_compact true m ready absent has short =
      let (files, (dumps, _)) = dump_round-Dumps lib manual setup positive m ready in
      let n = record m { dumped = m.dumped ++ files } in
      let (o, p, (run, sets, stores)) =
        compacts_and_Stores n
          (record {
            sound = ready.sound;
            distinct = ready.distinct;
            whole = ready.whole;
            as_many = ready.as_many;
            as_large = ready.as_large;
            covered = ready.covered;
          })
          absent has short [] in
      (
        p,
        (
          rw dumps (rw run (rw sets refl)),
          Stores-trans setup key_value m n p (λ key. dumped_status key m (m.dumped ++ files)) refl
              stores,
        ),
      )

  -- A request to SET a new key for which entries are left is carried out, whether or not the storage
  -- has to be compacted and the thread that dumps runs in between: the instance goes on, answers OK or
  -- COMPACT, has the key with its value, for every other key answers as before, and uses as many
  -- entries more as the value takes, if the keys lie apart in a storage of the assigned sizes, no key
  -- has two entries of the table, there is a status for each entry, no key is longer than 40
  -- characters, the value takes some entry and its size is its length, an entry has some byte, there
  -- are fewer entries than a pointer has values, and the answer goes out.
  pub serve-Stores :
      (turn : RequestTurn) (m : Memory)
      → turn.sends ≡ true
      → IsReady setup m
      → entry_table_get_entry m.table key_value.key ≡ none
      → entry_table_has_entries setup m.table key_value ≡ true
      → All (λ e. strings.string_substring_until e.key 40 ≡ e.key) m.table.entries
      → (s : Served) × (serve lib strings status_lib setup replacement_algorithm_id turn
              (set_request (some (true, key_value)))
              m
            ≡ ok s
          × Stores setup key_value m s.memory
          × goes_on s.result ≡ true
          × (n : ℕ) × (code : StatusCi) × (s.notices ≡ notify_set n code ∷ [])
          × ((code ≡ status_ok) ⊎ (code ≡ status_compact)))
  unfolding serve serve_set goes_on
  serve-Stores turn m sends ready absent has short =
      elim (first_gap-Gap setup (req_entries setup key_value.size) m.table.entries) [
        | inl (c, at) ↦
            let (n, (sets, stores)) =
              instance_set-Stores lib manual strings status_lib status_manual setup
                replacement_algorithm_id positive total key_value some_byte whole_value m ready
                absent has [] c at in
            (
              record {
                result = request_success;
                memory = n;
                notices =
                    notify_set
                      (to_unsigned (
                        entries_used lib strings status_lib setup replacement_algorithm_id n.table))
                      status_ok
                    ∷ [];
              },
              (rw sends (rw sets refl), stores, refl, _, _, refl, inl refl),
            )
        | inr none_large ↦
            let compacts =
              instance_set-compacts lib manual strings status_lib status_manual setup
                replacement_algorithm_id positive total key_value some_byte whole_value m ready
                absent has [] none_large in
            let (p, (run, stores)) = finish_compact turn.dump_between m ready absent has short in
            (compact_answer m p, (rw sends (rw compacts run), stores, refl, _, _, refl, inr refl))
      ]
