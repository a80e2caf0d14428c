-- ===== src/Instancia/Service.antt =====
-- instancia/instancia.c: the loop over what the coordinator asks for, the dump, and the recovery.
use tp_so_1c.Prelude.{
  ℕ, suc, ℤ, pos, ◌+ℤ◌, ◌-ℤ◌, String, List, [], ◌∷◌, ◌++◌, length, Option, none, some, Bool, true,
  false, not, ◌||◌, if◌then◌else◌,
}
use tp_so_1c.Outcome.{Outcome, ok, ◌>>=◌, deref}
use tp_so_1c.Commons.{ListLib}
use tp_so_1c.Wire.Messages.{StorageSetup}
use tp_so_1c.Instancia.State.{KeyValue, EntryTable, StringLib}
use tp_so_1c.Instancia.EntryTable.{
  entry_table_get_entry, entry_table_has_key, entry_table_diff_entries, entry_table_get_key_list,
}
use tp_so_1c.Instancia.Continuous.{to_unsigned}
use tp_so_1c.Instancia.Storage.{storage_retrieve}
use tp_so_1c.Instancia.StatusTable.{StatusLib}
use tp_so_1c.Instancia.Requests.{
  StatusCi, status_compact, status_ok, status_replaced, dumper_store, Memory, instance_set,
  instance_store, instance_status,
}
use tp_so_1c.Instancia.Compaction.{compactation_compact}

-- What the receptions of a turn give: a header, and none where what has to follow it gives API_ERROR.
pub data Incoming : Type 0 where
  header_lost : Incoming
  set_request : Option (Bool × KeyValue) → Incoming
  store_request : Option String → Incoming
  compact_request : Incoming
  value_request : Option String → Incoming
  is_alive_request : Incoming
  kill_request : Incoming
  other_request : Incoming

-- What the coordinator is sent.
pub data Notice : Type 0 where
  notify_set : ℕ → StatusCi → Notice
  notify_store : StatusCi → Notice
  notify_no_value : StatusCi → Notice
  notify_key_value : String → List ℕ → StatusCi → Notice
  confirm_connection : Notice

pub data RequestResult : Type 0 where
  request_success : RequestResult
  request_failure : RequestResult
  instance_compact : RequestResult
  instance_api_error : RequestResult
  instance_die : RequestResult

-- A turn's surroundings: what comes, whether an answer goes out, and whether the thread that dumps has
-- the mutex between the two parts of a SET that compacts.
pub record RequestTurn : Type 0 where
  pub incoming : Incoming
  pub sends : Bool
  pub dump_between : Bool

pub record Served : Type 0 where
  pub result : RequestResult
  pub memory : Memory
  pub notices : List Notice

-- The second switch: whether the instance goes on.
unfoldable pub goes_on : RequestResult → Bool
goes_on request_success = true
goes_on instance_compact = true
goes_on _ = false

-- API_B_CHECK after an answer.
unfoldable pub checked : Bool → RequestResult → RequestResult
checked sends result = if sends then result else instance_api_error

-- _dump
unfoldable pub dump_key : String → Memory → Outcome Memory
unfolding entry_table_get_entry storage_retrieve
dump_key key m = do
  entry ← deref (entry_table_get_entry m.table key)
  value ← storage_retrieve (pos entry.number) entry.size m.storage
  ok (record m { dumped = m.dumped ++ dumper_store key value ∷ [] })

unfoldable pub dump_each : List String → Memory → Outcome Memory
unfolding dump_key
dump_each [] m = ok m
dump_each (key ∷ keys) m = do n ← dump_key key m; dump_each keys n

-- What instance_thread_dump does each time that it wakes up.
unfoldable pub dump_round : ListLib → StorageSetup → Memory → Outcome Memory
unfolding dump_each entry_table_get_key_list
dump_round lib setup m = dump_each (entry_table_get_key_list lib setup m.table) m

module _ (lib : ListLib) (strings : StringLib) (status_lib : StatusLib) (setup : StorageSetup)
    (replacement_algorithm_id : ℕ) where
  unfoldable pub entries_used : EntryTable → ℤ
  entries_used table = pos setup.total_entries -ℤ table.entries_left

  -- After the status of the first SET: a compaction is followed by a second one.
  unfoldable pub answer_set :
      Bool → Bool → KeyValue → StatusCi → Memory → List String → Outcome Served
  unfolding checked entries_used dump_round compactation_compact instance_set
      entry_table_diff_entries
  answer_set sends dump_between key_value status_ok m replaced_keys = ok (record {
    result = checked sends request_success;
    memory = m;
    notices = notify_set (to_unsigned (entries_used m.table)) status_ok ∷ [];
  })
  answer_set sends dump_between key_value status_compact m replaced_keys =
      let notice =
        notify_set
          (to_unsigned (entries_used m.table +ℤ entry_table_diff_entries setup m.table key_value))
          status_compact in
      if not sends
      then ok (record { result = instance_api_error; memory = m; notices = notice ∷ [] })
      else (do
        n ← if dump_between then dump_round lib setup m else ok m
        o ← compactation_compact lib strings status_lib setup (suc (length n.table.entries)) n
        (second, (p, replaced)) ←
            instance_set lib strings status_lib setup replacement_algorithm_id key_value
              replaced_keys o
        ok (record { result = instance_compact; memory = p; notices = notice ∷ [] }))
  answer_set sends dump_between key_value failed m replaced_keys = ok (record {
    result = checked sends request_failure;
    memory = m;
    notices = notify_set (to_unsigned (entries_used m.table)) failed ∷ [];
  })

  unfoldable pub serve_set : Bool → Bool → Bool → KeyValue → Memory → Outcome Served
  unfolding entry_table_has_key entries_used instance_set answer_set
  serve_set sends dump_between is_new key_value m =
      if not (is_new || entry_table_has_key m.table key_value.key is_new)
      then ok (record {
        result = request_success;
        memory = m;
        notices = notify_set (to_unsigned (entries_used m.table)) status_replaced ∷ [];
      })
      else (do
        (status_of_set, (n, replaced_keys)) ←
            instance_set lib strings status_lib setup replacement_algorithm_id key_value [] m
        answer_set sends dump_between key_value status_of_set n replaced_keys)

  unfoldable pub answer_value : Bool → String → StatusCi × Option (List ℕ) → Memory → Served
  unfolding checked
  answer_value sends key (code, none) m = record {
    result = checked sends request_success;
    memory = m;
    notices = notify_no_value code ∷ [];
  }
  answer_value sends key (code, some value) m = record {
    result = checked sends request_success;
    memory = m;
    notices = notify_key_value key value code ∷ [];
  }

  unfoldable pub lost_request : Memory → Outcome Served
  lost_request m = ok (record { result = instance_api_error; memory = m; notices = [] })

  -- The first switch. The confirmation of IS_ALIVE is sent, but not whether it went out is checked.
  unfoldable pub serve : RequestTurn → Incoming → Memory → Outcome Served
  unfolding serve_set instance_store compactation_compact instance_status answer_value checked
      lost_request
  serve turn (set_request (some (is_new, key_value))) m =
      serve_set turn.sends turn.dump_between is_new key_value m
  serve turn (store_request (some key)) m = do
    (code, n) ← instance_store key m
    ok (record {
      result = checked turn.sends request_success;
      memory = n;
      notices = notify_store code ∷ [];
    })
  serve turn compact_request m = do
    n ← compactation_compact lib strings status_lib setup (suc (length m.table.entries)) m
    ok (record { result = request_success; memory = n; notices = [] })
  serve turn (value_request (some key)) m = do
    answer ← instance_status key m
    ok (answer_value turn.sends key answer m)
  serve turn is_alive_request m =
      ok (record { result = request_success; memory = m; notices = confirm_connection ∷ [] })
  serve turn kill_request m = ok (record { result = instance_die; memory = m; notices = [] })
  serve turn header_lost m = lost_request m
  serve turn (set_request none) m = lost_request m
  serve turn (store_request none) m = lost_request m
  serve turn (value_request none) m = lost_request m
  serve turn other_request m = lost_request m

  -- Whether the instance is alive after the turns, its memory, and what it sent.
  unfoldable pub instance_thread_api :
      List RequestTurn → Memory → Outcome (Bool × (Memory × List Notice))
  unfolding serve goes_on
  instance_thread_api [] m = ok (true, (m, []))
  instance_thread_api (turn ∷ turns) m = do
    served ← serve turn turn.incoming m
    if goes_on served.result
        then (do
          (alive, (n, notices)) ← instance_thread_api turns served.memory
          ok (alive, (n, served.notices ++ notices)))
        else ok (false, (served.memory, served.notices))

  -- The SETs of what the dumper recovers; their statuses are not looked at.
  unfoldable pub recover_each : List KeyValue → List String → Memory → Outcome Memory
  unfolding instance_set
  recover_each [] replaced_keys m = ok m
  recover_each (key_value ∷ later) replaced_keys m = do
    (ignored, (n, replaced)) ←
        instance_set lib strings status_lib setup replacement_algorithm_id key_value replaced_keys m
    recover_each later replaced n

  -- `recover` is what dumper_recover gives for the keys.
  unfoldable pub instance_recover :
      (List String → List KeyValue) → List String → Memory → Outcome (StatusCi × Memory)
  unfolding recover_each
  instance_recover recover [] m = ok (status_ok, m)
  instance_recover recover (key ∷ keys) m = do
    n ← recover_each (recover (key ∷ keys)) [] m
    ok (status_ok, n)
