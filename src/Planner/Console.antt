-- ===== src/Planner/Console.antt =====
-- planificador/consola.c: the commands of the console thread, which leave orders in the lists and the
-- flags that the main thread reads. `atoi` has already read the process id.
use tp_so_1c.Prelude.{
  zero, suc, ℤ, minus_one, same_int, same_key, String, List, [], ◌∷◌, true, false, if◌then◌else◌,
}
use tp_so_1c.Outcome.{Outcome, ok, hang, ◌>>=◌, deref}
use tp_so_1c.Commons.{ListLib}
use tp_so_1c.Planner.State.{Planner, ask_key_status}
use tp_so_1c.Planner.Queues.{obtain_esi_fd_by_esi_pid, obtain_esi_information_by_id}
use tp_so_1c.Planner.Keys.{create_esi_sexpecting_key}

-- `deadlock` only reads the state: Planner.Deadlock has it.
pub data Command : Type 0 where
  pausar continuar : Command
  bloquear : String → ℤ → Command
  desbloquear : String → Command
  listar : String → Command
  kill : ℤ → Command
  status : String → Command

module _ {F : Type 0} where
  -- `sem_wait` and `sem_post` on the mutex of the coordinator's socket.
  unfoldable pub sem_wait : Planner F → Outcome (Planner F)
  sem_wait s = elim s.mutex_coordinador [
    | zero ↦ hang
    | suc n ↦ ok (record s { mutex_coordinador = n })
  ]

  unfoldable pub sem_post : Planner F → Planner F
  sem_post s = record s { mutex_coordinador = suc s.mutex_coordinador }

  unfoldable pub pause_scheduler : Planner F → Planner F
  pause_scheduler s = record s { scheduler_paused_flag = true }

  unfoldable pub resume_scheduler : Planner F → Planner F
  resume_scheduler s = record s { scheduler_paused_flag = false }

module _ (lib : ListLib) {F : Type 0} where
  unfoldable pub lock_process : String → ℤ → Planner F → Planner F
  unfolding create_esi_sexpecting_key obtain_esi_fd_by_esi_pid
  lock_process key pid s = record s {
    block_esi_by_console_flag = true;
    new_blocked_by_console_esis =
        lib.list_add s.new_blocked_by_console_esis
          (create_esi_sexpecting_key (obtain_esi_fd_by_esi_pid lib pid s) key);
  }

  unfoldable pub unlock_process : String → Planner F → Planner F
  unlock_process key s = record s {
    unlock_esi_by_console_flag = true;
    last_unlocked_by_console_keys = lib.list_add s.last_unlocked_by_console_keys key;
  }

  unfoldable pub kill_process : ℤ → Planner F → Planner F
  unfolding obtain_esi_fd_by_esi_pid
  kill_process pid s =
      let t = record s { killed_esi_flag = true } in
      let pfd = obtain_esi_fd_by_esi_pid lib pid s in
      if same_int pfd minus_one
      then t
      else record t { new_killed_esis = lib.list_add t.new_killed_esis pfd }

  -- The names that are printed of the ESIs that wait for the key, the last one first.
  unfoldable pub show_blocked_process : String → Planner F → Outcome (List ℤ)
  unfolding obtain_esi_information_by_id
  show_blocked_process resource s = lib.list_iterate s.esis_sexpecting_keys (ok []) (λ shown e. do
    names ← shown
    if same_key e.key resource
        then (do
          esi_inf ← deref (obtain_esi_information_by_id lib e.esi_fd s)
          ok (esi_inf.esi_numeric_name ∷ names))
        else ok names)

  unfoldable pub key_status : String → Planner F → Outcome (Planner F)
  unfolding sem_wait sem_post show_blocked_process
  key_status key s = do
    t ← sem_wait s
    let u = sem_post (record t { sent = ask_key_status key ∷ t.sent })
    shown ← show_blocked_process key u
    ok u

  unfoldable pub execute_console_command : Command → Planner F → Outcome (Planner F)
  unfolding pause_scheduler resume_scheduler lock_process unlock_process kill_process
      show_blocked_process key_status
  execute_console_command pausar s = ok (pause_scheduler s)
  execute_console_command continuar s = ok (resume_scheduler s)
  execute_console_command (bloquear key pid) s = ok (lock_process key pid s)
  execute_console_command (desbloquear key) s = ok (unlock_process key s)
  execute_console_command (listar key) s = do shown ← show_blocked_process key s; ok s
  execute_console_command (kill pid) s = ok (kill_process pid s)
  execute_console_command (status key) s = key_status key s
