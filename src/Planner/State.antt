-- ===== src/Planner/State.antt =====
-- The global variables of planificador/planificador.c, and the records of planificador.h. A
-- `char*` that is not set is `none`. The counters of bursts start at 0 and only grow, so they are ℕ.
use tp_so_1c.Prelude.{ℕ, ℤ, minus_one, String, Bool, false, true, Option, none, List, []}

pub record KeyBlocker : Type 0 where
  pub key : String
  pub esi_id : ℤ

pub record EsiSexpectingKey : Type 0 where
  pub esi_fd : ℤ
  pub key : String

pub record EsiInformation (F : Type 0) : Type 0 where
  pub esi_id : ℤ
  pub esi_numeric_name : ℤ
  pub last_estimated_burst : F
  pub last_real_burst : ℕ
  pub waited_bursts : ℕ

pub data SchedulingAlgorithm : Type 0 where
  fifo sjfcd sjfsd hrrn : SchedulingAlgorithm

pub record Setup (F : Type 0) : Type 0 where
  pub scheduling_algorithm : SchedulingAlgorithm
  pub alpha : F
  pub initial_estimation : F
  pub blocked_keys : List String

-- What the scheduler sends: to the socket of an ESI, to the coordinator's, and the console's question.
pub data Message : Type 0 where
  exec : ℤ → Message
  key_is_blocked key_is_not_blocked : ℤ → Message
  key_blocked_by_executing_esi key_not_blocked_by_executing_esi : ℤ → Message
  key_blocked_succesfully key_unlocked_succesfully : ℤ → Message
  ask_key_status : String → Message

pub record Planner (F : Type 0) : Type 0 where
  pub locked_keys : List KeyBlocker
  pub esis_sexpecting_keys : List EsiSexpectingKey
  pub esi_bursts : List (EsiInformation F)
  pub new_blocked_by_console_esis : List EsiSexpectingKey
  pub new_killed_esis : List ℤ
  pub last_unlocked_by_console_keys : List String
  pub new_queue : List ℤ
  pub ready_queue : List ℤ
  pub execution_queue : List ℤ
  pub blocked_queue : List ℤ
  pub finished_queue : List ℤ
  pub finished_esi_flag : Bool
  pub new_esi_flag : Bool
  pub reschedule_flag : Bool
  pub update_blocked_esi_queue_flag : Bool
  pub killed_esi_flag : Bool
  pub scheduler_paused_flag : Bool
  pub block_esi_by_console_flag : Bool
  pub unlock_esi_by_console_flag : Bool
  pub connected_fds : List ℤ
  pub executing_esi : ℤ
  pub last_key_inquired : Option String
  pub key_to_unlock : Option String
  pub next_numeric_name : ℕ
  pub mutex_coordinador : ℕ
  pub sent : List Message
  pub send_results : List Bool

-- The five queues of the life of an ESI.
pub data QueueName : Type 0 where
  new ready execution blocked finished : QueueName

module _ {F : Type 0} where
  abbrev pub queue : QueueName → Planner F → List ℤ
  queue new s = s.new_queue
  queue ready s = s.ready_queue
  queue execution s = s.execution_queue
  queue blocked s = s.blocked_queue
  queue finished s = s.finished_queue

  abbrev pub set_queue : QueueName → List ℤ → Planner F → Planner F
  set_queue new l s = record s { new_queue = l }
  set_queue ready l s = record s { ready_queue = l }
  set_queue execution l s = record s { execution_queue = l }
  set_queue blocked l s = record s { blocked_queue = l }
  set_queue finished l s = record s { finished_queue = l }

  abbrev pub init_state : Planner F
  init_state = record {
    locked_keys = [];
    esis_sexpecting_keys = [];
    esi_bursts = [];
    new_blocked_by_console_esis = [];
    new_killed_esis = [];
    last_unlocked_by_console_keys = [];
    new_queue = [];
    ready_queue = [];
    execution_queue = [];
    blocked_queue = [];
    finished_queue = [];
    finished_esi_flag = false;
    new_esi_flag = false;
    reschedule_flag = true;
    update_blocked_esi_queue_flag = false;
    killed_esi_flag = false;
    scheduler_paused_flag = false;
    block_esi_by_console_flag = false;
    unlock_esi_by_console_flag = false;
    connected_fds = [];
    executing_esi = minus_one;
    last_key_inquired = none;
    key_to_unlock = none;
    next_numeric_name = 1;
    mutex_coordinador = 1;
    sent = [];
    send_results = [];
  }
