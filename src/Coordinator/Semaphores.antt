-- ===== src/Coordinator/Semaphores.antt =====
-- coordinador/connection/scheduler-connection.c: the thread that listens to the scheduler and those that
-- wait for an answer, which share one socket by two semaphores.
use tp_so_1c.Prelude.{ℕ, suc, ◌+◌, ◌≤◌, ◌≡◌, refl, ap, arith}
use tp_so_1c.Coordinator.SchedulerConnection.{SchedulerCode, pc_other}

-- Where the thread of handle_scheduler_connection is: at sem_wait, at the reception of a code, or
-- answering a request of its own.
pub data Listener : Type 0 where
  waits_for_turn : Listener
  receives_code : Listener
  sends_key_status : Listener

-- The threads that wait in scheduler_pending_protocol_recv, and those that have taken an answer from
-- there and not posted yet; these may read the socket too.
pub record Exchange : Type 0 where
  pub protocol_recv_sem : ℕ
  pub pending_protocol_sem : ℕ
  pub pending_protocol : SchedulerCode
  pub listener : Listener
  pub asking : ℕ
  pub answered : ℕ

-- After sem_init.
abbrev pub init_exchange : Exchange
init_exchange = record {
  protocol_recv_sem = 1;
  pending_protocol_sem = 0;
  pending_protocol = pc_other;
  listener = waits_for_turn;
  asking = 0;
  answered = 0;
}

pub data Step (e : Exchange) : Exchange → Type 0 where
  takes_turn :
      (n : ℕ)
      → e.listener ≡ waits_for_turn
      → e.protocol_recv_sem ≡ suc n
      → Step e (record e { protocol_recv_sem = n; listener = receives_code })
  receives_key_status :
      e.listener ≡ receives_code → Step e (record e { listener = sends_key_status })
  key_status_sent :
      e.listener ≡ sends_key_status
      → Step e (record e { protocol_recv_sem = suc e.protocol_recv_sem; listener = waits_for_turn })
  scheduler_pending_protocol_set :
      (protocol : SchedulerCode)
      → e.listener ≡ receives_code
      → Step e (record e {
        pending_protocol = protocol;
        pending_protocol_sem = suc e.pending_protocol_sem;
        listener = waits_for_turn;
      })
  asks : Step e (record e { asking = suc e.asking })
  scheduler_pending_protocol_recv :
      (n k : ℕ)
      → e.pending_protocol_sem ≡ suc n
      → e.asking ≡ suc k
      → Step e (record e { pending_protocol_sem = n; asking = k; answered = suc e.answered })
  posts :
      (k : ℕ)
      → e.answered ≡ suc k
      → Step e (record e { protocol_recv_sem = suc e.protocol_recv_sem; answered = k })

pub data Reach : Exchange → Type 0 where
  here : Reach init_exchange
  next : {e f : Exchange} → Reach e → Step e f → Reach f

-- Whether the listening thread has the turn.
abbrev pub has_turn : Listener → ℕ
has_turn waits_for_turn = 0
has_turn _ = 1

-- One turn for all.
abbrev Tokens : Exchange → Type 0
Tokens e = e.protocol_recv_sem + e.pending_protocol_sem + has_turn e.listener + e.answered ≡ 1

Step-Tokens : {e f : Exchange} → Step e f → Tokens e → Tokens f
Step-Tokens (takes_turn n l p) h = ground (arith, h, ap has_turn l)
Step-Tokens (receives_key_status l) h = ground (arith, h, ap has_turn l)
Step-Tokens (key_status_sent l) h = ground (arith, h, ap has_turn l)
Step-Tokens (scheduler_pending_protocol_set protocol l) h = ground (arith, h, ap has_turn l)
Step-Tokens asks h = h
Step-Tokens (scheduler_pending_protocol_recv n k p a) h = ground (arith, h)
Step-Tokens (posts k a) h = ground (arith, h)

Reach-Tokens : {e : Exchange} → Reach e → Tokens e
Reach-Tokens here = refl
Reach-Tokens (next r s) = Step-Tokens s (Reach-Tokens r)

-- After any steps of any number of threads, at most one thread is where it reads the scheduler's socket;
-- and where the listening thread is about to set the pending code, no thread has one that it has not
-- taken or not done with, so that no answer is overwritten.
pub one_reader :
    {e : Exchange}
    → Reach e
    → (has_turn e.listener + e.answered ≤ 1)
      × (e.listener ≡ receives_code → (e.pending_protocol_sem ≡ 0) × (e.answered ≡ 0))
one_reader {e} r = (
  omega (arith, Reach-Tokens r),
  λ l. (omega (arith, Reach-Tokens r, ap has_turn l), omega (arith, Reach-Tokens r, ap has_turn l)),
)
