-- ===== src/Wire/Tests.antt =====
-- libs/chunker.c and the messages on it: runs on small inputs.
use tp_so_1c.Prelude.{
  ℕ, suc, minus_one, pos, none, ◌<◌, ◌≡◌, refl, sym, subst, Bool, arith, List, [], ◌∷◌, ◌++◌,
  length, some, take, true, false, if◌then◌else◌,
}
use tp_so_1c.Wire.Pipe.{Pipe, pipe, pipe-Connected}
use tp_so_1c.Outcome.{ok}
use tp_so_1c.Wire.Bytes.{encode, below, c_string}
use tp_so_1c.Wire.Chunk.{chunk_send}
use tp_so_1c.Wire.RoundTrip.{Reads, chunk_send-whole}
use tp_so_1c.Wire.Messages.{
  StorageSetup, KeyValue, with_nul, retrieve_value, coordinator_api_notify_set,
  coordinator_api_notify_key_value, coordinator_api_notify_status, instance_send_confirmation,
  coordinator_api_handshake_receive_config, instance_recv_set_execution_status, op_code, set, store,
  instance_send_set_instruction, instance_send_store_instruction, coordinator_api_receive_set,
  coordinator_api_receive_key,
}
use tp_so_1c.Wire.Confirmation.{confirmation_arrives}
use tp_so_1c.Wire.Reply.{set_reply_arrives}
use tp_so_1c.Wire.Exchange.{Sent}
use tp_so_1c.Wire.KeyStatus.{
  protocol_cp_key_status, KeyStatus, key_initialized, send_key_status, receive_and_print_key_status,
}
use tp_so_1c.Wire.StatusReply.{status_bytes, shown, key_status_arrives}
use tp_so_1c.Wire.ValueReply.{Replies, value_reply_arrives}
use tp_so_1c.Wire.Exchange.{
  Sendable, Carries, receive_instruction, set_instruction_arrives, store_instruction_arrives,
}

abbrev start : Pipe
start = record { signal = true; coming = []; gone = [] }

enough : (s : Pipe) → (if s.signal then 1 else 0) < 2
enough s = ground arith

chunk_send-whole_example :
    (t : Pipe) × (k : ℕ) × chunk_send (pipe true) 6 (1 ∷ 2 ∷ 3 ∷ 4 ∷ 5 ∷ []) start ≡ ok (some k, t)
    × t.gone ≡ 1 ∷ 2 ∷ 3 ∷ 4 ∷ 5 ∷ []
chunk_send-whole_example =
    chunk_send-whole (pipe true) (pipe-Connected true) 6 (1 ∷ 2 ∷ 3 ∷ 4 ∷ 5 ∷ []) start
      (omega arith)

abbrev key_a : List ℕ
key_a = 97 ∷ []

key_a-Sendable : Sendable key_a
key_a-Sendable = ((ground arith, tt), omega arith)

-- The first characters.
abbrev cut : List ℕ → ℕ → List ℕ
cut string n = take n string

set_instruction_arrives_example :
    (message : List ℕ) × Carries cut
      (pipe true)
      (pipe-Connected true)
      2
      enough
      (instance_send_set_instruction (pipe true) true key_a key_a)
      message
      (receive_instruction cut
        (pipe true)
        (pipe-Connected true)
        2
        enough
        (coordinator_api_receive_set cut (pipe true) 2))
      (op_code set, (true, record { key = cut key_a 40; value = key_a; size = 1 }))
set_instruction_arrives_example =
    set_instruction_arrives cut (pipe true) (pipe-Connected true) 2 enough true key_a key_a
      key_a-Sendable key_a-Sendable

store_instruction_arrives_example :
    (message : List ℕ) × Carries cut
      (pipe true)
      (pipe-Connected true)
      2
      enough
      (instance_send_store_instruction (pipe true) key_a)
      message
      (receive_instruction cut
        (pipe true)
        (pipe-Connected true)
        2
        enough
        (coordinator_api_receive_key cut (pipe true) 2))
      (op_code store, key_a)
store_instruction_arrives_example =
    store_instruction_arrives cut (pipe true) (pipe-Connected true) 2 enough key_a key_a-Sendable

abbrev setup : StorageSetup
setup = record { total_entries = 20; entry_size = 8 }

confirmation_arrives_example :
    (message : List ℕ) × Carries cut
      (pipe true)
      (pipe-Connected true)
      2
      enough
      (instance_send_confirmation (pipe true) setup (key_a ∷ key_a ∷ []))
      message
      (coordinator_api_handshake_receive_config cut (pipe true) 2)
      (setup, key_a ∷ key_a ∷ [])
confirmation_arrives_example =
    confirmation_arrives cut (pipe true) (pipe-Connected true) 2 enough setup (key_a ∷ key_a ∷ [])
      (omega arith) (omega arith) (omega arith) (key_a-Sendable, (key_a-Sendable, tt))

set_reply_arrives_example :
    (bytes : List ℕ) × (((s : Pipe)
        → (t : Pipe) × (k : ℕ) × coordinator_api_notify_set
              (pipe false)
              (suc (length bytes))
              3
              minus_one
              s
            ≡ ok (some k, t)
          × t.gone ≡ s.gone ++ bytes)
      × Reads
          (pipe false)
          (pipe-Connected false)
          (instance_recv_set_execution_status (pipe false))
          bytes
          (minus_one, 3))
set_reply_arrives_example =
    set_reply_arrives (pipe false) (pipe-Connected false) (λ s. refl) minus_one 3 (omega arith)
      (below 3 (omega arith))

abbrev a_value : KeyValue
a_value = record { key = key_a; value = 98 ∷ 99 ∷ []; size = 2 }

value_reply_arrives_example :
    ((bytes : List ℕ) × Replies
        (pipe false)
        (pipe-Connected false)
        (λ s. refl)
        (λ bs. coordinator_api_notify_key_value (pipe false) (suc (length bs)) a_value (pos 1))
        bytes
        (some (with_nul a_value.value)))
    × ((bytes : List ℕ) × Replies
          (pipe false)
          (pipe-Connected false)
          (λ s. refl)
          (λ bs.
            coordinator_api_notify_status (pipe false) (suc (length bs)) retrieve_value (pos 0))
          bytes
          none)
value_reply_arrives_example =
    value_reply_arrives (pipe false) (pipe-Connected false) (λ s. refl) a_value (omega arith)

-- The key has the value "a" in an instance of that name.
abbrev a_status : KeyStatus
a_status = key_initialized key_a (some (with_nul key_a))

c_string-a : c_string (with_nul key_a) ≡ key_a
unfolding c_string
c_string-a = refl

key_status_arrives_example :
    ((s : Pipe)
      → (r : Bool × Pipe) × send_key_status (pipe false) a_status s ≡ ok r
        × Sent
            (pipe false)
            (pipe-Connected false)
            (encode 4 protocol_cp_key_status ++ status_bytes a_status)
            s
            r)
    × Reads
        (pipe false)
        (pipe-Connected false)
        (receive_and_print_key_status (pipe false) (λ _. []))
        (status_bytes a_status)
        (shown a_status)
key_status_arrives_example =
    key_status_arrives (pipe false) (pipe-Connected false) (λ s. refl) (λ _. []) a_status
      (key_a-Sendable, subst Sendable (sym c_string-a) key_a-Sendable)
