-- ===== src/Wire/Messages.antt =====
-- instancia/coordinator_api.c and coordinador/connection/instance-connection.c: the messages between
-- the coordinator and an instance.
use tp_so_1c.Prelude.{
  ℕ, ◌-◌, ℤ, pos, negsuc, List, [], ◌∷◌, ◌++◌, length, Option, none, some, Bool, true, false, not,
  ◌==◌, ltb, if◌then◌else◌,
}
use tp_so_1c.Outcome.{Outcome, ok}
use tp_so_1c.Wire.Bytes.{encode, decode, c_string}
use tp_so_1c.Wire.Chunk.{
  Chunk, chunk_send_and_destroy, chunk_create, chunk_add, chunk_add_variable, SocketLib, Reader,
  and_then, give, chunk_recv, chunk_recv_variable, chunk_recv_list, RecvAnswer, received,
}

-- request_coordinador, as far as the instances are sent it.
pub data RequestCoordinador : Type 0 where
  handshake_confirmation : RequestCoordinador
  set : RequestCoordinador
  store : RequestCoordinador
  compact : RequestCoordinador
  request_value : RequestCoordinador
  is_alive : RequestCoordinador
  kill : RequestCoordinador

unfoldable pub op_code : RequestCoordinador → ℕ
op_code handshake_confirmation = 0
op_code set = 1
op_code store = 2
op_code compact = 3
op_code request_value = 4
op_code is_alive = 5
op_code kill = 6

pub data RequestInstancia : Type 0 where
  handshake : RequestInstancia
  notify_status : RequestInstancia
  notify_store : RequestInstancia
  retrieve_value : RequestInstancia
  confirm_connection : RequestInstancia
  die : RequestInstancia

unfoldable pub header_code : RequestInstancia → ℕ
header_code handshake = 0
header_code notify_status = 1
header_code notify_store = 2
header_code retrieve_value = 3
header_code confirm_connection = 4
header_code die = 5

-- An `int` of four bytes, in two's complement.
unfoldable pub int_bits : ℤ → ℕ
int_bits (pos n) = n
int_bits (negsuc n) = 4294967295 - n

unfoldable pub bits_int : ℕ → ℤ
bits_int n = if ltb n 2147483648 then pos n else negsuc (4294967295 - n)

-- The characters of a string and its NUL.
abbrev pub with_nul : List ℕ → List ℕ
with_nul string = string ++ 0 ∷ []

abbrev pub bool_byte : Bool → ℕ
bool_byte b = if b then 1 else 0

pub record KeyValue : Type 0 where
  pub key : List ℕ
  pub value : List ℕ
  pub size : ℕ

-- The sizes that the coordinator assigns.
pub record StorageSetup : Type 0 where
  pub total_entries : ℕ
  pub entry_size : ℕ

unfoldable pub key_blocks : List (List ℕ) → List (List ℕ)
key_blocks [] = []
key_blocks (key ∷ keys) = encode 8 (length (with_nul key)) ∷ with_nul key ∷ key_blocks keys

module _ (net : SocketLib) where
  -- CHECK_SEND_WITH_SIZE: one call of `send`, which has to take everything.
  unfoldable pub all_taken : ℕ → Option ℕ × net.Socket → Bool × net.Socket
  all_taken block_size (none, t) = (false, t)
  all_taken block_size (some sent, t) = (sent == block_size, t)

  unfoldable pub go_on : (net.Socket → Bool × net.Socket) → Bool × net.Socket → Bool × net.Socket
  go_on next (false, t) = (false, t)
  go_on next (true, t) = next t

  -- The loop over the blocks of an instruction.
  unfoldable pub send_blocks : List (List ℕ) → net.Socket → Bool × net.Socket
  unfolding all_taken go_on
  send_blocks [] s = (true, s)
  send_blocks (block ∷ blocks) s =
      go_on (send_blocks blocks) (all_taken (length block) (net.send block s))

  -- `is_new` is the answer of key_table_is_new.
  unfoldable pub instance_send_set_instruction :
      Bool → List ℕ → List ℕ → net.Socket → Bool × net.Socket
  unfolding send_blocks op_code
  instance_send_set_instruction is_new key value = send_blocks (
      encode 4 (op_code set)
      ∷ encode 1 (bool_byte is_new)
      ∷ encode 8 (length (with_nul key))
      ∷ with_nul key
      ∷ encode 8 (length (with_nul value))
      ∷ with_nul value
      ∷ [])

  unfoldable pub instance_send_store_instruction : List ℕ → net.Socket → Bool × net.Socket
  unfolding send_blocks op_code
  instance_send_store_instruction key =
      send_blocks (encode 4 (op_code store) ∷ encode 8 (length (with_nul key)) ∷ with_nul key ∷ [])

  -- The header is one block; the keys are those of the instance in the key table.
  unfoldable pub instance_send_confirmation :
      StorageSetup → List (List ℕ) → net.Socket → Bool × net.Socket
  unfolding send_blocks key_blocks
  instance_send_confirmation setup key_list = send_blocks (
      (encode 8 setup.entry_size ++ encode 8 setup.total_entries ++ encode 8 (length key_list))
      ∷ key_blocks key_list)

  -- CHECK_RECV: one call of `recv`, which has to bring everything.
  unfoldable pub whole : ℕ → RecvAnswer × net.Socket → Outcome (Option (List ℕ) × net.Socket)
  whole size (received bs, t) = if length bs == size then ok (some bs, t) else ok (none, t)
  whole size (_, t) = ok (none, t)

  unfoldable pub recv_once : ℕ → Reader net (List ℕ)
  unfolding whole
  recv_once size s = whole size (net.recv size s)

  -- The status and the number of used entries, if the header and they arrive.
  unfoldable pub instance_recv_set_execution_status : Reader net (ℤ × ℕ)
  unfolding and_then give recv_once header_code bits_int
  instance_recv_set_execution_status = and_then net (recv_once 4) λ header.
      if decode header == header_code notify_status
      then (and_then net (recv_once 4) λ status.
          and_then net (recv_once 8) λ used. give net (bits_int (decode status), decode used))
      else λ s. ok (none, s)

  unfoldable pub instance_recv_store_execution_status : Reader net ℤ
  unfolding and_then give recv_once header_code bits_int
  instance_recv_store_execution_status = and_then net (recv_once 4) λ header.
      if decode header == header_code notify_store
      then (and_then net (recv_once 4) λ status. give net (bits_int (decode status)))
      else λ s. ok (none, s)

-- `substring_until` is string_substring_until of the commons: the first characters of a string.
module _ (substring_until : List ℕ → ℕ → List ℕ) (net : SocketLib) (fuel : ℕ) where
  unfoldable pub key_value_create : List ℕ → List ℕ → KeyValue
  unfolding c_string
  key_value_create key value = record {
    key = substring_until (c_string key) 40;
    value = c_string value;
    size = length (c_string value);
  }

  unfoldable pub coordinator_api_receive_header : Reader net ℕ
  unfolding and_then give chunk_recv
  coordinator_api_receive_header =
      and_then net (chunk_recv net fuel 4) λ header. give net (decode header)

  unfoldable pub coordinator_api_receive_set : Reader net (Bool × KeyValue)
  unfolding and_then give chunk_recv chunk_recv_variable key_value_create
  coordinator_api_receive_set = and_then net (chunk_recv net fuel 1) λ is_new.
      and_then net (chunk_recv_variable net fuel) λ key.
        and_then net (chunk_recv_variable net fuel)
          λ value. give net (not (decode is_new == 0), key_value_create key value)

  unfoldable pub coordinator_api_receive_key : Reader net (List ℕ)
  unfolding and_then give chunk_recv_variable c_string
  coordinator_api_receive_key =
      and_then net (chunk_recv_variable net fuel) λ key. give net (c_string key)

  unfoldable pub coordinator_api_handshake_receive_config :
      Reader net (StorageSetup × List (List ℕ))
  unfolding and_then give chunk_recv coordinator_api_receive_key chunk_recv_list
  coordinator_api_handshake_receive_config = and_then net (chunk_recv net fuel 8) λ entry_size.
      and_then net (chunk_recv net fuel 8) λ total_entries.
        and_then net (chunk_recv_list net fuel coordinator_api_receive_key) λ recoverable_keys.
          give net (
            record { total_entries = decode total_entries; entry_size = decode entry_size },
            recoverable_keys,
          )

unfoldable pub header_chunk : RequestInstancia → Chunk
unfolding chunk_create chunk_add header_code
header_chunk header = chunk_add chunk_create (encode 4 (header_code header))

-- The chunks that the coordinator_api_notify functions send.
unfoldable pub status_chunk : RequestInstancia → ℤ → Chunk
unfolding header_chunk chunk_add int_bits
status_chunk header op_result = chunk_add (header_chunk header) (encode 4 (int_bits op_result))

unfoldable pub set_chunk : ℕ → ℤ → Chunk
unfolding status_chunk chunk_add
set_chunk entries_used op_result =
    chunk_add (status_chunk notify_status op_result) (encode 8 entries_used)

unfoldable pub key_value_chunk : KeyValue → ℤ → Chunk
unfolding status_chunk chunk_add_variable
key_value_chunk key_value op_result =
    chunk_add_variable (status_chunk retrieve_value op_result) (with_nul key_value.value)

-- The functions send a chunk; none is API_ERROR.
module _ (net : SocketLib) (fuel : ℕ) where
  unfoldable pub coordinator_api_handshake_send_name : List ℕ → Reader net ℕ
  unfolding chunk_send_and_destroy chunk_add_variable chunk_create
  coordinator_api_handshake_send_name instance_name =
      chunk_send_and_destroy net fuel (chunk_add_variable chunk_create (with_nul instance_name))

  unfoldable pub coordinator_api_notify_header : RequestInstancia → Reader net ℕ
  unfolding chunk_send_and_destroy header_chunk
  coordinator_api_notify_header header = chunk_send_and_destroy net fuel (header_chunk header)

  unfoldable pub coordinator_api_notify_status : RequestInstancia → ℤ → Reader net ℕ
  unfolding chunk_send_and_destroy status_chunk
  coordinator_api_notify_status header op_result =
      chunk_send_and_destroy net fuel (status_chunk header op_result)

  unfoldable pub coordinator_api_notify_set : ℕ → ℤ → Reader net ℕ
  unfolding chunk_send_and_destroy set_chunk
  coordinator_api_notify_set entries_used op_result =
      chunk_send_and_destroy net fuel (set_chunk entries_used op_result)

  unfoldable pub coordinator_api_notify_key_value : KeyValue → ℤ → Reader net ℕ
  unfolding chunk_send_and_destroy key_value_chunk
  coordinator_api_notify_key_value key_value op_result =
      chunk_send_and_destroy net fuel (key_value_chunk key_value op_result)
