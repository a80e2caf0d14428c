-- ===== src/Wire/KeyStatus.antt =====
-- planificador/consola.c and coordinador/connection/scheduler-connection.c: the status of a key, which the
-- console asks the coordinator for.
use tp_so_1c.Prelude.{
  ℕ, ◌+◌, ℤ, pos, negsuc, same_int, List, [], ◌∷◌, length, Option, none, some, Bool, true, false,
  if◌then◌else◌,
}
use tp_so_1c.Outcome.{Outcome, ok, crash, ◌>>=◌}
use tp_so_1c.Wire.Bytes.{encode, decode, c_string}
use tp_so_1c.Wire.Chunk.{SocketLib, Reader, and_then, give}
use tp_so_1c.Wire.Package.{
  PackageStatus, create_package, add_content, add_content_variable, build_package,
  send_serialized_package,
}
use tp_so_1c.Wire.Messages.{int_bits, bits_int, with_nul, send_blocks, recv_once}
use tp_so_1c.Wire.Deserializer.{recv_package, recv_package_variable}

abbrev pub protocol_pc_key_status : ℕ
protocol_pc_key_status = 27

abbrev pub protocol_cp_key_status : ℕ
protocol_cp_key_status = 28

-- An instance of the key table: its name, whether its descriptor is not DISCONNECTED, and what
-- instance_request_value gives, where none is false.
pub record FoundInstance : Type 0 where
  pub name : List ℕ
  pub connected : Bool
  pub requested : Option (Option (List ℕ))

-- What the coordinator finds, with a value that may be NULL.
pub data KeyStatus : Type 0 where
  key_instance_disconnected : List ℕ → KeyStatus
  key_not_exist : KeyStatus
  key_uninitialized : KeyStatus
  key_initialized : List ℕ → Option (List ℕ) → KeyStatus

unfoldable pub found_status : FoundInstance → KeyStatus
found_status i =
    if i.connected
    then elim i.requested [
      | none ↦ key_instance_disconnected i.name
      | some value ↦ key_initialized i.name value
    ]
    else key_instance_disconnected i.name

-- From the answers of key_table_is_new and key_table_get_instance.
unfoldable pub key_status_of : Bool → Option FoundInstance → KeyStatus
unfolding found_status
key_status_of is_new found =
    if is_new
    then key_uninitialized
    else elim found [ none ↦ key_not_exist | some i ↦ found_status i ]

-- The blocks of the state and of the instance's name.
unfoldable pub status_blocks : KeyStatus → List (List ℕ)
unfolding int_bits
status_blocks (key_instance_disconnected name) =
    encode 4 (int_bits (negsuc 1)) ∷ encode 8 (length (with_nul name)) ∷ with_nul name ∷ []
status_blocks key_not_exist = encode 4 (int_bits (negsuc 0)) ∷ []
status_blocks key_uninitialized = encode 4 (int_bits (pos 0)) ∷ []
status_blocks (key_initialized name value) =
    encode 4 (int_bits (pos 1)) ∷ encode 8 (length (with_nul name)) ∷ with_nul name ∷ []

-- What the console prints.
pub data Printed : Type 0 where
  reception_error : Printed
  instance_is_disconnected : List ℕ → Printed
  does_not_exist : Printed
  is_not_assigned : Printed
  value_and_instance : List ℕ → List ℕ → Printed
  nothing : Printed

module _ (net : SocketLib) where
  -- strlen reads the value, so that it must not be NULL.
  unfoldable pub send_key_value : Option (List ℕ) → net.Socket → Outcome (Bool × net.Socket)
  unfolding send_blocks
  send_key_value none t = crash
  send_key_value (some value) t = ok (
      send_blocks net
        (encode 8 (length (with_nul (c_string value))) ∷ with_nul (c_string value) ∷ []) t)

  -- The last operand of `&&`.
  unfoldable pub last_block : KeyStatus → Bool × net.Socket → Outcome (Bool × net.Socket)
  unfolding send_key_value
  last_block _ (false, t) = ok (false, t)
  last_block (key_initialized name value) (true, t) = send_key_value value t
  last_block _ (true, t) = ok (true, t)

  unfoldable pub send_key_status : KeyStatus → net.Socket → Outcome (Bool × net.Socket)
  unfolding send_blocks status_blocks last_block
  send_key_status status t =
      last_block status (send_blocks net (encode 4 protocol_cp_key_status ∷ status_blocks status) t)

  unfoldable pub after_key :
      (List ℕ → KeyStatus) → Option (List ℕ) × net.Socket → Outcome (Bool × net.Socket)
  unfolding send_key_status
  after_key status_of (none, t) = ok (false, t)
  after_key status_of (some key, t) = send_key_status (status_of (c_string key)) t

  -- `status_of` is `key_status_of` with what the key table has for a key.
  unfoldable pub scheduler_send_key_status :
      (List ℕ → KeyStatus) → net.Socket → Outcome (Bool × net.Socket)
  unfolding and_then recv_once after_key
  scheduler_send_key_status status_of s = do
    r ← and_then net (recv_once net 8) (λ key_size. recv_once net (decode key_size)) s
    after_key status_of r

  -- `fuel` bounds the calls of `send`; a NULL package is sent as such.
  unfoldable pub send_key_to_coordinator :
      ℕ → List ℕ → net.Socket → Outcome (PackageStatus × net.Socket)
  unfolding create_package add_content add_content_variable build_package send_serialized_package
  send_key_to_coordinator fuel key s = do
    p ←
        add_content (create_package (4 + 8 + length (with_nul key)))
          (encode 4 protocol_pc_key_status)
    q ← add_content_variable p (with_nul key)
    elim (build_package q) [ none ↦ crash | some bytes ↦ send_serialized_package net fuel bytes s ]

  module _ (held : ℕ → List ℕ) where
    -- The switch on the state.
    unfoldable pub print_key_status : ℤ → Reader net Printed
    unfolding and_then give recv_package_variable c_string
    print_key_status key_state =
        if same_int key_state (negsuc 1)
        then (and_then net (recv_package_variable net held)
            λ name. give net (instance_is_disconnected (c_string name.1)))
        else if same_int key_state (negsuc 0)
        then give net does_not_exist
        else if same_int key_state (pos 0)
        then give net is_not_assigned
        else if same_int key_state (pos 1)
        then (and_then net (recv_package_variable net held) λ name.
            and_then net (recv_package_variable net held)
              λ value. give net (value_and_instance (c_string value.1) (c_string name.1)))
        else give net nothing

    unfoldable pub receive_and_print_key_status : Reader net Printed
    unfolding and_then give recv_package bits_int print_key_status
    receive_and_print_key_status = and_then net (recv_package net held 4) λ state.
        if same_int state.0 (pos 0)
        then give net reception_error
        else print_key_status (bits_int (decode state.1))
