-- ===== src/Wire/Value.antt =====
-- coordinador/connection/instance-connection.c: the request of a key's value, the name of an instance
-- that connects, and its rejection.
use tp_so_1c.Prelude.{
  ℕ, ℤ, pos, same_int, List, [], ◌∷◌, ◌++◌, length, Option, none, some, Bool, true, false, ◌==◌,
  leb, if◌then◌else◌,
}
use tp_so_1c.Wire.Bytes.{encode, decode}
use tp_so_1c.Wire.Chunk.{SocketLib, Reader, and_then, give}
use tp_so_1c.Outcome.{Outcome, ok}
use tp_so_1c.Wire.Messages.{
  request_value, handshake_confirmation, op_code, retrieve_value, header_code, bits_int, with_nul,
  bool_byte, send_blocks, recv_once,
}

module _ (net : SocketLib) where
  unfoldable pub instance_send_confirmation_error : net.Socket → Bool × net.Socket
  unfolding send_blocks op_code
  instance_send_confirmation_error =
      send_blocks net
        ((encode 4 (op_code handshake_confirmation) ++ encode 1 (bool_byte false)) ∷ [])

  unfoldable pub instance_recv_name : Reader net (List ℕ)
  unfolding and_then recv_once
  instance_recv_name = and_then net (recv_once net 8) λ size. recv_once net (decode size)

  -- The blocks of the request.
  unfoldable pub send_value_request : List ℕ → net.Socket → Bool × net.Socket
  unfolding send_blocks op_code
  send_value_request key =
      send_blocks net
        (encode 4 (op_code request_value) ∷ encode 8 (length (with_nul key)) ∷ with_nul key ∷ [])

  -- The value by its status: NULL where it was replaced.
  unfoldable pub recv_value : ℤ → Reader net (Option (List ℕ))
  unfolding and_then give recv_once
  recv_value status =
      if same_int status (pos 1)
      then (and_then net (recv_once net 8) λ value_size.
          if leb (decode value_size) 0
          then (λ s. ok (none, s))
          else (and_then net (recv_once net (decode value_size)) λ value. give net (some value)))
      else if same_int status (pos 0)
      then give net none
      else (λ s. ok (none, s))

  unfoldable pub recv_value_reply : Reader net (Option (List ℕ))
  unfolding and_then recv_once recv_value header_code bits_int
  recv_value_reply = and_then net (recv_once net 4) λ response_op_code.
      if decode response_op_code == header_code retrieve_value
      then (and_then net (recv_once net 4) λ status. recv_value (bits_int (decode status)))
      else (λ s. ok (none, s))

  -- What follows the sending: none is false, and some none is true with NULL for the value.
  unfoldable pub after_request : Bool × net.Socket → Outcome (Option (Option (List ℕ)) × net.Socket)
  unfolding recv_value_reply
  after_request (false, t) = ok (none, t)
  after_request (true, t) = recv_value_reply t

  unfoldable pub instance_request_value : List ℕ → Reader net (Option (List ℕ))
  unfolding send_value_request after_request
  instance_request_value key s = after_request (send_value_request key s)
