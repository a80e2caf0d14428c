-- ===== src/Esi/Operation.antt =====
-- esi/esi.c and coordinador/connection/esi-connection.c: the operation that a line of a script asks for,
-- and its message.
use tp_so_1c.Prelude.{ℕ, ◌+◌, List, length, Option, none, ◌==◌, if◌then◌else◌}
use tp_so_1c.Outcome.{Outcome, ok, ◌>>=◌}
use tp_so_1c.Wire.Bytes.{encode, decode, c_string}
use tp_so_1c.Wire.Chunk.{SocketLib, Reader, and_then, give}
use tp_so_1c.Wire.Package.{create_package, add_content, add_content_variable, build_package}
use tp_so_1c.Wire.Messages.{with_nul, recv_once}

-- What `parse` makes of a valid line.
pub data Operation : Type 0 where
  get : List ℕ → Operation
  set : List ℕ → List ℕ → Operation
  store : List ℕ → Operation

-- The values of protocol_id that an operation begins with.
abbrev pub protocol_ec_set : ℕ
protocol_ec_set = 4

abbrev pub protocol_ec_get : ℕ
protocol_ec_get = 7

abbrev pub protocol_ec_store : ℕ
protocol_ec_store = 22

-- The package of an operation on a key alone.
unfoldable pub key_package : ℕ → List ℕ → Outcome (Option (List ℕ))
unfolding create_package add_content add_content_variable build_package
key_package operation key = do
  p ← add_content (create_package (4 + 8 + length (with_nul key))) (encode 4 operation)
  q ← add_content_variable p (with_nul key)
  ok (build_package q)

unfoldable pub set_package : List ℕ → List ℕ → Outcome (Option (List ℕ))
unfolding create_package add_content add_content_variable build_package
set_package key value = do
  p ←
      add_content (create_package (4 + 8 + length (with_nul key) + 8 + length (with_nul value)))
        (encode 4 protocol_ec_set)
  q ← add_content_variable p (with_nul key)
  r ← add_content_variable q (with_nul value)
  ok (build_package r)

-- A valid line's package: none is a NULL.
unfoldable pub obtain_package : Operation → Outcome (Option (List ℕ))
unfolding key_package set_package
obtain_package (get key) = key_package protocol_ec_get key
obtain_package (set key value) = set_package key value
obtain_package (store key) = key_package protocol_ec_store key

-- The coordinator's side.
module _ (net : SocketLib) where
  -- The size of a string and the string.
  unfoldable pub recv_string : Reader net (List ℕ)
  unfolding and_then recv_once
  recv_string = and_then net (recv_once net 8) λ size. recv_once net (decode size)

  unfoldable pub esi_recv_get_args : Reader net Operation
  unfolding and_then give recv_string c_string
  esi_recv_get_args = and_then net recv_string λ key. give net (get (c_string key))

  unfoldable pub esi_recv_set_args : Reader net Operation
  unfolding and_then give recv_string c_string
  esi_recv_set_args =
      and_then net recv_string
        λ key. and_then net recv_string λ value. give net (set (c_string key) (c_string value))

  unfoldable pub esi_recv_store_args : Reader net Operation
  unfolding and_then give recv_string c_string
  esi_recv_store_args = and_then net recv_string λ key. give net (store (c_string key))

  unfoldable pub esi_recv_args : ℕ → Reader net Operation
  unfolding esi_recv_get_args esi_recv_set_args esi_recv_store_args
  esi_recv_args op_id s =
      if op_id == protocol_ec_get
      then esi_recv_get_args s
      else if op_id == protocol_ec_set
      then esi_recv_set_args s
      else if op_id == protocol_ec_store
      then esi_recv_store_args s
      else ok (none, s)

  unfoldable pub esi_recv_operation : Reader net Operation
  unfolding and_then recv_once esi_recv_args
  esi_recv_operation = and_then net (recv_once net 4) λ op_id. esi_recv_args (decode op_id)
