-- ===== src/Wire/Confirmation.antt =====
-- instancia/coordinator_api.c and coordinador/connection/instance-connection.c: the configuration that
-- the coordinator sends to an instance which connects.
use tp_so_1c.Prelude.{
  ++-assoc, ++-nil, ℕ, ◌<◌, ◌≡◌, refl, sym, ap, ◌∙◌, subst, List, [], ◌∷◌, ◌++◌, length,
}
use tp_so_1c.Commons.{All}
use tp_so_1c.Wire.Bytes.{encode, decode}
use tp_so_1c.Wire.Chunk.{SocketLib, int_limit, Reader, and_then, give, chunk_recv, chunk_recv_list}
use tp_so_1c.Wire.RoundTrip.{
  Connected, Reads, Reads-end, Reads-chunk_recv, Reads-size, Reads-list, Unpacks, packed,
}
use tp_so_1c.Wire.Messages.{
  with_nul, StorageSetup, key_blocks, instance_send_confirmation, coordinator_api_receive_key,
  coordinator_api_handshake_receive_config,
}
use tp_so_1c.Wire.Exchange.{joined, send_blocks-Sent, Sendable, Carries, Reads-receive_key}

module _ (substring_until : List ℕ → ℕ → List ℕ) (net : SocketLib) (conn : Connected net) (fuel : ℕ)
    (enough : (s : net.Socket) → conn.interruptions s < fuel) where
  -- The bytes of a key in the list of an instance's keys.
  abbrev key_bytes : List ℕ → List ℕ
  key_bytes key = encode 8 (length (with_nul key)) ++ (with_nul key ++ [])

  joined-key_blocks : (keys : List (List ℕ)) → joined (key_blocks keys) ≡ packed key_bytes keys
  unfolding key_blocks
  joined-key_blocks [] = refl
  joined-key_blocks (key ∷ keys) =
      ap (λ l. encode 8 (length (with_nul key)) ++ (with_nul key ++ l)) (joined-key_blocks keys)
      ∙ ap (λ l. encode 8 (length (with_nul key)) ++ (l ++ packed key_bytes keys))
          (sym (++-nil (with_nul key)))
      ∙ sym
          (++-assoc (encode 8 (length (with_nul key))) (with_nul key ++ []) (packed key_bytes keys))

  All-Unpacks :
      (keys : List (List ℕ))
      → All Sendable keys
      → All
          (Unpacks net conn fuel enough key_bytes
            (coordinator_api_receive_key substring_until net fuel))
          keys
  All-Unpacks [] h = tt
  All-Unpacks (key ∷ keys) (k, h) =
      (Reads-receive_key substring_until net conn fuel enough key k, All-Unpacks keys h)

  confirmation-joined :
      (setup : StorageSetup) (keys : List (List ℕ))
      → encode 8 setup.entry_size
          ++ (encode 8 setup.total_entries ++ (encode 8 (length keys) ++ packed key_bytes keys))
        ≡ joined (
            (encode 8 setup.entry_size ++ encode 8 setup.total_entries ++ encode 8 (length keys))
            ∷ key_blocks keys)
  confirmation-joined setup keys =
      sym (++-assoc (e ++ t) n (packed key_bytes keys) ∙ ++-assoc e t (n ++ packed key_bytes keys))
      ∙ ap (λ l. ((e ++ t) ++ n) ++ l) (sym (joined-key_blocks keys))
    where
      e : List ℕ
      e = encode 8 setup.entry_size

      t : List ℕ
      t = encode 8 setup.total_entries

      n : List ℕ
      n = encode 8 (length keys)

  Reads-receive_config :
      (setup : StorageSetup) (keys : List (List ℕ))
      → setup.entry_size < int_limit
      → setup.total_entries < int_limit
      → length keys < int_limit
      → All Sendable keys
      → Reads net conn
          (coordinator_api_handshake_receive_config substring_until net fuel)
          (encode 8 setup.entry_size
            ++ (encode 8 setup.total_entries ++ (encode 8 (length keys) ++ packed key_bytes keys)))
          (setup, keys)
  unfolding coordinator_api_handshake_receive_config
  Reads-receive_config setup keys e t l k =
      Reads-size net conn (chunk_recv net fuel) (Reads-chunk_recv net conn fuel enough)
        setup.entry_size
        (λ entry_size. and_then net (chunk_recv net fuel 8) λ total_entries.
          and_then net keys_reader λ recoverable_keys. give net (
            record { total_entries = decode total_entries; entry_size = entry_size },
            recoverable_keys,
          ))
        _ (setup, keys) e
        (Reads-size net conn (chunk_recv net fuel) (Reads-chunk_recv net conn fuel enough)
          setup.total_entries
          (λ total_entries. and_then net keys_reader λ recoverable_keys. give net (
            record { total_entries = total_entries; entry_size = setup.entry_size },
            recoverable_keys,
          ))
          _ (setup, keys) t
          (Reads-end net conn keys_reader (λ recoverable_keys. (setup, recoverable_keys)) _ keys
            (Reads-list net conn fuel enough key_bytes
              (coordinator_api_receive_key substring_until net fuel) keys l (All-Unpacks keys k))))
    where
      keys_reader : Reader net (List (List ℕ))
      keys_reader = chunk_recv_list net fuel (coordinator_api_receive_key substring_until net fuel)

  -- There is a message such that a coordinator whose confirmation goes out has sent it, and an instance
  -- that gets it reads the same sizes and the keys to recover in the same order, and no byte more, if
  -- the sizes and the number of keys fit in an `int`, so do the sizes of the keys, which hold no NUL,
  -- and the calls of `recv` are interrupted less often than the fuel.
  pub confirmation_arrives :
      (setup : StorageSetup) (keys : List (List ℕ))
      → setup.entry_size < int_limit
      → setup.total_entries < int_limit
      → length keys < int_limit
      → All Sendable keys
      → (message : List ℕ) × Carries substring_until net conn fuel enough
          (instance_send_confirmation net setup keys)
          message
          (coordinator_api_handshake_receive_config substring_until net fuel)
          (setup, keys)
  unfolding instance_send_confirmation
  confirmation_arrives setup keys e t l k = (
    joined blocks,
    (
      (λ s. send_blocks-Sent net conn blocks s),
      subst
          (λ bs.
            Reads net conn (coordinator_api_handshake_receive_config substring_until net fuel) bs
              (setup, keys))
          (confirmation-joined setup keys) (Reads-receive_config setup keys e t l k),
    ),
  )
    where
      blocks : List (List ℕ)
      blocks =
          (encode 8 setup.entry_size ++ encode 8 setup.total_entries ++ encode 8 (length keys))
          ∷ key_blocks keys
