-- ===== src/Wire/ValueReply.antt =====
-- instancia/coordinator_api.c and coordinador/connection/instance-connection.c: the answer to the
-- request of a key's value.
use tp_so_1c.Prelude.{
  ++-assoc, ++-nil, ℕ, suc, ◌<◌, ◌≡◌, refl, sym, ap, ◌∙◌, subst, arith, List, [], ◌∷◌, ◌++◌, length,
  length-append, ℤ, pos, same_int, Option, none, some, leb, false,
}
use tp_so_1c.Outcome.{ok}
use tp_so_1c.Wire.Bytes.{encode, decode, values, decode-encode, values_4, below}
use tp_so_1c.Wire.Chunk.{
  SocketLib, int_limit, Reader, chunk_create, chunk_add, chunk_add_variable, chunk_build,
  chunk_send_and_destroy,
}
use tp_so_1c.Wire.RoundTrip.{Connected, Reads, Reads-give, Reads-end, Reads-fixed, chunk_send-whole}
use tp_so_1c.Wire.Messages.{
  KeyValue, with_nul, recv_once, header_code, int_bits, bits_int, retrieve_value, header_chunk,
  status_chunk, key_value_chunk, coordinator_api_notify_status, coordinator_api_notify_key_value,
}
use tp_so_1c.Wire.Reply.{Reads-recv_once}
use tp_so_1c.Wire.Value.{recv_value, recv_value_reply}

-- No signal interrupts `recv`.
module _ (net : SocketLib) (conn : Connected net)
    (never : (s : net.Socket) → conn.interruptions s ≡ 0) where
  -- The answer goes out whole, and where its bytes come in they are read as the value and no more.
  abbrev pub Replies : (List ℕ → Reader net ℕ) → List ℕ → Option (List ℕ) → Type 0
  Replies send bytes value =
      ((s : net.Socket)
        → (t : net.Socket) × (k : ℕ) × send bytes s ≡ ok (some k, t)
          × conn.outgoing t ≡ conn.outgoing s ++ bytes)
      × Reads net conn {A = Option (List ℕ)} (recv_value_reply net) bytes value

  Reads-reply :
      (status : ℤ) (cs : List ℕ) (value : Option (List ℕ))
      → int_bits status < values 4
      → bits_int (int_bits status) ≡ status
      → Reads net conn (recv_value net status) cs value
      → Reads net conn
          (recv_value_reply net)
          (encode 4 3 ++ (encode 4 (int_bits status) ++ cs))
          value
  unfolding recv_value_reply header_code
  Reads-reply status cs value h e r =
      Reads-fixed net conn (recv_once net) (Reads-recv_once net conn never) 4 3 _ _ value
        (omega arith)
        (rw (decode-encode 4 3 (values_4 3 (omega arith))) (
          Reads-fixed net conn (recv_once net) (Reads-recv_once net conn never) 4 (int_bits status)
            (λ bs. recv_value net (bits_int (decode bs))) cs value (omega arith)
            (subst (λ z. Reads net conn (recv_value net z) cs value)
              (sym (ap bits_int (decode-encode 4 (int_bits status) h) ∙ e)) r)))

  Reads-value :
      (bs : List ℕ)
      → 0 < length bs
      → length bs < int_limit
      → Reads net conn (recv_value net (pos 1)) (encode 8 (length bs) ++ bs) (some bs)
  unfolding recv_value same_int
  Reads-value bs some_byte h =
      Reads-fixed net conn (recv_once net) (Reads-recv_once net conn never) 8 (length bs) _ bs
        (some bs) (omega arith)
        (rw (decode-encode 8 (length bs) (below (length bs) h)) (
          rw not_empty (
            Reads-end net conn (recv_once net (length bs)) some bs bs
              (Reads-recv_once net conn never bs h))))
    where
      not_empty : leb (length bs) 0 ≡ false
      not_empty = ground (arith, some_byte)

  -- An instance's answer to the request of a value goes out whole, and where its bytes come in the
  -- coordinator reads it and no byte more: the value with its NUL where the key has one, and NULL
  -- where it was replaced, if the value holds fewer bytes than an `int` can count and no signal
  -- interrupts `recv`.
  pub value_reply_arrives :
      (key_value : KeyValue)
      → length (with_nul key_value.value) < int_limit
      → ((bytes : List ℕ) × Replies
            (λ bs. coordinator_api_notify_key_value net (suc (length bs)) key_value (pos 1))
            bytes
            (some (with_nul key_value.value)))
        × ((bytes : List ℕ) × Replies
              (λ bs. coordinator_api_notify_status net (suc (length bs)) retrieve_value (pos 0))
              bytes
              none)
  unfolding coordinator_api_notify_key_value coordinator_api_notify_status key_value_chunk
      status_chunk header_chunk chunk_create chunk_add chunk_add_variable chunk_build
      chunk_send_and_destroy header_code int_bits bits_int recv_value same_int
  value_reply_arrives key_value h = (
    (
      ((encode 4 3 ++ encode 4 1) ++ encode 8 (length value)) ++ value,
      (
        (λ s.
            chunk_send-whole net conn
              (suc (length (((encode 4 3 ++ encode 4 1) ++ encode 8 (length value)) ++ value)))
              (((encode 4 3 ++ encode 4 1) ++ encode 8 (length value)) ++ value) s (omega arith)),
        subst (λ bs. Reads net conn {A = Option (List ℕ)} (recv_value_reply net) bs (some value))
            (sym (
              ++-assoc (encode 4 3 ++ encode 4 1) (encode 8 (length value)) value
              ∙ ++-assoc (encode 4 3) (encode 4 1) (encode 8 (length value) ++ value)))
            (Reads-reply (pos 1) (encode 8 (length value) ++ value) (some value)
              (values_4 1 (omega arith)) refl
              (Reads-value value (omega (arith, length-append key_value.value (0 ∷ []))) h)),
      ),
    ),
    (
      encode 4 3 ++ encode 4 0,
      (
        (λ s.
            chunk_send-whole net conn (suc (length (encode 4 3 ++ encode 4 0)))
              (encode 4 3 ++ encode 4 0) s (omega arith)),
        subst (λ bs. Reads net conn {A = Option (List ℕ)} (recv_value_reply net) bs none)
            (ap (λ bs. encode 4 3 ++ bs) (++-nil (encode 4 0)))
            (Reads-reply (pos 0) [] none (values_4 0 (omega arith)) refl
              (Reads-give net conn none)),
      ),
    ),
  )
    where
      value : List ℕ
      value = with_nul key_value.value
