-- ===== src/Wire/Exchange.antt =====
-- instancia/coordinator_api.c and coordinador/connection/instance-connection.c: what an instance reads
-- of what the coordinator sent, and the coordinator of what an instance sent.
use tp_so_1c.Prelude.{
  ++-assoc, ++-nil, take-whole, ℕ, ◌<◌, ◌≡◌, ◌≢◌, refl, sym, ap, ◌∙◌, subst, arith, List, [], ◌∷◌,
  ◌++◌, length, ◌==◌, Bool, true, false, not,
}
use tp_so_1c.Commons.{All}
use tp_so_1c.Wire.Bytes.{encode, decode, values, decode-encode, values_4, c_string}
use tp_so_1c.Wire.Chunk.{
  SocketLib, int_limit, Reader, and_then, give, chunk_recv, chunk_recv_variable,
}
use tp_so_1c.Wire.RoundTrip.{
  Connected, Reads, Reads-give, Reads-end, Reads-and_then, Reads-chunk_recv, Reads-fixed,
  Reads-sized,
}
use tp_so_1c.Wire.Messages.{
  set, store, op_code, with_nul, bool_byte, all_taken, go_on, send_blocks,
  instance_send_set_instruction, instance_send_store_instruction, key_value_create,
  coordinator_api_receive_header, coordinator_api_receive_set, coordinator_api_receive_key,
}

abbrev pub joined : List (List ℕ) → List ℕ
joined [] = []
joined (block ∷ blocks) = block ++ joined blocks

module _ (net : SocketLib) (conn : Connected net) where
  -- The run of the sender says it sent everything, and then it did.
  abbrev pub Sent : List ℕ → net.Socket → Bool × net.Socket → Type 0
  Sent bs s r = r.0 ≡ true → conn.outgoing r.1 ≡ conn.outgoing s ++ bs

  all_taken-Sent :
      (bs : List ℕ) (s : net.Socket) → Sent bs s (all_taken net (length bs) (net.send bs s))
  unfolding all_taken
  all_taken-Sent bs s =
      let (k, t, q, le, positive, out) = conn.sends bs s in
      subst (λ r. Sent bs s (all_taken net (length bs) r)) (sym q)
        λ h. out ∙ ap (λ l. conn.outgoing s ++ l) (take-whole k bs (ground arith))

  go_on-Sent :
      (bs cs : List ℕ) (s : net.Socket) (next : net.Socket → Bool × net.Socket)
      (r : Bool × net.Socket)
      → Sent bs s r
      → ((t : net.Socket) → Sent cs t (next t))
      → Sent (bs ++ cs) s (go_on net next r)
  unfolding go_on
  go_on-Sent bs cs s next (false, t) h k e = ground arith
  go_on-Sent bs cs s next (true, t) h k e =
      k t e ∙ ap (λ l. l ++ cs) (h refl) ∙ ++-assoc (conn.outgoing s) bs cs

  pub send_blocks-Sent :
      (blocks : List (List ℕ)) (s : net.Socket) → Sent (joined blocks) s (send_blocks net blocks s)
  unfolding send_blocks
  send_blocks-Sent [] s = λ h. sym (++-nil (conn.outgoing s))
  send_blocks-Sent (block ∷ blocks) s =
      go_on-Sent block (joined blocks) s (send_blocks net blocks)
        (all_taken net (length block) (net.send block s)) (all_taken-Sent block s)
        (send_blocks-Sent blocks)

-- A string holds no NUL.
abbrev pub NoNul : List ℕ → Type 0
NoNul string = All (λ b. b ≢ 0) string

pub c_string-with_nul : (string : List ℕ) → NoNul string → c_string (with_nul string) ≡ string
unfolding c_string
c_string-with_nul [] h = refl
c_string-with_nul (b ∷ bs) h = ground (arith, c_string-with_nul bs, h)

pub decode-bool : (b : Bool) → not (decode (encode 1 (bool_byte b)) == 0) ≡ b
unfolding decode encode
decode-bool true = refl
decode-bool false = refl

-- A string that a message can carry.
abbrev pub Sendable : List ℕ → Type 0
Sendable string = NoNul string × length (with_nul string) < int_limit

-- What a SET puts on the wire.
abbrev pub set_blocks : Bool → List ℕ → List ℕ → List (List ℕ)
set_blocks is_new key value =
    encode 4 1
    ∷ encode 1 (bool_byte is_new)
    ∷ encode 8 (length (with_nul key))
    ∷ with_nul key
    ∷ encode 8 (length (with_nul value))
    ∷ with_nul value
    ∷ []

module _ (substring_until : List ℕ → ℕ → List ℕ) (net : SocketLib) (conn : Connected net) (fuel : ℕ)
    (enough : (s : net.Socket) → conn.interruptions s < fuel) where
  -- The instance's loop reads the header and then what the instruction carries.
  abbrev pub receive_instruction : {A : Type 0} → Reader net A → Reader net (ℕ × A)
  receive_instruction m =
      and_then net (coordinator_api_receive_header substring_until net fuel)
        λ header. and_then net m λ x. give net (header, x)

  -- Where a send of the bytes returns true they have gone out, and where the bytes come in the reader
  -- takes them and no more and gives the value.
  abbrev pub Carries :
      {A : Type 0} → (net.Socket → Bool × net.Socket) → List ℕ → Reader net A → A → Type 0
  Carries {A = A} send message m a =
      ((s : net.Socket) → Sent net conn message s (send s)) × Reads net conn {A = A} m message a

  -- What the instance gets its bytes with.
  abbrev pub get : ℕ → Reader net (List ℕ)
  get = chunk_recv net fuel

  pub gets : (bs : List ℕ) → length bs < int_limit → Reads net conn (get (length bs)) bs bs
  gets = Reads-chunk_recv net conn fuel enough

  Reads-instruction :
      {A : Type 0} (m : Reader net A) (code : ℕ) (cs : List ℕ) (a : A)
      → code < values 4
      → Reads net conn m cs a
      → Reads net conn (receive_instruction m) (encode 4 code ++ cs) (code, a)
  unfolding coordinator_api_receive_header
  Reads-instruction m code cs a c h =
      Reads-and_then net conn (coordinator_api_receive_header substring_until net fuel)
        (λ header. and_then net m λ x. give net (header, x)) (encode 4 code) cs code (code, a)
        (subst
          (λ v.
            Reads net conn (coordinator_api_receive_header substring_until net fuel) (encode 4 code)
              v)
          (decode-encode 4 code c)
          (subst
            (λ l.
              Reads net conn (coordinator_api_receive_header substring_until net fuel) l
                (decode (encode 4 code)))
            (++-nil (encode 4 code))
            (Reads-fixed net conn get gets 4 code (λ header. give net (decode header)) []
              (decode (encode 4 code)) (omega arith)
              (Reads-give net conn (decode (encode 4 code))))))
        (Reads-end net conn m (λ x. (code, x)) cs a h)

  Reads-receive_set :
      (is_new : Bool) (key value : List ℕ)
      → length key < int_limit
      → length value < int_limit
      → Reads net conn
          (coordinator_api_receive_set substring_until net fuel)
          (joined (
            encode 1 (bool_byte is_new)
            ∷ encode 8 (length key)
            ∷ key
            ∷ encode 8 (length value)
            ∷ value
            ∷ []))
          (is_new, key_value_create substring_until net fuel key value)
  unfolding coordinator_api_receive_set chunk_recv_variable
  Reads-receive_set is_new key value k v =
      Reads-fixed net conn get gets 1 (bool_byte is_new) _ _ _ (omega arith) (
        Reads-sized net conn get gets key _ _ _ k (
          Reads-sized net conn get gets value [] _ _ v (
            subst
              (λ b.
                Reads net conn
                  (give net (
                    not (decode (encode 1 (bool_byte is_new)) == 0),
                    key_value_create substring_until net fuel key value,
                  ))
                  [] (b, key_value_create substring_until net fuel key value))
              (decode-bool is_new)
              (Reads-give net conn (
                not (decode (encode 1 (bool_byte is_new)) == 0),
                key_value_create substring_until net fuel key value,
              )))))

  key_value_create-with_nul :
      (key value : List ℕ)
      → NoNul key
      → NoNul value
      → key_value_create substring_until net fuel (with_nul key) (with_nul value)
        ≡ record { key = substring_until key 40; value = value; size = length value }
  unfolding key_value_create
  key_value_create-with_nul key value k v =
      rw (c_string-with_nul key k, c_string-with_nul value v) refl

  -- There is a message such that a coordinator whose SET goes out has sent it, and an instance that
  -- gets it reads a SET with the same flag and value, and the key cut at 40 characters, and no byte
  -- more, if the strings hold no NUL and their sizes fit in an `int`, and the calls of `recv` are
  -- interrupted less often than the fuel.
  pub set_instruction_arrives :
      (is_new : Bool) (key value : List ℕ)
      → Sendable key
      → Sendable value
      → (message : List ℕ) × Carries
          (instance_send_set_instruction net is_new key value)
          message
          (receive_instruction (coordinator_api_receive_set substring_until net fuel))
          (
            op_code set,
            (is_new, record { key = substring_until key 40; value = value; size = length value }),
          )
  unfolding instance_send_set_instruction op_code
  set_instruction_arrives is_new key value k v = (
    joined (set_blocks is_new key value),
    (
      (λ s. send_blocks-Sent net conn (set_blocks is_new key value) s),
      subst
          (λ key_value.
            Reads net conn
              (receive_instruction (coordinator_api_receive_set substring_until net fuel))
              (joined (set_blocks is_new key value)) (1, (is_new, key_value)))
          (key_value_create-with_nul key value k.0 v.0)
          (Reads-instruction (coordinator_api_receive_set substring_until net fuel) 1 _ _
            (values_4 1 (omega arith))
            (Reads-receive_set is_new (with_nul key) (with_nul value) k.1 v.1)),
    ),
  )

  pub Reads-receive_key :
      (key : List ℕ)
      → Sendable key
      → Reads net conn
          (coordinator_api_receive_key substring_until net fuel)
          (encode 8 (length (with_nul key)) ++ (with_nul key ++ []))
          key
  unfolding coordinator_api_receive_key chunk_recv_variable
  Reads-receive_key key k =
      subst
        (λ x.
          Reads net conn (coordinator_api_receive_key substring_until net fuel)
            (encode 8 (length (with_nul key)) ++ (with_nul key ++ [])) x)
        (c_string-with_nul key k.0)
        (Reads-sized net conn get gets (with_nul key) [] (λ x. give net (c_string x))
          (c_string (with_nul key)) k.1 (Reads-give net conn (c_string (with_nul key))))

  -- There is a message such that a coordinator whose STORE goes out has sent it, and an instance that
  -- gets it reads a STORE of the same key, and no byte more, if the key holds no NUL and its size fits
  -- in an `int`, and the calls of `recv` are interrupted less often than the fuel.
  pub store_instruction_arrives :
      (key : List ℕ)
      → Sendable key
      → (message : List ℕ) × Carries
          (instance_send_store_instruction net key)
          message
          (receive_instruction (coordinator_api_receive_key substring_until net fuel))
          (op_code store, key)
  unfolding instance_send_store_instruction op_code
  store_instruction_arrives key k = (
    joined (encode 4 2 ∷ encode 8 (length (with_nul key)) ∷ with_nul key ∷ []),
    (
      (λ s.
          send_blocks-Sent net conn
            (encode 4 2 ∷ encode 8 (length (with_nul key)) ∷ with_nul key ∷ []) s),
      Reads-instruction (coordinator_api_receive_key substring_until net fuel) 2 _ key
          (values_4 2 (omega arith)) (Reads-receive_key key k),
    ),
  )
