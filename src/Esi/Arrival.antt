-- ===== src/Esi/Arrival.antt =====
-- esi/esi.c and coordinador/connection/esi-connection.c: an operation on its way to the coordinator.
use tp_so_1c.Prelude.{
  ++-assoc, ++-nil, take-whole, ℕ, zero, suc, ◌+◌, ◌-◌, ◌<◌, ◌≡◌, refl, sym, ap, ◌∙◌, subst, arith,
  List, [], ◌++◌, length, length-drop, take, drop, take-append-drop, some, ltb, leb, Bool-cases,
  inl, inr, true,
}
use tp_so_1c.Outcome.{ok}
use tp_so_1c.Wire.Bytes.{encode, decode, values, length-encode, decode-encode, values_4, c_string}
use tp_so_1c.Wire.Chunk.{SocketLib, int_limit, and_then, give}
use tp_so_1c.Wire.RoundTrip.{Connected, Reads, Reads-give, Reads-fixed, Reads-sized}
use tp_so_1c.Wire.Package.{
  Package, send_success, create_package, add_content, add_content_variable, check_package,
  build_package, check_sent, send_serialized_package,
}
use tp_so_1c.Wire.Messages.{with_nul, recv_once}
use tp_so_1c.Wire.Exchange.{c_string-with_nul, Sendable}
use tp_so_1c.Wire.Reply.{Reads-recv_once}
use tp_so_1c.Esi.Operation.{
  Operation, get, set, store, protocol_ec_get, protocol_ec_set, protocol_ec_store, key_package,
  set_package, obtain_package, recv_string, esi_recv_get_args, esi_recv_set_args,
  esi_recv_store_args, esi_recv_args, esi_recv_operation,
}

-- Content that fits in the rest of the buffer.
add_content-fits :
    (p : Package) (bs : List ℕ) (n : ℕ)
    → p.remaining_load ≡ length bs + n
    → add_content p bs ≡ ok (record p { load = p.load ++ bs; remaining_load = n })
unfolding add_content
add_content-fits p bs n h =
    let rest : p.remaining_load - length bs ≡ n = omega (arith, h) in
    let fits : leb (length bs) p.remaining_load ≡ true = ground (arith, h) in rw fits (rw rest refl)

add_content_variable-fits :
    (p : Package) (bs : List ℕ) (n : ℕ)
    → p.remaining_load ≡ 8 + length bs + n
    → add_content_variable p bs
      ≡ ok (record p { load = (p.load ++ encode 8 (length bs)) ++ bs; remaining_load = n })
unfolding add_content_variable
add_content_variable-fits p bs n h =
    rw
      (add_content-fits p (encode 8 (length bs)) (length bs + n)
        (omega (arith, h, length-encode 8 (length bs))))
      (add_content-fits
        (record p { load = p.load ++ encode 8 (length bs); remaining_load = length bs + n }) bs n
        refl)

-- A string as a message has it, with what follows.
abbrev field : List ℕ → List ℕ → List ℕ
field string rest = encode 8 (length string) ++ (string ++ rest)

++-field :
    (xs string rest : List ℕ)
    → ((xs ++ encode 8 (length string)) ++ string) ++ rest ≡ xs ++ field string rest
++-field xs string rest =
    ++-assoc (xs ++ encode 8 (length string)) string rest
    ∙ ++-assoc xs (encode 8 (length string)) (string ++ rest)

key_package-eq :
    (operation : ℕ) (key : List ℕ)
    → key_package operation key ≡ ok (some (encode 4 operation ++ field (with_nul key) []))
unfolding key_package create_package build_package check_package
key_package-eq operation key =
    rw
      (
        add_content-fits (create_package (4 + 8 + length (with_nul key))) (encode 4 operation)
            (8 + length (with_nul key)) (omega (arith, length-encode 4 operation)),
        add_content_variable-fits
            (record {
              load = encode 4 operation;
              size = 12 + length (with_nul key);
              remaining_load = 8 + length (with_nul key);
            })
            (with_nul key) 0 (omega arith),
      )
      (ap (λ l. ok (some l))
        (sym (++-nil ((encode 4 operation ++ encode 8 (length (with_nul key))) ++ with_nul key))
          ∙ ++-field (encode 4 operation) (with_nul key) []))

set_package-eq :
    (key value : List ℕ)
    → set_package key value
      ≡ ok (some (encode 4 protocol_ec_set ++ field (with_nul key) (field (with_nul value) [])))
unfolding set_package create_package build_package check_package
set_package-eq key value =
    rw
      (
        add_content-fits (create_package n) (encode 4 protocol_ec_set) (8 + k + 8 + v)
            (omega (arith, length-encode 4 protocol_ec_set)),
        add_content_variable-fits
            (record { load = encode 4 protocol_ec_set; size = n; remaining_load = 8 + k + 8 + v })
            (with_nul key) (8 + v) (omega arith),
        add_content_variable-fits (record { load = with_key; size = n; remaining_load = 8 + v })
            (with_nul value) 0 (omega arith),
      )
      (ap (λ l. ok (some l))
        (sym (++-nil ((with_key ++ encode 8 v) ++ with_nul value))
          ∙ ++-field with_key (with_nul value) []
          ∙ ++-field (encode 4 protocol_ec_set) (with_nul key) (field (with_nul value) [])))
  where
    k : ℕ
    k = length (with_nul key)

    v : ℕ
    v = length (with_nul value)

    n : ℕ
    n = 12 + k + 8 + v

    with_key : List ℕ
    with_key = (encode 4 protocol_ec_set ++ encode 8 k) ++ with_nul key

-- The bytes of an operation, and that its strings can be sent.
abbrev pub message : Operation → List ℕ
message (get key) = encode 4 protocol_ec_get ++ field (with_nul key) []
message (set key value) =
    encode 4 protocol_ec_set ++ field (with_nul key) (field (with_nul value) [])
message (store key) = encode 4 protocol_ec_store ++ field (with_nul key) []

abbrev pub Fits : Operation → Type 0
Fits (get key) = Sendable key
Fits (set key value) = Sendable key × Sendable value
Fits (store key) = Sendable key

obtain_package-eq : (o : Operation) → obtain_package o ≡ ok (some (message o))
unfolding obtain_package
obtain_package-eq (get key) = key_package-eq protocol_ec_get key
obtain_package-eq (set key value) = set_package-eq key value
obtain_package-eq (store key) = key_package-eq protocol_ec_store key

module _ (net : SocketLib) (conn : Connected net) where
  send_serialized_package-whole :
      (fuel : ℕ) (bs : List ℕ) (s : net.Socket)
      → length bs < fuel
      → (t : net.Socket) × send_serialized_package net fuel bs s ≡ ok (send_success, t)
        × conn.outgoing t ≡ conn.outgoing s ++ bs
  unfolding send_serialized_package check_sent
  send_serialized_package-whole zero bs s h = elim h [ ]
  send_serialized_package-whole (suc fuel) bs s h =
      let (k, t, q, le, positive, out) = conn.sends bs s in
      elim (Bool-cases (ltb k (length bs))) [
        | inl e ↦
            let (u, r, all) =
              send_serialized_package-whole fuel (drop k bs) t
                (ground (arith, h, length-drop k bs, positive)) in
            (
              u,
              ap (check_sent net bs (send_serialized_package net fuel)) q ∙ rw e r,
              all
                  ∙ ap (λ l. l ++ drop k bs) out
                  ∙ ++-assoc (conn.outgoing s) (take k bs) (drop k bs)
                  ∙ ap (λ l. conn.outgoing s ++ l) (take-append-drop k bs),
            )
        | inr e ↦ (
          t,
          ap (check_sent net bs (send_serialized_package net fuel)) q ∙ rw e refl,
          out ∙ ap (λ l. conn.outgoing s ++ l) (take-whole k bs (ground arith)),
        )
      ]

  -- No signal interrupts `recv`.
  module _ (never : (s : net.Socket) → conn.interruptions s ≡ 0) where
    gets : (bs : List ℕ) → length bs < int_limit → Reads net conn (recv_once net (length bs)) bs bs
    gets bs h = Reads-recv_once net conn never bs h

    Reads-args :
        (o : Operation) (op_id : ℕ) (cs : List ℕ)
        → op_id < values 4
        → Reads net conn (esi_recv_args net op_id) cs o
        → Reads net conn (esi_recv_operation net) (encode 4 op_id ++ cs) o
    unfolding esi_recv_operation
    Reads-args o op_id cs h k =
        Reads-fixed net conn (recv_once net) gets 4 op_id (λ x. esi_recv_args net (decode x)) cs o
          (omega arith)
          (subst (λ n. Reads net conn (esi_recv_args net n) cs o) (sym (decode-encode 4 op_id h)) k)

    Reads-key :
        (f : List ℕ → Operation) (key : List ℕ)
        → Sendable key
        → Reads net conn
            (and_then net (recv_string net) λ k. give net (f (c_string k)))
            (field (with_nul key) [])
            (f key)
    unfolding recv_string
    Reads-key f key k =
        subst
          (λ x.
            Reads net conn (and_then net (recv_string net) λ y. give net (f (c_string y)))
              (field (with_nul key) []) (f x))
          (c_string-with_nul key k.0)
          (Reads-sized net conn (recv_once net) gets (with_nul key) []
            (λ y. give net (f (c_string y))) (f (c_string (with_nul key))) k.1
            (Reads-give net conn (f (c_string (with_nul key)))))

    Reads-message : (o : Operation) → Fits o → Reads net conn (esi_recv_operation net) (message o) o
    unfolding esi_recv_args esi_recv_get_args esi_recv_set_args esi_recv_store_args recv_string
    Reads-message (get key) h =
        Reads-args (get key) protocol_ec_get _ (values_4 7 (omega arith))
          (Reads-key (λ k. get k) key h)
    Reads-message (set key value) (k, v) =
        Reads-args (set key value) protocol_ec_set _ (values_4 4 (omega arith)) (
          Reads-sized net conn (recv_once net) gets (with_nul key) (field (with_nul value) [])
            (λ x. and_then net (recv_string net) λ y. give net (set (c_string x) (c_string y)))
            (set key value) k.1
            (subst
              (λ x.
                Reads net conn (and_then net (recv_string net) λ y. give net (set x (c_string y)))
                  (field (with_nul value) []) (set key value))
              (sym (c_string-with_nul key k.0)) (Reads-key (λ y. set key y) value v)))
    Reads-message (store key) h =
        Reads-args (store key) protocol_ec_store _ (values_4 22 (omega arith))
          (Reads-key (λ k. store k) key h)

    -- The package of an operation is always complete, send_serialized_package sends all of it however
    -- little each `send` takes, and where these bytes come in the coordinator reads that operation and
    -- no byte more, if the strings hold no NUL, their sizes fit in an `int`, and no signal interrupts
    -- `recv`.
    pub operation_arrives :
        (o : Operation)
        → Fits o
        → (bytes : List ℕ) × (obtain_package o ≡ ok (some bytes)
            × ((s : net.Socket)
                → (t : net.Socket) × send_serialized_package net (suc (length bytes)) bytes s
                    ≡ ok (send_success, t)
                  × conn.outgoing t ≡ conn.outgoing s ++ bytes)
            × Reads net conn (esi_recv_operation net) bytes o)
    operation_arrives o h = (
      message o,
      (
        obtain_package-eq o,
        (λ s. send_serialized_package-whole (suc (length (message o))) (message o) s (omega arith)),
        Reads-message o h,
      ),
    )
