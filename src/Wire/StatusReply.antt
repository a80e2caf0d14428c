-- ===== src/Wire/StatusReply.antt =====
-- planificador/consola.c: what the console prints of a key, which the coordinator has sent.
use tp_so_1c.Prelude.{
  ++-assoc, ++-nil, ℕ, ◌<◌, ◌≡◌, refl, sym, ap, ◌∙◌, subst, arith, ℤ, pos, negsuc, same_int, List,
  [], ◌∷◌, ◌++◌, length, none, some, Bool, true, false, inl, inr,
}
use tp_so_1c.Outcome.{ok}
use tp_so_1c.Wire.Bytes.{encode, length-encode, decode-encode, values_4, below, c_string}
use tp_so_1c.Wire.Chunk.{SocketLib, int_limit, Reader, and_then, give}
use tp_so_1c.Wire.RoundTrip.{Connected, Reads, Reads-give, Reads-and_then}
use tp_so_1c.Wire.Messages.{int_bits, bits_int, with_nul, send_blocks}
use tp_so_1c.Wire.Exchange.{c_string-with_nul, Sendable, Sent, joined, send_blocks-Sent}
use tp_so_1c.Wire.Reply.{IsInt, bits_int-int_bits, int_bits-below}
use tp_so_1c.Wire.Deserializer.{recv_success, copied, recv_package, recv_package_variable}
use tp_so_1c.Wire.KeyStatus.{
  protocol_cp_key_status, KeyStatus, key_instance_disconnected, key_not_exist, key_uninitialized,
  key_initialized, status_blocks, Printed, instance_is_disconnected, does_not_exist,
  is_not_assigned, value_and_instance, send_key_value, last_block, send_key_status,
  print_key_status, receive_and_print_key_status,
}

-- A status whose strings a message can carry, with a value that is not NULL.
abbrev pub IsPrintable : KeyStatus → Type 0
IsPrintable (key_instance_disconnected name) = Sendable name
IsPrintable (key_initialized name none) = ⊥
IsPrintable (key_initialized name (some value)) = Sendable name × Sendable (c_string value)
IsPrintable _ = Unit {0}

-- What the console is to print.
abbrev pub shown : KeyStatus → Printed
shown (key_instance_disconnected name) = instance_is_disconnected name
shown key_not_exist = does_not_exist
shown key_uninitialized = is_not_assigned
shown (key_initialized name none) = is_not_assigned
shown (key_initialized name (some value)) = value_and_instance (c_string value) name

abbrev pub value_blocks : KeyStatus → List (List ℕ)
value_blocks (key_initialized name (some value)) =
    encode 8 (length (with_nul (c_string value))) ∷ with_nul (c_string value) ∷ []
value_blocks _ = []

-- The bytes after the code.
abbrev pub status_bytes : KeyStatus → List ℕ
status_bytes status = joined (status_blocks status) ++ joined (value_blocks status)

-- No signal interrupts `recv`.
module _ (net : SocketLib) (conn : Connected net)
    (never : (s : net.Socket) → conn.interruptions s ≡ 0) (held : ℕ → List ℕ) where
  Reads-recv_package :
      (bs : List ℕ)
      → length bs < int_limit
      → Reads net conn (recv_package net held (length bs)) bs (recv_success, bs)
  unfolding recv_package copied
  Reads-recv_package bs h s rest e =
      let r = conn.receives (length bs) bs rest s e refl in
      elim r.1 [
        | inl (q, i) ↦ (r.0, ap (copied net held (length bs)) q ∙ ground arith, i)
        | inr (q, i, w) ↦ absurd (omega (arith, w, never s))
      ]

  Reads-package :
      {A : Type 0} (w v : ℕ) (f : ℤ × List ℕ → Reader net A) (cs : List ℕ) (a : A)
      → w < int_limit
      → Reads net conn (f (recv_success, encode w v)) cs a
      → Reads net conn (and_then net (recv_package net held w) f) (encode w v ++ cs) a
  Reads-package w v f cs a h k =
      Reads-and_then net conn (recv_package net held w) f (encode w v) cs (recv_success, encode w v)
        a
        (subst
          (λ l. Reads net conn (recv_package net held l) (encode w v) (recv_success, encode w v))
          (length-encode w v)
          (Reads-recv_package (encode w v)
            (subst (λ l. l < int_limit) (sym (length-encode w v)) h)))
        k

  Reads-variable :
      (bs : List ℕ)
      → length bs < int_limit
      → Reads net conn
          (recv_package_variable net held)
          (encode 8 (length bs) ++ bs)
          (recv_success, bs)
  unfolding recv_package_variable same_int
  Reads-variable bs h =
      Reads-package 8 (length bs) _ bs (recv_success, bs) (omega arith)
        (subst (λ n. Reads net conn (recv_package net held n) bs (recv_success, bs))
          (sym (decode-encode 8 (length bs) (below (length bs) h))) (Reads-recv_package bs h))

  Reads-state :
      (z : ℤ) (cs : List ℕ) (p : Printed)
      → IsInt z
      → Reads net conn (print_key_status net held z) cs p
      → Reads net conn (receive_and_print_key_status net held) (encode 4 (int_bits z) ++ cs) p
  unfolding receive_and_print_key_status same_int
  Reads-state z cs p h k = Reads-package 4 (int_bits z) _ cs p (omega arith) (
      subst (λ n. Reads net conn (print_key_status net held n) cs p)
        (sym (
          ap bits_int (decode-encode 4 (int_bits z) (values_4 (int_bits z) (int_bits-below z h)))
          ∙ bits_int-int_bits z h))
        k)

  -- A string with what follows.
  Reads-string :
      (string : List ℕ) (f : List ℕ → Reader net Printed) (cs : List ℕ) (p : Printed)
      → Sendable string
      → Reads net conn (f string) cs p
      → Reads net conn
          (and_then net (recv_package_variable net held) λ r. f (c_string r.1))
          (encode 8 (length (with_nul string)) ++ (with_nul string ++ cs))
          p
  Reads-string string f cs p h k =
      subst
        (λ l.
          Reads net conn (and_then net (recv_package_variable net held) λ r. f (c_string r.1)) l p)
        (++-assoc (encode 8 (length (with_nul string))) (with_nul string) cs)
        (Reads-and_then net conn (recv_package_variable net held) (λ r. f (c_string r.1))
          (encode 8 (length (with_nul string)) ++ with_nul string) cs
          (recv_success, with_nul string) p (Reads-variable (with_nul string) h.1)
          (subst (λ x. Reads net conn (f x) cs p) (sym (c_string-with_nul string h.0)) k))

  Reads-whole :
      (bs : List ℕ) (p : Printed)
      → Reads net conn (receive_and_print_key_status net held) bs p
      → Reads net conn (receive_and_print_key_status net held) (bs ++ []) p
  Reads-whole bs p h =
      subst (λ l. Reads net conn (receive_and_print_key_status net held) l p) (sym (++-nil bs)) h

  -- The strings of a value and an instance, one after the other.
  side_by_side :
      (state size name rest : List ℕ)
      → (state ++ (size ++ (name ++ []))) ++ rest ≡ state ++ (size ++ (name ++ rest))
  side_by_side state size name rest =
      ++-assoc state (size ++ (name ++ [])) rest
      ∙ ap (λ l. state ++ l)
          (++-assoc size (name ++ []) rest
            ∙ ap (λ l. size ++ l) (ap (λ l. l ++ rest) (++-nil name)))

  Reads-status :
      (status : KeyStatus)
      → IsPrintable status
      → Reads net conn (receive_and_print_key_status net held) (status_bytes status) (shown status)
  unfolding status_blocks print_key_status same_int
  Reads-status (key_instance_disconnected name) h = Reads-whole _ _ (
      Reads-state (negsuc 1) _ _ (omega arith) (
        Reads-string name (λ x. give net (instance_is_disconnected x)) [] _ h
          (Reads-give net conn _)))
  Reads-status key_not_exist h =
      Reads-whole _ _ (Reads-state (negsuc 0) [] _ (omega arith) (Reads-give net conn _))
  Reads-status key_uninitialized h =
      Reads-whole _ _ (Reads-state (pos 0) [] _ (omega arith) (Reads-give net conn _))
  Reads-status (key_initialized name none) h = elim h [ ]
  Reads-status (key_initialized name (some value)) (n, v) =
      subst
        (λ l.
          Reads net conn (receive_and_print_key_status net held) l
            (value_and_instance (c_string value) name))
        (sym (
          side_by_side (encode 4 (int_bits (pos 1))) (encode 8 (length (with_nul name)))
            (with_nul name) _))
        (Reads-state (pos 1) _ _ (omega arith) (
          Reads-string name
            (λ x.
              and_then net (recv_package_variable net held)
                λ y. give net (value_and_instance (c_string y.1) x))
            _ _ n
            (Reads-string (c_string value) (λ y. give net (value_and_instance y name)) [] _ v
              (Reads-give net conn _))))

  last_block-Sent :
      (status : KeyStatus) (bs : List ℕ) (s : net.Socket) (r : Bool × net.Socket)
      → IsPrintable status
      → Sent net conn bs s r
      → (q : Bool × net.Socket) × last_block net status r ≡ ok q
        × Sent net conn (bs ++ joined (value_blocks status)) s q
  unfolding last_block send_key_value
  last_block-Sent status bs s (false, t) p h = ((false, t), refl, λ e. ground (arith, e))
  last_block-Sent (key_initialized name none) bs s (true, t) p h = elim p [ ]
  last_block-Sent (key_initialized name (some value)) bs s (true, t) p h = (
    send_blocks net (value_blocks (key_initialized name (some value))) t,
    refl,
    λ e.
        send_blocks-Sent net conn (value_blocks (key_initialized name (some value))) t e
        ∙ ap (λ l. l ++ joined (value_blocks (key_initialized name (some value)))) (h refl)
        ∙ ++-assoc (conn.outgoing s) bs _,
  )
  last_block-Sent (key_instance_disconnected name) bs s (true, t) p h =
      ((true, t), refl, λ e. h refl ∙ ap (λ l. conn.outgoing s ++ l) (sym (++-nil bs)))
  last_block-Sent key_not_exist bs s (true, t) p h =
      ((true, t), refl, λ e. h refl ∙ ap (λ l. conn.outgoing s ++ l) (sym (++-nil bs)))
  last_block-Sent key_uninitialized bs s (true, t) p h =
      ((true, t), refl, λ e. h refl ∙ ap (λ l. conn.outgoing s ++ l) (sym (++-nil bs)))

  send_key_status-Sent :
      (status : KeyStatus) (s : net.Socket)
      → IsPrintable status
      → (r : Bool × net.Socket) × send_key_status net status s ≡ ok r
        × Sent net conn (encode 4 protocol_cp_key_status ++ status_bytes status) s r
  unfolding send_key_status
  send_key_status-Sent status s h =
      let (q, e, sent) =
        last_block-Sent status (joined (encode 4 protocol_cp_key_status ∷ status_blocks status)) s
          (send_blocks net (encode 4 protocol_cp_key_status ∷ status_blocks status) s) h
          (send_blocks-Sent net conn (encode 4 protocol_cp_key_status ∷ status_blocks status) s) in
      (
        q,
        e,
        subst (λ l. Sent net conn l s q)
            (++-assoc (encode 4 protocol_cp_key_status) (joined (status_blocks status))
              (joined (value_blocks status)))
            sent,
      )

  -- Where the coordinator's sending of a key's status returns true, its code and the status have gone
  -- out, and where the bytes after the code come in the console reads them to the last one and prints
  -- what was found: the instance that is disconnected, that the key does not exist or has no instance,
  -- or the value and the instance. This holds if the strings hold no NUL and their sizes fit in an
  -- `int`, the value is not NULL, and no signal interrupts `recv`.
  pub key_status_arrives :
      (status : KeyStatus)
      → IsPrintable status
      → ((s : net.Socket)
          → (r : Bool × net.Socket) × send_key_status net status s ≡ ok r
            × Sent net conn (encode 4 protocol_cp_key_status ++ status_bytes status) s r)
        × Reads net conn
            (receive_and_print_key_status net held)
            (status_bytes status)
            (shown status)
  key_status_arrives status h = ((λ s. send_key_status-Sent status s h), Reads-status status h)
