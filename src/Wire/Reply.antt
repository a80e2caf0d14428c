-- ===== src/Wire/Reply.antt =====
-- instancia/coordinator_api.c and coordinador/connection/instance-connection.c: what the coordinator
-- reads of an instance's answer.
use tp_so_1c.Prelude.{
  ++-assoc, ++-nil, ℕ, suc, ◌<◌, ◌≡◌, refl, sym, ap, ◌∙◌, subst, arith, List, [], ◌++◌, length,
  some, inl, inr, ℤ, pos, negsuc,
}
use tp_so_1c.Outcome.{ok}
use tp_so_1c.Wire.Bytes.{encode, decode, values, decode-encode, values_4}
use tp_so_1c.Wire.Chunk.{
  SocketLib, int_limit, Reader, and_then, give, chunk_create, chunk_add, chunk_build,
  chunk_send_and_destroy,
}
use tp_so_1c.Wire.RoundTrip.{Connected, Reads, Reads-give, Reads-fixed, chunk_send-whole}
use tp_so_1c.Wire.Messages.{
  whole, recv_once, header_code, int_bits, bits_int, header_chunk, status_chunk, set_chunk,
  coordinator_api_notify_set, instance_recv_set_execution_status,
}

-- The integers of four bytes.
abbrev pub IsInt : ℤ → Type 0
IsInt (pos n) = n < int_limit
IsInt (negsuc n) = n < int_limit

pub bits_int-int_bits : (z : ℤ) → IsInt z → bits_int (int_bits z) ≡ z
unfolding bits_int int_bits
bits_int-int_bits (pos n) h = ground (arith, h)
bits_int-int_bits (negsuc n) h = ground (arith, h)

pub int_bits-below : (z : ℤ) → IsInt z → int_bits z < 4294967296
unfolding int_bits
int_bits-below (pos n) h = omega (arith, h)
int_bits-below (negsuc n) h = omega (arith, h)

-- No signal interrupts `recv`.
module _ (net : SocketLib) (conn : Connected net)
    (never : (s : net.Socket) → conn.interruptions s ≡ 0) where
  pub Reads-recv_once :
      (bs : List ℕ) → length bs < int_limit → Reads net conn (recv_once net (length bs)) bs bs
  unfolding recv_once whole
  Reads-recv_once bs h s rest e =
      let r = conn.receives (length bs) bs rest s e refl in
      elim r.1 [
        | inl (q, i) ↦ (r.0, ap (whole net (length bs)) q ∙ ground arith, i)
        | inr (q, i, w) ↦ absurd (omega (arith, w, never s))
      ]

  -- A reader of four bytes that hold an `int`.
  pub Reads-int :
      {A : Type 0} (z : ℤ) (f : ℤ → Reader net A) (cs : List ℕ) (a : A)
      → IsInt z
      → Reads net conn (f z) cs a
      → Reads net conn
          (and_then net (recv_once net 4) λ status. f (bits_int (decode status)))
          (encode 4 (int_bits z) ++ cs)
          a
  Reads-int z f cs a h k =
      Reads-fixed net conn (recv_once net) Reads-recv_once 4 (int_bits z)
        (λ status. f (bits_int (decode status))) cs a (omega arith)
        (subst (λ n. Reads net conn (f n) cs a)
          (sym (
            ap bits_int (decode-encode 4 (int_bits z) (values_4 (int_bits z) (int_bits-below z h)))
            ∙ bits_int-int_bits z h))
          k)

  Reads-used :
      (z : ℤ) (used : ℕ)
      → used < values 8
      → Reads net conn {A = ℤ × ℕ}
          (and_then net (recv_once net 8) λ n. give net (z, decode n))
          (encode 8 used)
          (z, used)
  Reads-used z used h =
      subst
        (λ bs.
          Reads net conn {A = ℤ × ℕ} (and_then net (recv_once net 8) λ n. give net (z, decode n)) bs
            (z, used))
        (++-nil (encode 8 used))
        (Reads-fixed net conn (recv_once net) Reads-recv_once 8 used (λ n. give net (z, decode n))
          [] (z, used) (omega arith)
          (subst (λ n. Reads net conn {A = ℤ × ℕ} (give net (z, decode (encode 8 used))) [] (z, n))
            (decode-encode 8 used h) (Reads-give net conn (z, decode (encode 8 used)))))

  -- The answer to a SET goes out whole, and where its bytes come in the coordinator reads the same
  -- status and number of used entries and no byte more, if the status is an `int`, the number fits in
  -- eight bytes and no signal interrupts `recv`.
  pub set_reply_arrives :
      (z : ℤ) (used : ℕ)
      → IsInt z
      → used < values 8
      → (bytes : List ℕ) × (((s : net.Socket)
            → (t : net.Socket) × (k : ℕ) × coordinator_api_notify_set net
                  (suc (length bytes))
                  used
                  z
                  s
                ≡ ok (some k, t)
              × conn.outgoing t ≡ conn.outgoing s ++ bytes)
          × Reads net conn (instance_recv_set_execution_status net) bytes (z, used))
  unfolding coordinator_api_notify_set set_chunk status_chunk header_chunk chunk_create chunk_add
      chunk_build chunk_send_and_destroy instance_recv_set_execution_status header_code
  set_reply_arrives z used h k = (
    (encode 4 1 ++ encode 4 (int_bits z)) ++ encode 8 used,
    (
      (λ s.
          chunk_send-whole net conn
            (suc (length ((encode 4 1 ++ encode 4 (int_bits z)) ++ encode 8 used)))
            ((encode 4 1 ++ encode 4 (int_bits z)) ++ encode 8 used) s (omega arith)),
      subst (λ bs. Reads net conn {A = ℤ × ℕ} (instance_recv_set_execution_status net) bs (z, used))
          (sym (++-assoc (encode 4 1) (encode 4 (int_bits z)) (encode 8 used)))
          (Reads-fixed net conn (recv_once net) Reads-recv_once 4 1 _ _ (z, used) (omega arith)
            (rw (decode-encode 4 1 (values_4 1 (omega arith))) (
              Reads-int z (λ y. and_then net (recv_once net 8) λ n. give net (y, decode n))
                (encode 8 used) (z, used) h (Reads-used z used k)))),
    ),
  )
