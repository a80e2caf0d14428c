-- ===== src/Wire/RoundTrip.antt =====
-- libs/chunker.c: what one process adds to a chunk and what another receives.
use tp_so_1c.Prelude.{
  ++-assoc, ++-nil, take-whole, ℕ, zero, suc, ◌≤◌, ◌<◌, ◌≡◌, refl, sym, ap, ◌∙◌, subst, arith, ◌⊎◌,
  inl, inr, List, [], ◌∷◌, ◌++◌, length, length-drop, take, drop, take-append-drop, some, ltb,
  Bool-cases,
}
use tp_so_1c.Outcome.{ok}
use tp_so_1c.Commons.{All}
use tp_so_1c.Wire.Bytes.{encode, decode, length-encode, decode-encode, below}
use tp_so_1c.Wire.Chunk.{
  received, interrupted, SocketLib, int_limit, Reader, and_then, give, chunk_send, chunk_recv,
  check_recv, check_send, recv_each, chunk_recv_list,
}

-- What the manual promises of a connection that does not fail. `incoming` is what `recv` will still
-- copy and `outgoing` what the peer was sent.
pub record Connected (net : SocketLib) : Type 0 where
  pub incoming : net.Socket → List ℕ
  pub outgoing : net.Socket → List ℕ
  pub interruptions : net.Socket → ℕ
  -- With MSG_WAITALL, all the bytes are copied, unless a signal comes first.
  pub receives :
      (n : ℕ) (bs rest : List ℕ) (s : net.Socket)
      → incoming s ≡ bs ++ rest
      → length bs ≡ n
      → (t : net.Socket) × ((net.recv n s ≡ (received bs, t) × incoming t ≡ rest)
          ⊎ (net.recv n s ≡ (interrupted, t)
              × incoming t ≡ bs ++ rest
              × interruptions t < interruptions s))
  -- A part of the bytes goes out, not empty unless there are none.
  pub sends :
      (bs : List ℕ) (s : net.Socket)
      → (k : ℕ) × (t : net.Socket) × net.send bs s ≡ (some k, t)
        × k ≤ length bs
        × (0 < length bs → 0 < k)
        × outgoing t ≡ outgoing s ++ take k bs

-- The bytes of a list's elements.
abbrev pub packed : {A : Type 0} → (A → List ℕ) → List A → List ℕ
packed pack [] = []
packed pack (x ∷ xs) = pack x ++ packed pack xs

module _ (net : SocketLib) (conn : Connected net) where
  -- Where the bytes come in, the reader takes them and no more, and gives the value.
  abbrev pub Reads : {A : Type 0} → Reader net A → List ℕ → A → Type 0
  Reads m bs a =
      (s : net.Socket) (rest : List ℕ)
      → conn.incoming s ≡ bs ++ rest
      → (t : net.Socket) × m s ≡ ok (some a, t) × conn.incoming t ≡ rest

  pub Reads-give : {A : Type 0} (a : A) → Reads (give net a) [] a
  unfolding give
  Reads-give a s rest h = (s, refl, h)

  pub Reads-and_then :
      {A B : Type 0} (m : Reader net A) (f : A → Reader net B) (bs cs : List ℕ) (a : A) (b : B)
      → Reads m bs a
      → Reads (f a) cs b
      → Reads (and_then net m f) (bs ++ cs) b
  unfolding and_then
  Reads-and_then m f bs cs a b h k s rest e =
      let r = h s (cs ++ rest) (e ∙ ++-assoc bs cs rest) in
      let q = k r.0 rest r.2 in (q.0, rw r.1 q.1, q.2)

  pub Reads-end :
      {A B : Type 0} (m : Reader net A) (f : A → B) (bs : List ℕ) (a : A)
      → Reads m bs a
      → Reads (and_then net m λ x. give net (f x)) bs (f a)
  Reads-end m f bs a h =
      subst (λ cs. Reads (and_then net m λ x. give net (f x)) cs (f a)) (++-nil bs)
        (Reads-and_then m (λ x. give net (f x)) bs [] a (f a) h (Reads-give (f a)))

  -- A way to get so many bytes, and what is read after a field.
  module _ (get : ℕ → Reader net (List ℕ))
      (gets : (bs : List ℕ) → length bs < int_limit → Reads (get (length bs)) bs bs) where
    pub Reads-fixed :
        {A : Type 0} (w v : ℕ) (f : List ℕ → Reader net A) (cs : List ℕ) (a : A)
        → w < int_limit
        → Reads (f (encode w v)) cs a
        → Reads (and_then net (get w) f) (encode w v ++ cs) a
    Reads-fixed w v f cs a h k =
        Reads-and_then (get w) f (encode w v) cs (encode w v) a
          (subst (λ l. Reads (get l) (encode w v) (encode w v)) (length-encode w v)
            (gets (encode w v) (subst (λ l. l < int_limit) (sym (length-encode w v)) h)))
          k

    pub Reads-size :
        {A : Type 0} (n : ℕ) (f : ℕ → Reader net A) (cs : List ℕ) (a : A)
        → n < int_limit
        → Reads (f n) cs a
        → Reads (and_then net (get 8) λ size. f (decode size)) (encode 8 n ++ cs) a
    Reads-size n f cs a h k =
        Reads-fixed 8 n (λ size. f (decode size)) cs a (omega arith)
          (subst (λ m. Reads (f m) cs a) (sym (decode-encode 8 n (below n h))) k)

    pub Reads-sized :
        {A : Type 0} (bs cs : List ℕ) (f : List ℕ → Reader net A) (a : A)
        → length bs < int_limit
        → Reads (f bs) cs a
        → Reads
            (and_then net (and_then net (get 8) λ size. get (decode size)) f)
            (encode 8 (length bs) ++ (bs ++ cs))
            a
    Reads-sized bs cs f a b k =
        subst (λ l. Reads (and_then net (and_then net (get 8) λ size. get (decode size)) f) l a)
          (++-assoc (encode 8 (length bs)) bs cs)
          (Reads-and_then (and_then net (get 8) λ size. get (decode size)) f
            (encode 8 (length bs) ++ bs) cs bs a (Reads-size (length bs) get bs bs b (gets bs b)) k)

  -- The fuel is more than the interruptions that the connection has to come.
  module _ (fuel : ℕ) (enough : (s : net.Socket) → conn.interruptions s < fuel) where
    recv-step :
        (k n : ℕ) (bs : List ℕ)
        → length bs ≡ n
        → n < int_limit
        → (s : net.Socket) (rest : List ℕ) → conn.interruptions s < k
        → conn.incoming s ≡ bs ++ rest
        → (t : net.Socket) × chunk_recv net k n s ≡ ok (some bs, t) × conn.incoming t ≡ rest
    unfolding chunk_recv check_recv
    recv-step zero n bs l b s rest h e = elim h [ ]
    recv-step (suc k) n bs l b s rest h e =
        let r = conn.receives n bs rest s e l in
        elim r.1 [
          | inl (q, i) ↦
              (r.0, ap (check_recv net n (chunk_recv net k n)) q ∙ ground (arith, l, b), i)
          | inr (q, i, w) ↦
              let (t, again, out) = recv-step k n bs l b r.0 rest (omega (arith, h, w)) i in
              (t, ap (check_recv net n (chunk_recv net k n)) q ∙ again, out)
        ]

    pub Reads-chunk_recv :
        (bs : List ℕ) → length bs < int_limit → Reads (chunk_recv net fuel (length bs)) bs bs
    Reads-chunk_recv bs b s rest e = recv-step fuel (length bs) bs refl b s rest (enough s) e

    module _ {A : Type 0} (pack : A → List ℕ) (unpackager : Reader net A) where
      -- What the packager adds for an element, the unpackager takes.
      abbrev pub Unpacks : A → Type 0
      Unpacks x = Reads unpackager (pack x) x

      Reads-each :
          (xs : List A)
          → All Unpacks xs
          → Reads (recv_each net (length xs) unpackager) (packed pack xs) xs
      unfolding recv_each
      Reads-each [] h = Reads-give []
      Reads-each (x ∷ xs) (h, hs) =
          Reads-and_then unpackager _ (pack x) (packed pack xs) x (x ∷ xs) h (
            Reads-end (recv_each net (length xs) unpackager) (λ ys. x ∷ ys) (packed pack xs) xs
              (Reads-each xs hs))

      pub Reads-list :
          (xs : List A)
          → length xs < int_limit
          → All Unpacks xs
          → Reads (chunk_recv_list net fuel unpackager) (encode 8 (length xs) ++ packed pack xs) xs
      unfolding chunk_recv_list
      Reads-list xs b h =
          Reads-size (chunk_recv net fuel) Reads-chunk_recv (length xs)
            (λ n. recv_each net n unpackager) (packed pack xs) xs b (Reads-each xs h)

  -- chunk_send sends every byte in order, however little each `send` takes, in no more calls than there
  -- are bytes and one.
  pub chunk_send-whole :
      (fuel : ℕ) (bs : List ℕ) (s : net.Socket)
      → length bs < fuel
      → (t : net.Socket) × (k : ℕ) × chunk_send net fuel bs s ≡ ok (some k, t)
        × conn.outgoing t ≡ conn.outgoing s ++ bs
  unfolding chunk_send check_send
  chunk_send-whole zero bs s h = elim h [ ]
  chunk_send-whole (suc fuel) bs s h =
      let (k, t, q, le, positive, out) = conn.sends bs s in
      elim (Bool-cases (ltb k (length bs))) [
        | inl e ↦
            let (u, j, r, whole) =
              chunk_send-whole fuel (drop k bs) t (ground (arith, h, length-drop k bs, positive)) in
            (
              u,
              j,
              ap (check_send net bs (chunk_send net fuel)) q ∙ rw e r,
              whole
                  ∙ ap (λ l. l ++ drop k bs) out
                  ∙ ++-assoc (conn.outgoing s) (take k bs) (drop k bs)
                  ∙ ap (λ l. conn.outgoing s ++ l) (take-append-drop k bs),
            )
        | inr e ↦ (
          t,
          k,
          ap (check_send net bs (chunk_send net fuel)) q ∙ rw e refl,
          out ∙ ap (λ l. conn.outgoing s ++ l) (take-whole k bs (ground arith)),
        )
      ]
