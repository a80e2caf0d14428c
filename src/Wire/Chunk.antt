-- ===== src/Wire/Chunk.antt =====
-- libs/chunker.c: messages put together byte by byte, sent, and received.
use tp_so_1c.Prelude.{
  ℕ, zero, suc, List, [], ◌∷◌, ◌++◌, length, drop, Option, none, some, ◌==◌, ltb, ◌&&◌,
  if◌then◌else◌,
}
use tp_so_1c.Outcome.{Outcome, ok, hang, ◌>>=◌}
use tp_so_1c.Wire.Bytes.{encode, decode}

pub record Chunk : Type 0 where
  pub bytes : List ℕ
  pub current_size : ℕ

unfoldable pub chunk_create : Chunk
chunk_create = record { bytes = []; current_size = 0 }

-- A size is the length of the content.
unfoldable pub chunk_add : Chunk → List ℕ → Chunk
chunk_add chunk content = record {
  bytes = chunk.bytes ++ content;
  current_size = length (chunk.bytes ++ content);
}

unfoldable pub chunk_add_variable : Chunk → List ℕ → Chunk
unfolding chunk_add
chunk_add_variable chunk content = chunk_add (chunk_add chunk (encode 8 (length content))) content

unfoldable pub add_each : {A : Type 0} → (Chunk → A → Chunk) → Chunk → List A → Chunk
add_each packager chunk [] = chunk
add_each packager chunk (x ∷ xs) = add_each packager (packager chunk x) xs

unfoldable pub chunk_add_list : {A : Type 0} → Chunk → List A → (Chunk → A → Chunk) → Chunk
unfolding chunk_add add_each
chunk_add_list chunk xs packager = add_each packager (chunk_add chunk (encode 8 (length xs))) xs

unfoldable pub chunk_build : Chunk → List ℕ
chunk_build chunk = chunk.bytes

-- What `recv` returns: the bytes it copied, or -1, with EINTR or another error.
pub data RecvAnswer : Type 0 where
  received : List ℕ → RecvAnswer
  interrupted : RecvAnswer
  failed : RecvAnswer

-- The system's calls on a connection. `recv` waits for all the bytes; `send` returns none for -1.
pub record SocketLib : Type 1 where
  pub Socket : Type 0
  pub recv : ℕ → Socket → RecvAnswer × Socket
  pub send : List ℕ → Socket → Option ℕ × Socket

-- The first size that is negative as an `int`.
abbrev pub int_limit : ℕ
int_limit = 2147483648

module _ (net : SocketLib) where
  -- Reception that returns -1 is none. The count of bytes that the others return is only ever
  -- compared with -1, and is left out.
  abbrev pub Reader : Type 0 → Type 0
  Reader A = net.Socket → Outcome (Option A × net.Socket)

  -- What a function does after a reception that it checks.
  unfoldable pub and_then : {A B : Type 0} → Reader A → (A → Reader B) → Reader B
  and_then m f s = do (got, t) ← m s; elim got [ none ↦ ok (none, t) | some a ↦ f a t ]

  unfoldable pub give : {A : Type 0} → A → Reader A
  give a s = ok (some a, s)

  -- What follows a `send` of so many bytes, which `again` repeats with the rest.
  unfoldable pub check_send :
      List ℕ → (List ℕ → Reader ℕ) → Option ℕ × net.Socket → Outcome (Option ℕ × net.Socket)
  check_send bytes again (none, t) = ok (none, t)
  check_send bytes again (some bytes_sent, t) =
      if ltb bytes_sent (length bytes)
      then again (drop bytes_sent bytes) t
      else ok (some bytes_sent, t)

  -- `fuel` bounds the calls of `send`.
  unfoldable pub chunk_send : ℕ → List ℕ → Reader ℕ
  unfolding check_send
  chunk_send zero serialized_chunk s = hang
  chunk_send (suc fuel) serialized_chunk s =
      check_send serialized_chunk (chunk_send fuel) (net.send serialized_chunk s)

  unfoldable pub chunk_send_and_destroy : ℕ → Chunk → Reader ℕ
  unfolding chunk_send chunk_build
  chunk_send_and_destroy fuel chunk s = chunk_send fuel (chunk_build chunk) s

  -- What follows a `recv` of so many bytes, which `again` repeats.
  unfoldable pub check_recv :
      ℕ → Reader (List ℕ) → RecvAnswer × net.Socket → Outcome (Option (List ℕ) × net.Socket)
  check_recv size again (interrupted, t) = again t
  check_recv size again (failed, t) = ok (none, t)
  check_recv size again (received bs, t) =
      if (length bs == size) && ltb (length bs) int_limit then ok (some bs, t) else ok (none, t)

  -- `fuel` bounds the calls of `recv`.
  unfoldable pub chunk_recv : ℕ → ℕ → Reader (List ℕ)
  unfolding check_recv
  chunk_recv zero size s = hang
  chunk_recv (suc fuel) size s = check_recv size (chunk_recv fuel size) (net.recv size s)

  unfoldable pub chunk_recv_variable : ℕ → Reader (List ℕ)
  unfolding chunk_recv and_then
  chunk_recv_variable fuel = and_then (chunk_recv fuel 8) λ size. chunk_recv fuel (decode size)

  unfoldable pub recv_each : {A : Type 0} → ℕ → Reader A → Reader (List A)
  unfolding and_then give
  recv_each zero unpackager = give []
  recv_each (suc n) unpackager =
      and_then unpackager λ x. and_then (recv_each n unpackager) λ xs. give (x ∷ xs)

  unfoldable pub chunk_recv_list : {A : Type 0} → ℕ → Reader A → Reader (List A)
  unfolding chunk_recv and_then recv_each
  chunk_recv_list fuel unpackager =
      and_then (chunk_recv fuel 8) λ size. recv_each (decode size) unpackager
