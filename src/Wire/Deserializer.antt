-- ===== src/Wire/Deserializer.antt =====
-- libs/deserializador.c: the reception of what libs/serializador.c sends.
use tp_so_1c.Prelude.{
  ℕ, ℤ, pos, negsuc, same_int, List, [], ◌++◌, length, drop, Option, some, ◌==◌, if◌then◌else◌,
}
use tp_so_1c.Outcome.{Outcome, ok}
use tp_so_1c.Wire.Bytes.{decode}
use tp_so_1c.Wire.Chunk.{SocketLib, Reader, and_then, give, RecvAnswer, received}

abbrev pub recv_success : ℤ
recv_success = pos 1

abbrev pub recv_data_error : ℤ
recv_data_error = negsuc 0

abbrev pub recv_size_error : ℤ
recv_size_error = negsuc 1

-- `held` is what so many bytes of memory hold before anything is copied there. A result comes with the
-- receiver's bytes, and a `Reader` of this file never gives none.
module _ (net : SocketLib) (held : ℕ → List ℕ) where
  unfoldable pub copied : ℕ → RecvAnswer × net.Socket → Outcome (Option (ℤ × List ℕ) × net.Socket)
  copied size (received bs, t) =
      if length bs == size
      then ok (some (recv_success, bs), t)
      else ok (some (recv_data_error, bs ++ drop (length bs) (held size)), t)
  copied size (_, t) = ok (some (recv_data_error, held size), t)

  unfoldable pub recv_package : ℕ → Reader net (ℤ × List ℕ)
  unfolding copied
  recv_package size s = copied size (net.recv size s)

  -- The test of the first result is the code's; the receiver of a size that is missing is no memory.
  unfoldable pub recv_package_variable : Reader net (ℤ × List ℕ)
  unfolding and_then give recv_package
  recv_package_variable = and_then net (recv_package 8) λ package_size.
      if same_int package_size.0 (pos 0)
      then give net (recv_size_error, [])
      else recv_package (decode package_size.1)
