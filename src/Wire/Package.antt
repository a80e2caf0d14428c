-- ===== src/Wire/Package.antt =====
-- libs/serializador.c: packages of a size that is fixed beforehand.
use tp_so_1c.Prelude.{
  ℕ, zero, suc, ◌-◌, List, [], ◌++◌, length, drop, Option, none, some, ltb, leb, if◌then◌else◌,
}
use tp_so_1c.Outcome.{Outcome, ok, crash, hang, ◌>>=◌}
use tp_so_1c.Wire.Bytes.{encode}
use tp_so_1c.Wire.Chunk.{SocketLib}

-- `load` is what the buffer holds before the pointer that the source has in its place.
pub record Package : Type 0 where
  pub load : List ℕ
  pub size : ℕ
  pub remaining_load : ℕ

pub data PackageStatus : Type 0 where
  load_success : PackageStatus
  load_missing : PackageStatus
  load_extra : PackageStatus
  send_success : PackageStatus
  send_error : PackageStatus

unfoldable pub create_package : ℕ → Package
create_package size = record { load = []; size = size; remaining_load = size }

-- The bytes must fit in the buffer.
unfoldable pub add_content : Package → List ℕ → Outcome Package
add_content p content =
    if leb (length content) p.remaining_load
    then ok
        (record p { load = p.load ++ content; remaining_load = p.remaining_load - length content })
    else crash

unfoldable pub add_content_variable : Package → List ℕ → Outcome Package
unfolding add_content
add_content_variable p content = do
  q ← add_content p (encode 8 (length content))
  add_content q content

-- remaining_load is unsigned, and so is the second test.
unfoldable pub check_package : Package → PackageStatus
check_package p =
    if ltb 0 p.remaining_load
    then load_missing
    else if ltb p.remaining_load 0
    then load_extra
    else load_success

unfoldable pub build_package : Package → Option (List ℕ)
unfolding check_package
build_package p = elim (check_package p) [ load_success ↦ some p.load | _ ↦ none ]

module _ (net : SocketLib) where
  -- What follows a `send` of so many bytes, which `again` repeats with the rest.
  unfoldable pub check_sent :
      List ℕ
      → (List ℕ → net.Socket → Outcome (PackageStatus × net.Socket))
      → Option ℕ × net.Socket
      → Outcome (PackageStatus × net.Socket)
  check_sent bytes again (none, t) = ok (send_error, t)
  check_sent bytes again (some bytes_sent, t) =
      if ltb bytes_sent (length bytes)
      then again (drop bytes_sent bytes) t
      else ok (send_success, t)

  -- `fuel` bounds the calls of `send`.
  unfoldable pub send_serialized_package :
      ℕ → List ℕ → net.Socket → Outcome (PackageStatus × net.Socket)
  unfolding check_sent
  send_serialized_package zero serialized_package s = hang
  send_serialized_package (suc fuel) serialized_package s =
      check_sent serialized_package (send_serialized_package fuel) (net.send serialized_package s)
