-- ===== src/Wire/Bytes.antt =====
-- The bytes of a number as a little-endian machine stores it, and C strings.
use tp_so_1c.Prelude.{
  ℕ, zero, suc, ◌+◌, ◌*◌, ◌/◌, ◌%◌, ◌<◌, ◌≡◌, refl, arith, List, [], ◌∷◌, length, ap, ◌==◌,
  if◌then◌else◌,
}

unfoldable pub encode : ℕ → ℕ → List ℕ
encode zero v = []
encode (suc n) v = (v % 256) ∷ encode n (v / 256)

unfoldable pub decode : List ℕ → ℕ
decode [] = 0
decode (b ∷ bs) = b + 256 * decode bs

-- How many values so many bytes have.
unfoldable pub values : ℕ → ℕ
values zero = 1
values (suc n) = 256 * values n

pub length-encode : (n v : ℕ) → length (encode n v) ≡ n
unfolding encode
length-encode zero v = refl
length-encode (suc n) v = ap suc (length-encode n (v / 256))

pub decode-encode : (n v : ℕ) → v < values n → decode (encode n v) ≡ v
unfolding encode decode values
decode-encode zero v h = omega arith
decode-encode (suc n) v h = omega (arith, decode-encode n (v / 256) (omega (arith, h)))

-- A size that an `int` holds fits in eight bytes.
pub below : (n : ℕ) → n < 2147483648 → n < values 8
unfolding values
below n h = omega (arith, h)

pub values_4 : (n : ℕ) → n < 4294967296 → n < values 4
unfolding values
values_4 n h = omega (arith, h)

-- The characters before the first NUL.
unfoldable pub c_string : List ℕ → List ℕ
c_string [] = []
c_string (b ∷ bs) = let rest = c_string bs in if b == 0 then [] else b ∷ rest
