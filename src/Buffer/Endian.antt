-- ===== src/Buffer/Endian.antt =====
-- Network byte order: `htons`, `htonl` and htonll of src/network.c, and their inverses. In ntohll
-- the shifted bytes share no bit, so that `|` adds them up.
use sizigy.Base.{
  ℕ, zero, suc, ◌+◌, ◌*◌, ◌/◌, ◌%◌, ◌^◌, ◌<◌, ◌≡◌, refl, List, [], ◌∷◌, arith, length, ap,
}

-- The `w` low bytes of a number, highest first: `block[i] = num >> 8 * (w - 1 - i) & 0xFF`.
abbrev pub big_endian : ℕ → ℕ → List ℕ
big_endian zero v = []
big_endian (suc w) v = (v / 2 ^ (8 * w) % 256) ∷ big_endian w v

-- `block[0] << 8 * (w - 1) | … | block[w - 1]`
abbrev pub of_big_endian_from : ℕ → List ℕ → ℕ
of_big_endian_from acc [] = acc
of_big_endian_from acc (x ∷ xs) = of_big_endian_from (acc * 256 + x) xs

abbrev pub of_big_endian : List ℕ → ℕ
of_big_endian = of_big_endian_from 0

pub length-big_endian : (w v : ℕ) → length (big_endian w v) ≡ w
length-big_endian zero v = refl
length-big_endian (suc w) v = ap suc (length-big_endian w v)

pub of_big_endian-16 : (v : ℕ) → v < 2 ^ 16 → of_big_endian (big_endian 2 v) ≡ v
of_big_endian-16 v h = omega arith

pub of_big_endian-32 : (v : ℕ) → v < 2 ^ 32 → of_big_endian (big_endian 4 v) ≡ v
of_big_endian-32 v h = omega arith

pub of_big_endian-64 : (v : ℕ) → v < 2 ^ 64 → of_big_endian (big_endian 8 v) ≡ v
of_big_endian-64 v h = omega arith
