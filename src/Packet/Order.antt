-- ===== src/Packet/Order.antt =====
-- pack_connect and unpack_connect disagree on the order of the fields behind the header.
use sizigy.Base
use sizigy.Base.{ℕ, ◌+◌, refl, List, [], ◌∷◌, ◌++◌}
use sizigy.Buffer.Endian.{big_endian, of_big_endian}
use sizigy.Packet.{Connect}

-- What is read where the id begins with the bytes `x`, `y` and `z`.
abbrev pub misread : Connect → ℕ → ℕ → ℕ → List ℕ → Connect
misread p x y z rest = record p {
  clean_session = x;
  keepalive = of_big_endian (y ∷ z ∷ []);
  id = rest ++ (big_endian 2 p.keepalive ++ (p.clean_session ∷ []));
}
