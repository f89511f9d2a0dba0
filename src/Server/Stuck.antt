-- ===== src/Server/Stuck.antt =====
-- recv_packet where the connection ends inside a packet, and where the first read fails.

use sizigy.Base.{
  ℕ, zero, suc, ◌-◌, ◌^◌, ◌<◌, ◌≡◌, refl, sym, ap, ◌∙◌, true, none, some, [], ltb, length,
  append-nil, arith,
}
use sizigy.Ring.{Ringbuffer, size, pop}
use sizigy.Ring.Valid.{IsValid}
use sizigy.Ring.Window.{contents, length-contents}
use sizigy.Ring.Refine.{pop_refines}
use sizigy.Ring.Fifo
use sizigy.Network.{Socket, got, total, error, received, recvbytes_from, recvbytes}
use sizigy.Network.Recv.{recvbytes_from_more}
use sizigy.Buffer.{Allocator}
use sizigy.Server.Receive.{
  returns, undefined, out_of_fuel, headlen, declared, remaining, pops, header_loop, body_loop,
  recv_body, recv_packet,
}
use sizigy.Server.Loops.{pops_lem, header_loop_once}

-- A set of states in which the peer has closed its end: `recv` answers 0 from then on.
pub record IsClosed {W : Type 0} (socket : Socket W) (closed : W → Type 0) : Type 0 where
  pub ended : (n : ℕ) (w : W) → closed w → (socket.recv n w).0 ≡ got []
  pub stays : (n : ℕ) (w : W) → closed w → closed (socket.recv n w).1

module _ {W : Type 0} (socket : Socket W) where
  recvbytes-ended :
      (r : Ringbuffer) (need : ℕ) (w : W)
      → 0 < need
      → (socket.recv (need - 0) w).0 ≡ got []
      → recvbytes socket r need w ≡ some (total 0, r, (socket.recv (need - 0) w).1)
  unfolding recvbytes received
  recvbytes-ended r need w pos ended =
      recvbytes_from_more socket need 0 r need w (ground arith)
      ∙ ap
          (λ x.
            received (λ sum' r' w'. recvbytes_from socket need sum' r' need w') 0 r
              (x, (socket.recv (need - 0) w).1))
          ended

  body_loop_spins :
      (closed : W → Type 0)
      → IsClosed socket closed
      → (f need : ℕ) (r : Ringbuffer) (w : W) → size r < need
      → closed w
      → body_loop socket f need r w ≡ out_of_fuel
  unfolding body_loop
  body_loop_spins closed ends zero need r w h c = refl
  body_loop_spins closed ends (suc f) need r w h c =
      let more : ltb (size r) need ≡ true = ground arith in
      let w' = (socket.recv (need - 0) w).1 in
      rw (body_loop, more, recvbytes-ended r need w (omega arith) (ends.ended (need - 0) w c))
        (body_loop_spins closed ends f need r w' h (ends.stays (need - 0) w c))

-- A packet that declares more than its header, of which only the header came before the peer closed
-- the connection: recv_packet never returns, whatever the fuel.
pub recv_packet_spins :
    {W : Type 0} (socket : Socket W) (closed : W → Type 0) (a : Allocator) (f : ℕ)
    (r r1 : Ringbuffer) (w w1 : W)
    → IsClosed socket closed
    → recvbytes socket r headlen w ≡ some (total headlen, r1, w1)
    → IsValid r1
    → length (contents r1) ≡ headlen
    → headlen < declared (contents r1)
    → declared (contents r1) < 2 ^ 32
    → closed w1
    → recv_packet socket a (suc (suc f)) r w ≡ out_of_fuel
unfolding recv_packet recv_body
recv_packet_spins socket closed a f r r1 w w1 ends came v five low high c =
    let head = contents r1 in
    let p = pops_lem head [] r1 v (sym (append-nil head)) in
    let popped = ap (λ n. pops n r1) (sym five) ∙ p.gives in
    let empty : size p.ring ≡ 0 = sym (length-contents p.ring) ∙ ap length p.leaves in
    let spins =
      body_loop_spins socket closed ends (suc (suc f)) (remaining (declared head)) p.ring w1
        (omega arith) c in
    rw (header_loop_once socket f r r1 w w1 came, popped, spins)

-- recv_packet on an empty ring whose first recv fails with -1: it takes the result for a number of
-- bytes, leaves its first loop, and reads a header that no byte was stored for.
pub recv_packet_undefined :
    {W : Type 0} (socket : Socket W) (a : Allocator) (f : ℕ) (r r1 : Ringbuffer) (w w1 : W)
    → recvbytes socket r headlen w ≡ some (error, r1, w1)
    → IsValid r1
    → contents r1 ≡ []
    → recv_packet socket a (suc (suc f)) r w ≡ undefined
unfolding recv_packet recv_body pops Fifo.pop
recv_packet_undefined socket a f r r1 w w1 broke v empty =
    let none_there : (pop r1).1 ≡ none = ap (λ t. t.1) (pop_refines v ∙ ap Fifo.pop empty) in
    let left : header_loop socket (suc (suc f)) 0 r w ≡ returns (some r1, w1) =
      unfold header_loop in rw (header_loop, broke) in
    rw (left, pops, none_there)
