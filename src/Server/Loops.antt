-- ===== src/Server/Loops.antt =====
-- One run of each loop of recv_packet.
use sizigy.Base.{
  ℕ, suc, ◌<◌, ◌≤◌, ◌≡◌, refl, ap, ◌∙◌, true, false, Option, some, List, [], ◌∷◌, ◌++◌, ltb, length,
  get_or, arith,
}
use sizigy.Ring.{Ringbuffer, size, pop}
use sizigy.Ring.Valid.{IsValid, pop-IsValid, max-pop}
use sizigy.Ring.Window.{contents}
use sizigy.Ring.Refine.{pop_refines}
use sizigy.Ring.Fifo
use sizigy.Network.{Socket, recvbytes, total}
use sizigy.Buffer.{Allocator, buffer_init}
use sizigy.Server.Receive.{
  returns, packet, headlen, declared, remaining, pops, filled, header_loop, body_loop, recv_body,
}

-- What `n` pops give of a ring that holds `xs` and then `ys`.
pub record Pops (xs ys : List ℕ) (r : Ringbuffer) (run : Option (List ℕ × Ringbuffer))
    : Type 0 where
  pub ring : Ringbuffer
  pub gives : run ≡ some (xs, ring)
  pub leaves : contents ring ≡ ys
  pub ring_IsValid : IsValid ring
  pub ring_max : ring.max ≡ r.max

pop_first :
    (r : Ringbuffer) (x : ℕ) (xs : List ℕ)
    → IsValid r
    → contents r ≡ x ∷ xs
    → ((pop r).1 ≡ some x) × (contents (pop r).2 ≡ xs)
unfolding Fifo.pop
pop_first r x xs v e =
    let run = pop_refines v ∙ ap Fifo.pop e in (ap (λ t. t.1) run, ap (λ t. t.2) run)

pub pops_lem :
    (xs ys : List ℕ) (r : Ringbuffer)
    → IsValid r
    → contents r ≡ xs ++ ys
    → Pops xs ys r (pops (length xs) r)
unfolding pops
pops_lem [] ys r v e = record {
  ring = r;
  gives = refl;
  leaves = e;
  ring_IsValid = v;
  ring_max = refl;
}
pops_lem (x ∷ xs) ys r v e =
    let (first, rest) = pop_first r x (xs ++ ys) v e in
    let p = pops_lem xs ys (pop r).2 (pop-IsValid v) rest in
    record {
      ring = p.ring;
      gives = rw (pops, first, p.gives);
      leaves = p.leaves;
      ring_IsValid = p.ring_IsValid;
      ring_max = p.ring_max ∙ max-pop r;
    }

module _ {W : Type 0} (socket : Socket W) where
  pub header_loop_once :
      (f : ℕ) (r r' : Ringbuffer) (w w' : W)
      → recvbytes socket r headlen w ≡ some (total headlen, r', w')
      → header_loop socket (suc (suc f)) 0 r w ≡ returns (some r', w')
  unfolding header_loop
  header_loop_once f r r' w w' e = rw (header_loop, e)

  pub body_loop_done :
      (f need : ℕ) (r : Ringbuffer) (w : W)
      → need ≤ size r
      → body_loop socket (suc f) need r w ≡ returns (r, w)
  unfolding body_loop
  body_loop_done f need r w h =
      let done : ltb (size r) need ≡ false = ground arith in rw (body_loop, done)

  pub body_loop_once :
      (f need : ℕ) (r r' : Ringbuffer) (w w' : W)
      → size r < need
      → recvbytes socket r need w ≡ some (total need, r', w')
      → need ≤ size r'
      → body_loop socket (suc (suc f)) need r w ≡ returns (r', w')
  unfolding body_loop
  body_loop_once f need r r' w w' more e enough =
      let more' : ltb (size r) need ≡ true = ground arith in
      rw (body_loop, more', e) (body_loop_done f need r' w' enough)

  filled_lem :
      (a : Allocator) (head rest : List ℕ)
      → headlen ≤ declared head
      → filled a head rest
        ≡ returns (record (buffer_init a (declared head)) { data_ = head ++ rest })
  unfolding filled
  filled_lem a head rest h =
      let fits : ltb (declared head) headlen ≡ false = ground arith in rw (filled, fits)

  pub recv_body_run :
      (a : Allocator) (f : ℕ) (head rest : List ℕ) (r r1 r2 r3 : Ringbuffer) (w w' : W)
      → pops headlen r ≡ some (head, r1)
      → body_loop socket f (remaining (declared head)) r1 w ≡ returns (r2, w')
      → pops (remaining (declared head)) r2 ≡ some (rest, r3)
      → headlen ≤ declared head
      → recv_body socket a f r w
        ≡ returns (
          packet
              (get_or head 0 0)
              (record (buffer_init a (declared head)) { data_ = head ++ rest }),
          w',
        )
  unfolding recv_body
  recv_body_run a f head rest r r1 r2 r3 w w' popped looped popped' h =
      rw (popped, looped, popped', filled_lem a head rest h)
