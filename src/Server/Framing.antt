-- ===== src/Server/Framing.antt =====
-- What recv_packet cuts out of a stream.
use sizigy.Base.{
  ℕ, suc, ◌+◌, ◌^◌, ◌<◌, ◌≤◌, ◌≡◌, ◌⊎◌, inl, inr, sym, ap, ◌∙◌, some, List, [], ◌++◌, length,
  append-nil, append_assoc, length-append, get_or, lt-or-le, arith,
}
use sizigy.Ring.{Ringbuffer, size}
use sizigy.Ring.Valid.{IsValid}
use sizigy.Ring.Window.{contents, length-contents}
use sizigy.Network.{Socket, recvbytes, total}
use sizigy.Network.Eager.{IsEager, recvbytes-total}
use sizigy.Buffer.{Allocator, buffer_init}
use sizigy.Server.Receive.{
  Reception, returns, Packet, packet, headlen, declared, remaining, pops, body_loop, recv_body,
  recv_packet,
}
use sizigy.Server.Loops.{pops_lem, header_loop_once, body_loop_done, body_loop_once, recv_body_run}

-- What the second loop reads into an empty ring.
record Body {W : Type 0} (socket : Socket W) (run : Reception (Ringbuffer × W)) (need : ℕ) (w : W)
    : Type 0 where
  pub rest : List ℕ
  pub ring : Ringbuffer
  pub world : W
  pub runs : run ≡ returns (ring, world)
  pub holding : contents ring ≡ rest
  pub moved : socket.delivered world ≡ socket.delivered w ++ rest
  pub measured : length rest ≡ need
  pub ring_IsValid : IsValid ring

-- The packet that a stream starts with: five bytes, then as many as they declare.
pub record Framed {W : Type 0} (socket : Socket W) (a : Allocator) (run : Reception (Packet × W))
    (w : W) (head : List ℕ) : Type 0 where
  pub rest : List ℕ
  pub world : W
  pub runs :
      run
      ≡ returns (
        packet (get_or head 0 0) (record (buffer_init a (declared head)) { data_ = head ++ rest }),
        world,
      )
  pub moved : socket.delivered world ≡ socket.delivered w ++ (head ++ rest)
  pub measured : length (head ++ rest) ≡ declared head

module _ {W : Type 0} (socket : Socket W) (eager : IsEager socket) where
  body_loop_lem :
      (f need : ℕ) (r : Ringbuffer) (w : W)
      → IsValid r
      → contents r ≡ []
      → need ≤ r.max
      → r.max < 2 ^ 31
      → Body socket (body_loop socket (suc (suc f)) need r w) need w
  body_loop_lem f need r w v empty room bound =
      let none_yet : size r ≡ 0 = sym (length-contents r) ∙ ap length empty in
      elim (lt-or-le 0 need) [
        | inl some_ ↦
            let (reads, result, measured) =
              recvbytes-total socket eager r need w v (omega arith) (omega arith) some_ in
            let stored : contents reads.ring ≡ reads.chunk_read =
              reads.stored ∙ ap (λ t. t ++ reads.chunk_read) empty in
            let held : size reads.ring ≡ need =
              sym (length-contents reads.ring) ∙ ap length stored ∙ measured in
            record {
              rest = reads.chunk_read;
              ring = reads.ring;
              world = reads.world;
              runs =
                  body_loop_once socket f need r reads.ring w reads.world (omega arith)
                    (reads.returns ∙ ap (λ t. some (t, reads.ring, reads.world)) result)
                    (omega arith);
              holding = stored;
              moved = reads.moved;
              measured = measured;
              ring_IsValid = reads.ring_IsValid;
            }
        | inr none_ ↦ record {
          rest = [];
          ring = r;
          world = w;
          runs = body_loop_done socket (suc f) need r w (omega arith);
          holding = empty;
          moved = sym (append-nil (socket.delivered w));
          measured = omega arith;
          ring_IsValid = v;
        }
      ]

  recv_body_lem :
      (a : Allocator) (f : ℕ) (head : List ℕ) (r : Ringbuffer) (w start : W)
      → IsValid r
      → contents r ≡ head
      → length head ≡ headlen
      → headlen ≤ declared head
      → declared head ≤ r.max + headlen
      → r.max < 2 ^ 31
      → socket.delivered w ≡ socket.delivered start ++ head
      → Framed socket a (recv_body socket a (suc (suc f)) r w) start head
  recv_body_lem a f head r w start v held five low high small came =
      let need = remaining (declared head) in
      let exact : need + headlen ≡ declared head = omega arith in
      let p = pops_lem head [] r v (held ∙ sym (append-nil head)) in
      let b =
        body_loop_lem f need p.ring w p.ring_IsValid p.leaves (omega (arith, p.ring_max))
          (omega (arith, p.ring_max)) in
      let q = pops_lem b.rest [] b.ring b.ring_IsValid (b.holding ∙ sym (append-nil b.rest)) in
      record {
        rest = b.rest;
        world = b.world;
        runs =
            recv_body_run socket a (suc (suc f)) head b.rest r p.ring b.ring q.ring w b.world
              (ap (λ n. pops n r) (sym five) ∙ p.gives) b.runs
              (ap (λ n. pops n b.ring) (sym b.measured) ∙ q.gives) low;
        moved =
            b.moved
            ∙ ap (λ t. t ++ b.rest) came
            ∙ append_assoc (socket.delivered start) head b.rest;
        measured = omega (arith, length-append head b.rest, b.measured);
      }

-- recv_packet, on an empty and valid ring of at least 5 and fewer than 2^31 bytes and a socket
-- whose peer keeps sending, with fuel for two rounds of each loop. Its first recvbytes puts five
-- bytes, the header, into the ring. If the length that they declare is not below five and the rest of
-- the packet fits the ring, recv_packet returns the first byte as the opcode and a buffer with the
-- whole packet, header included, of the declared length, and has taken exactly these bytes off the
-- stream.
pub recv_packet_lem :
    {W : Type 0} (socket : Socket W) (eager : IsEager socket) (a : Allocator) (f : ℕ)
    (r : Ringbuffer) (w : W)
    → IsValid r
    → contents r ≡ []
    → headlen ≤ r.max
    → r.max < 2 ^ 31
    → (head : List ℕ) × ((r1 : Ringbuffer) × ((w1 : W) × (recvbytes socket r headlen w
            ≡ some (total headlen, r1, w1))
          × (contents r1 ≡ head)))
      × (length head ≡ headlen)
      × ((declared head < headlen)
          ⊎ ((r.max + headlen < declared head)
              ⊎ Framed socket a (recv_packet socket a (suc (suc f)) r w) w head))
unfolding recv_packet
recv_packet_lem socket eager a f r w v empty fits small =
    let none_yet : size r ≡ 0 = sym (length-contents r) ∙ ap length empty in
    let (reads, result, measured) =
      recvbytes-total socket eager r headlen w v (omega arith) (omega arith) (omega arith) in
    let head = reads.chunk_read in
    let stored : contents reads.ring ≡ head = reads.stored ∙ ap (λ t. t ++ head) empty in
    let came = reads.returns ∙ ap (λ t. some (t, reads.ring, reads.world)) result in
    let first = header_loop_once socket f r reads.ring w reads.world came in
    (
      head,
      (reads.ring, (reads.world, came, stored)),
      measured,
      elim (lt-or-le (declared head) headlen) [
        | inl short ↦ inl short
        | inr low ↦ elim (lt-or-le (reads.ring.max + headlen) (declared head)) [
          | inl long ↦ inr (inl (omega (arith, reads.ring_max)))
          | inr high ↦
              let framed =
                recv_body_lem socket eager a f head reads.ring reads.world w reads.ring_IsValid
                  stored measured low high (omega (arith, reads.ring_max)) reads.moved in
              inr (
                inr (record {
                  rest = framed.rest;
                  world = framed.world;
                  runs = rw first framed.runs;
                  moved = framed.moved;
                  measured = framed.measured;
                }))
        ]
      ],
    )
