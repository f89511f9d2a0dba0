-- ===== src/Server/Tests.antt =====
-- recv_packet on given streams.
mod Scene
mod Broker
mod Crowd
mod Life
use sizigy.Base.{
  ℕ, ◌+◌, ◌-◌, ◌<◌, ◌≡◌, ◌≤◌, ◌⊎◌, refl, ap, some, false, some, List, [], ◌∷◌, min, replicate,
  length, length-replicate, get_or, arith,
}
use sizigy.Ring.{Ringbuffer, bulk_push, pop, size}
use sizigy.Ring.Valid.{IsValid}
use sizigy.Ring.Window.{contents}
use sizigy.Buffer.{
  Allocator, Buffer, buffer_init, byte, bytes, read_uint8, read_uint16, read_uint32,
}
use sizigy.Network.{Socket, total, recvbytes, got, received, recvbytes_from}
use sizigy.Network.Eager.{IsEager}
use sizigy.Network.Scripted.{World, slice, length-slice, scripted, cut}
use sizigy.Base.{◌≢◌, true, none}
use sizigy.Packet.Opcode
use sizigy.Packet.Release.{Memory, memory_of}
use sizigy.Packet.Freed.{Freed}
use sizigy.Server.Freeing.{ClientBlock, payload, owned_client, free_client, free_client_lem}
use sizigy.Server.Receive.{
  headlen, declared, packet, header_loop, body_loop, recv_body, pops, filled, recv_packet, returns,
  undefined, out_of_fuel,
}
use sizigy.Packet.{unpack_ack, unpack_header}
use sizigy.Packet.Opcode
use sizigy.Server.Dispatch.{
  absent, request, rejected, called, pingreq_handler, unpack_packet, matching, request_lem,
}
use sizigy.Server.Framing.{Framed, recv_packet_lem}
use sizigy.Server.Stuck.{IsClosed, recv_packet_spins, recv_packet_undefined}

untouched : Allocator
untouched = record { malloc = λ n. replicate n 0xAA; malloc_size = λ n. length-replicate n 0xAA }

-- A packet of nine bytes with opcode 7, and then zeros.
abbrev stream : ℕ → ℕ
stream i = get_or (7 ∷ 0 ∷ 0 ∷ 0 ∷ 9 ∷ 1 ∷ 2 ∷ 3 ∷ 4 ∷ []) i 0

-- Three bytes at a time, without end.
abbrev talking : Socket World
talking = scripted stream (λ n pos. min n 3) (λ n pos. omega arith)

-- The same stream, whose peer closes it behind the header.
abbrev closing : Socket World
closing = scripted stream (λ n pos. min n (5 - pos)) (λ n pos. omega arith)

abbrev start : World
start = (0, [])

abbrev empty : Ringbuffer
empty = record { buffer = replicate 16 0; head = 3; tail = 3; max = 16; full = false }

-- The ring with a header in it.
abbrev head_read : Ringbuffer
head_read = record {
  buffer = 0 ∷ 0 ∷ 0 ∷ 7 ∷ 0 ∷ 0 ∷ 0 ∷ 9 ∷ 0 ∷ 0 ∷ 0 ∷ 0 ∷ 0 ∷ 0 ∷ 0 ∷ 0 ∷ [];
  head = 8;
  tail = 3;
  max = 16;
  full = false;
}

empty-IsValid : IsValid empty
empty-IsValid = ground arith

head_read-IsValid : IsValid head_read
head_read-IsValid = ground arith

recv_packet_nine :
    recv_packet talking untouched 2 empty start
    ≡ returns (
      packet 7 (record { size = 9; pos = 0; data_ = 7 ∷ 0 ∷ 0 ∷ 0 ∷ 9 ∷ 1 ∷ 2 ∷ 3 ∷ 4 ∷ [] }),
      (9, []),
    )
unfolding recv_packet recv_body header_loop body_loop pops filled recvbytes recvbytes_from received
    slice scripted bulk_push pop size buffer_init
recv_packet_nine = refl

talking-IsEager : IsEager talking
unfolding scripted
talking-IsEager n w h = omega (arith, length-slice stream w.0 (min n 3))

recv_packet_lem_example :
    (head : List ℕ) × ((r1 : Ringbuffer) × ((w1 : World) × (recvbytes talking empty headlen start
          ≡ some (total headlen, r1, w1))
        × (contents r1 ≡ head)))
    × (length head ≡ headlen)
    × ((declared head < headlen)
        ⊎ ((empty.max + headlen < declared head)
            ⊎ Framed talking untouched (recv_packet talking untouched 2 empty start) start head))
unfolding size
recv_packet_lem_example =
    recv_packet_lem talking talking-IsEager untouched 0 empty start empty-IsValid refl (omega arith)
      (omega arith)

abbrev IsOver : World → Type 0
IsOver w = 5 ≤ w.0

closing-IsClosed : IsClosed closing IsOver
unfolding scripted slice
closing-IsClosed = record {
  ended = λ n w h.
      let none_left : min n (5 - w.0) ≡ 0 = omega arith in
      ap (λ k. got (slice stream w.0 k)) none_left;
  stays = λ n w h. omega arith;
}

recv_packet_spins_example : recv_packet closing untouched 1000 empty start ≡ out_of_fuel
unfolding recvbytes recvbytes_from received slice scripted bulk_push size
recv_packet_spins_example =
    recv_packet_spins closing IsOver untouched 998 empty head_read start (5, []) closing-IsClosed
      refl head_read-IsValid refl (omega arith) (omega arith) (omega arith)

recv_packet_undefined_example : recv_packet cut untouched 2 empty start ≡ undefined
unfolding recvbytes received cut size
recv_packet_undefined_example =
    recv_packet_undefined cut untouched 0 empty empty start start refl empty-IsValid refl

-- A PINGREQ packet, and an UNSUBSCRIBE packet of the topic "a".
abbrev ping : Buffer
ping = record { size = 8; pos = 0; data_ = 0xC0 ∷ 0 ∷ 0 ∷ 0 ∷ 8 ∷ 0 ∷ 0 ∷ 0 ∷ [] }

abbrev leave : Buffer
leave = record { size = 8; pos = 0; data_ = 0xA0 ∷ 0 ∷ 0 ∷ 0 ∷ 8 ∷ 0 ∷ 1 ∷ 97 ∷ [] }

request-ping : request Opcode.pingreq ping ≡ some (called (pingreq_handler ∷ []))
unfolding request unpack_packet unpack_ack unpack_header read_uint8 read_uint16 read_uint32 matching
    byte bytes
request-ping = refl

request_lem_example : request Opcode.unsubscribe leave ≡ some rejected
unfolding unpack_packet
request_lem_example = request_lem Opcode.unsubscribe leave absent refl

-- A client with no address, whose SUBACK is still to be sent.
abbrev leaving : ClientBlock
leaving = record {
  self = 4;
  id = some 0;
  reply = some (record {
    self = 1;
    opcode = Opcode.suback;
    body = payload (record { self = 2; bytes = 3 });
  });
  addr = none;
}

abbrev five_blocks : Memory
five_blocks = true ∷ true ∷ true ∷ true ∷ true ∷ []

free_client_lem_example :
    Freed five_blocks
      (owned_client leaving)
      (λ m. (true, m))
      (memory_of (free_client (some leaving) five_blocks))
free_client_lem_example =
    let below : (a b : ℕ) → a < b → a ≢ b = λ a b h e. omega (arith, h, e) in
    let above : (a b : ℕ) → b < a → a ≢ b = λ a b h e. omega (arith, h, e) in
    free_client_lem leaving five_blocks refl (
      refl,
      (
        below 0 3 (omega arith),
        (below 0 2 (omega arith), (below 0 1 (omega arith), (below 0 4 (omega arith), tt))),
      ),
      (
        refl,
        (above 3 2 (omega arith), (above 3 1 (omega arith), (below 3 4 (omega arith), tt))),
        (
          refl,
          (above 2 1 (omega arith), (below 2 4 (omega arith), tt)),
          (refl, (below 1 4 (omega arith), tt), (refl, tt, tt)),
        ),
      ),
    )
