-- ===== src/Network/Tests.antt =====
-- The loops of src/network.c over a given stream.
use sizigy.Base.{ℕ, ◌-◌, true, ◌+◌, ◌≡◌, refl, false, some, [], ◌∷◌, min, arith}
use sizigy.Ring.{Ringbuffer, ok, failed, bulk_push, size}
use sizigy.Ring.Valid.{IsValid}
use sizigy.Network.{
  Socket, total, recvbytes, recvall, sendall, received, recvbytes_from, sendall_from, taken,
}
use sizigy.Network.Scripted.{World, slice, length-slice, scripted, cut}
use sizigy.Network.Recv.{Reads, recvbytes_lem}
use sizigy.Network.Drain.{IsFinite, recvall_lem}
use sizigy.Network.Send.{Sends, sendall_lem}

-- Three bytes at a time of 10, 11, 12, …
abbrev socket : Socket World
socket = scripted (λ i. i + 10) (λ n pos. min n 3) (λ n pos. omega arith)

abbrev start : World
start = (0, 1 ∷ [])

-- A byte is in the ring already, at the end of the storage.
abbrev ring : Ringbuffer
ring = record {
  buffer = 0 ∷ 0 ∷ 0 ∷ 0 ∷ 0 ∷ 0 ∷ 0 ∷ 9 ∷ [];
  head = 0;
  tail = 7;
  max = 8;
  full = false;
}

ring-IsValid : IsValid ring
ring-IsValid = ground arith

recvbytes_five :
    recvbytes socket ring 5 start
    ≡ some (
      total 5,
      record {
        buffer = 10 ∷ 11 ∷ 12 ∷ 13 ∷ 14 ∷ 0 ∷ 0 ∷ 9 ∷ [];
        head = 5;
        tail = 7;
        max = 8;
        full = false;
      },
      (5, 1 ∷ []),
    )
unfolding recvbytes recvbytes_from received slice bulk_push scripted
recvbytes_five = refl

recvbytes_lem_example : Reads socket true (recvbytes socket ring 5 start) ring start 0 5
unfolding size
recvbytes_lem_example = recvbytes_lem socket ring 5 start ring-IsValid (omega arith) (omega arith)

sendall_five :
    sendall socket (5 ∷ 6 ∷ 7 ∷ 8 ∷ 9 ∷ []) start ≡ some (ok, 5, (0, 1 ∷ 5 ∷ 6 ∷ 7 ∷ 8 ∷ 9 ∷ []))
unfolding sendall sendall_from taken scripted cut
sendall_five = refl

sendall-cut : sendall cut (5 ∷ []) start ≡ some (failed, 0, start)
unfolding sendall sendall_from taken scripted cut
sendall-cut = refl

sendall_lem_example : Sends socket (sendall socket (5 ∷ 6 ∷ 7 ∷ []) start) (1 ∷ []) (5 ∷ 6 ∷ 7 ∷ [])
unfolding scripted
sendall_lem_example = sendall_lem socket (5 ∷ 6 ∷ 7 ∷ []) start (omega arith)

-- A stream of five bytes, and what is left of it at a place.
abbrev short : Socket World
short = scripted (λ i. i + 10) (λ n pos. min n (5 - pos)) (λ n pos. omega arith)

abbrev left : World → ℕ
left w = 5 - w.0

short-IsFinite : IsFinite short left
unfolding scripted
short-IsFinite n w = omega (arith, length-slice (λ i. i + 10) w.0 (min n (5 - w.0)))

recvall_lem_example : Reads short false (recvall short 6 ring 0 start) ring start 0 5
unfolding size
recvall_lem_example =
    recvall_lem short left ring 0 start short-IsFinite ring-IsValid (omega arith) (omega arith)
      (omega arith)
