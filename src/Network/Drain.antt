-- ===== src/Network/Drain.antt =====
-- recvall on a stream that comes to an end.
use mathlib.Core.Path.{subst}
use sizigy.Base.{
  sym, ℕ, zero, suc, ◌+◌, ◌-◌, ◌^◌, ◌<◌, ◌≤◌, ◌≡◌, refl, true, false, ltb, inl, inr, lt-or-le, ap,
  length, length-append, arith,
}
use sizigy.Ring.{Ringbuffer, size, bulk_push}
use sizigy.Ring.Valid.{IsValid, bulk_push-IsValid}
use sizigy.Ring.Window.{contents, length-contents}
use sizigy.Ring.Bulk.{max-bulk_push}
use sizigy.Network.{Socket, bytes_of, recvall_from, recvall, within_fits}
use sizigy.Network.Recv.{Reads, received_lem, contents-bulk_push}

-- `left w` bounds the bytes that are still to come.
abbrev pub IsFinite : {W : Type 0} → Socket W → (W → ℕ) → Type 0
IsFinite {W} socket left =
    (n : ℕ) (w : W) → left (socket.recv n w).1 + length (bytes_of (socket.recv n w).0) ≤ left w

module _ {W : Type 0} (socket : Socket W) (left : W → ℕ) (finite : IsFinite socket left) where
  recvall_from_lem :
      (fuel sum most : ℕ) (r : Ringbuffer) (bufsize : ℕ) (w : W)
      → IsValid r
      → left w < fuel
      → sum + left w ≤ most
      → most < 2 ^ 31
      → 1 < bufsize
      → length (contents r) + left w ≤ r.max
      → Reads socket false (recvall_from socket fuel sum r bufsize w) r w sum most
  unfolding recvall_from
  recvall_from_lem zero sum most r bufsize w v enough bound small some_ room = absurd (omega arith)
  recvall_from_lem (suc fuel) sum most r bufsize w v enough bound small some_ room =
      let answer = socket.recv (bufsize - 1) w in
      let chunk = bytes_of answer.0 in
      let fewer = finite (bufsize - 1) w in
      received_lem socket false _ sum r most (bufsize - 1) w answer small (omega arith) refl v
        (omega arith) (omega arith) (socket.recv_delivers (bufsize - 1) w)
        (λ some_bytes.
          recvall_from_lem fuel (sum + length chunk) most (bulk_push r chunk).1 bufsize answer.1
            (bulk_push-IsValid chunk v) (omega arith) (omega arith) small some_
            (omega (
              arith,
              max-bulk_push r chunk,
              ap length (contents-bulk_push chunk v (omega arith)),
              length-append (contents r) chunk,
            )))

-- recvall, on a valid ring with room for all that the stream has left, fewer than 2^31 bytes, with a
-- `len` below 2^31 - 1 and with fuel for one round more than there are bytes, returns. It moves some
-- bytes of the stream behind those that the ring holds, loses none, and leaves the ring valid. Its
-- result is their number if the last `recv` would block, 0 if it came to the end of the stream, and -1
-- if it failed otherwise.
pub recvall_lem :
    {W : Type 0} (socket : Socket W) (left : W → ℕ) (r : Ringbuffer) (len : ℕ) (w : W)
    → IsFinite socket left
    → IsValid r
    → left w < 2 ^ 31
    → len + 1 < 2 ^ 31
    → size r + left w ≤ r.max
    → Reads socket false (recvall socket (suc (left w)) r len w) r w 0 (left w)
unfolding recvall
recvall_lem socket left r len w finite v small fits room =
    let runs = λ (bufsize : ℕ) (some_ : 1 < bufsize).
      recvall_from_lem socket left finite (suc (left w)) 0 (left w) r bufsize w v (omega arith)
        (omega arith) small some_ (omega (arith, length-contents r)) in
    elim (lt-or-le 0 len) [
      | inl more ↦
          let more' : ltb 0 len ≡ true = ground arith in
          subst (λ run. Reads socket false run r w 0 (left w))
            (sym (
              rw (recvall, more')
                (within_fits (len + 1) (recvall_from socket (suc (left w)) 0 r (len + 1) w) fits)))
            (runs (len + 1) (omega arith))
      | inr none_ ↦
          let none' : ltb 0 len ≡ false = ground arith in
          rw (recvall, none') (runs 256 (omega arith))
    ]
