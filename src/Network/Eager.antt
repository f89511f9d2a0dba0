-- ===== src/Network/Eager.antt =====
-- recvbytes on a socket whose peer keeps sending.
use mathlib.Core.Path.{subst}
use sizigy.Base.{
  ℕ, true, zero, suc, ◌+◌, ◌-◌, ◌^◌, ◌<◌, ◌≤◌, ◌≡◌, inl, inr, sym, ap, ◌∙◌, Option, none, some, [],
  ◌∷◌, length, lt-or-le, arith,
}
use sizigy.Ring.{Ringbuffer, bulk_push, size}
use sizigy.Ring.Valid.{IsValid}
use sizigy.Network.{
  Socket, Received, got, would_block, broken, bytes_of, received, Result, total, error,
  recvbytes_from, recvbytes, within_fits,
}
use sizigy.Network.Recv.{
  Reads, IsVerdict, Last, recvbytes_from_more, recvbytes_from_done, recvbytes_lem,
}

-- Every `recv` that asks for a byte gets one.
abbrev pub IsEager : {W : Type 0} → Socket W → Type 0
IsEager {W} socket = (n : ℕ) (w : W) → 0 < n → 0 < length (bytes_of (socket.recv n w).0)

module _ {W : Type 0} where
  abbrev ReturnsTotal : ℕ → Option (Result × Ringbuffer × W) → Type 0
  ReturnsTotal n run = (r : Ringbuffer) × ((w : W) × (run ≡ some (total n, r, w)))

  received-total :
      (n : ℕ) (loop : ℕ → Ringbuffer → W → Option (Result × Ringbuffer × W)) (sum : ℕ)
      (r : Ringbuffer) (answer : Received × W)
      → sum + length (bytes_of answer.0) < 2 ^ 31
      → 0 < length (bytes_of answer.0)
      → ReturnsTotal n
          (loop (sum + length (bytes_of answer.0)) (bulk_push r (bytes_of answer.0)).1 answer.1)
      → ReturnsTotal n (received loop sum r answer)
  unfolding received
  received-total n loop sum r (would_block, w) fits h next = absurd (omega arith)
  received-total n loop sum r (broken, w) fits h next = absurd (omega arith)
  received-total n loop sum r (got [], w) fits h next = absurd (omega arith)
  received-total n loop sum r (got (x ∷ xs), w) fits h next =
      subst (ReturnsTotal n) (sym (within_fits (sum + length (x ∷ xs)) _ fits)) next

  abbrev result_of : Option (Result × Ringbuffer × W) → Result
  result_of none = error
  result_of (some (result, r, w)) = result

abbrev number_of : Result → ℕ
number_of (total n) = n
number_of error = 0

no_answer :
    (answer : Received) (k : ℕ) (result : Result)
    → 0 < length (bytes_of answer)
    → IsVerdict answer k result
    → ⊥
no_answer (got []) k result h v = omega (arith, h)
no_answer (got (x ∷ xs)) k result h v = v
no_answer would_block k result h v = omega (arith, h)
no_answer broken k result h v = omega (arith, h)

-- The last call of an eager socket's run does not end it.
spoken :
    {W : Type 0} (socket : Socket W) (eager : IsEager socket) {world : W} {k : ℕ} {result : Result}
    → Last socket world k result
    → ⊥
spoken socket eager {world} {k} {result} last =
    no_answer last.answer k result
      (subst (λ a. 0 < length (bytes_of a.0)) last.call (eager last.asked last.before last.asks))
      last.verdict

module _ {W : Type 0} (socket : Socket W) (eager : IsEager socket) where
  recvbytes_from-total :
      (fuel sum : ℕ) (r : Ringbuffer) (bufsize : ℕ) (w : W)
      → sum ≤ bufsize
      → bufsize < sum + fuel
      → bufsize < 2 ^ 31
      → ReturnsTotal bufsize (recvbytes_from socket fuel sum r bufsize w)
  recvbytes_from-total zero sum r bufsize w h enough bound = absurd (omega arith)
  recvbytes_from-total (suc fuel) sum r bufsize w h enough bound = elim (lt-or-le sum bufsize) [
    | inl more ↦
        let answer = socket.recv (bufsize - sum) w in
        let some_bytes = eager (bufsize - sum) w (omega arith) in
        let most = socket.recv_most (bufsize - sum) w in
        subst (ReturnsTotal bufsize)
          (sym (recvbytes_from_more socket fuel sum r bufsize w (ground arith)))
          (received-total bufsize _ sum r answer (omega arith) some_bytes (
            recvbytes_from-total fuel (sum + length (bytes_of answer.0)) _ bufsize answer.1
              (omega arith) (omega arith) bound))
    | inr done ↦ (
      r,
      (
        w,
        recvbytes_from_done socket fuel sum r bufsize w (ground arith)
            ∙ ap (λ k. some (total k, r, w)) (omega arith),
      ),
    )
  ]

  -- recvbytes fills its order.
  pub recvbytes-total :
      (r : Ringbuffer) (bufsize : ℕ) (w : W)
      → IsValid r
      → bufsize < 2 ^ 31
      → size r + bufsize ≤ r.max
      → 0 < bufsize
      → (reads : Reads socket true (recvbytes socket r bufsize w) r w 0 bufsize) × (reads.result
          ≡ total bufsize)
        × (length reads.chunk_read ≡ bufsize)
  unfolding recvbytes
  recvbytes-total r bufsize w v bound room pos =
      let reads = recvbytes_lem socket r bufsize w v bound room in
      let (r', (w', run)) =
        recvbytes_from-total (suc bufsize) 0 r bufsize w (omega arith) (omega arith) bound in
      let same : reads.result ≡ total bufsize = ap result_of (sym reads.returns ∙ run) in
      let number : (number_of reads.result ≡ bufsize) = ap number_of same in
      (
        reads,
        same,
        elim reads.means [
          | inl (counts, all, exact) ↦ omega (arith, all)
          | inr last ↦ absurd (spoken socket eager last)
        ],
      )
