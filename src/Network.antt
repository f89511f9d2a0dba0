-- ===== src/Network.antt =====
-- src/network.c: the loops that move bytes between a socket and memory. The calls `send` and `recv`
-- of the operating system are parameters.
pub mod Recv
pub mod Send
pub mod Drain
pub mod Willing
pub mod Eager
pub mod Listen
pub mod Ledger
pub mod Scripted
mod Tests
mod Booked
use sizigy.Base.{
  ℕ, zero, suc, ◌+◌, ◌-◌, ◌^◌, ◌<◌, ◌≤◌, ◌≡◌, Bool, true, false, Option, none, some, List, [], ◌∷◌,
  ◌++◌, ◌==◌, ltb, length, take, drop, refl, arith,
}
use sizigy.Ring.{Ringbuffer, Code, ok, failed, bulk_push}

-- What a `recv` gives: the bytes it stored, an EAGAIN or EWOULDBLOCK, or another error.
pub data Received : Type 0 where
  got : List ℕ → Received
  would_block broken : Received

-- What a `send` gives: the number of bytes taken, or -1.
pub data Accepted : Type 0 where
  accepted : ℕ → Accepted
  refused : Accepted

-- An `int` result: a count, or -1.
pub data Result : Type 0 where
  total : ℕ → Result
  error : Result

-- A run whose `int total` is `k`; beyond the range of an `int` the addition is undefined, which is `none`.
unfoldable pub within : {A : Type 0} → ℕ → Option A → Option A
within k run = elim (ltb k (2 ^ 31)) [ true ↦ run | false ↦ none ]

abbrev pub bytes_of : Received → List ℕ
bytes_of (got bytes) = bytes
bytes_of would_block = []
bytes_of broken = []

abbrev pub count_of : Accepted → ℕ
count_of (accepted n) = n
count_of refused = 0

abbrev pub IsProgress : Accepted → Type 0
IsProgress (accepted n) = 0 < n
IsProgress refused = 0 ≤ 0

-- A connected stream socket and what its calls document: `recv` stores the next bytes of the stream,
-- as many as asked for at most; `send` takes a prefix of its argument, which is not empty when the
-- argument is not.
pub record Socket (W : Type 0) : Type 0 where
  pub recv : ℕ → W → Received × W
  pub send : List ℕ → W → Accepted × W
  pub delivered : W → List ℕ
  pub sent : W → List ℕ
  pub recv_most : (n : ℕ) (w : W) → length (bytes_of (recv n w).0) ≤ n
  pub recv_delivers :
      (n : ℕ) (w : W) → delivered (recv n w).1 ≡ delivered w ++ bytes_of (recv n w).0
  pub send_most : (bytes : List ℕ) (w : W) → count_of (send bytes w).0 ≤ length bytes
  pub send_some : (bytes : List ℕ) (w : W) → 0 < length bytes → IsProgress (send bytes w).0
  pub send_sends :
      (bytes : List ℕ) (w : W)
      → sent (send bytes w).1 ≡ sent w ++ take (count_of (send bytes w).0) bytes

within_case :
    {A : Type 0} (P : Option A → Type 0) (b : Bool) (run : Option A)
    → P none
    → P run
    → P (elim b as (λ x. Option A) [ true ↦ run | false ↦ none ])
within_case P true run h g = g
within_case P false run h g = h

pub within_fits : {A : Type 0} → (k : ℕ) (run : Option A) → k < 2 ^ 31 → within k run ≡ run
unfolding within
within_fits k run h = let fits : ltb k (2 ^ 31) ≡ true = ground arith in rw (within, fits) refl

-- What holds of `none` and of the run.
pub within-cases :
    {A : Type 0} (P : Option A → Type 0) (k : ℕ) (run : Option A)
    → P none
    → P run
    → P (within k run)
unfolding within
within-cases P k run h g = within_case P (ltb k (2 ^ 31)) run h g

module _ {W : Type 0} where
  -- A round of recvbytes after its call of recv; `loop` is the next round.
  unfoldable pub received :
      (ℕ → Ringbuffer → W → Option (Result × Ringbuffer × W))
      → ℕ
      → Ringbuffer
      → Received × W
      → Option (Result × Ringbuffer × W)
  unfolding within
  received loop sum r (would_block, w) = some (total sum, r, w)
  received loop sum r (broken, w) = some (error, r, w)
  received loop sum r (got [], w) = some (total 0, r, w)
  received loop sum r (got (x ∷ xs), w) =
      within (sum + length (x ∷ xs)) (loop (sum + length (x ∷ xs)) (bulk_push r (x ∷ xs)).1 w)

  -- A round of sendall after its call of send; `loop` is the next round.
  unfoldable pub taken : (ℕ → W → Option (Code × ℕ × W)) → ℕ → Accepted × W → Option (Code × ℕ × W)
  unfolding within
  taken loop sum (refused, w) = some (failed, sum, w)
  taken loop sum (accepted n, w) = within (sum + n) (loop (sum + n) w)

module _ {W : Type 0} (socket : Socket W) where
  -- The loop of recvbytes from a total on; `none` where the fuel is used up or `total` overflows.
  unfoldable pub recvbytes_from : ℕ → ℕ → Ringbuffer → ℕ → W → Option (Result × Ringbuffer × W)
  recvbytes_from zero sum r bufsize w = none
  recvbytes_from (suc fuel) sum r bufsize w = elim (ltb sum bufsize) [
    | false ↦ some (total sum, r, w)
    | true ↦
        received (λ sum' r' w'. recvbytes_from fuel sum' r' bufsize w') sum r
          (socket.recv (bufsize - sum) w)
  ]

  -- Every round but the last reads a byte.
  unfoldable pub recvbytes : Ringbuffer → ℕ → W → Option (Result × Ringbuffer × W)
  unfolding recvbytes_from
  recvbytes r bufsize w = recvbytes_from (suc bufsize) 0 r bufsize w

  -- The loop of sendall from a total on; the pair is the result and what is stored in `*sent`.
  unfoldable pub sendall_from : ℕ → ℕ → List ℕ → W → Option (Code × ℕ × W)
  sendall_from zero sum buf w = none
  sendall_from (suc fuel) sum buf w = elim (ltb sum (length buf)) [
    | false ↦ some (ok, sum, w)
    | true ↦ taken (λ sum' w'. sendall_from fuel sum' buf w') sum (socket.send (drop sum buf) w)
  ]

  unfoldable pub sendall : List ℕ → W → Option (Code × ℕ × W)
  unfolding sendall_from
  sendall buf w = sendall_from (suc (length buf)) 0 buf w

  -- The loop of recvall from a total on; a round ends as one of recvbytes does.
  unfoldable pub recvall_from : ℕ → ℕ → Ringbuffer → ℕ → W → Option (Result × Ringbuffer × W)
  recvall_from zero sum r bufsize w = none
  recvall_from (suc fuel) sum r bufsize w =
      received (λ sum' r' w'. recvall_from fuel sum' r' bufsize w') sum r
        (socket.recv (bufsize - 1) w)

  -- `bufsize` is an `int` as well.
  unfoldable pub recvall : ℕ → Ringbuffer → ℕ → W → Option (Result × Ringbuffer × W)
  unfolding recvall_from within
  recvall fuel r len w = elim (ltb 0 len) [
    | true ↦ within (len + 1) (recvall_from fuel 0 r (len + 1) w)
    | false ↦ recvall_from fuel 0 r 256 w
  ]
