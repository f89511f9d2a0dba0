-- ===== src/Network/Recv.antt =====
-- What recvbytes leaves in the ring buffer.
use mathlib.Core.Path.{subst}
use sizigy.Base.{
  ℕ, zero, suc, ◌+◌, ◌-◌, ◌^◌, ◌<◌, ◌≤◌, ◌≡◌, ◌⊎◌, inl, inr, refl, sym, ap, ◌∙◌, Bool, true, false,
  Option, some, List, [], ◌∷◌, ◌++◌, ltb, length, length-append, append-nil, append_assoc, take_all,
  lt-or-le, arith,
}
use sizigy.Ring.{Ringbuffer, bulk_push, size}
use sizigy.Ring.Valid.{IsValid, bulk_push-IsValid}
use sizigy.Ring.Window.{contents, length-contents}
use sizigy.Ring.Bulk.{bulk_push_refines, max-bulk_push}
use sizigy.Ring.Fifo
use sizigy.Network.{
  Socket, Received, got, would_block, broken, received, bytes_of, Result, total, error,
  recvbytes_from, recvbytes, within_fits,
}

-- A bulk push that fits puts every byte in.
pub contents-bulk_push :
    {r : Ringbuffer} (xs : List ℕ)
    → IsValid r
    → length (contents r) + length xs ≤ r.max
    → contents (bulk_push r xs).1 ≡ contents r ++ xs
unfolding Fifo.bulk_push
contents-bulk_push {r} xs v room =
    ap (λ p. p.1) (bulk_push_refines xs v)
    ∙ ap (λ t. contents r ++ t) (take_all (r.max - length (contents r)) xs (omega arith))

-- What an answer that stores nothing makes of a run that has read `k` bytes.
abbrev pub IsVerdict : Received → ℕ → Result → Type 0
IsVerdict would_block k result = result ≡ total k
IsVerdict broken k result = result ≡ error
IsVerdict (got []) k result = result ≡ total 0
IsVerdict (got (x ∷ xs)) k result = ⊥

-- The last call of `recv`, for a byte at least, which left the world as it is and gave the result.
pub record Last {W : Type 0} (socket : Socket W) (world : W) (k : ℕ) (result : Result)
    : Type 0 where
  pub asked : ℕ
  pub before : W
  pub answer : Received
  pub asks : 0 < asked
  pub call : socket.recv asked before ≡ (answer, world)
  pub verdict : IsVerdict answer k result

-- How a run ends that has read `k` bytes: with as many as were wanted, where it counts them, or by the
-- answer of a `recv`.
abbrev pub Ending : {W : Type 0} → Socket W → Bool → W → ℕ → ℕ → Result → Type 0
Ending socket counts world k wanted result =
    ((counts ≡ true) × (k ≡ wanted) × (result ≡ total k)) ⊎ Last socket world k result

-- A run of recvbytes from a total on: some bytes came, and the ring holds them behind the old ones.
pub record Reads {W : Type 0} (socket : Socket W) (counts : Bool)
    (run : Option (Result × Ringbuffer × W)) (r : Ringbuffer) (w : W) (sum bufsize : ℕ)
    : Type 0 where
  pub chunk_read : List ℕ
  pub result : Result
  pub ring : Ringbuffer
  pub world : W
  pub returns : run ≡ some (result, ring, world)
  pub stored : contents ring ≡ contents r ++ chunk_read
  pub moved : socket.delivered world ≡ socket.delivered w ++ chunk_read
  pub most : sum + length chunk_read ≤ bufsize
  pub ring_IsValid : IsValid ring
  pub ring_max : ring.max ≡ r.max
  pub means : Ending socket counts world (sum + length chunk_read) bufsize result

module _ {W : Type 0} (socket : Socket W) (counts : Bool) (r : Ringbuffer) (w : W)
    (sum bufsize : ℕ) where
  abbrev Runs : Option (Result × Ringbuffer × W) → Type 0
  Runs run = Reads socket counts run r w sum bufsize

  -- A run that stops with nothing read.
  stops :
      (result : Result) (w' : W)
      → IsValid r
      → sum ≤ bufsize
      → socket.delivered w' ≡ socket.delivered w ++ []
      → Ending socket counts w' (sum + 0) bufsize result
      → Runs (some (result, r, w'))
  stops result w' v h same means = record {
    chunk_read = [];
    result = result;
    ring = r;
    world = w';
    returns = refl;
    stored = sym (append-nil _);
    moved = same;
    most = omega arith;
    ring_IsValid = v;
    ring_max = refl;
    means = means;
  }

  -- A chunk that was read, and the rounds after it.
  continues :
      (chunk : List ℕ) (w' : W) (run : Option (Result × Ringbuffer × W))
      → IsValid r
      → length (contents r) + length chunk ≤ r.max
      → socket.delivered w' ≡ socket.delivered w ++ chunk
      → Reads socket counts run (bulk_push r chunk).1 w' (sum + length chunk) bufsize
      → Runs run
  continues chunk w' run v room came reads = record {
    chunk_read = chunk ++ reads.chunk_read;
    result = reads.result;
    ring = reads.ring;
    world = reads.world;
    returns = reads.returns;
    stored =
        reads.stored
        ∙ ap (λ t. t ++ reads.chunk_read) (contents-bulk_push chunk v room)
        ∙ append_assoc (contents r) chunk reads.chunk_read;
    moved =
        reads.moved
        ∙ ap (λ t. t ++ reads.chunk_read) came
        ∙ append_assoc (socket.delivered w) chunk reads.chunk_read;
    most = omega (arith, reads.most, length-append chunk reads.chunk_read);
    ring_IsValid = reads.ring_IsValid;
    ring_max = reads.ring_max ∙ max-bulk_push r chunk;
    means =
        subst (λ k. Ending socket counts reads.world k bufsize reads.result)
          (omega (arith, length-append chunk reads.chunk_read)) reads.means;
  }

module _ {W : Type 0} (socket : Socket W) where
  pub received_lem :
      (counts : Bool) (loop : ℕ → Ringbuffer → W → Option (Result × Ringbuffer × W)) (sum : ℕ)
      (r : Ringbuffer) (bufsize asked : ℕ) (w : W) (answer : Received × W)
      → bufsize < 2 ^ 31
      → 0 < asked
      → socket.recv asked w ≡ answer
      → IsValid r
      → sum + length (bytes_of answer.0) ≤ bufsize
      → length (contents r) + length (bytes_of answer.0) ≤ r.max
      → socket.delivered answer.1 ≡ socket.delivered w ++ bytes_of answer.0
      → (0 < length (bytes_of answer.0)
          → Reads socket counts
              (loop (sum + length (bytes_of answer.0)) (bulk_push r (bytes_of answer.0)).1 answer.1)
              (bulk_push r (bytes_of answer.0)).1
              answer.1
              (sum + length (bytes_of answer.0))
              bufsize)
      → Reads socket counts (received loop sum r answer) r w sum bufsize
  unfolding received
  received_lem counts loop sum r bufsize asked w (would_block, w') bound asks call v h room came
        next =
      stops socket counts r w sum bufsize (total sum) w' v (omega arith) came (
        inr (record {
          asked = asked;
          before = w;
          answer = would_block;
          asks = asks;
          call = call;
          verdict = ap total (omega arith);
        }))
  received_lem counts loop sum r bufsize asked w (broken, w') bound asks call v h room came next =
      stops socket counts r w sum bufsize error w' v (omega arith) came (
        inr (record {
          asked = asked;
          before = w;
          answer = broken;
          asks = asks;
          call = call;
          verdict = refl;
        }))
  received_lem counts loop sum r bufsize asked w (got [], w') bound asks call v h room came next =
      stops socket counts r w sum bufsize (total 0) w' v (omega arith) came (
        inr (record {
          asked = asked;
          before = w;
          answer = got [];
          asks = asks;
          call = call;
          verdict = refl;
        }))
  received_lem counts loop sum r bufsize asked w (got (x ∷ xs), w') bound asks call v h room came
        next =
      subst (λ run. Reads socket counts run r w sum bufsize)
        (sym (within_fits (sum + length (x ∷ xs)) _ (omega arith)))
        (continues socket counts r w sum bufsize (x ∷ xs) w' _ v room came (next (omega arith)))

  pub recvbytes_from_more :
      (fuel sum : ℕ) (r : Ringbuffer) (bufsize : ℕ) (w : W)
      → ltb sum bufsize ≡ true
      → recvbytes_from socket (suc fuel) sum r bufsize w
        ≡ received
            (λ sum' r' w'. recvbytes_from socket fuel sum' r' bufsize w')
            sum
            r
            (socket.recv (bufsize - sum) w)
  unfolding recvbytes_from
  recvbytes_from_more fuel sum r bufsize w more =
      ap
        (λ b. elim b [
          | false ↦ some (total sum, r, w)
          | true ↦
              received (λ sum' r' w'. recvbytes_from socket fuel sum' r' bufsize w') sum r
                (socket.recv (bufsize - sum) w)
        ])
        more

  pub recvbytes_from_done :
      (fuel sum : ℕ) (r : Ringbuffer) (bufsize : ℕ) (w : W)
      → ltb sum bufsize ≡ false
      → recvbytes_from socket (suc fuel) sum r bufsize w ≡ some (total sum, r, w)
  unfolding recvbytes_from
  recvbytes_from_done fuel sum r bufsize w done =
      ap
        (λ b. elim b [
          | false ↦ some (total sum, r, w)
          | true ↦
              received (λ sum' r' w'. recvbytes_from socket fuel sum' r' bufsize w') sum r
                (socket.recv (bufsize - sum) w)
        ])
        done

  recvbytes_from_lem :
      (fuel sum : ℕ) (r : Ringbuffer) (bufsize : ℕ) (w : W)
      → IsValid r
      → sum ≤ bufsize
      → bufsize < sum + fuel
      → bufsize < 2 ^ 31
      → length (contents r) + (bufsize - sum) ≤ r.max
      → Reads socket true (recvbytes_from socket fuel sum r bufsize w) r w sum bufsize
  recvbytes_from_lem zero sum r bufsize w v h enough bound room = absurd (omega arith)
  recvbytes_from_lem (suc fuel) sum r bufsize w v h enough bound room =
      elim (lt-or-le sum bufsize) [
        | inl more ↦
            let answer = socket.recv (bufsize - sum) w in
            let chunk = bytes_of answer.0 in
            let most = socket.recv_most (bufsize - sum) w in
            let more' : ltb sum bufsize ≡ true = ground arith in
            subst (λ run. Reads socket true run r w sum bufsize)
              (sym (recvbytes_from_more fuel sum r bufsize w more'))
              (received_lem true _ sum r bufsize (bufsize - sum) w answer bound (omega arith) refl v
                (omega arith) (omega arith) (socket.recv_delivers (bufsize - sum) w)
                (λ some_bytes.
                  recvbytes_from_lem fuel (sum + length chunk) (bulk_push r chunk).1 bufsize
                    answer.1 (bulk_push-IsValid chunk v) (omega arith) (omega arith) bound
                    (omega (
                      arith,
                      max-bulk_push r chunk,
                      ap length (contents-bulk_push chunk v (omega arith)),
                      length-append (contents r) chunk,
                    ))))
        | inr done ↦
            let done' : ltb sum bufsize ≡ false = ground arith in
            subst (λ run. Reads socket true run r w sum bufsize)
              (sym (recvbytes_from_done fuel sum r bufsize w done'))
              (stops socket true r w sum bufsize (total sum) w v h (sym (append-nil _))
                (inl (refl, omega arith, ap total (omega arith))))
      ]

  -- recvbytes, on a valid ring with room for `bufsize` bytes, fewer than 2^31, and a socket, returns. It
  -- moves some bytes of the stream, `bufsize` at most, behind those that the ring holds, loses none, and
  -- leaves the ring valid. Its result is their number if they are `bufsize`, or if the last `recv` would
  -- block; 0 if the last `recv` came to the end of the stream; and -1 if it failed otherwise.
  pub recvbytes_lem :
      (r : Ringbuffer) (bufsize : ℕ) (w : W)
      → IsValid r
      → bufsize < 2 ^ 31
      → size r + bufsize ≤ r.max
      → Reads socket true (recvbytes socket r bufsize w) r w 0 bufsize
  unfolding recvbytes
  recvbytes_lem r bufsize w v bound room =
      recvbytes_from_lem (suc bufsize) 0 r bufsize w v (omega arith) (omega arith) bound
        (omega (arith, length-contents r))
