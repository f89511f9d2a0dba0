-- ===== src/Server/Receive.antt =====
-- recv_packet of src/server.c.
use sizigy.Base.{
  ℕ, zero, suc, ◌+◌, ◌-◌, ◌%◌, ◌^◌, true, false, Option, none, some, List, [], ◌∷◌, ◌++◌, ◌==◌, ltb,
  drop, get_or,
}
use sizigy.Ring.{Ringbuffer, size, size_mod, pop}
use sizigy.Network.{Socket, Result, total, error, recvbytes}
use sizigy.Buffer.{Buffer, Allocator, buffer_init}
use sizigy.Buffer.Endian.{of_big_endian}

-- A call returns, does something that C leaves undefined, or is cut off by the fuel.
pub data Reception (A : Type 0) : Type 0 where
  returns : A → Reception A
  undefined : Reception A
  out_of_fuel : Reception A

infixl 5 ◌>>=◌
abbrev pub ◌>>=◌ : {A B : Type 0} → Reception A → (A → Reception B) → Reception B
returns a >>= f = f a
undefined >>= f = undefined
out_of_fuel >>= f = out_of_fuel

abbrev pub defined : {A : Type 0} → Option A → Reception A
defined none = undefined
defined (some a) = returns a

-- `NULL`, or the buffer and what is stored in `*opcode`.
pub data Packet : Type 0 where
  null : Packet
  packet : ℕ → Buffer → Packet

abbrev pub headlen : ℕ
headlen = 5

-- An `int` result added to a `size_t`.
abbrev pub as_size : Result → ℕ
as_size (total k) = k
as_size error = size_mod - 1

-- `n` calls of ringbuf_pop. One that stores nothing leaves a byte of the array unwritten.
unfoldable pub pops : ℕ → Ringbuffer → Option (List ℕ × Ringbuffer)
pops zero r = some ([], r)
pops (suc n) r =
    let (code, out, r') = pop r in
    elim out [
      | none ↦ none
      | some x ↦ elim (pops n r') [ none ↦ none | some (xs, r'') ↦ some (x ∷ xs, r'') ]
    ]

-- The length of the packet, behind the opcode.
abbrev pub declared : List ℕ → ℕ
declared head = of_big_endian (drop 1 head)

-- `tlen - HEADLEN` on `uint32_t`
abbrev pub remaining : ℕ → ℕ
remaining tlen = (tlen + 2 ^ 32 - headlen) % 2 ^ 32

-- The new block, filled with the bytes of the packet; a block below 5 bytes is overrun by the header.
unfoldable pub filled : Allocator → List ℕ → List ℕ → Reception Buffer
filled a head rest = elim (ltb (declared head) headlen) [
  | true ↦ undefined
  | false ↦ returns (record (buffer_init a (declared head)) { data_ = head ++ rest })
]

module _ {W : Type 0} (socket : Socket W) where
  -- The first loop; its `n` is a `size_t`, of which `n < 0` never holds. `none` is the return of NULL.
  -- recvbytes has the fuel it needs: where it gives nothing its `int total` has overflowed.
  unfoldable pub header_loop : ℕ → ℕ → Ringbuffer → W → Reception (Option Ringbuffer × W)
  header_loop zero n r w = out_of_fuel
  header_loop (suc fuel) n r w = elim (ltb n headlen) [
    | false ↦ returns (some r, w)
    | true ↦ elim (recvbytes socket r headlen w) [
      | none ↦ undefined
      | some (result, r', w') ↦
          let n' = (n + as_size result) % size_mod in
          elim (n' == 0) [ true ↦ returns (none, w') | false ↦ header_loop fuel n' r' w' ]
    ]
  ]

  -- The second loop, whose test of `n` never holds either.
  unfoldable pub body_loop : ℕ → ℕ → Ringbuffer → W → Reception (Ringbuffer × W)
  body_loop zero need r w = out_of_fuel
  body_loop (suc fuel) need r w = elim (ltb (size r) need) [
    | false ↦ returns (r, w)
    | true ↦ elim (recvbytes socket r need w) [
      | none ↦ undefined
      | some (result, r', w') ↦ body_loop fuel need r' w'
    ]
  ]

  -- recv_packet behind its first loop.
  unfoldable pub recv_body : Allocator → ℕ → Ringbuffer → W → Reception (Packet × W)
  recv_body a fuel r w = do
    (head, r1) ← defined (pops headlen r)
    (r2, w') ← body_loop fuel (remaining (declared head)) r1 w
    (rest, r3) ← defined (pops (remaining (declared head)) r2)
    b ← filled a head rest
    returns (packet (get_or head 0 0) b, w')

  unfoldable pub recv_packet : Allocator → ℕ → Ringbuffer → W → Reception (Packet × W)
  recv_packet a fuel r w = do
    (head, w') ← header_loop fuel 0 r w
    elim head [ none ↦ returns (null, w') | some r' ↦ recv_body a fuel r' w' ]
