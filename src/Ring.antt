-- ===== src/Ring.antt =====
-- src/ringbuf.c: the byte buffer that recvbytes fills and recv_packet empties. A function that
-- changes `*rbuf` returns the new structure beside its result.
pub mod Fifo
pub mod Valid
pub mod Window
pub mod Refine
pub mod Bulk
mod Tests
use sizigy.Base.{
  ℕ, ◌+◌, ◌-◌, ◌%◌, ◌^◌, Bool, true, false, not, ◌&&◌, Option, none, some, List, [], ◌∷◌, ◌==◌, leb,
  if◌then◌else◌, set, get_elem?,
}

-- What `int8_t` results say: 0 and -1.
pub data Code : Type 0 where
  ok failed : Code

-- `struct ringbuf`. The bytes are moved and never computed with.
pub record Ringbuffer : Type 0 where
  pub buffer : List ℕ
  pub head : ℕ
  pub tail : ℕ
  pub max : ℕ
  pub full : Bool

-- `size_t` arithmetic
abbrev pub size_mod : ℕ
size_mod = 2 ^ 64

abbrev pub next_index : ℕ → ℕ → ℕ
next_index i max = (i + 1) % size_mod % max

unfoldable pub reset : Ringbuffer → Ringbuffer
reset r = record r { head = 0; tail = 0; full = false }

-- The assertions: a caller gets no ring over 0 bytes. `old` is what `malloc` left in the fields.
unfoldable pub init : Ringbuffer → List ℕ → ℕ → Option Ringbuffer
unfolding reset
init old buffer size =
    if size == 0 then none else some (reset (record old { buffer = buffer; max = size }))

unfoldable pub is_full : Ringbuffer → Bool
is_full r = r.full

unfoldable pub is_empty : Ringbuffer → Bool
is_empty r = not r.full && (r.head == r.tail)

unfoldable pub capacity : Ringbuffer → ℕ
capacity r = r.max

unfoldable pub size : Ringbuffer → ℕ
size r =
    if r.full
    then r.max
    else (if leb r.tail r.head
        then r.head - r.tail
        else (r.max + r.head + size_mod - r.tail) % size_mod)

unfoldable pub advance_pointer : Ringbuffer → Ringbuffer
advance_pointer r =
    let tail = if r.full then next_index r.tail r.max else r.tail in
    let head = next_index r.head r.max in record r { head = head; tail = tail; full = head == tail }

unfoldable pub retreat_pointer : Ringbuffer → Ringbuffer
retreat_pointer r = record r { full = false; tail = next_index r.tail r.max }

unfoldable pub push : Ringbuffer → ℕ → Code × Ringbuffer
unfolding is_full advance_pointer
push r byte =
    if is_full r
    then (failed, r)
    else (ok, advance_pointer (record r { buffer = set r.buffer r.head byte }))

-- The loop breaks at the first push that fails; the list is `data[i..size)`.
bulk_push_from : Code → Ringbuffer → List ℕ → Code × Ringbuffer
bulk_push_from last r [] = (last, r)
bulk_push_from last r (x ∷ xs) =
    let (c, r') = push r x in elim c [ ok ↦ bulk_push_from ok r' xs | failed ↦ (failed, r') ]

unfoldable pub bulk_push : Ringbuffer → List ℕ → Code × Ringbuffer
unfolding bulk_push_from push
bulk_push r bytes = bulk_push_from ok r bytes

-- The option is the byte stored through `data`: `none` where nothing is stored.
unfoldable pub pop : Ringbuffer → Code × Option ℕ × Ringbuffer
unfolding is_empty retreat_pointer
pop r = if is_empty r then (failed, none, r) else (ok, get_elem? r.buffer r.tail, retreat_pointer r)

-- What a client of the header can call, and what it sees of each call.
pub data Op : Type 0 where
  put : ℕ → Op
  put_all : List ℕ → Op
  get : Op
  ask_size : Op
  ask_empty : Op
  clear : Op

pub data Reply : Type 0 where
  code : Code → Reply
  got : Code → Option ℕ → Reply
  count : ℕ → Reply
  flag : Bool → Reply
  done : Reply

pub run : Ringbuffer → List Op → List Reply
run r [] = []
run r (put x ∷ ops) = let (c, r') = push r x in code c ∷ run r' ops
run r (put_all xs ∷ ops) = let (c, r') = bulk_push r xs in code c ∷ run r' ops
run r (get ∷ ops) = let (c, out, r') = pop r in got c out ∷ run r' ops
run r (ask_size ∷ ops) = count (size r) ∷ run r ops
run r (ask_empty ∷ ops) = flag (is_empty r) ∷ run r ops
run r (clear ∷ ops) = done ∷ run (reset r) ops
