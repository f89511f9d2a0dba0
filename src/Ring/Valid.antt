-- ===== src/Ring/Valid.antt =====
-- The representation invariant of `struct ringbuf`, and that every function keeps it.
use sizigy.Base.{ℕ, ◌≤◌, ◌<◌, ◌≡◌, true, some, List, [], ◌∷◌, arith, length, length-set}
use sizigy.Ring.{
  Ringbuffer, size_mod, next_index, Code, ok, init, reset, size, is_empty, push, bulk_push,
  bulk_push_from, pop,
}

pub record IsValid (r : Ringbuffer) : Type 0 where
  pub storage : r.max ≤ length r.buffer
  pub addressable : r.max < size_mod
  pub head_in : r.head < r.max
  pub tail_in : r.tail < r.max
  pub full_meets : r.full ≡ true → r.head ≡ r.tail

pub next_index-lt : (i max : ℕ) → i < max → next_index i max < max
next_index-lt i max h = omega arith

-- What `ringbuf_init` accepts is valid and empty, if the storage holds as many bytes as it is told and
-- the number fits a `size_t`.
pub init-IsValid :
    (old : Ringbuffer) (buffer : List ℕ) (n : ℕ) {r : Ringbuffer}
    → n ≤ length buffer
    → n < size_mod
    → init old buffer n ≡ some r
    → IsValid r × (is_empty r ≡ true) × (size r ≡ 0)
unfolding init is_empty size
init-IsValid old buffer n h small e = ground arith

pub reset-IsValid : {r : Ringbuffer} → IsValid r → IsValid (reset r)
unfolding reset
reset-IsValid v = ground arith

pub push-IsValid : {r : Ringbuffer} (x : ℕ) → IsValid r → IsValid (push r x).1
unfolding push
push-IsValid {r} x v = ground (arith, length-set r.buffer r.head x)

pub pop-IsValid : {r : Ringbuffer} → IsValid r → IsValid (pop r).2
unfolding pop
pop-IsValid v = ground arith

bulk_push_from-IsValid :
    (xs : List ℕ) (c : Code) {r : Ringbuffer} → IsValid r → IsValid (bulk_push_from c r xs).1
unfolding bulk_push_from
bulk_push_from-IsValid [] c v = v
bulk_push_from-IsValid (x ∷ xs) c {r} v =
    ground (arith, push-IsValid x v, bulk_push_from-IsValid xs ok (push-IsValid x v))

pub bulk_push-IsValid : {r : Ringbuffer} (xs : List ℕ) → IsValid r → IsValid (bulk_push r xs).1
unfolding bulk_push
bulk_push-IsValid xs v = bulk_push_from-IsValid xs ok v

pub max-push : (r : Ringbuffer) (x : ℕ) → (push r x).1.max ≡ r.max
unfolding push
max-push r x = ground arith

pub max-pop : (r : Ringbuffer) → (pop r).2.max ≡ r.max
unfolding pop
max-pop r = ground arith
