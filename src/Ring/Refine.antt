-- ===== src/Ring/Refine.antt =====
-- A valid ring behaves as the queue of the bytes that it holds.
use native.Mathlib.Numerals.{add-one}
use sizigy.Base.{
  ℕ, ◌+◌, ◌-◌, ◌<◌, ◌≡◌, refl, sym, ap, ◌∙◌, true, false, some, [], ◌∷◌, ◌++◌, arith, get_or, none,
  get_elem?-eq-get_or, Bool-cases, inl, inr, set, lt-or-le, leb, ◌==◌,
}
use sizigy.Ring.{Ringbuffer, ok, failed, next_index, reset, size, is_empty, push, pop}
use sizigy.Ring.Fifo
use sizigy.Ring.Valid.{IsValid, push-IsValid, pop-IsValid}
use sizigy.Ring.Window.{
  cells, contents, length-contents, cells_pos, cells-set, head_of_open, size_full, size_open,
  next_index_cases,
}

module _ {r : Ringbuffer} (v : IsValid r) where
  open r use {buffer, head, tail, max}

  push-full : (x : ℕ) → r.full ≡ true → push r x ≡ (failed, r)
  unfolding push
  push-full x e = rw e

  pushed : ℕ → Ringbuffer
  pushed x = record r {
    buffer = set buffer head x;
    head = next_index head max;
    full = next_index head max == tail;
  }

  push-open : (x : ℕ) → r.full ≡ false → push r x ≡ (ok, pushed x)
  unfolding push pushed
  push-open x e = rw e

  -- A push into a ring that is not full adds one byte.
  size-pushed : (x : ℕ) → r.full ≡ false → IsValid (pushed x) → size (pushed x) ≡ size r + 1
  unfolding pushed
  size-pushed x e v' = ground (
    arith,
    size_open v e,
    next_index_cases head max v.head_in v.addressable,
    size_full v',
    size_open v',
    Bool-cases (next_index head max == tail),
  )

  contents-pushed :
      (x : ℕ) → r.full ≡ false → IsValid (pushed x) → contents (pushed x) ≡ contents r ++ (x ∷ [])
  unfolding pushed
  contents-pushed x e v' =
      rw (size-pushed x e v', add-one)
        (cells-set buffer max tail (size r) head x v.storage v.addressable v.tail_in
          (head_of_open v e).1 (head_of_open v e).0)

  -- The flag and the two indices say together whether a byte is there.
  pub is_empty-size : is_empty r ≡ (size r == 0)
  unfolding is_empty
  is_empty-size = elim (Bool-cases r.full) [
    | inl e ↦ ground (arith, size_full v e, v.head_in)
    | inr e ↦ ground (arith, size_open v e, v.head_in, v.tail_in)
  ]

  is_full-size : r.full ≡ leb max (size r)
  is_full-size = elim (Bool-cases r.full) [
    | inl e ↦ ground (arith, size_full v e)
    | inr e ↦ ground (arith, head_of_open v e)
  ]

  popped : Ringbuffer
  popped = record r { tail = next_index tail max; full = false }

  size-popped : 0 < size r → IsValid popped → size popped ≡ size r - 1
  unfolding popped
  size-popped h v' = elim (Bool-cases r.full) [
    | inl e ↦ ground (
      arith,
      size_full v e,
      v.full_meets e,
      size_open v' refl,
      next_index_cases tail max v.tail_in v.addressable,
    )
    | inr e ↦
        ground (
          arith,
          size_open v e,
          size_open v' refl,
          next_index_cases tail max v.tail_in v.addressable,
        )
  ]

  -- `ringbuf_push` returns the code of the queue's push, and leaves the ring holding its bytes.
  pub push_refines :
      (x : ℕ) → let (c, r') = push r x in (c, contents r') ≡ Fifo.push max (contents r) x
  unfolding Fifo.push
  push_refines x = elim (Bool-cases r.full) [
    | inl e ↦ rw (push-full x e, length-contents r, ← is_full-size, e)
    | inr e ↦
        let v' : IsValid (pushed x) = rw (push-open x e) at (push-IsValid x v) in
        let roomy : leb max (size r) ≡ false = sym is_full-size ∙ e in
        rw (push-open x e, length-contents r, roomy, contents-pushed x e v')
  ]

  pop-none : size r ≡ 0 → pop r ≡ (failed, none, r)
  unfolding pop
  pop-none h = ground (arith, is_empty-size)

  pop-some : 0 < size r → pop r ≡ (ok, some (get_or buffer tail 0), popped)
  unfolding pop popped
  pop-some h =
      ground (arith, is_empty-size, get_elem?-eq-get_or buffer tail 0, v.tail_in, v.storage)

  contents-popped :
      0 < size r
      → IsValid popped
      → contents popped ≡ cells buffer max (next_index tail max) (size r - 1)
  unfolding popped
  contents-popped h v' = ap (cells buffer max (next_index tail max)) (size-popped h v')

  -- `ringbuf_pop` returns the code and the byte of the queue's pop, and leaves the rest.
  pub pop_refines : let (c, out, r') = pop r in (c, out, contents r') ≡ Fifo.pop (contents r)
  unfolding Fifo.pop popped
  pop_refines = elim (lt-or-le 0 (size r)) [
    | inl some_ ↦
        let v' : IsValid popped = rw (pop-some some_) at (pop-IsValid v) in
        rw (pop-some some_, size-popped some_ v', cells_pos buffer max tail (size r) some_)
    | inr none_ ↦ let z : size r ≡ 0 = omega arith in rw (pop-none z, z)
  ]

pub reset_refines : (r : Ringbuffer) → contents (reset r) ≡ []
unfolding reset size
reset_refines r = refl
