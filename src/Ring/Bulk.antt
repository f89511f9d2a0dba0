-- ===== src/Ring/Bulk.antt =====
-- `ringbuf_bulk_push` and whole runs of calls, against the queue.
use sizigy.Base.{
  ℕ, suc, ◌-◌, ◌≤◌, ◌<◌, ◌≡◌, refl, sym, ap, ◌∙◌, List, [], ◌∷◌, ◌++◌, arith, append-nil,
  append_assoc, length, take-nil, length-append, ◌==◌,
}
use sizigy.Ring.{
  Ringbuffer, reset, is_empty, Code, ok, failed, Op, put, put_all, get, ask_size, ask_empty, clear,
  push, bulk_push, bulk_push_from, run,
}
use sizigy.Ring.Fifo
use sizigy.Ring.Valid.{
  IsValid, push-IsValid, pop-IsValid, bulk_push-IsValid, reset-IsValid, max-push, max-pop,
}
use sizigy.Ring.Window.{contents, length-contents}
use sizigy.Ring.Refine.{push_refines, pop_refines, is_empty-size, reset_refines}

module _ (cap : ℕ) where
  -- One byte of a bulk push: where there is room it goes in, and elsewhere nothing does.
  fifo_room :
      (q : List ℕ) (x : ℕ) (xs : List ℕ)
      → length q < cap
      → Fifo.bulk_push cap q (x ∷ xs) ≡ Fifo.bulk_push cap (q ++ (x ∷ [])) xs
  unfolding Fifo.bulk_push
  fifo_room q x xs h =
      let room : cap - length q ≡ suc (cap - length (q ++ (x ∷ []))) =
        omega (arith, length-append q (x ∷ [])) in
      rw (room, append_assoc) (ground arith)

  fifo_full :
      (q : List ℕ) (x : ℕ) (xs : List ℕ)
      → cap ≤ length q
      → Fifo.bulk_push cap q (x ∷ xs) ≡ (failed, q)
  unfolding Fifo.bulk_push
  fifo_full q x xs h =
      let room : cap - length q ≡ 0 = omega arith in rw (room, append-nil) (ground arith)

-- The loop ends as the queue's bulk push does.
bulk_push_from_refines :
    (xs : List ℕ) {r : Ringbuffer}
    → IsValid r
    → let (c, r') = bulk_push_from ok r xs in
      (c, contents r') ≡ Fifo.bulk_push r.max (contents r) xs
unfolding bulk_push_from Fifo.push
bulk_push_from_refines [] {r} v = unfold Fifo.bulk_push in rw (take-nil, append-nil) (ground arith)
bulk_push_from_refines (x ∷ xs) {r} v = ground (
  arith,
  push_refines v x,
  bulk_push_from_refines xs (push-IsValid x v),
  fifo_room r.max (contents r) x xs,
  fifo_full r.max (contents r) x xs,
  max-push r x,
)

-- `ringbuf_bulk_push` returns the code of the queue's bulk push, and leaves the ring holding its
-- bytes.
pub bulk_push_refines :
    {r : Ringbuffer} (xs : List ℕ)
    → IsValid r
    → let (c, r') = bulk_push r xs in (c, contents r') ≡ Fifo.bulk_push r.max (contents r) xs
unfolding bulk_push
bulk_push_refines xs v = bulk_push_from_refines xs v

max-bulk_push_from :
    (xs : List ℕ) (c : Code) (r : Ringbuffer) → (bulk_push_from c r xs).1.max ≡ r.max
unfolding bulk_push_from
max-bulk_push_from [] c r = refl
max-bulk_push_from (x ∷ xs) c r =
    ground (arith, max-push r x, max-bulk_push_from xs ok (push r x).1)

pub max-bulk_push : (r : Ringbuffer) (xs : List ℕ) → (bulk_push r xs).1.max ≡ r.max
unfolding bulk_push
max-bulk_push r xs = max-bulk_push_from xs ok r

max-reset : (r : Ringbuffer) → (reset r).max ≡ r.max
unfolding reset
max-reset r = refl

is_nil-length : (q : List ℕ) → (length q == 0) ≡ Fifo.is_nil q
is_nil-length [] = refl
is_nil-length (x ∷ q) = ground arith

is_empty-contents : {r : Ringbuffer} → IsValid r → is_empty r ≡ Fifo.is_nil (contents r)
is_empty-contents {r} v =
    is_empty-size v ∙ ap (λ n. n == 0) (sym (length-contents r)) ∙ is_nil-length (contents r)

-- No sequence of calls tells a valid ring from the queue of the bytes that it holds.
pub run_refines :
    (ops : List Op) {r : Ringbuffer} → IsValid r → run r ops ≡ Fifo.run r.max (contents r) ops
unfolding run Fifo.run
run_refines [] v = refl
run_refines (put x ∷ ops) v = rw (run_refines ops (push-IsValid x v), ← push_refines v x, max-push)
run_refines (put_all xs ∷ ops) v =
    rw (run_refines ops (bulk_push-IsValid xs v), ← bulk_push_refines xs v, max-bulk_push)
run_refines (get ∷ ops) v = rw (run_refines ops (pop-IsValid v), ← pop_refines v, max-pop)
run_refines (ask_size ∷ ops) {r} v = rw (run_refines ops v, length-contents)
run_refines (ask_empty ∷ ops) {r} v = rw (run_refines ops v, is_empty-contents v)
run_refines (clear ∷ ops) {r} v = rw (run_refines ops (reset-IsValid v), reset_refines r, max-reset)
