-- ===== src/Ring/Fifo.antt =====
-- What ringbuf.h promises: a first-in first-out queue of at most `cap` bytes, oldest first.
use sizigy.Base.{
  ℕ, Bool, true, false, Option, none, some, List, [], ◌∷◌, ◌++◌, leb, if◌then◌else◌, length, take,
  ◌-◌,
}
use sizigy.Ring.{
  Code, ok, failed, Op, put, put_all, get, ask_size, ask_empty, clear, Reply, code, got, count,
  flag, done,
}

unfoldable pub pop : List ℕ → Code × Option ℕ × List ℕ
pop [] = (failed, none, [])
pop (x ∷ q) = (ok, some x, q)

abbrev pub is_nil : List ℕ → Bool
is_nil [] = true
is_nil (_ ∷ _) = false

module _ (cap : ℕ) where
  unfoldable pub push : List ℕ → ℕ → Code × List ℕ
  push q x = if leb cap (length q) then (failed, q) else (ok, q ++ (x ∷ []))

  -- A bulk push takes the prefix that fits, and fails if that is not all.
  unfoldable pub bulk_push : List ℕ → List ℕ → Code × List ℕ
  bulk_push q xs =
      let room = cap - length q in (if leb (length xs) room then ok else failed, q ++ take room xs)

  unfoldable pub run : List ℕ → List Op → List Reply
  run q [] = []
  run q (put x ∷ ops) = let (c, q') = push q x in code c ∷ run q' ops
  run q (put_all xs ∷ ops) = let (c, q') = bulk_push q xs in code c ∷ run q' ops
  run q (get ∷ ops) = let (c, out, q') = pop q in got c out ∷ run q' ops
  run q (ask_size ∷ ops) = count (length q) ∷ run q ops
  run q (ask_empty ∷ ops) = flag (is_nil q) ∷ run q ops
  run q (clear ∷ ops) = done ∷ run [] ops
