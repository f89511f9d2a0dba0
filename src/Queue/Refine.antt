-- ===== src/Queue/Refine.antt =====
-- Any calls of enqueue and dequeue answer as a sequence does; release_queue and send_queue.
use mathlib.Core.Path.{subst}
use sizigy.Base.{
  ℕ, zero, suc, ◌+◌, ◌<◌, ◌≡◌, ◌^◌, true, refl, sym, ◌∙◌, Option, none, some, List, [], ◌∷◌, ◌++◌,
  length, length-append, set, arith,
}
use sizigy.LinkedList.{Heap}
use sizigy.LinkedList.Segment.{IsSeg, IsOff}
use sizigy.LinkedList.Release.{AreFreed}
use sizigy.Queue.{
  Queue, Outcome, returns, undefined, waits, create_queue, enqueue, dequeue, release_from,
  release_queue, send_from, send_queue,
}
use sizigy.Queue.Order.{IsQueue, enqueue_lem, dequeue_lem}
use sizigy.Server.Retaining.{cell-set_other, cell-set_freed}
use sizigy.Sizigy.{cell}

pub data Op : Type 0 where
  putting : ℕ → Op
  taking : Op

-- The calls one after the other; the answers of those that take.
unfoldable pub run : List Op → Queue → Heap → Outcome (List ℕ)
run [] q heap = returns []
run (putting val ∷ ops) q heap = elim (enqueue q val heap) [
  | returns (q', heap') ↦ run ops q' heap'
  | undefined ↦ undefined
  | waits ↦ waits
]
run (taking ∷ ops) q heap = elim (dequeue q heap) [
  | returns (val, q', heap') ↦ elim (run ops q' heap') [
    | returns vals ↦ returns (val ∷ vals)
    | undefined ↦ undefined
    | waits ↦ waits
  ]
  | undefined ↦ undefined
  | waits ↦ waits
]

-- The same on a sequence, whose first is taken; `waits` where there is none to take.
unfoldable pub sequence : List Op → List ℕ → Outcome (List ℕ)
sequence [] xs = returns []
sequence (putting val ∷ ops) xs = sequence ops (xs ++ (val ∷ []))
sequence (taking ∷ ops) [] = waits
sequence (taking ∷ ops) (x ∷ xs) = elim (sequence ops xs) [
  | returns vals ↦ returns (x ∷ vals)
  | undefined ↦ undefined
  | waits ↦ waits
]

dequeue-empty :
    (q : Queue) (heap : Heap) (ps : List ℕ) → IsQueue q heap ps [] → dequeue q heap ≡ waits
unfolding dequeue
dequeue-empty q heap ps h = rw (dequeue, h.counted) refl

pub run-sequence :
    (ops : List Op) (q : Queue) (heap : Heap) (ps xs : List ℕ)
    → IsQueue q heap ps xs
    → length xs + length ops < 2 ^ 64
    → run ops q heap ≡ sequence ops xs
unfolding run sequence
run-sequence [] q heap ps xs h small = refl
run-sequence (putting val ∷ ops) q heap ps xs h small =
    let e = enqueue_lem q.len q.front q.rear heap ps xs val h (omega (arith, h.counted, small)) in
    rw (run, e.runs)
      (run-sequence ops e.queue e.after _ _ e.keeps_order
        (omega (arith, length-append xs (val ∷ []), small)))
run-sequence (taking ∷ ops) q heap ps [] h small = rw (run, dequeue-empty q heap ps h) refl
run-sequence (taking ∷ ops) q heap [] (x ∷ xs) h small = absurd h.chain
run-sequence (taking ∷ ops) q heap (p ∷ ps) (x ∷ xs) h small =
    let d = dequeue_lem q.len q.front q.rear heap p ps x xs h in
    rw
      (
        run,
        d.runs,
        run-sequence ops d.queue (set heap p none) ps xs d.keeps_order (omega (arith, small)),
      )
      refl

some_inj : {A : Type 0} {a b : A} → some a ≡ some b → a ≡ b
some_inj e = cc

-- From a new queue on, the calls of enqueue and dequeue answer as those on a sequence: in the order in
-- which the data were put, and a dequeue waits exactly where nothing is left to take.
pub fifo_refines :
    (ops : List Op) (q : Queue) (heap : Heap)
    → create_queue true ≡ some q
    → length ops < 2 ^ 64
    → run ops q heap ≡ sequence ops []
unfolding create_queue
fifo_refines ops q heap made small =
    run-sequence ops q heap [] []
      (subst (λ k. IsQueue k heap [] []) (some_inj made)
        (record { chain = refl; last = refl; counted = refl }))
      (omega (arith, small))

-- A run that frees the items at the places `ps` and no others.
pub record Emptied (heap : Heap) (ps : List ℕ) (run : Outcome Heap) : Type 0 where
  pub after : Heap
  pub runs : run ≡ returns after
  pub gone : AreFreed after ps
  pub others : (q : ℕ) → IsOff q ps → cell after q ≡ cell heap q

release_from_lem :
    (q : Queue) (heap : Heap) (ps xs : List ℕ)
    → IsQueue q heap ps xs
    → Emptied heap ps (release_from (length xs) q heap)
unfolding release_from
release_from_lem q heap [] [] h = record {
  after = heap;
  runs = refl;
  gone = tt;
  others = λ r off. refl;
}
release_from_lem q heap [] (x ∷ xs) h = absurd h.chain
release_from_lem q heap (p ∷ ps) [] h = absurd h.chain
release_from_lem q heap (p ∷ ps) (x ∷ xs) h =
    let (e, (next, here, off, seg)) = h.chain in
    let d = dequeue_lem q.len q.front q.rear heap p ps x xs h in
    let rest = release_from_lem d.queue (set heap p none) ps xs d.keeps_order in
    record {
      after = rest.after;
      runs = rw (release_from, d.runs) rest.runs;
      gone = (rest.others p off ∙ cell-set_freed heap p, rest.gone);
      others = λ r away. rest.others r away.1 ∙ cell-set_other heap p r none (λ k. away.0 (sym k));
    }

-- release_queue on a queue that holds a sequence: it never waits, and it frees every item of the queue and
-- nothing else.
pub release_queue_lem :
    (q : Queue) (heap : Heap) (ps xs : List ℕ)
    → IsQueue q heap ps xs
    → Emptied heap ps (release_queue (some q) heap)
unfolding release_queue
release_queue_lem q heap ps xs h =
    subst (λ n. Emptied heap ps (release_from n q heap)) (sym h.counted)
      (release_from_lem q heap ps xs h)

-- What the callback makes of the data, the first first; the last result counts.
unfoldable pub send_all : {S : Type 0} → (ℕ → S → ℕ × S) → List ℕ → ℕ → S → ℕ × S
send_all f [] ret s = (ret, s)
send_all f (x ∷ xs) ret s = send_all f xs (f x s).0 (f x s).1

send_from_lem :
    {S : Type 0} (f : ℕ → S → ℕ × S) (fuel : ℕ) (front : Option ℕ) (heap : Heap) (ps xs : List ℕ)
    (ret : ℕ) (s : S)
    → IsSeg heap front ps xs
    → length xs < fuel
    → send_from (λ item. f item.data_) fuel front heap ret s ≡ some (send_all f xs ret s)
unfolding send_from send_all
send_from_lem f zero front heap ps xs ret s seg enough = absurd (omega arith)
send_from_lem f (suc fuel) front heap [] [] ret s seg enough = rw seg refl
send_from_lem f (suc fuel) front heap [] (x ∷ xs) ret s seg enough = absurd seg
send_from_lem f (suc fuel) front heap (p ∷ ps) [] ret s seg enough = absurd seg
send_from_lem f (suc fuel) front heap (p ∷ ps) (x ∷ xs) ret s (e, (next, here, off, seg)) enough =
    rw (e, send_from, here)
      (send_from_lem f fuel next heap ps xs (f x s).0 (f x s).1 seg (omega arith))

-- send_queue on a queue that holds a sequence, with more fuel than items and a callback that looks at the
-- data of an item: the callback gets the data in the order in which they were put, and the last result is
-- returned, or 0 where there is no item.
pub send_queue_lem :
    {S : Type 0} (f : ℕ → S → ℕ × S) (fuel : ℕ) (q : Queue) (heap : Heap) (ps xs : List ℕ) (s : S)
    → IsQueue q heap ps xs
    → length xs < fuel
    → send_queue (λ item. f item.data_) fuel q heap s ≡ some (send_all f xs 0 s)
unfolding send_queue
send_queue_lem f fuel q heap ps xs s h enough =
    send_from_lem f fuel q.front heap ps xs 0 s h.chain enough
