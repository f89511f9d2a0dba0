-- ===== src/Queue/Order.antt =====
-- What the calls on a queue do to the sequence it holds.

use sizigy.Base.{
  ℕ, ◌+◌, ◌-◌, ◌<◌, ◌≡◌, ◌≢◌, ◌%◌, ◌^◌, ◌==◌, refl, sym, ◌∙◌, false, Option, none, some, List, [],
  ◌∷◌, ◌++◌, length, length-append, set, arith, if◌then◌else◌,
}
use sizigy.LinkedList.{Node, Heap, link}
use sizigy.LinkedList.Segment.{IsSeg, IsOff, IsSeg-set, IsSeg-append, IsOff-length}
use sizigy.Queue.{Queue, Outcome, returns, is_null, enqueue, take_front, dequeue}
use sizigy.Server.Retaining.{cell-snoc, cell-set_other}
use sizigy.Sizigy.{cell}
use sizigy.Sizigy.Clients.{cell-lt, cell-set_self}

abbrev pub last_of : List ℕ → Option ℕ
last_of [] = none
last_of (p ∷ []) = some p
last_of (p ∷ (q ∷ ps)) = last_of (q ∷ ps)

-- The items at the places `ps` hold `xs`, the rear is the last of them, and `len` counts them.
pub record IsQueue (q : Queue) (heap : Heap) (ps xs : List ℕ) : Type 0 where
  pub chain : IsSeg heap q.front ps xs
  pub last : q.rear ≡ last_of ps
  pub counted : q.len ≡ length xs

IsOff-snoc : (p new : ℕ) (ps : List ℕ) → IsOff p ps → p ≢ new → IsOff p (ps ++ (new ∷ []))
IsOff-snoc p new [] off n = (n, tt)
IsOff-snoc p new (q ∷ ps) (m, off) n = (m, IsOff-snoc p new ps off n)

last-snoc : (ps : List ℕ) (new : ℕ) → last_of (ps ++ (new ∷ [])) ≡ some new
last-snoc [] new = refl
last-snoc (p ∷ []) new = refl
last-snoc (p ∷ (q ∷ ps)) new = last-snoc (q ∷ ps) new

-- The chain with the item at `new` linked behind its last.
record Linked (heap : Heap) (head rear : Option ℕ) (ps xs : List ℕ) (new val : ℕ) : Type 0 where
  pub place : ℕ
  pub here : rear ≡ some place
  pub node : Node
  pub there : cell heap place ≡ some node
  pub chain :
      IsSeg
        (set heap place (some (record node { next = some new })))
        head
        (ps ++ (new ∷ []))
        (xs ++ (val ∷ []))
  pub among : (q : ℕ) → IsOff q ps → q ≢ place

linked_lem :
    (heap : Heap) (head : Option ℕ) (p : ℕ) (ps : List ℕ) (x : ℕ) (xs : List ℕ) (new val : ℕ)
    → IsSeg heap head (p ∷ ps) (x ∷ xs)
    → IsOff new (p ∷ ps)
    → cell heap new ≡ some (record { data_ = val; next = none })
    → Linked heap head (last_of (p ∷ ps)) (p ∷ ps) (x ∷ xs) new val
linked_lem heap head p [] x [] new val (e, (next, here, off, seg)) (n, _) there = record {
  place = p;
  here = refl;
  node = record { data_ = x; next = next };
  there = here;
  chain = (
    e,
    (
      some new,
      cell-set_self heap p _ (cell-lt heap p _ here),
      ((λ k. n (sym k)), tt),
      (refl, (none, cell-set_other heap p new _ (λ k. n (sym k)) ∙ there, tt, refl)),
    ),
  );
  among = λ q off. off.0;
}
linked_lem heap head p [] x (y ∷ xs) new val (e, (next, here, off, seg)) fresh there = absurd seg
linked_lem heap head p (r ∷ ps) x [] new val (e, (next, here, off, seg)) fresh there = absurd seg
linked_lem heap head p (r ∷ ps) x (y ∷ xs) new val (e, (next, here, off, seg)) (n, fresh) there =
    let rest = linked_lem heap next r ps y xs new val seg fresh there in
    record {
      place = rest.place;
      here = rest.here;
      node = rest.node;
      there = rest.there;
      chain = (
        e,
        (
          next,
          cell-set_other heap rest.place p _ (λ k. rest.among p off (sym k)) ∙ here,
          IsOff-snoc p new (r ∷ ps) off (λ k. n (sym k)),
          rest.chain,
        ),
      );
      among = λ q off'. rest.among q off'.1;
    }

-- A run of enqueue that puts `val` behind the rest.
pub record Enqueued (heap : Heap) (ps xs : List ℕ) (val : ℕ) (run : Outcome (Queue × Heap))
    : Type 0 where
  pub queue : Queue
  pub after : Heap
  pub runs : run ≡ returns (queue, after)
  pub keeps_order : IsQueue queue after (ps ++ (length heap ∷ [])) (xs ++ (val ∷ []))

counted-snoc :
    (len : ℕ) (xs : List ℕ) (val : ℕ)
    → len ≡ length xs
    → len + 1 < 2 ^ 64
    → (len + 1) % 2 ^ 64 ≡ length (xs ++ (val ∷ []))
counted-snoc len xs val e small = omega (arith, length-append xs (val ∷ []), e, small)

pub enqueue_lem :
    (len : ℕ) (front rear : Option ℕ) (heap : Heap) (ps xs : List ℕ) (val : ℕ)
    → IsQueue (record { len = len; front = front; rear = rear }) heap ps xs
    → len + 1 < 2 ^ 64
    → Enqueued heap ps xs val (enqueue (record { len = len; front = front; rear = rear }) val heap)
unfolding enqueue link
enqueue_lem len front rear heap [] [] val q small = record {
  queue = record {
    len = (len + 1) % 2 ^ 64;
    front = some (length heap);
    rear = some (length heap);
  };
  after = heap ++ (some (record { data_ = val; next = none }) ∷ []);
  runs = rw (q.chain, q.last) refl;
  keeps_order = record {
    chain = (refl, (none, cell-snoc heap _, tt, refl));
    last = refl;
    counted = counted-snoc len [] val q.counted small;
  };
}
enqueue_lem len front rear heap [] (x ∷ xs) val q small = absurd q.chain
enqueue_lem len front rear heap (p ∷ ps) [] val q small = absurd q.chain
enqueue_lem len front rear heap (p ∷ ps) (x ∷ xs) val q small =
    let grown = heap ++ (some (record { data_ = val; next = none }) ∷ []) in
    let l =
      linked_lem grown front p ps x xs (length heap) val
        (IsSeg-append heap _ front (p ∷ ps) (x ∷ xs) q.chain)
        (IsOff-length heap front (p ∷ ps) (x ∷ xs) q.chain) (cell-snoc heap _) in
    record {
      queue = record { len = (len + 1) % 2 ^ 64; front = front; rear = some (length heap) };
      after = set grown l.place (some (record l.node { next = some (length heap) }));
      runs = rw (q.chain.0, q.last, l.here, link, l.there) refl;
      keeps_order = record {
        chain = l.chain;
        last = sym (last-snoc (p ∷ ps) (length heap));
        counted = counted-snoc len (x ∷ xs) val q.counted small;
      };
    }

-- A run of dequeue that takes the first.
pub record Dequeued (heap : Heap) (p : ℕ) (ps : List ℕ) (x : ℕ) (xs : List ℕ)
    (run : Outcome (ℕ × Queue × Heap)) : Type 0 where
  pub queue : Queue
  pub runs : run ≡ returns (x, queue, set heap p none)
  pub keeps_order : IsQueue queue (set heap p none) ps xs

rear_after :
    (heap : Heap) (next rear : Option ℕ) (p : ℕ) (ps xs : List ℕ)
    → IsSeg heap next ps xs
    → rear ≡ last_of (p ∷ ps)
    → (if is_null next then none else rear) ≡ last_of ps
rear_after heap next rear p [] [] seg last = rw seg refl
rear_after heap next rear p [] (x ∷ xs) seg last = absurd seg
rear_after heap next rear p (r ∷ ps) [] seg last = absurd seg
rear_after heap next rear p (r ∷ ps) (x ∷ xs) seg last = rw (seg.0, last) refl

pub dequeue_lem :
    (len : ℕ) (front rear : Option ℕ) (heap : Heap) (p : ℕ) (ps : List ℕ) (x : ℕ) (xs : List ℕ)
    → IsQueue (record { len = len; front = front; rear = rear }) heap (p ∷ ps) (x ∷ xs)
    → Dequeued heap p ps x xs (dequeue (record { len = len; front = front; rear = rear }) heap)
unfolding dequeue take_front
dequeue_lem len front rear heap p ps x xs q =
    let (e, (next, here, off, seg)) = q.chain in
    let some_there : 0 < len = omega (arith, q.counted) in
    let busy : (len == 0) ≡ false = ground arith in
    record {
      queue = record { len = len - 1; front = next; rear = if is_null next then none else rear };
      runs = rw (busy, e, here) refl;
      keeps_order = record {
        chain = IsSeg-set heap p none next ps xs off seg;
        last = rear_after heap next rear p ps xs seg q.last;
        counted = omega (arith, q.counted);
      };
    }
