-- ===== src/Queue.antt =====
-- src/queue.c: the queue that a topic keeps and nobody fills, on a heap of items. A pointer is a place in
-- the heap; what an item carries is a number that stands for its `void *`.
pub mod Order
pub mod Refine
mod Tests
use sizigy.Base.{
  ℕ, zero, suc, ◌+◌, ◌-◌, ◌%◌, ◌^◌, ◌==◌, Bool, true, false, ◌&&◌, Option, none, some, List, [],
  ◌∷◌, ◌++◌, length, set, if◌then◌else◌,
}
use sizigy.LinkedList.{Node, Heap, link}
use sizigy.Sizigy.{cell}

-- `Queue`; its lock is free at the end of every call.
pub record Queue : Type 0 where
  pub len : ℕ
  pub front : Option ℕ
  pub rear : Option ℕ

-- A call returns, does what C leaves undefined, or waits on the condition that another thread must signal.
pub data Outcome (A : Type 0) : Type 0 where
  returns : A → Outcome A
  undefined waits : Outcome A

-- `calloc` says whether the block can be had.
unfoldable pub create_queue : Bool → Option Queue
create_queue calloc = if calloc then some (record { len = 0; front = none; rear = none }) else none

abbrev pub is_null : Option ℕ → Bool
is_null none = true
is_null (some p) = false

-- `q->rear->next = new_item; q->rear = new_item`
abbrev pub behind : Queue → ℕ → Option Heap → Outcome (Queue × Heap)
behind q new none = undefined
behind q new (some linked) =
    returns (record q { rear = some new; len = (q.len + 1) % 2 ^ 64 }, linked)

-- The new item is at the first place behind the heap.
unfoldable pub enqueue : Queue → ℕ → Heap → Outcome (Queue × Heap)
unfolding link
enqueue q val heap =
    let new = length heap in
    let grown = heap ++ (some (record { data_ = val; next = none }) ∷ []) in
    if is_null q.front && is_null q.rear
    then returns (record { len = (q.len + 1) % 2 ^ 64; front = some new; rear = some new }, grown)
    else behind q new (link q.rear new grown)

-- The lines of dequeue behind the waiting.
unfoldable pub take_front : Queue → Heap → Outcome (ℕ × Queue × Heap)
take_front q heap = elim q.front [
  | none ↦ undefined
  | some p ↦ elim (cell heap p) [
    | none ↦ undefined
    | some item ↦ returns (
      item.data_,
      record {
        len = q.len - 1;
        front = item.next;
        rear = if is_null item.next then none else q.rear;
      },
      set heap p none,
    )
  ]
]

unfoldable pub dequeue : Queue → Heap → Outcome (ℕ × Queue × Heap)
unfolding take_front
dequeue q heap = if q.len == 0 then waits else take_front q heap

-- The loop of release_queue, with `len` rounds to go; the queue is freed behind it.
unfoldable pub release_from : ℕ → Queue → Heap → Outcome Heap
unfolding dequeue
release_from zero q heap = returns heap
release_from (suc len) q heap = elim (dequeue q heap) [
  | returns (val, q', heap') ↦ release_from len q' heap'
  | undefined ↦ undefined
  | waits ↦ waits
]

unfoldable pub release_queue : Option Queue → Heap → Outcome Heap
unfolding release_from
release_queue none heap = returns heap
release_queue (some q) heap = release_from q.len q heap

-- The loop of send_queue; the callback is given the item, and `none` is a walk that the fuel cuts off or
-- that reads a freed item.
unfoldable pub send_from :
    {S : Type 0} → (Node → S → ℕ × S) → ℕ → Option ℕ → Heap → ℕ → S → Option (ℕ × S)
send_from f zero item heap ret s = none
send_from f (suc fuel) none heap ret s = some (ret, s)
send_from f (suc fuel) (some p) heap ret s = elim (cell heap p) [
  | none ↦ none
  | some n ↦ send_from f fuel n.next heap (f n s).0 (f n s).1
]

unfoldable pub send_queue :
    {S : Type 0} → (Node → S → ℕ × S) → ℕ → Queue → Heap → S → Option (ℕ × S)
unfolding send_from
send_queue f fuel q heap s = send_from f fuel q.front heap 0 s
