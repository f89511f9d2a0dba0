-- ===== src/Queue/Tests.antt =====
-- A queue of two items.
use sizigy.Base.{ℕ, ◌+◌, ◌≡◌, refl, none, some, List, [], ◌∷◌, arith}
use sizigy.LinkedList.{Heap}
use sizigy.Queue.{Queue, returns, waits, create_queue, release_queue, send_queue}
use sizigy.Queue.Order.{IsQueue}
use sizigy.Queue.Refine.{
  Op, putting, taking, run, sequence, fifo_refines, Emptied, release_queue_lem, send_all,
  send_queue_lem,
}
use sizigy.Sizigy.{cell}

abbrev fresh : Queue
fresh = record { len = 0; front = none; rear = none }

abbrev calls : List Op
calls = putting 5 ∷ putting 6 ∷ taking ∷ putting 7 ∷ taking ∷ taking ∷ []

fifo_refines_example : run calls fresh [] ≡ sequence calls []
unfolding create_queue
fifo_refines_example = fifo_refines calls fresh [] refl (omega arith)

sequence-calls : sequence calls [] ≡ returns (5 ∷ 6 ∷ 7 ∷ [])
unfolding sequence
sequence-calls = refl

sequence-starved : sequence (putting 5 ∷ taking ∷ taking ∷ []) [] ≡ waits
unfolding sequence
sequence-starved = refl

abbrev heap : Heap
heap = some (record { data_ = 5; next = some 1 }) ∷ some (record { data_ = 6; next = none }) ∷ []

abbrev two : Queue
two = record { len = 2; front = some 0; rear = some 1 }

two-IsQueue : IsQueue two heap (0 ∷ 1 ∷ []) (5 ∷ 6 ∷ [])
unfolding cell
two-IsQueue = record {
  chain = (refl, (some 1, refl, ((λ e. omega (arith, e)), tt), (refl, (none, refl, tt, refl))));
  last = refl;
  counted = refl;
}

release_queue_lem_example : Emptied heap (0 ∷ 1 ∷ []) (release_queue (some two) heap)
release_queue_lem_example = release_queue_lem two heap (0 ∷ 1 ∷ []) (5 ∷ 6 ∷ []) two-IsQueue

abbrev adding : ℕ → ℕ → ℕ × ℕ
adding x sum = (x, sum + x)

send_queue_lem_example :
    send_queue (λ item. adding item.data_) 3 two heap 0 ≡ some (send_all adding (5 ∷ 6 ∷ []) 0 0)
send_queue_lem_example =
    send_queue_lem adding 3 two heap (0 ∷ 1 ∷ []) (5 ∷ 6 ∷ []) 0 two-IsQueue (omega arith)
