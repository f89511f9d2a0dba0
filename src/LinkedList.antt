-- ===== src/LinkedList.antt =====
-- src/list.c: the singly linked list, on a heap of nodes. A pointer is a place in the heap, which is `none`
-- once the node is freed; what a node carries is a number that stands for its `void *`.
pub mod Segment
pub mod Remove
pub mod Release
mod Tests
use sizigy.Base.{
  ℕ, zero, suc, ◌+◌, Bool, Option, none, some, List, [], ◌∷◌, ◌++◌, ◌==◌, if◌then◌else◌, length,
  set,
}
use sizigy.Sizigy.{cell}

pub record Node : Type 0 where
  pub data_ : ℕ
  pub next : Option ℕ

-- `List`
pub record LinkedList : Type 0 where
  pub head : Option ℕ
  pub tail : Option ℕ
  pub len : ℕ

abbrev pub Heap : Type 0
Heap = List (Option Node)

-- A call returns, does what C leaves undefined, or is cut off by the fuel.
pub data Walk (A : Type 0) : Type 0 where
  returns : A → Walk A
  undefined out_of_fuel : Walk A

unfoldable pub list_create : LinkedList
list_create = record { head = none; tail = none; len = 0 }

unfoldable pub list_attach : LinkedList → Option ℕ → ℕ → LinkedList
list_attach l head len = record l { head = head; len = len }

-- The new node is at the first place behind the heap.
unfoldable pub list_head_insert : LinkedList → ℕ → Heap → LinkedList × Heap
list_head_insert l val heap =
    let new = length heap in
    if l.len == 0
    then (
      record { head = some new; tail = some new; len = l.len + 1 },
      heap ++ (some (record { data_ = val; next = none }) ∷ []),
    )
    else (
      record l { head = some new; len = l.len + 1 },
      heap ++ (some (record { data_ = val; next = l.head }) ∷ []),
    )

-- `l->tail->next = new_node`
unfoldable pub link : Option ℕ → ℕ → Heap → Option Heap
link none new heap = none
link (some p) new heap = elim (cell heap p) [
  | none ↦ none
  | some n ↦ some (set heap p (some (record n { next = some new })))
]

unfoldable pub list_tail_insert : LinkedList → ℕ → Heap → Walk (LinkedList × Heap)
unfolding link
list_tail_insert l val heap =
    let new = length heap in
    let grown = heap ++ (some (record { data_ = val; next = none }) ∷ []) in
    if l.len == 0
    then returns (record { head = some new; tail = some new; len = l.len + 1 }, grown)
    else elim (link l.tail new grown) [
      | none ↦ undefined
      | some linked ↦ returns (record l { tail = some new; len = l.len + 1 }, linked)
    ]

-- `head->next = …; return head`
abbrev pub relink : ℕ → Walk (Option ℕ × Heap) → Walk (Option ℕ × Heap)
relink p undefined = undefined
relink p out_of_fuel = out_of_fuel
relink p (returns (next, heap)) = elim (cell heap p) [
  | none ↦ undefined
  | some n ↦ returns (some p, set heap p (some (record n { next = next })))
]

-- `found` is what the comparison with the given node says of a node's data.
unfoldable pub list_remove_node : (ℕ → Bool) → ℕ → Option ℕ → Heap → Walk (Option ℕ × Heap)
list_remove_node found zero head heap = out_of_fuel
list_remove_node found (suc fuel) none heap = returns (none, heap)
list_remove_node found (suc fuel) (some p) heap = elim (cell heap p) [
  | none ↦ undefined
  | some n ↦
      let rest = list_remove_node found fuel n.next heap in
      if found n.data_ then returns (n.next, set heap p none) else relink p rest
]

-- The loop of list_release over `len`, and the data freed if `deep` is set. The `tmp = h->next` of a null
-- or freed `h` is undefined.
unfoldable pub release_from : ℕ → Option ℕ → Heap → List ℕ → Walk (Heap × List ℕ)
release_from zero h heap freed = returns (heap, freed)
release_from (suc len) none heap freed = undefined
release_from (suc len) (some p) heap freed = elim (cell heap p) [
  | none ↦ undefined
  | some n ↦ release_from len n.next (set heap p none) (freed ++ (n.data_ ∷ []))
]

unfoldable pub list_release : LinkedList → Heap → Walk (Heap × List ℕ)
unfolding release_from
list_release l heap = release_from l.len l.head heap []
