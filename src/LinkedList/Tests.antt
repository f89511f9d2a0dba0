-- ===== src/LinkedList/Tests.antt =====
-- A list of three nodes, whose first node is the newest.
use sizigy.Base.{ℕ, ◌≡◌, ◌==◌, refl, Bool, Option, none, some, List, [], ◌∷◌, arith}
use sizigy.LinkedList.{
  LinkedList, Heap, undefined, returns, list_tail_insert, link, list_remove_node, list_release,
}
use sizigy.LinkedList.Segment.{IsSeg}
use sizigy.LinkedList.Remove.{Removed, list_remove_node_lem}
use sizigy.LinkedList.Release.{list_remove_node-list_release}
use sizigy.Sizigy.{cell}

abbrev heap : Heap
heap =
    some (record { data_ = 10; next = none })
    ∷ some (record { data_ = 11; next = some 0 })
    ∷ some (record { data_ = 12; next = some 1 })
    ∷ []

abbrev three : LinkedList
three = record { head = some 2; tail = some 0; len = 3 }

abbrev places : List ℕ
places = 2 ∷ 1 ∷ 0 ∷ []

abbrev data_there : List ℕ
data_there = 12 ∷ 11 ∷ 10 ∷ []

abbrev is_eleven : ℕ → Bool
is_eleven x = x == 11

three-IsSeg : IsSeg heap (some 2) places data_there
unfolding cell
three-IsSeg = (
  refl,
  (
    some 1,
    refl,
    ((λ e. omega (arith, e)), ((λ e. omega (arith, e)), tt)),
    (refl, (some 0, refl, ((λ e. omega (arith, e)), tt), (refl, (none, refl, tt, refl)))),
  ),
)

-- Two nodes at the tail of a new list.
list_tail_insert-twice :
    list_tail_insert
      (record { head = some 0; tail = some 0; len = 1 })
      21
      (some (record { data_ = 20; next = none }) ∷ [])
    ≡ returns (
      record { head = some 0; tail = some 1; len = 2 },
      some (record { data_ = 20; next = some 1 }) ∷ some (record { data_ = 21; next = none }) ∷ [],
    )
unfolding list_tail_insert link cell
list_tail_insert-twice = refl

list_remove_node_lem_example :
    Removed is_eleven heap places data_there (list_remove_node is_eleven 4 (some 2) heap)
list_remove_node_lem_example =
    list_remove_node_lem is_eleven 4 (some 2) heap places data_there (omega arith) three-IsSeg

list_remove_node-list_release_example :
    (head : Option ℕ) × ((after : Heap) × (list_remove_node is_eleven 4 (some 2) heap
        ≡ returns (head, after))
      × (list_release (record three { head = head }) after ≡ undefined))
list_remove_node-list_release_example =
    list_remove_node-list_release three heap places data_there is_eleven three-IsSeg refl refl
