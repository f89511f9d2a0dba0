-- ===== src/LinkedList/Remove.antt =====
-- list_remove_node against the sequence without its first match.
use mathlib.Core.Path.{subst}
use sizigy.Base.{
  ℕ, zero, suc, ◌<◌, ◌≡◌, refl, sym, ap, ◌∙◌, Bool, Bool-cases, Option, none, some, List, [], ◌∷◌,
  length, set, if◌then◌else◌, inl, inr, arith,
}
use sizigy.LinkedList.{Node, Heap, Walk, returns, relink, list_remove_node}
use sizigy.LinkedList.Segment.{IsOff, IsSeg, IsSeg-set}
use sizigy.Server.Retaining.{cell-set_other}
use sizigy.Sizigy.{cell}
use sizigy.Sizigy.Clients.{cell-set_self, cell-lt}

-- The sequence without its first match.
unfoldable pub drop_first : (ℕ → Bool) → List ℕ → List ℕ
drop_first found [] = []
drop_first found (x ∷ xs) = if found x then xs else x ∷ drop_first found xs

-- A run of list_remove_node on nodes at the places `ps`.
pub record Removed (found : ℕ → Bool) (heap : Heap) (ps xs : List ℕ) (run : Walk (Option ℕ × Heap))
    : Type 0 where
  pub head : Option ℕ
  pub after : Heap
  pub left : List ℕ
  pub runs : run ≡ returns (head, after)
  pub seg : IsSeg after head left (drop_first found xs)
  pub others : (q : ℕ) → IsOff q ps → cell after q ≡ cell heap q
  pub off : (q : ℕ) → IsOff q ps → IsOff q left

-- list_remove_node, with more fuel than there are nodes, returns; the list then holds what it held without
-- the first match, and no other node has changed.
pub list_remove_node_lem :
    (found : ℕ → Bool) (fuel : ℕ) (head : Option ℕ) (heap : Heap) (ps xs : List ℕ)
    → length ps < fuel
    → IsSeg heap head ps xs
    → Removed found heap ps xs (list_remove_node found fuel head heap)
unfolding list_remove_node drop_first
list_remove_node_lem found zero head heap ps xs enough seg = absurd (omega arith)
list_remove_node_lem found (suc fuel) head heap [] [] enough seg = record {
  head = none;
  after = heap;
  left = [];
  runs = rw seg;
  seg = refl;
  others = λ q off. refl;
  off = λ q off. tt;
}
list_remove_node_lem found (suc fuel) head heap [] (x ∷ xs) enough seg = absurd seg
list_remove_node_lem found (suc fuel) head heap (p ∷ ps) [] enough seg = absurd seg
list_remove_node_lem found (suc fuel) head heap (p ∷ ps) (x ∷ xs) enough
      (e, (next, here, fresh, seg)) =
    elim (Bool-cases (found x)) [
      | inl hit ↦ record {
        head = next;
        after = set heap p none;
        left = ps;
        runs = rw (e, list_remove_node, here, hit);
        seg =
            subst (λ t. IsSeg (set heap p none) next ps t)
              (ap (λ b. if b then xs else x ∷ drop_first found xs) (sym hit))
              (IsSeg-set heap p none next ps xs fresh seg);
        others = λ q off. cell-set_other heap p q none (λ k. off.0 (sym k));
        off = λ q off. off.1;
      }
      | inr miss ↦
          let rest = list_remove_node_lem found fuel next heap ps xs (omega (arith, enough)) seg in
          let node : Node = record { data_ = x; next = rest.head } in
          let still = rest.others p fresh ∙ here in
          record {
            head = some p;
            after = set rest.after p (some node);
            left = p ∷ rest.left;
            runs = rw (e, list_remove_node, here, miss, rest.runs, relink, still);
            seg =
                subst (λ t. IsSeg (set rest.after p (some node)) (some p) (p ∷ rest.left) t)
                  (ap (λ b. if b then xs else x ∷ drop_first found xs) (sym miss))
                  (
                    refl,
                    (
                      rest.head,
                      cell-set_self rest.after p node (cell-lt rest.after p _ still),
                      rest.off p fresh,
                      IsSeg-set rest.after p (some node) rest.head rest.left (drop_first found xs)
                          (rest.off p fresh) rest.seg,
                    ),
                  );
            others = λ q off.
                cell-set_other rest.after p q (some node) (λ k. off.0 (sym k))
                ∙ rest.others q off.1;
            off = λ q off. (off.0, rest.off q off.1);
          }
    ]
