-- ===== src/LinkedList/Release.antt =====
-- list_release follows `len`: it frees the nodes where they are that many, and runs past the end of a list
-- that list_remove_node has made shorter.
use mathlib.Core.Path.{subst}
use sizigy.Base.{
  ℕ, zero, suc, ◌<◌, ◌≡◌, refl, sym, ap, ◌∙◌, Bool, Bool-cases, true, false, Option, none, List, [],
  ◌∷◌, ◌++◌, length, set, if◌then◌else◌, append_assoc, append-nil, inl, inr, arith,
}
use sizigy.LinkedList.{
  LinkedList, Heap, Walk, returns, undefined, list_remove_node, release_from, list_release,
}
use sizigy.LinkedList.Segment.{IsOff, IsSeg, IsSeg-set}
use sizigy.LinkedList.Remove.{drop_first, list_remove_node_lem}
use sizigy.Server.Retaining.{cell-set_other, cell-set_freed}
use sizigy.Sizigy.{cell}

-- Nothing is at these places.
abbrev pub AreFreed : Heap → List ℕ → Type 0
AreFreed heap [] = Unit {0}
AreFreed heap (p ∷ ps) = (cell heap p ≡ none) × AreFreed heap ps

-- A run that frees the nodes at the places `ps` and the data `xs`.
pub record Released (heap : Heap) (ps xs freed : List ℕ) (run : Walk (Heap × List ℕ)) : Type 0 where
  pub after : Heap
  pub runs : run ≡ returns (after, freed ++ xs)
  pub gone : AreFreed after ps
  pub others : (q : ℕ) → IsOff q ps → cell after q ≡ cell heap q

release_from_lem :
    (heap : Heap) (head : Option ℕ) (ps xs freed : List ℕ)
    → IsSeg heap head ps xs
    → Released heap ps xs freed (release_from (length xs) head heap freed)
unfolding release_from
release_from_lem heap head [] [] freed seg = record {
  after = heap;
  runs = ap (λ t. returns (heap, t)) (sym (append-nil freed));
  gone = tt;
  others = λ q off. refl;
}
release_from_lem heap head [] (x ∷ xs) freed seg = absurd seg
release_from_lem heap head (p ∷ ps) [] freed seg = absurd seg
release_from_lem heap head (p ∷ ps) (x ∷ xs) freed (e, (next, here, fresh, seg)) =
    let rest =
      release_from_lem (set heap p none) next ps xs (freed ++ (x ∷ []))
        (IsSeg-set heap p none next ps xs fresh seg) in
    record {
      after = rest.after;
      runs =
          rw (e, release_from, here)
            (rest.runs ∙ ap (λ t. returns (rest.after, t)) (append_assoc freed (x ∷ []) xs));
      gone = (rest.others p fresh ∙ cell-set_freed heap p, rest.gone);
      others = λ q off. rest.others q off.1 ∙ cell-set_other heap p q none (λ k. off.0 (sym k));
    }

release_from_past :
    (len : ℕ) (heap : Heap) (head : Option ℕ) (ps xs freed : List ℕ)
    → length xs < len
    → IsSeg heap head ps xs
    → release_from len head heap freed ≡ undefined
unfolding release_from
release_from_past zero heap head ps xs freed more seg = absurd (omega arith)
release_from_past (suc len) heap head [] [] freed more seg = rw seg
release_from_past (suc len) heap head [] (x ∷ xs) freed more seg = absurd seg
release_from_past (suc len) heap head (p ∷ ps) [] freed more seg = absurd seg
release_from_past (suc len) heap head (p ∷ ps) (x ∷ xs) freed more (e, (next, here, fresh, seg)) =
    rw (e, release_from, here)
      (release_from_past len (set heap p none) next ps xs (freed ++ (x ∷ [])) (omega (arith, more))
        (IsSeg-set heap p none next ps xs fresh seg))

-- list_release, where `len` is the number of the nodes, frees every node and every datum, in order, and
-- touches no other node.
pub list_release_lem :
    (l : LinkedList) (heap : Heap) (ps xs : List ℕ)
    → IsSeg heap l.head ps xs
    → l.len ≡ length xs
    → Released heap ps xs [] (list_release l heap)
unfolding list_release
list_release_lem l heap ps xs seg sized =
    subst (λ n. Released heap ps xs [] (release_from n l.head heap [])) (sym sized)
      (release_from_lem heap l.head ps xs [] seg)

-- The sequence has a match.
abbrev pub has : (ℕ → Bool) → List ℕ → Bool
has found [] = false
has found (x ∷ xs) = if found x then true else has found xs

length-drop_first :
    (found : ℕ → Bool) (xs : List ℕ)
    → has found xs ≡ true
    → length (drop_first found xs) < length xs
unfolding drop_first
length-drop_first found [] h = cc
length-drop_first found (x ∷ xs) h = elim (Bool-cases (found x)) [
  | inl hit ↦ rw (drop_first, hit) (omega arith)
  | inr miss ↦
      let rest =
        length-drop_first found xs (ap (λ b. if b then true else has found xs) (sym miss) ∙ h) in
      rw (drop_first, miss) (omega (arith, rest))
]

-- A list whose `len` is the number of its nodes, one of which list_remove_node takes out, as del_subscriber
-- does: it leaves `len` as it was, and list_release then follows a null pointer, which C leaves undefined.
pub list_remove_node-list_release :
    (l : LinkedList) (heap : Heap) (ps xs : List ℕ) (found : ℕ → Bool)
    → IsSeg heap l.head ps xs
    → l.len ≡ length xs
    → has found xs ≡ true
    → (head : Option ℕ) × ((after : Heap) × (list_remove_node found (suc (length ps)) l.head heap
          ≡ returns (head, after))
        × (list_release (record l { head = head }) after ≡ undefined))
unfolding list_release
list_remove_node-list_release l heap ps xs found seg sized match =
    let r = list_remove_node_lem found (suc (length ps)) l.head heap ps xs (omega arith) seg in
    (
      r.head,
      (
        r.after,
        r.runs,
        release_from_past l.len r.after r.head r.left (drop_first found xs) []
            (omega (arith, length-drop_first found xs match, sized)) r.seg,
      ),
    )
