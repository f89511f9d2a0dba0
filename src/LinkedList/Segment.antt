-- ===== src/LinkedList/Segment.antt =====
-- The sequence that a chain of nodes holds.
use mathlib.Core.Path.{subst}
use sizigy.Base.{
  ℕ, ◌+◌, ◌≤◌, ◌==◌, ◌≡◌, ◌≢◌, refl, sym, ap, ◌∙◌, Bool, Bool-cases, Option, none, some, List, [],
  ◌∷◌, ◌++◌, length, set, if◌then◌else◌, inl, inr, arith,
}
use sizigy.LinkedList.{Node, LinkedList, Heap, list_head_insert}
use sizigy.Server.Retaining.{cell-snoc, cell-append, cell-set_other}
use sizigy.Sizigy.{cell}
use sizigy.Sizigy.Clients.{cell-lt}

-- The place is none of these.
abbrev pub IsOff : ℕ → List ℕ → Type 0
IsOff p [] = Unit {0}
IsOff p (q ∷ ps) = (p ≢ q) × IsOff p ps

-- From `head` on, the nodes at these places hold these data, and the last is followed by none.
abbrev pub IsSeg : Heap → Option ℕ → List ℕ → List ℕ → Type 0
IsSeg heap head [] [] = head ≡ none
IsSeg heap head [] (x ∷ xs) = ⊥
IsSeg heap head (p ∷ ps) [] = ⊥
IsSeg heap head (p ∷ ps) (x ∷ xs) =
    (head ≡ some p)
    × ((next : Option ℕ) × (cell heap p ≡ some (record { data_ = x; next = next }))
        × IsOff p ps
        × IsSeg heap next ps xs)

pub IsSeg-set :
    (heap : Heap) (p : ℕ) (o : Option Node) (head : Option ℕ) (ps xs : List ℕ)
    → IsOff p ps
    → IsSeg heap head ps xs
    → IsSeg (set heap p o) head ps xs
IsSeg-set heap p o head [] [] off seg = seg
IsSeg-set heap p o head [] (x ∷ xs) off seg = seg
IsSeg-set heap p o head (q ∷ ps) [] off seg = seg
IsSeg-set heap p o head (q ∷ ps) (x ∷ xs) (n, off) (e, (next, here, fresh, seg)) =
    (e, (next, cell-set_other heap p q o n ∙ here, fresh, IsSeg-set heap p o next ps xs off seg))

pub IsSeg-append :
    (heap rest : Heap) (head : Option ℕ) (ps xs : List ℕ)
    → IsSeg heap head ps xs
    → IsSeg (heap ++ rest) head ps xs
IsSeg-append heap rest head [] [] seg = seg
IsSeg-append heap rest head [] (x ∷ xs) seg = seg
IsSeg-append heap rest head (q ∷ ps) [] seg = seg
IsSeg-append heap rest head (q ∷ ps) (x ∷ xs) (e, (next, here, fresh, seg)) = (
  e,
  (
    next,
    cell-append heap rest q (cell-lt heap q _ here) ∙ here,
    fresh,
    IsSeg-append heap rest next ps xs seg,
  ),
)

-- The place behind the heap is none of the nodes'.
pub IsOff-length :
    (heap : Heap) (head : Option ℕ) (ps xs : List ℕ)
    → IsSeg heap head ps xs
    → IsOff (length heap) ps
IsOff-length heap head [] [] seg = tt
IsOff-length heap head [] (x ∷ xs) seg = tt
IsOff-length heap head (q ∷ ps) [] seg = absurd seg
IsOff-length heap head (q ∷ ps) (x ∷ xs) (e, (next, here, fresh, seg)) =
    ((λ k. omega (arith, cell-lt heap q _ here, k)), IsOff-length heap next ps xs seg)

-- An empty list needs no nodes.
IsSeg-bare :
    (heap heap' : Heap) (head : Option ℕ) (ps xs : List ℕ)
    → length xs ≤ 0
    → IsSeg heap head ps xs
    → IsSeg heap' none ps xs
IsSeg-bare heap heap' head [] [] h seg = refl
IsSeg-bare heap heap' head (p ∷ ps) [] h seg = seg
IsSeg-bare heap heap' head ps (x ∷ xs) h seg = absurd (omega arith)

-- What the insertion is to establish.
abbrev IsInserted : LinkedList → ℕ → Heap → List ℕ → List ℕ → LinkedList × Heap → Type 0
IsInserted l val heap ps xs r =
    IsSeg r.1 r.0.head (length heap ∷ ps) (val ∷ xs) × (r.0.len ≡ l.len + 1)

-- The two branches of list_head_insert.
branch : LinkedList → ℕ → Heap → Bool → LinkedList × Heap
branch l val heap bare =
    let new = length heap in
    if bare
    then (
      record { head = some new; tail = some new; len = l.len + 1 },
      heap ++ (some (record { data_ = val; next = none }) ∷ []),
    )
    else (
      record l { head = some new; len = l.len + 1 },
      heap ++ (some (record { data_ = val; next = l.head }) ∷ []),
    )

-- list_head_insert on a list that is no longer than its `len`: the list then holds the new datum in front
-- of what it held, and `len` is one more.
pub list_head_insert_lem :
    (l : LinkedList) (val : ℕ) (heap : Heap) (ps xs : List ℕ)
    → IsSeg heap l.head ps xs
    → length xs ≤ l.len
    → let (l', heap') = list_head_insert l val heap in
      IsSeg heap' l'.head (length heap ∷ ps) (val ∷ xs) × (l'.len ≡ l.len + 1)
unfolding list_head_insert branch
list_head_insert_lem l val heap ps xs seg sized =
    let off = IsOff-length heap l.head ps xs seg in
    elim (Bool-cases (l.len == 0)) [
      | inl bare ↦ subst (IsInserted l val heap ps xs) (sym (ap (branch l val heap) bare)) (
        (
          refl,
          (none, cell-snoc heap _, off, IsSeg-bare heap _ l.head ps xs (ground (arith, bare)) seg),
        ),
        refl,
      )
      | inr some_there ↦
          subst (IsInserted l val heap ps xs) (sym (ap (branch l val heap) some_there))
            ((refl, (l.head, cell-snoc heap _, off, IsSeg-append heap _ l.head ps xs seg)), refl)
    ]
