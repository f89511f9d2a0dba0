-- ===== src/Hashmap/Visit.antt =====
-- hashmap_iterate2 and hashmap_iterate3 against a walk over the entries in use.
use sizigy.Base.{
  ◌≡◌, ◌<◌, refl, true, false, List, [], ◌∷◌, ◌==◌, arith, if◌then◌else◌, Bool-cases, inl, inr, ap,
  ◌∙◌, lt-or-le,
}
use sizigy.Hashmap.{Status, ok, err, Hashmap, Entry, iterate_from, iterate}
use sizigy.Hashmap.Valid.{IsValid, used}

status_congr :
    {S : Type 0} (r : Status × S) (g h : S → Status × S)
    → ((s : S) → g s ≡ h s)
    → (elim r.0 [ ok ↦ g r.1 | err ↦ (err, r.1) ]) ≡ (elim r.0 [ ok ↦ h r.1 | err ↦ (err, r.1) ])
status_congr (ok, s) g h same = same s
status_congr (err, s) g h same = refl

module _ {V : Type 0} where
  -- The entries in use, in the order of their slots.
  unfoldable pub live : List (Entry V) → List (Entry V)
  live [] = []
  live (e ∷ es) = if e.in_use then e ∷ live es else live es

  -- A walk over a list that ends at the first error.
  unfoldable pub visit : {S : Type 0} → (S → Entry V → Status × S) → List (Entry V) → S → Status × S
  visit f [] s = (ok, s)
  visit f (e ∷ es) s =
      let (status, s') = f s e in elim status [ ok ↦ visit f es s' | err ↦ (err, s') ]

  iterate_from-visit :
      {S : Type 0} (f : S → Entry V → Status × S) (es : List (Entry V)) (s : S)
      → iterate_from f es s ≡ visit f (live es) s
  unfolding iterate_from live visit
  iterate_from-visit f [] s = refl
  iterate_from-visit f (e ∷ es) s = elim (Bool-cases e.in_use) [
    | inl busy ↦
        simp busy
          (status_congr (f s e) (iterate_from f es) (visit f (live es)) (iterate_from-visit f es))
    | inr free ↦ simp free (iterate_from-visit f es s)
  ]

  live_none : (es : List (Entry V)) → used es ≡ 0 → live es ≡ []
  unfolding used live
  live_none [] h = refl
  live_none (e ∷ es) h = ground (arith, live_none es)

  live_some :
      (es : List (Entry V))
      → 0 < used es
      → (e : Entry V) × ((rest : List (Entry V)) × (live es ≡ e ∷ rest))
  unfolding used live
  live_some [] h = absurd (omega arith)
  live_some (e ∷ es) h = elim (Bool-cases e.in_use) [
    | inl busy ↦ (e, (live es, ap (λ b. if b then e ∷ live es else live es) busy))
    | inr free ↦ simp free (live_some es (ground arith))
  ]

  -- hashmap_iterate2 and hashmap_iterate3 on a valid table: with no entry in use they return
  -- HASHMAP_ERR and call nothing; otherwise they call the function on the entries in use, in the order
  -- of their slots, up to the first that returns an error, and return its status.
  pub iterate_lem :
      {S : Type 0} (f : S → Entry V → Status × S) (m : Hashmap V) (s : S)
      → IsValid m
      → iterate f m s ≡ (elim (live m.entries) [ [] ↦ (err, s) | e ∷ es ↦ visit f (e ∷ es) s ])
  unfolding iterate
  iterate_lem f m s valid = elim (lt-or-le (used m.entries) 1) [
    | inl none_used ↦
        let empty : (m.size == 0) ≡ true = ground (arith, valid.counted) in
        simp (empty, live_none m.entries (omega (arith, none_used)))
    | inr some_used ↦
        let (e, (rest, shape)) = live_some m.entries some_used in
        let more : (m.size == 0) ≡ false = ground (arith, valid.counted) in
        simp (more, shape) (iterate_from-visit f m.entries s ∙ ap (λ es. visit f es s) shape)
  ]
