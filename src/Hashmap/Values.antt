-- ===== src/Hashmap/Values.antt =====
-- What holds of every value of a table: hashmap_get answers with such a value, and hashmap_put of one
-- more keeps it so, a failing hashmap_rehash included.
use sizigy.Base.{
  ℕ, zero, suc, ◌*◌, Bool, true, false, Option, none, some, List, [], ◌∷◌, if◌then◌else◌, get_or,
  set, replicate, Option-cases, inl, inr, Bool-cases,
}
use sizigy.Hashmap.{
  Key, Status, ok, err, Outcome, returns, deadlock, out_of_fuel, Hashmap, Entry, blank, entry,
  find_slot, hash, write, reinsert, place, put_locked, rehash, get, put, max_chain_length,
}
use sizigy.Hashmap.Crc.{hash_int}

abbrev pub AllVals : {V : Type 0} → (Option V → Type 0) → List (Entry V) → Type 0
AllVals R [] = Unit {0}
AllVals R (e ∷ es) = R e.val × AllVals R es

-- The predicate holds of what the call answers with.
abbrev pub Answers : {A : Type 0} → (A → Type 0) → Outcome A → Type 0
Answers Q (returns a) = Q a
Answers Q deadlock = Unit {0}
Answers Q out_of_fuel = Unit {0}

module _ {A : Type 0} (Q : A → Type 0) where
  Answers-if :
      (b : Bool) (x y : Outcome A) → Answers Q x → Answers Q y → Answers Q (if b then x else y)
  Answers-if true x y h h' = h
  Answers-if false x y h h' = h'

module _ {V : Type 0} (R : Option V → Type 0) (null : R none) where
  AllVals-get_or : (es : List (Entry V)) (i : ℕ) → AllVals R es → R (get_or es i blank).val
  AllVals-get_or [] i h = null
  AllVals-get_or (e ∷ es) zero (r, h) = r
  AllVals-get_or (e ∷ es) (suc i) (r, h) = AllVals-get_or es i h

  AllVals-set :
      (es : List (Entry V)) (i : ℕ) (x : Entry V) → R x.val → AllVals R es → AllVals R (set es i x)
  AllVals-set [] i x rx h = tt
  AllVals-set (e ∷ es) zero x rx (r, h) = (rx, h)
  AllVals-set (e ∷ es) (suc i) x rx (r, h) = (r, AllVals-set es i x rx h)

  pub AllVals-blank : (n : ℕ) → AllVals R (replicate n (blank {V = V}))
  AllVals-blank zero = tt
  AllVals-blank (suc n) = (null, AllVals-blank n)

  abbrev Holds : {A : Type 0} → A × Hashmap V → Type 0
  Holds (a, m) = AllVals R m.entries

  pub get-vals : (m : Hashmap V) (key : Key) → AllVals R m.entries → Answers R (get m key)
  unfolding get entry
  get-vals m key h =
      Answers-if R m.lock deadlock _ tt
        (found (find_slot max_chain_length m key (hash_int m.table_size key)))
    where
      found :
          (o : Option ℕ)
          → Answers R (elim o as (λ x. Outcome (Option V)) [
            | none ↦ returns none
            | some i ↦ returns (entry m i).val
          ])
      found none = null
      found (some i) = AllVals-get_or m.entries i h

  abbrev pub Puts : (Hashmap V → Key → Option V → Outcome (Status × Hashmap V)) → Type 0
  Puts insert =
      (m : Hashmap V) (key : Key) (val : Option V)
      → AllVals R m.entries
      → R val
      → Answers Holds (insert m key val)

  -- What follows the call for one entry.
  reinsert_next :
      (again : Hashmap V → Outcome (Status × Hashmap V))
      → ((m : Hashmap V) → AllVals R m.entries → Answers Holds (again m))
      → (o : Outcome (Status × Hashmap V)) → Answers Holds o
      → Answers Holds (elim o as (λ x. Outcome (Status × Hashmap V)) [
        | returns (ok, m') ↦ again m'
        | returns (err, m') ↦ returns (err, m')
        | deadlock ↦ deadlock
        | out_of_fuel ↦ out_of_fuel
      ])
  reinsert_next again keeps (returns (ok, m')) h = keeps m' h
  reinsert_next again keeps (returns (err, m')) h = h
  reinsert_next again keeps deadlock h = tt
  reinsert_next again keeps out_of_fuel h = tt

  place_next :
      (again : Hashmap V → Outcome (Option ℕ × Hashmap V))
      → ((m : Hashmap V) → AllVals R m.entries → Answers Holds (again m))
      → (o : Outcome (Status × Hashmap V)) → Answers Holds o
      → Answers Holds (elim o as (λ x. Outcome (Option ℕ × Hashmap V)) [
        | returns (ok, m') ↦ again m'
        | returns (err, m') ↦ returns (none, m')
        | deadlock ↦ deadlock
        | out_of_fuel ↦ out_of_fuel
      ])
  place_next again keeps (returns (ok, m')) h = keeps m' h
  place_next again keeps (returns (err, m')) h = h
  place_next again keeps deadlock h = tt
  place_next again keeps out_of_fuel h = tt

  module _ (insert : Hashmap V → Key → Option V → Outcome (Status × Hashmap V))
      (keeps : Puts insert) where
    reinsert-vals :
        (es : List (Entry V)) (m : Hashmap V)
        → AllVals R es
        → AllVals R m.entries
        → Answers Holds (reinsert insert es m)
    unfolding reinsert
    reinsert-vals [] m old h = h
    reinsert-vals (e ∷ es) m (r, old) h = elim (Bool-cases e.in_use) [
      | inl busy ↦ rw busy (
          reinsert_next (λ m'. reinsert insert es m') (λ m' h'. reinsert-vals es m' old h')
            (insert m e.key e.val) (keeps m e.key e.val h r))
      | inr free ↦ rw free (reinsert-vals es m old h)
    ]

    rehash-vals :
        (calloc : ℕ → Bool) (m : Hashmap V)
        → AllVals R m.entries
        → Answers Holds (rehash calloc insert m)
    unfolding rehash
    rehash-vals calloc m h =
        Answers-if Holds (calloc (2 * m.table_size)) _ (returns (err, m))
          (reinsert-vals m.entries _ h (AllVals-blank (2 * m.table_size))) h

  place-vals :
      (fuel : ℕ) (again : Hashmap V → Outcome (Status × Hashmap V))
      → ((m : Hashmap V) → AllVals R m.entries → Answers Holds (again m))
      → (m : Hashmap V) (key : Key) → AllVals R m.entries
      → Answers Holds (place fuel again m key)
  unfolding place
  place-vals zero again keeps m key h = tt
  place-vals (suc fuel) again keeps m key h = elim (Option-cases (hash m key)) [
    | inl full ↦
        rw (place, full)
          (place_next (λ m'. place fuel again m' key)
            (λ m' h'. place-vals fuel again keeps m' key h') (again m) (keeps m h))
    | inr (i, here) ↦ rw (place, here) h
  ]

  put_locked-vals :
      (o : Outcome (Option ℕ × Hashmap V)) (key : Key) (val : Option V)
      → Answers Holds o
      → R val
      → Answers Holds (put_locked o key val)
  unfolding put_locked write
  put_locked-vals (returns (some i, m)) key val h r = AllVals-set m.entries i _ r h
  put_locked-vals (returns (none, m)) key val h r = h
  put_locked-vals deadlock key val h r = tt
  put_locked-vals out_of_fuel key val h r = tt

  pub put-vals : (calloc : ℕ → Bool) (fuel : ℕ) → Puts (put calloc fuel)
  unfolding put
  put-vals calloc zero m key val h r = tt
  put-vals calloc (suc fuel) m key val h r = elim (Bool-cases m.lock) [
    | inl held ↦ rw held tt
    | inr free ↦ rw free (
        put_locked-vals _ key val
          (place-vals fuel (rehash calloc (put calloc fuel))
            (rehash-vals (put calloc fuel) (put-vals calloc fuel) calloc) (record m { lock = true })
            key h)
          r)
  ]
