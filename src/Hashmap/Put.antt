-- ===== src/Hashmap/Put.antt =====
-- hashmap_put: what it returns, on every branch, and what hashmap_get answers afterwards.

use sizigy.Base.{
  ℕ, zero, suc, ◌*◌, ◌/◌, ◌<◌, ◌≡◌, refl, sym, ap, ◌∙◌, Bool, true, false, Option, none, some, List,
  [], ◌∷◌, arith, if◌then◌else◌, Bool-cases, Option-cases, inl, inr, lt-or-le,
}
use sizigy.Hashmap.{
  Key, Status, ok, err, Outcome, returns, deadlock, Hashmap, Entry, entry, hash, free_slot,
  next_slot, write, reinsert, place, put_locked, rehash, put, max_chain_length,
}
use sizigy.Hashmap.Crc.{hash_int}
use sizigy.Hashmap.Valid.{IsValid, used, used_pos}

module _ {V : Type 0} where
  free_slot-lock :
      (b : Bool) (rounds : ℕ) (m : Hashmap V) (key : Key) (curr : ℕ)
      → free_slot rounds (record m { lock = b }) key curr ≡ free_slot rounds m key curr
  unfolding free_slot entry
  free_slot-lock b zero m key curr = refl
  free_slot-lock b (suc rounds) m key curr = rw (free_slot-lock b rounds m key (next_slot m curr))

  hash-lock : (b : Bool) (m : Hashmap V) (key : Key) → hash (record m { lock = b }) key ≡ hash m key
  unfolding hash
  hash-lock b m key = rw (free_slot-lock b max_chain_length m key (hash_int m.table_size key))

  -- A table that is full for a key holds an entry.
  used_of_full : (m : Hashmap V) (key : Key) → IsValid m → hash m key ≡ none → 0 < used m.entries
  unfolding hash free_slot entry
  used_of_full m key v full = elim (lt-or-le m.size (m.table_size / 2)) [
    | inl light ↦ used_pos m.entries (hash_int m.table_size key) (ground arith)
    | inr heavy ↦ omega (arith, v.counted, v.some_slots)
  ]

  -- What hashmap_hash returns, where it returns a slot.
  pub hash_sound :
      (m : Hashmap V) (key : Key) (i : ℕ)
      → hash m key ≡ some i
      → free_slot max_chain_length m key (hash_int m.table_size key) ≡ some i
  unfolding hash
  hash_sound m key i e = ground arith

module _ {V : Type 0} (calloc : ℕ → Bool) where
  put_held :
      (f : ℕ) (m : Hashmap V) (k : Key) (v : Option V)
      → m.lock ≡ true
      → put calloc (suc f) m k v ≡ deadlock
  unfolding put
  put_held f m k v e = ground arith

  reinsert_held :
      (f : ℕ) (es : List (Entry V)) (m : Hashmap V)
      → m.lock ≡ true
      → 0 < used es
      → reinsert (put calloc (suc f)) es m ≡ deadlock
  unfolding reinsert used
  reinsert_held f [] m held h = absurd (omega arith)
  reinsert_held f (e ∷ es) m held h = elim (Bool-cases e.in_use) [
    | inl busy ↦ simp (busy, put_held f m e.key e.val held)
    | inr free ↦ simp free (reinsert_held f es m held (ground arith))
  ]

  locked : Hashmap V → Hashmap V
  locked m = record m { lock = true }

  -- With an array of twice the size at hand, the rehash waits for the lock that its caller holds.
  rehash_held :
      (f : ℕ) (m : Hashmap V)
      → 0 < used m.entries
      → rehash calloc (put calloc (suc f)) (locked m)
        ≡ (if calloc (2 * m.table_size) then deadlock else returns (err, locked m))
  unfolding rehash locked
  rehash_held f m h = elim (Bool-cases (calloc (2 * m.table_size))) [
    | inl more ↦ rw more (reinsert_held f m.entries _ refl h)
    | inr no_more ↦ rw no_more
  ]

  put_free :
      (f : ℕ) (m : Hashmap V) (k : Key) (v : Option V)
      → m.lock ≡ false
      → put calloc (suc f) m k v
        ≡ put_locked (place f (rehash calloc (put calloc f)) (locked m) k) k v
  unfolding put locked
  put_free f m k v e = ground arith

  module _ (m : Hashmap V) (k : Key) (rehash_ : Hashmap V → Outcome (Status × Hashmap V))
      (f : ℕ) where
    place_found :
        (i : ℕ)
        → hash m k ≡ some i
        → place (suc f) rehash_ (locked m) k ≡ returns (some i, locked m)
    unfolding place locked
    place_found i e = let e' : hash (locked m) k ≡ some i = hash-lock true m k ∙ e in rw (place, e')

    place_err :
        hash m k ≡ none
        → rehash_ (locked m) ≡ returns (err, locked m)
        → place (suc f) rehash_ (locked m) k ≡ returns (none, locked m)
    unfolding place locked
    place_err e r = let e' : hash (locked m) k ≡ none = hash-lock true m k ∙ e in rw (place, e', r)

    place_deadlock :
        hash m k ≡ none
        → rehash_ (locked m) ≡ deadlock
        → place (suc f) rehash_ (locked m) k ≡ deadlock
    unfolding place locked
    place_deadlock e r =
        let e' : hash (locked m) k ≡ none = hash-lock true m k ∙ e in rw (place, e', r)

  unlocked : (m : Hashmap V) → m.lock ≡ false → record (locked m) { lock = false } ≡ m
  unfolding locked
  unlocked m free = λ i. record m { lock = sym free i }

  unlocked-write :
      (m : Hashmap V) (i : ℕ) (k : Key) (v : Option V)
      → m.lock ≡ false
      → record (write (locked m) i k v) { lock = false } ≡ write m i k v
  unfolding locked write entry
  unlocked-write m i k v free = λ j. record (write m i k v) { lock = sym free j }

  module _ (f : ℕ) (m : Hashmap V) (k : Key) (v : Option V) (valid : IsValid m)
      (free : m.lock ≡ false) where
    open_ :
        put calloc (suc (suc f)) m k v
        ≡ put_locked (place (suc f) (rehash calloc (put calloc (suc f))) (locked m) k) k v
    open_ = put_free (suc f) m k v free

    -- A key with a slot is written there.
    pub put_found :
        (i : ℕ) → hash m k ≡ some i → put calloc (suc (suc f)) m k v ≡ returns (ok, write m i k v)
    unfolding put_locked
    put_found i e =
        open_
        ∙ ap (λ o. put_locked o k v) (place_found m k _ f i e)
        ∙ ap (λ w. returns (ok, w)) (unlocked-write m i k v free)

    -- Where no slot is left and a larger array can be had, the call waits for ever.
    pub put_deadlock :
        hash m k ≡ none
        → calloc (2 * m.table_size) ≡ true
        → put calloc (suc (suc f)) m k v ≡ deadlock
    unfolding put_locked
    put_deadlock e more =
        let r =
          rehash_held f m (used_of_full m k valid e)
          ∙ ap (λ b. if b then deadlock else returns (err, locked m)) more in
        open_ ∙ ap (λ o. put_locked o k v) (place_deadlock m k _ f e r)

    -- Where no slot is left and no larger array can be had, the call returns an error and changes nothing.
    pub put_err :
        hash m k ≡ none
        → calloc (2 * m.table_size) ≡ false
        → put calloc (suc (suc f)) m k v ≡ returns (err, m)
    unfolding put_locked
    put_err e no_more =
        let r =
          rehash_held f m (used_of_full m k valid e)
          ∙ ap (λ b. if b then deadlock else returns (err, locked m)) no_more in
        open_
        ∙ ap (λ o. put_locked o k v) (place_err m k _ f e r)
        ∙ ap (λ w. returns (err, w)) (unlocked m free)

  -- hashmap_put on a valid table, with fuel for two nested calls. If the lock is taken the call waits
  -- for ever. Otherwise the slot that hashmap_hash returns is written; and where it returns
  -- HASHMAP_FULL, the call fails with no change if no array of twice the size can be had, and waits
  -- for ever if one can, since the rehash calls hashmap_put with the lock taken.
  pub put_lem :
      (f : ℕ) (m : Hashmap V) (k : Key) (v : Option V)
      → IsValid m
      → put calloc (suc (suc f)) m k v ≡ (
          if m.lock then deadlock else (elim (hash m k) [
            | some i ↦ returns (ok, write m i k v)
            | none ↦ if calloc (2 * m.table_size) then deadlock else returns (err, m)
          ]))
  put_lem f m k v valid = elim (Bool-cases m.lock) [
    | inl held ↦ ground (arith, put_held (suc f) m k v held)
    | inr free ↦ elim (Option-cases (hash m k)) [
      | inl full ↦
          ground (arith, put_deadlock f m k v valid free full, put_err f m k v valid free full)
      | inr (i, found) ↦ ground (arith, put_found f m k v valid free i found)
    ]
  ]

-- A call that returned HASHMAP_OK found the lock free and a slot, and wrote it.
pub put_inv :
    {V : Type 0} (calloc : ℕ → Bool) (f : ℕ) (m m' : Hashmap V) (k : Key) (v : Option V)
    → IsValid m
    → put calloc (suc (suc f)) m k v ≡ returns (ok, m')
    → (m.lock ≡ false) × ((i : ℕ) × (hash m k ≡ some i) × (m' ≡ write m i k v))
put_inv calloc f m m' k v valid run = elim (Bool-cases m.lock) [
  | inl held ↦ absurd (cc (put_held calloc (suc f) m k v held))
  | inr free ↦ (
    free,
    elim (Option-cases (hash m k)) [
      | inl full ↦ absurd (
          ground (
            arith,
            put_deadlock calloc f m k v valid free full,
            put_err calloc f m k v valid free full,
          ))
      | inr (i, found) ↦ (i, found, cc (put_found calloc f m k v valid free i found))
    ],
  )
]
