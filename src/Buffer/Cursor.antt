-- ===== src/Buffer/Cursor.antt =====
-- A buffer as the bytes in front of its position and those behind it.
use sizigy.Base.{
  ℕ, zero, suc, ◌+◌, ◌≤◌, ◌<◌, ◌≡◌, refl, sym, ap, none, some, List, [], ◌∷◌, ◌++◌, arith,
  append-nil, append_assoc, length, drop, get_elem?, ltb, lt→ltb, true, length-append,
  set-length_append,
}
use sizigy.Buffer.{Buffer, ◌>>=◌, byte, bytes, store, stores}

abbrev pub cursor : ℕ → List ℕ → List ℕ → Buffer
cursor n front back = record { size = n; pos = length front; data_ = front ++ back }

get_elem?-length_append : (xs ys : List ℕ) (y : ℕ) → get_elem? (xs ++ (y ∷ ys)) (length xs) ≡ some y
get_elem?-length_append [] ys y = refl
get_elem?-length_append (x ∷ xs) ys y = get_elem?-length_append xs ys y

get_elem?-length_end : (xs : List ℕ) → get_elem? (xs ++ []) (length xs) ≡ none
get_elem?-length_end [] = refl
get_elem?-length_end (x ∷ xs) = get_elem?-length_end xs

module _ (n : ℕ) where
  -- One byte on, the buffer is the same block.
  step :
      (front back : List ℕ) (x : ℕ)
      → ◌≡◌ {A = Buffer}
          (record { size = n; pos = length front + 1; data_ = front ++ (x ∷ back) })
          (cursor n (front ++ (x ∷ [])) back)
  step front back x = λ i. record {
    size = n;
    pos = sym (length-append front (x ∷ [])) i;
    data_ = sym (append_assoc front (x ∷ []) back) i;
  }

  pub byte-cursor :
      (front back : List ℕ) (x : ℕ)
      → byte (cursor n front (x ∷ back)) ≡ some (x, cursor n (front ++ (x ∷ [])) back)
  unfolding byte
  byte-cursor front back x =
      rw (byte, get_elem?-length_append front back x) (ap (λ b. some (x, b)) (step front back x))

  byte-end : (front : List ℕ) → byte (cursor n front []) ≡ none
  unfolding byte
  byte-end front = rw (byte, get_elem?-length_end front)

  -- A read that stays inside the block returns the bytes behind the position.
  pub bytes-cursor :
      (xs front back : List ℕ)
      → bytes (length xs) (cursor n front (xs ++ back)) ≡ some (xs, cursor n (front ++ xs) back)
  unfolding bytes
  bytes-cursor [] front back = rw append-nil
  bytes-cursor (x ∷ xs) front back =
      rw (bytes, ◌>>=◌, byte-cursor front (xs ++ back) x, bytes-cursor xs (front ++ (x ∷ [])) back)
        (rw append_assoc)

  -- A read of more bytes than there are leaves the block.
  pub bytes-short :
      (k : ℕ) (front back : List ℕ) → length back < k → bytes k (cursor n front back) ≡ none
  unfolding bytes
  bytes-short zero front back h = elim h [ ]
  bytes-short (suc k) front [] h = rw (bytes, ◌>>=◌, byte-end front)
  bytes-short (suc k) front (x ∷ back) h =
      rw (
        bytes,
        ◌>>=◌,
        byte-cursor front back x,
        bytes-short k (front ++ (x ∷ [])) back (omega arith),
      )

  store-cursor :
      (front back : List ℕ) (x old : ℕ)
      → store x (cursor n front (old ∷ back)) ≡ some (tt, cursor n (front ++ (x ∷ [])) back)
  unfolding store
  store-cursor front back x old =
      let inside : ltb (length front) (length (front ++ (old ∷ back))) ≡ true =
        lt→ltb _ _ (omega (arith, length-append front (old ∷ back))) in
      rw (store, inside, set-length_append) (ap (λ b. some (tt, b)) (step front back x))

  -- A write that stays inside the block replaces the bytes behind the position.
  pub stores-cursor :
      (xs front back : List ℕ)
      → length xs ≤ length back
      → stores xs (cursor n front back) ≡ some (tt, cursor n (front ++ xs) (drop (length xs) back))
  unfolding stores
  stores-cursor [] front back h = rw append-nil
  stores-cursor (x ∷ xs) front [] h = elim h [ ]
  stores-cursor (x ∷ xs) front (old ∷ back) h =
      rw
        (
          stores,
          ◌>>=◌,
          store-cursor front back x old,
          stores-cursor xs (front ++ (x ∷ [])) back (omega arith),
        )
        (rw append_assoc)
