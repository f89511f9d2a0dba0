-- ===== src/Hashmap/Valid.antt =====
-- The invariant of a table: as many entries as its size says, and a count of those in use.
use mathlib.Core.Bool.{false≢true}
use mathlib.Core.Path.{subst}
use sizigy.Base.{
  ℕ, zero, suc, ◌+◌, ◌^◌, ◌≤◌, ◌<◌, ◌≡◌, refl, sym, Bool, true, false, List, [], ◌∷◌, arith, length,
  get_or, set, length-set, Option, replicate, length-replicate,
}
use sizigy.Hashmap.{Key, Hashmap, Entry, blank, entry, write, erase, create}

abbrev pub to_nat : Bool → ℕ
to_nat true = 1
to_nat false = 0

module _ {V : Type 0} where
  unfoldable pub used : List (Entry V) → ℕ
  used [] = 0
  used (e ∷ es) = to_nat e.in_use + used es

  pub used-set :
      (es : List (Entry V)) (i : ℕ) (e : Entry V)
      → i < length es
      → used (set es i e) + to_nat (get_or es i blank).in_use ≡ used es + to_nat e.in_use
  unfolding used
  used-set [] i e h = absurd (omega arith)
  used-set (x ∷ es) zero e h = omega arith
  used-set (x ∷ es) (suc i) e h = omega (arith, used-set es i e (omega arith))

  pub used_pos : (es : List (Entry V)) (i : ℕ) → (get_or es i blank).in_use ≡ true → 0 < used es
  unfolding used
  used_pos [] i h = absurd (false≢true h)
  used_pos (x ∷ es) zero h = ground arith
  used_pos (x ∷ es) (suc i) h = omega (arith, used_pos es i h)

used-replicate : (V : Type 0) (n : ℕ) → used (replicate n (blank {V = V})) ≡ 0
unfolding used
used-replicate V zero = refl
used-replicate V (suc n) = omega (arith, used-replicate V n)

pub record IsValid {V : Type 0} (m : Hashmap V) : Type 0 where
  pub slots : length m.entries ≡ m.table_size
  pub some_slots : 2 ≤ m.table_size
  pub indexable : m.table_size ≤ 2 ^ 31
  pub counted : m.size ≡ used m.entries

module _ {V : Type 0} where
  pub create-IsValid : (m : Hashmap V) → m ≡ create → IsValid m
  unfolding create
  create-IsValid m e = subst IsValid (sym e) (record {
    slots = length-replicate 256 (blank {V = V});
    some_slots = omega arith;
    indexable = omega arith;
    counted = sym (used-replicate V 256);
  })

  pub write-IsValid :
      (m : Hashmap V) (i : ℕ) (k : Key) (v : Option V)
      → i < m.table_size
      → IsValid m
      → IsValid (write m i k v)
  unfolding write entry
  write-IsValid m i k v h valid = ground (
    arith,
    length-set m.entries i (record { key = k; val = v; in_use = true }),
    used-set m.entries i (record { key = k; val = v; in_use = true }),
  )

  pub erase-IsValid :
      (m : Hashmap V) (i : ℕ)
      → i < m.table_size
      → (entry m i).in_use ≡ true
      → IsValid m
      → IsValid (erase m i)
  unfolding erase entry
  erase-IsValid m i h busy valid = ground (
    arith,
    length-set m.entries i (record (get_or m.entries i blank) { in_use = false }),
    used-set m.entries i (record (get_or m.entries i blank) { in_use = false }),
  )
