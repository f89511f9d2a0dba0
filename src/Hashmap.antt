-- ===== src/Hashmap.antt =====
-- src/hashmap.c: an open-addressing table with linear probing. A key is the text of a C string; the
-- table keeps the caller's pointer to it, and what the model stores is that text.
pub mod Crc
pub mod Probe
pub mod Valid
pub mod Put
pub mod Answers
pub mod Del
pub mod Stale
pub mod Visit
pub mod Values
mod Tests
use sizigy.Base.{
  ℕ, zero, suc, ◌+◌, ◌-◌, ◌*◌, ◌/◌, ◌%◌, Bool, true, false, not, ◌&&◌, Option, none, some, List, [],
  ◌∷◌, ◌==◌, leb, if◌then◌else◌, get_or, set, replicate,
}
use sizigy.Hashmap.Crc.{hash_int}

abbrev pub Key : Type 0
Key = List ℕ

-- `HASHMAP_OK` and `HASHMAP_ERR`
pub data Status : Type 0 where
  ok err : Status

-- A call returns, waits for ever on a lock that its own thread holds, or is cut off by the fuel.
pub data Outcome (A : Type 0) : Type 0 where
  returns : A → Outcome A
  deadlock : Outcome A
  out_of_fuel : Outcome A

-- `none` is the null pointer. The key of an entry that was never in use is read by no function, and the
-- empty text stands for it.
pub record Entry (V : Type 0) : Type 0 where
  pub key : Key
  pub val : Option V
  pub in_use : Bool

pub record Hashmap (V : Type 0) : Type 0 where
  pub table_size : ℕ
  pub size : ℕ
  pub entries : List (Entry V)
  pub lock : Bool

abbrev pub initial_size : ℕ
initial_size = 256

abbrev pub max_chain_length : ℕ
max_chain_length = 8

-- `strcmp(a, b) == 0`
unfoldable pub same_key : Key → Key → Bool
same_key [] [] = true
same_key [] (y ∷ ys) = false
same_key (x ∷ xs) [] = false
same_key (x ∷ xs) (y ∷ ys) = x == y && same_key xs ys

module _ {V : Type 0} where
  -- What `calloc` makes of an entry.
  abbrev pub blank : Entry V
  blank = record { key = []; val = none; in_use = false }

  -- `entries[i]`; the index is in range in a valid table.
  unfoldable pub entry : Hashmap V → ℕ → Entry V
  entry m i = get_or m.entries i blank

  -- `in_use == 1 && strcmp(entries[curr].key, key) == 0`
  unfoldable pub holds : Entry V → Key → Bool
  holds e key = e.in_use && same_key e.key key

  abbrev pub next_slot : Hashmap V → ℕ → ℕ
  next_slot m curr = (curr + 1) % m.table_size

  -- The probing loop of hashmap_get, hashmap_get_entry and hashmap_del, with the rounds left.
  unfoldable pub find_slot : ℕ → Hashmap V → Key → ℕ → Option ℕ
  find_slot zero m key curr = none
  find_slot (suc rounds) m key curr =
      let rest = find_slot rounds m key (next_slot m curr) in
      if holds (entry m curr) key then some curr else rest

  -- The probing loop of hashmap_hash.
  unfoldable pub free_slot : ℕ → Hashmap V → Key → ℕ → Option ℕ
  free_slot zero m key curr = none
  free_slot (suc rounds) m key curr =
      let rest = free_slot rounds m key (next_slot m curr) in
      if not (entry m curr).in_use
      then some curr
      else (if holds (entry m curr) key then some curr else rest)

  -- `none` is HASHMAP_FULL.
  unfoldable pub hash : Hashmap V → Key → Option ℕ
  hash m key =
      if leb (m.table_size / 2) m.size
      then none
      else free_slot max_chain_length m key (hash_int m.table_size key)

  unfoldable pub create : Hashmap V
  create = record {
    table_size = initial_size;
    size = 0;
    entries = replicate initial_size blank;
    lock = false;
  }

  -- The last lines of hashmap_put, up to the unlocking.
  unfoldable pub write : Hashmap V → ℕ → Key → Option V → Hashmap V
  write m i key val = record m {
    entries = set m.entries i (record { key = key; val = val; in_use = true });
    size = if (entry m i).in_use then m.size else m.size + 1;
  }

  -- The loop of hashmap_rehash over the old entries, with hashmap_put as an argument.
  unfoldable pub reinsert :
      (Hashmap V → Key → Option V → Outcome (Status × Hashmap V))
      → List (Entry V)
      → Hashmap V
      → Outcome (Status × Hashmap V)
  reinsert put [] m = returns (ok, m)
  reinsert put (e ∷ es) m = elim e.in_use [
    | false ↦ reinsert put es m
    | true ↦ elim (put m e.key e.val) [
      | returns (ok, m') ↦ reinsert put es m'
      | returns (err, m') ↦ returns (err, m')
      | deadlock ↦ deadlock
      | out_of_fuel ↦ out_of_fuel
    ]
  ]

  -- The loop of hashmap_put: `none` where a rehash fails.
  unfoldable pub place :
      ℕ
      → (Hashmap V → Outcome (Status × Hashmap V))
      → Hashmap V
      → Key
      → Outcome (Option ℕ × Hashmap V)
  place zero rehash m key = out_of_fuel
  place (suc fuel) rehash m key = elim (hash m key) [
    | some i ↦ returns (some i, m)
    | none ↦ elim (rehash m) [
      | returns (ok, m') ↦ place fuel rehash m' key
      | returns (err, m') ↦ returns (none, m')
      | deadlock ↦ deadlock
      | out_of_fuel ↦ out_of_fuel
    ]
  ]

  -- The lines of hashmap_put between the locking and the unlocking.
  unfoldable pub put_locked :
      Outcome (Option ℕ × Hashmap V) → Key → Option V → Outcome (Status × Hashmap V)
  put_locked (returns (some i, m)) key val =
      returns (ok, record (write m i key val) { lock = false })
  put_locked (returns (none, m)) key val = returns (err, record m { lock = false })
  put_locked deadlock key val = deadlock
  put_locked out_of_fuel key val = out_of_fuel

  -- `hashmap_get`; the lock is free again when it returns, and nothing else changes.
  unfoldable pub get : Hashmap V → Key → Outcome (Option V)
  get m key =
      if m.lock
      then deadlock
      else (elim (find_slot max_chain_length m key (hash_int m.table_size key)) [
        | none ↦ returns none
        | some i ↦ returns (entry m i).val
      ])

  -- `hashmap_get_entry` takes no lock.
  unfoldable pub get_entry : Hashmap V → Key → Option (Entry V)
  get_entry m key = elim (find_slot max_chain_length m key (hash_int m.table_size key)) [
    | none ↦ none
    | some i ↦ some (entry m i)
  ]

  unfoldable pub erase : Hashmap V → ℕ → Hashmap V
  erase m i = record m {
    entries = set m.entries i (record (entry m i) { in_use = false });
    size = m.size - 1;
  }

  -- `size--` runs only where an entry is in use.
  unfoldable pub del : Hashmap V → Key → Outcome (Status × Hashmap V)
  del m key =
      if m.lock
      then deadlock
      else (elim (find_slot max_chain_length m key (hash_int m.table_size key)) [
        | none ↦ returns (err, m)
        | some i ↦ returns (ok, erase m i)
      ])

  -- The loop of hashmap_iterate2 and of hashmap_iterate3, whose two arguments are one state here. All
  -- the callbacks of the program return HASHMAP_OK or HASHMAP_ERR.
  unfoldable pub iterate_from :
      {S : Type 0} → (S → Entry V → Status × S) → List (Entry V) → S → Status × S
  iterate_from f [] s = (ok, s)
  iterate_from f (e ∷ es) s = elim e.in_use [
    | false ↦ iterate_from f es s
    | true ↦ let (status, s') = f s e in elim status [ ok ↦ iterate_from f es s' | err ↦ (err, s') ]
  ]

  unfoldable pub iterate : {S : Type 0} → (S → Entry V → Status × S) → Hashmap V → S → Status × S
  unfolding iterate_from
  iterate f m s = if m.size == 0 then (err, s) else iterate_from f m.entries s

-- `calloc n` says whether an array of `n` entries can be had.
module _ {V : Type 0} (calloc : ℕ → Bool) where
  unfoldable pub rehash :
      (Hashmap V → Key → Option V → Outcome (Status × Hashmap V))
      → Hashmap V
      → Outcome (Status × Hashmap V)
  rehash put m =
      if calloc (2 * m.table_size)
      then reinsert put m.entries (record m {
        table_size = 2 * m.table_size;
        size = 0;
        entries = replicate (2 * m.table_size) blank;
      })
      else returns (err, m)

  -- hashmap_put and hashmap_rehash call one another; each call has its fuel.
  unfoldable pub put : ℕ → Hashmap V → Key → Option V → Outcome (Status × Hashmap V)
  put zero m key val = out_of_fuel
  put (suc fuel) m key val = elim m.lock [
    | true ↦ deadlock
    | false ↦ put_locked (place fuel (rehash (put fuel)) (record m { lock = true }) key) key val
  ]
