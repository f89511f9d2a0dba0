-- ===== src/Hashmap/Tests.antt =====
-- The table at small sizes, and the theorems at tables that the calls of the program reach.
use mathlib.Core.Bool.{false≢true}
use sizigy.Base.{
  ℕ, ◌+◌, zero, suc, ◌≡◌, sym, ◌∙◌, refl, true, false, none, some, [], ◌∷◌, arith, Bool,
  if◌then◌else◌,
}
use sizigy.Hashmap.{
  Key, same_key, Status, Hashmap, Entry, blank, ok, err, Outcome, returns, deadlock, out_of_fuel,
  entry, holds, create, put, del, get, iterate, hash, write, erase, put_locked, place, free_slot,
  find_slot,
}
use sizigy.Hashmap.Crc.{hash_int}
use sizigy.Hashmap.Valid.{used, IsValid, create-IsValid, write-IsValid}
use sizigy.Hashmap.Put.{put_lem}
use sizigy.Hashmap.Answers.{get-put}
use sizigy.Hashmap.Del.{get-del}
use sizigy.Hashmap.Visit.{live, visit, iterate_lem}

abbrev roomy : ℕ → Bool
roomy n = true

-- Two keys with one home slot.
abbrev c : Key
c = 99 ∷ []

abbrev k : Key
k = 107 ∷ []

abbrev table : Outcome (Status × Hashmap ℕ) → Hashmap ℕ
table (returns (s, m)) = m
table deadlock = create
table out_of_fuel = create

abbrev start : Hashmap ℕ
start = create {V = ℕ}

abbrev one_key : Hashmap ℕ
one_key = write start 64 c (some 1)

abbrev two_keys : Hashmap ℕ
two_keys = write one_key 65 k (some 2)

abbrev holed : Hashmap ℕ
holed = erase two_keys 64

hash_int-c : hash_int 256 c ≡ hash_int 256 k
unfolding hash_int
hash_int-c = refl

put-start : put roomy 2 start c (some 1) ≡ returns (ok, one_key)
unfolding put hash create entry hash_int write put_locked place free_slot holds same_key
put-start = refl

put-one_key : put roomy 2 one_key k (some 2) ≡ returns (ok, two_keys)
unfolding put hash create entry hash_int write put_locked place free_slot holds same_key
put-one_key = refl

del-two_keys : del two_keys c ≡ returns (ok, holed)
unfolding del create entry hash_int write erase holds find_slot same_key
del-two_keys = refl

start-IsValid : IsValid start
start-IsValid = create-IsValid start refl

one_key-IsValid : IsValid one_key
unfolding create
one_key-IsValid = write-IsValid start 64 c (some 1) (omega arith) start-IsValid

-- Half of the slots are in use.
abbrev heavy : Hashmap ℕ
heavy = record {
  table_size = 4;
  size = 2;
  entries =
      record { key = c; val = some 7; in_use = true }
      ∷ blank
      ∷ record { key = k; val = some 8; in_use = true }
      ∷ blank
      ∷ [];
  lock = false;
}

heavy-IsValid : IsValid heavy
unfolding used
heavy-IsValid = record {
  slots = refl;
  some_slots = omega arith;
  indexable = omega arith;
  counted = refl;
}

put_lem_example : put roomy 2 heavy c (some 1) ≡ deadlock
unfolding hash
put_lem_example = put_lem roomy 0 heavy c (some 1) heavy-IsValid

get-put_example :
    (get two_keys c ≡ (if same_key k c then returns (some 2) else get one_key c))
    × IsValid two_keys
    × (two_keys.lock ≡ false)
get-put_example = get-put roomy 0 one_key two_keys k c (some 2) one_key-IsValid put-one_key

holds-heavy : (s : ℕ) → holds (entry heavy s) c ≡ true → s ≡ 0
unfolding holds entry same_key
holds-heavy zero h = refl
holds-heavy (suc zero) h = absurd (false≢true h)
holds-heavy (suc (suc zero)) h = absurd (false≢true h)
holds-heavy (suc (suc (suc zero))) h = absurd (false≢true h)
holds-heavy (suc (suc (suc (suc s)))) h = absurd (false≢true h)

get-del_example :
    (get (erase heavy 0) c ≡ (if same_key c c then returns none else get heavy c))
    × IsValid (erase heavy 0)
    × (heavy.lock ≡ false)
unfolding del find_slot hash_int holds entry same_key erase
get-del_example =
    get-del heavy (erase heavy 0) c c heavy-IsValid
      (λ s t h h'. holds-heavy s h ∙ sym (holds-heavy t h')) refl

-- Counts the entries and stops at the key k.
abbrev count : ℕ → Entry ℕ → Status × ℕ
count n e = if same_key e.key k then (err, n) else (ok, n + 1)

iterate_lem_example : iterate count heavy 5 ≡ (err, 6)
unfolding live visit same_key
iterate_lem_example = iterate_lem count heavy 5 heavy-IsValid
