-- ===== src/Hashmap/Probe.antt =====
-- The probing loops: what they find in a table, and in a table with one entry written.
use mathlib.Core.Bool.{false≢true}
use native.Mathlib.Decide.{ℕ_discrete}
use native.Mathlib.Nat.{mod-lt}
use sizigy.Base.{
  ℕ, zero, suc, ◌+◌, ◌%◌, ◌<◌, ◌≡◌, ◌≢◌, refl, sym, ap, ◌∙◌, true, false, Option, none, some, [],
  ◌∷◌, ◌⊎◌, inl, inr, arith, if◌then◌else◌, length, set, get_or-set_self, get_or-set_ne, Bool-cases,
}
use sizigy.Hashmap.{
  Key, Hashmap, Entry, blank, same_key, entry, holds, next_slot, find_slot, free_slot, write, get,
  returns, max_chain_length,
}
use sizigy.Hashmap.Crc.{hash_int}

pub same_key_refl : (a : Key) → same_key a a ≡ true
unfolding same_key
same_key_refl [] = refl
same_key_refl (x ∷ a) = ground (arith, same_key_refl a)

pub eq_of_same_key : (a b : Key) → same_key a b ≡ true → a ≡ b
unfolding same_key
eq_of_same_key [] [] h = refl
eq_of_same_key [] (y ∷ b) h = cc
eq_of_same_key (x ∷ a) [] h = cc
eq_of_same_key (x ∷ a) (y ∷ b) h = ground (arith, eq_of_same_key a b)

pub same_key_ne : (a b : Key) → a ≢ b → same_key a b ≡ false
same_key_ne a b ne = elim (Bool-cases (same_key a b)) [
  | inl e ↦ absurd (ne (eq_of_same_key a b e))
  | inr e ↦ e
]

pub ne_of_same_key : (a b : Key) → same_key a b ≡ false → a ≢ b
ne_of_same_key a b other same =
    absurd (false≢true (sym other ∙ ap (same_key a) (sym same) ∙ same_key_refl a))

module _ {V : Type 0} where
  -- The value that the probing from `curr` on meets first.
  unfoldable pub seek : ℕ → Hashmap V → Key → ℕ → Option V
  seek zero m key curr = none
  seek (suc rounds) m key curr =
      let rest = seek rounds m key (next_slot m curr) in
      if holds (entry m curr) key then (entry m curr).val else rest

  abbrev pub lookup : Hashmap V → Key → Option V
  lookup m key = seek max_chain_length m key (hash_int m.table_size key)

  seek-find_slot :
      (rounds : ℕ) (m : Hashmap V) (key : Key) (curr : ℕ)
      → (elim (find_slot rounds m key curr) [
        | none ↦ returns none
        | some i ↦ returns (entry m i).val
      ])
        ≡ returns (seek rounds m key curr)
  unfolding seek find_slot
  seek-find_slot zero m key curr = refl
  seek-find_slot (suc rounds) m key curr = elim (Bool-cases (holds (entry m curr) key)) [
    | inl e ↦ rw e
    | inr e ↦ rw e (seek-find_slot rounds m key (next_slot m curr))
  ]

  pub get-lookup : (m : Hashmap V) (key : Key) → m.lock ≡ false → get m key ≡ returns (lookup m key)
  unfolding get
  get-lookup m key free =
      simp free (seek-find_slot max_chain_length m key (hash_int m.table_size key))

  -- Two tables that agree on where a key is held, and on what is held there, answer alike.
  pub seek_congr :
      (rounds : ℕ) (m m' : Hashmap V) (key : Key) (curr : ℕ)
      → m'.table_size ≡ m.table_size
      → ((s : ℕ) → holds (entry m' s) key ≡ holds (entry m s) key)
      → ((s : ℕ) → holds (entry m s) key ≡ true → (entry m' s).val ≡ (entry m s).val)
      → seek rounds m' key curr ≡ seek rounds m key curr
  unfolding seek
  seek_congr zero m m' key curr size same vals = refl
  seek_congr (suc rounds) m m' key curr size same vals =
      let n = next_slot m curr in
      let there : next_slot m' curr ≡ n = ap (λ t. (curr + 1) % t) size in
      let rest : seek rounds m' key (next_slot m' curr) ≡ seek rounds m key n =
        ap (seek rounds m' key) there ∙ seek_congr rounds m m' key n size same vals in
      elim (Bool-cases (holds (entry m curr) key)) [
        | inl e ↦ simp (same curr, e) (vals curr e)
        | inr e ↦ simp (same curr, e) rest
      ]

  -- A slot that hashmap_hash returns is free, or holds the key already.
  pub free_slot_sound :
      (rounds : ℕ) (m : Hashmap V) (key : Key) (curr i : ℕ)
      → 0 < m.table_size
      → curr < m.table_size
      → free_slot rounds m key curr ≡ some i
      → (i < m.table_size) × (((entry m i).in_use ≡ false) ⊎ (holds (entry m i) key ≡ true))
  unfolding free_slot
  free_slot_sound zero m key curr i pos h e = cc
  free_slot_sound (suc rounds) m key curr i pos h e =
      ground (arith, free_slot_sound rounds m key (next_slot m curr) i pos, mod-lt (curr + 1) pos)

  module _ (m : Hashmap V) (i : ℕ) (e : Entry V) (inside : i < length m.entries) where
    pub entry-set_self : entry (record m { entries = set m.entries i e }) i ≡ e
    unfolding entry
    entry-set_self = get_or-set_self m.entries i e blank inside

    pub entry-set_ne :
        (s : ℕ) → i ≢ s → entry (record m { entries = set m.entries i e }) s ≡ entry m s
    unfolding entry
    entry-set_ne s ne = get_or-set_ne m.entries i s e blank ne

  module _ (m : Hashmap V) (i : ℕ) (k : Key) (v : Option V) (inside : i < length m.entries) where
    entry-write_self : entry (write m i k v) i ≡ record { key = k; val = v; in_use = true }
    unfolding write entry
    entry-write_self = entry-set_self m i _ inside

    pub entry-write_ne : (s : ℕ) → i ≢ s → entry (write m i k v) s ≡ entry m s
    unfolding write entry
    entry-write_ne s ne = entry-set_ne m i _ inside s ne

    pub holds-write_self : holds (entry (write m i k v) i) k ≡ true
    unfolding holds
    holds-write_self = rw (entry-write_self, same_key_refl k)

  -- The slot is the current one, or the current one holds another key and the probing goes on.
  free_slot_step :
      (rounds : ℕ) (m : Hashmap V) (key : Key) (curr i : ℕ)
      → free_slot (suc rounds) m key curr ≡ some i
      → (curr ≡ i)
        ⊎ (((entry m curr).in_use ≡ true)
            × (holds (entry m curr) key ≡ false)
            × (free_slot rounds m key (next_slot m curr) ≡ some i))
  unfolding free_slot
  free_slot_step rounds m key curr i e = ground arith

  pub table_size-write :
      (m : Hashmap V) (i : ℕ) (k : Key) (v : Option V) → (write m i k v).table_size ≡ m.table_size
  unfolding write
  table_size-write m i k v = refl

  -- An entry holds one key.
  pub not_held : (e : Entry V) (k j : Key) → holds e k ≡ true → k ≢ j → holds e j ≡ false
  unfolding holds
  not_held e k j held ne =
      let same : same_key e.key k ≡ true = ground arith in
      let other : same_key e.key j ≡ false =
        same_key_ne e.key j (λ x. ne (sym (eq_of_same_key e.key k same) ∙ x)) in
      ground arith

  -- After a write to the slot that hashmap_hash returns, the probing meets the value written.
  pub seek-write :
      (rounds : ℕ) (m : Hashmap V) (k : Key) (v : Option V) (curr i : ℕ)
      → 0 < m.table_size
      → curr < m.table_size
      → m.table_size ≡ length m.entries
      → free_slot rounds m k curr ≡ some i
      → seek rounds (write m i k v) k curr ≡ v
  unfolding seek
  seek-write zero m k v curr i pos h slots e = absurd (unfold free_slot in cc)
  seek-write (suc rounds) m k v curr i pos h slots e =
      let (inside, why) = free_slot_sound (suc rounds) m k curr i pos h e in
      let w = write m i k v in
      elim (free_slot_step rounds m k curr i e) [
        | inl here ↦
            let self : entry w curr ≡ record { key = k; val = v; in_use = true } =
              ap (entry w) here ∙ entry-write_self m i k v (omega arith) in
            let held : holds (entry w curr) k ≡ true =
              ap (λ s. holds (entry w s) k) here ∙ holds-write_self m i k v (omega arith) in
            rw held (ap (λ x. x.val) self)
        | inr (used, other, rest) ↦
            let apart : i ≢ curr = λ same.
              ground
                (arith, ap (λ s. (entry m s).in_use) same, ap (λ s. holds (entry m s) k) same) in
            let still : holds (entry w curr) k ≡ false =
              ap (λ x. holds x k) (entry-write_ne m i k v (omega arith) curr apart) ∙ other in
            rw still (
              ap (λ t. seek rounds w k ((curr + 1) % t)) (table_size-write m i k v)
              ∙ seek-write rounds m k v (next_slot m curr) i pos (mod-lt (curr + 1) pos) slots rest)
      ]

  -- Any other key is answered as before.
  pub seek-write_ne :
      (rounds : ℕ) (m : Hashmap V) (k j : Key) (v : Option V) (curr i : ℕ)
      → i < length m.entries
      → ((entry m i).in_use ≡ false) ⊎ (holds (entry m i) k ≡ true)
      → k ≢ j
      → seek rounds (write m i k v) j curr ≡ seek rounds m j curr
  unfolding holds
  seek-write_ne rounds m k j v curr i inside why ne =
      let w = write m i k v in
      let new : holds (entry w i) j ≡ false =
        ap (λ x. holds x j) (entry-write_self m i k v inside) ∙ same_key_ne k j ne in
      let old : holds (entry m i) j ≡ false = elim why [
        | inl free ↦ ground arith
        | inr held ↦ not_held (entry m i) k j held ne
      ] in
      seek_congr rounds m w j curr (table_size-write m i k v)
        (λ s. elim (ℕ_discrete i s) [
          | yes e ↦
              sym (ap (λ t. holds (entry w t) j) e)
              ∙ (new ∙ sym old)
              ∙ ap (λ t. holds (entry m t) j) e
          | no n ↦ ap (λ x. holds x j) (entry-write_ne m i k v inside s n)
        ])
        (λ s h. elim (ℕ_discrete i s) [
          | yes e ↦ absurd (false≢true (sym old ∙ ap (λ t. holds (entry m t) j) e ∙ h))
          | no n ↦ ap (λ x. x.val) (entry-write_ne m i k v inside s n)
        ])
