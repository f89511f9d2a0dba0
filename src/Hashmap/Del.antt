-- ===== src/Hashmap/Del.antt =====
-- hashmap_del: what it returns, and what hashmap_get answers afterwards.
use mathlib.Core.Bool.{false≢true}
use mathlib.Core.Path.{subst}
use native.Mathlib.Decide.{ℕ_discrete}
use native.Mathlib.Nat.{mod-lt}
use sizigy.Base.{
  ℕ, zero, suc, ◌+◌, ◌<◌, ◌≡◌, ◌≢◌, refl, sym, ap, ◌∙◌, true, false, none, some, arith, length,
  Bool-cases, Option-cases, inl, inr, if◌then◌else◌,
}
use sizigy.Hashmap.{
  Key, ok, returns, Hashmap, entry, holds, find_slot, next_slot, erase, del, get, same_key,
  max_chain_length,
}
use sizigy.Hashmap.Crc.{hash_int, hash_int-lt}
use sizigy.Hashmap.Valid.{IsValid, erase-IsValid}
use sizigy.Hashmap.Probe.{
  eq_of_same_key, ne_of_same_key, seek, lookup, get-lookup, seek_congr, not_held, entry-set_self,
  entry-set_ne,
}

module _ {V : Type 0} where
  pub find_slot_sound :
      (rounds : ℕ) (m : Hashmap V) (key : Key) (curr i : ℕ)
      → 0 < m.table_size
      → curr < m.table_size
      → find_slot rounds m key curr ≡ some i
      → (i < m.table_size) × (holds (entry m i) key ≡ true)
  unfolding find_slot
  find_slot_sound zero m key curr i pos h e = cc
  find_slot_sound (suc rounds) m key curr i pos h e =
      ground (arith, find_slot_sound rounds m key (next_slot m curr) i pos, mod-lt (curr + 1) pos)

  -- No entry holds the key, so none is found.
  pub seek-none :
      (rounds : ℕ) (m : Hashmap V) (key : Key) (curr : ℕ)
      → ((s : ℕ) → holds (entry m s) key ≡ false)
      → seek rounds m key curr ≡ none
  unfolding seek
  seek-none zero m key curr h = refl
  seek-none (suc rounds) m key curr h = rw (h curr) (seek-none rounds m key (next_slot m curr) h)

  pub table_size-erase : (m : Hashmap V) (i : ℕ) → (erase m i).table_size ≡ m.table_size
  unfolding erase
  table_size-erase m i = refl

  module _ (m : Hashmap V) (i : ℕ) (inside : i < length m.entries) where
    pub holds-erase_self : (key : Key) → holds (entry (erase m i) i) key ≡ false
    unfolding erase holds entry
    holds-erase_self key =
        ap (λ x. holds x key) (entry-set_self m i (record (entry m i) { in_use = false }) inside)

    pub entry-erase_ne : (s : ℕ) → i ≢ s → entry (erase m i) s ≡ entry m s
    unfolding erase entry
    entry-erase_ne s ne = entry-set_ne m i _ inside s ne

    -- Every other key is answered as before.
    seek-erase_ne :
        (rounds : ℕ) (k j : Key) (curr : ℕ)
        → holds (entry m i) k ≡ true
        → k ≢ j
        → seek rounds (erase m i) j curr ≡ seek rounds m j curr
    seek-erase_ne rounds k j curr held ne =
        let old : holds (entry m i) j ≡ false = not_held (entry m i) k j held ne in
        seek_congr rounds m (erase m i) j curr (table_size-erase m i)
          (λ s. elim (ℕ_discrete i s) [
            | yes e ↦
                sym (ap (λ t. holds (entry (erase m i) t) j) e)
                ∙ (holds-erase_self j ∙ sym old)
                ∙ ap (λ t. holds (entry m t) j) e
            | no n ↦ ap (λ x. holds x j) (entry-erase_ne s n)
          ])
          (λ s h. elim (ℕ_discrete i s) [
            | yes e ↦ absurd (false≢true (sym old ∙ ap (λ t. holds (entry m t) j) e ∙ h))
            | no n ↦ ap (λ x. x.val) (entry-erase_ne s n)
          ])

-- Where the call finds the key, and what it leaves.
del_inv :
    {V : Type 0} (m m' : Hashmap V) (k : Key)
    → del m k ≡ returns (ok, m')
    → (m.lock ≡ false)
      × ((i : ℕ) × (find_slot max_chain_length m k (hash_int m.table_size k) ≡ some i)
          × (m' ≡ erase m i))
unfolding del
del_inv m m' k run = elim (Bool-cases m.lock) [
  | inl held ↦ absurd (ground arith)
  | inr free ↦ (
    free,
    elim (Option-cases (find_slot max_chain_length m k (hash_int m.table_size k))) [
      | inl missing ↦ absurd (ground arith)
      | inr (i, found) ↦ (i, found, ground arith)
    ],
  )
]

module _ {V : Type 0} (m : Hashmap V) (k : Key) (valid : IsValid m) (i : ℕ)
    (found : find_slot max_chain_length m k (hash_int m.table_size k) ≡ some i) where
  sound : (i < m.table_size) × (holds (entry m i) k ≡ true)
  sound =
      find_slot_sound max_chain_length m k (hash_int m.table_size k) i
        (omega (arith, valid.some_slots))
        (hash_int-lt m.table_size k (omega (arith, valid.some_slots)) valid.indexable) found

  inside : i < length m.entries
  inside = omega (arith, sound, valid.slots)

  lookup-erase_self : ((s : ℕ) → holds (entry m s) k ≡ true → s ≡ i) → lookup (erase m i) k ≡ none
  lookup-erase_self once = seek-none max_chain_length (erase m i) k _ (λ s. elim (ℕ_discrete i s) [
    | yes e ↦ subst (λ t. holds (entry (erase m i) t) k ≡ false) e (holds-erase_self m i inside k)
    | no n ↦ elim (Bool-cases (holds (entry m s) k)) [
      | inl held ↦ absurd (n (sym (once s held)))
      | inr free ↦ ap (λ x. holds x k) (entry-erase_ne m i inside s n) ∙ free
    ]
  ])

  lookup-erase_ne : (j : Key) → k ≢ j → lookup (erase m i) j ≡ lookup m j
  lookup-erase_ne j ne =
      ap (λ t. seek max_chain_length (erase m i) j (hash_int t j)) (table_size-erase m i)
      ∙ seek-erase_ne m i inside max_chain_length k j (hash_int m.table_size j) sound.1 ne

  erased-IsValid : IsValid (erase m i)
  unfolding holds
  erased-IsValid = erase-IsValid m i sound.0 (ground (arith, sound)) valid

lock-erase : {V : Type 0} (m : Hashmap V) (i : ℕ) → (erase m i).lock ≡ m.lock
unfolding erase
lock-erase m i = refl

-- What a table answers after a hashmap_del that returned HASHMAP_OK, where one entry at most held the
-- key: nothing under the key, and under every other key what it answered before. The table stays
-- valid and its lock free.
pub get-del :
    {V : Type 0} (m m' : Hashmap V) (k j : Key)
    → IsValid m
    → ((s t : ℕ) → holds (entry m s) k ≡ true → holds (entry m t) k ≡ true → s ≡ t)
    → del m k ≡ returns (ok, m')
    → (get m' j ≡ (if same_key k j then returns none else get m j)) × IsValid m' × (m'.lock ≡ false)
get-del m m' k j valid once run =
    let (free, (i, found, e)) = del_inv m m' k run in
    let free' : m'.lock ≡ false = ap (λ t. t.lock) e ∙ lock-erase m i ∙ free in
    let answer = get-lookup m' j free' ∙ ap (λ t. returns (lookup t j)) e in
    let only = λ (s : ℕ) (h : holds (entry m s) k ≡ true). once s i h (sound m k valid i found).1 in
    (
      elim (Bool-cases (same_key k j)) [
        | inl same ↦ rw same (
            answer
            ∙ ap (λ x. returns (lookup (erase m i) x)) (sym (eq_of_same_key k j same))
            ∙ ap returns (lookup-erase_self m k valid i found only))
        | inr other ↦ rw other (
            answer
            ∙ ap returns (lookup-erase_ne m k valid i found j (ne_of_same_key k j other))
            ∙ sym (get-lookup m j free))
      ],
      subst IsValid (sym e) (erased-IsValid m k valid i found),
      free',
    )
