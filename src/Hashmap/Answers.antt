-- ===== src/Hashmap/Answers.antt =====
-- What a table answers after a hashmap_put.
use mathlib.Core.Path.{subst}
use sizigy.Base.{
  ℕ, suc, ◌<◌, ◌≡◌, ◌≢◌, ◌⊎◌, refl, sym, ap, ◌∙◌, Bool, true, false, Option, some, arith,
  Bool-cases, inl, inr, if◌then◌else◌,
}
use sizigy.Hashmap.{
  Key, ok, returns, Hashmap, entry, holds, hash, write, put, get, same_key, max_chain_length,
}
use sizigy.Hashmap.Crc.{hash_int, hash_int-lt}
use sizigy.Hashmap.Valid.{IsValid, write-IsValid}
use sizigy.Hashmap.Probe.{
  eq_of_same_key, ne_of_same_key, seek, lookup, get-lookup, table_size-write, seek-write,
  seek-write_ne, free_slot_sound,
}
use sizigy.Hashmap.Put.{hash_sound, put_inv}

module _ {V : Type 0} (m : Hashmap V) (k : Key) (v : Option V) (valid : IsValid m) (i : ℕ)
    (found : hash m k ≡ some i) where
  home-lt : (key : Key) → hash_int m.table_size key < m.table_size
  home-lt key = hash_int-lt m.table_size key (omega arith) valid.indexable

  sound : (i < m.table_size) × (((entry m i).in_use ≡ false) ⊎ (holds (entry m i) k ≡ true))
  sound =
      free_slot_sound max_chain_length m k (hash_int m.table_size k) i (omega arith) (home-lt k)
        (hash_sound m k i found)

  written-IsValid : IsValid (write m i k v)
  written-IsValid = write-IsValid m i k v sound.0 valid

  lookup-write : lookup (write m i k v) k ≡ v
  lookup-write =
      ap (λ t. seek max_chain_length (write m i k v) k (hash_int t k)) (table_size-write m i k v)
      ∙ seek-write max_chain_length m k v (hash_int m.table_size k) i (omega arith) (home-lt k)
          (sym valid.slots) (hash_sound m k i found)

  lookup-write_ne : (j : Key) → k ≢ j → lookup (write m i k v) j ≡ lookup m j
  lookup-write_ne j ne =
      ap (λ t. seek max_chain_length (write m i k v) j (hash_int t j)) (table_size-write m i k v)
      ∙ seek-write_ne max_chain_length m k j v (hash_int m.table_size j) i
          (omega (arith, sound, valid.slots)) sound.1 ne

lock-write :
    {V : Type 0} (m : Hashmap V) (i : ℕ) (k : Key) (v : Option V) → (write m i k v).lock ≡ m.lock
unfolding write
lock-write m i k v = refl

-- What a table answers after a hashmap_put that returned HASHMAP_OK: the new value under the key, and
-- under every other key what it answered before. The table stays valid and its lock free.
pub get-put :
    {V : Type 0} (calloc : ℕ → Bool) (f : ℕ) (m m' : Hashmap V) (k j : Key) (v : Option V)
    → IsValid m
    → put calloc (suc (suc f)) m k v ≡ returns (ok, m')
    → (get m' j ≡ (if same_key k j then returns v else get m j)) × IsValid m' × (m'.lock ≡ false)
get-put calloc f m m' k j v valid run =
    let (free, (i, found, e)) = put_inv calloc f m m' k v valid run in
    let free' : m'.lock ≡ false = ap (λ t. t.lock) e ∙ lock-write m i k v ∙ free in
    let answer = get-lookup m' j free' ∙ ap (λ t. returns (lookup t j)) e in
    (
      elim (Bool-cases (same_key k j)) [
        | inl same ↦ rw same (
            answer
            ∙ ap (λ x. returns (lookup (write m i k v) x)) (sym (eq_of_same_key k j same))
            ∙ ap returns (lookup-write m k v valid i found))
        | inr other ↦ rw other (
            answer
            ∙ ap returns (lookup-write_ne m k v valid i found j (ne_of_same_key k j other))
            ∙ sym (get-lookup m j free))
      ],
      subst IsValid (sym e) (written-IsValid m k v valid i found),
      free',
    )
