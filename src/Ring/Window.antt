-- ===== src/Ring/Window.antt =====
-- The bytes that a ring holds, oldest first.
use native.Mathlib.Nat.{mod-eq_of_lt, mod-eq-sub-mod, mod-add-mod}
use sizigy.Base.{
  ℕ, zero, suc, ◌+◌, ◌-◌, ◌%◌, ◌≤◌, ◌<◌, ◌≡◌, ◌≢◌, refl, sym, ap, ap₂, ◌∙◌, false, List, [], ◌∷◌,
  ◌++◌, arith, length, get_or, set, get_or-set_self, get_or-set_ne, lt-or-le, Bool-cases, true, inl,
  inr, ◌⊎◌,
}
use sizigy.Ring.{Ringbuffer, size_mod, next_index, size}
use sizigy.Ring.Valid.{IsValid, next_index-lt}

-- `n` bytes from index `i` on, round the end at `max`.
abbrev pub cells : List ℕ → ℕ → ℕ → ℕ → List ℕ
cells buffer max i zero = []
cells buffer max i (suc n) = get_or buffer i 0 ∷ cells buffer max (next_index i max) n

abbrev pub contents : Ringbuffer → List ℕ
contents r = cells r.buffer r.max r.tail (size r)

pub length-cells : (buffer : List ℕ) (max i n : ℕ) → length (cells buffer max i n) ≡ n
length-cells buffer max i zero = refl
length-cells buffer max i (suc n) = ap suc (length-cells buffer max (next_index i max) n)

pub length-contents : (r : Ringbuffer) → length (contents r) ≡ size r
length-contents r = length-cells r.buffer r.max r.tail (size r)

-- The first of the bytes, where there is one.
pub cells_pos :
    (buffer : List ℕ) (max i n : ℕ)
    → 0 < n
    → cells buffer max i n ≡ get_or buffer i 0 ∷ cells buffer max (next_index i max) (n - 1)
cells_pos buffer max i zero h = absurd (omega arith)
cells_pos buffer max i (suc n) h = ap (λ k. cells buffer max i (suc k)) (omega arith)

-- `k % max`, where `k` is less than twice `max`.
mod_once :
    (k max : ℕ) → k < max + max → ((k < max) × (k % max ≡ k)) ⊎ ((max ≤ k) × (k % max ≡ k - max))
mod_once k max h = elim (lt-or-le k max) [
  | inl below ↦ inl (below, mod-eq_of_lt below)
  | inr over ↦ inr (over, mod-eq-sub-mod over ∙ mod-eq_of_lt {n = k - max} {m = max} (omega arith))
]

-- Fewer than `max` steps do not lead back.
step-ne : (max i n : ℕ) → i < max → 0 < n → n < max → (i + n) % max ≢ i
step-ne max i n hi pos hn e = ground (arith, mod_once (i + n) max (omega arith))

pub next_index_cases :
    (i max : ℕ)
    → i < max
    → max < size_mod
    → ((i + 1 < max) × (next_index i max ≡ i + 1)) ⊎ ((i + 1 ≡ max) × (next_index i max ≡ 0))
next_index_cases i max h small = ground (arith, mod_once ((i + 1) % size_mod) max (omega arith))

pub next_index-add :
    (max i n : ℕ) → i < max → max < size_mod → (next_index i max + n) % max ≡ (i + suc n) % max
next_index-add max i n hi small =
    let plain : (i + 1) % size_mod ≡ i + 1 = omega arith in
    rw (plain, mod-add-mod) (ap (λ k. k % max) (omega arith))

-- A write `n` places behind the first byte adds that byte at the end.
pub cells-set :
    (buffer : List ℕ) (max i n j x : ℕ)
    → max ≤ length buffer
    → max < size_mod
    → i < max
    → n < max
    → j ≡ (i + n) % max
    → cells (set buffer j x) max i (suc n) ≡ cells buffer max i n ++ (x ∷ [])
cells-set buffer max i zero j x fits small hi hn e =
    let here : j ≡ i = e ∙ (ap (λ k. k % max) (omega arith) ∙ mod-eq_of_lt hi) in
    rw (here, get_or-set_self buffer i x 0 (omega arith))
cells-set buffer max i (suc n) j x fits small hi hn e =
    ap₂ ◌∷◌
      (get_or-set_ne buffer j i x 0
        (λ back. step-ne max i (suc n) hi (omega arith) hn (sym e ∙ back)))
      (cells-set buffer max (next_index i max) n j x fits small (next_index-lt i max hi)
        (omega arith) (e ∙ sym (next_index-add max i n hi small)))

module _ {r : Ringbuffer} (v : IsValid r) where
  pub size_full : r.full ≡ true → size r ≡ r.max
  unfolding size
  size_full e = rw e

  pub size_open :
      r.full ≡ false
      → ((r.tail ≤ r.head) × (size r ≡ r.head - r.tail))
        ⊎ ((r.head < r.tail) × (size r ≡ r.max + r.head - r.tail))
  unfolding size
  size_open e = elim (lt-or-le r.head r.tail) [
    | inl before ↦ inr (before, ground arith)
    | inr behind ↦ inl (behind, ground arith)
  ]

  pub size-le-max : size r ≤ r.max
  size-le-max = elim (Bool-cases r.full) [
    | inl e ↦ omega (arith, size_full e)
    | inr e ↦ omega (arith, size_open e)
  ]

  -- A ring that is not full holds fewer than `max` bytes, and the next one goes behind them.
  pub head_of_open : r.full ≡ false → (r.head ≡ (r.tail + size r) % r.max) × (size r < r.max)
  head_of_open e =
      ground (arith, size_open e, mod_once (r.tail + size r) r.max (omega (arith, size_open e)))
