-- ===== src/Util/Names.antt =====
-- random_name of src/util.c, over `rand`.
use sizigy.Base.{ℕ, zero, suc, ◌%◌, ◌<◌, ◌≡◌, refl, ap, List, [], ◌∷◌, get_or, length, arith}

-- `"abcdefghijklmnopqrstwxyz0123456789"`
abbrev pub pool : List ℕ
pool =
    97 ∷ 98 ∷ 99 ∷ 100 ∷ 101 ∷ 102 ∷ 103 ∷ 104 ∷ 105 ∷ 106 ∷ 107 ∷ 108 ∷ 109 ∷ 110 ∷ 111 ∷ 112 ∷ 113
    ∷ 114 ∷ 115 ∷ 116 ∷ 119 ∷ 120 ∷ 121 ∷ 122 ∷ 48 ∷ 49 ∷ 50 ∷ 51 ∷ 52 ∷ 53 ∷ 54 ∷ 55 ∷ 56 ∷ 57 ∷ []

-- The characters of the name before its null.
unfoldable pub random_name : {W : Type 0} → (W → ℕ × W) → ℕ → W → List ℕ × W
random_name rand zero w = ([], w)
random_name rand (suc len) w =
    let (r, w1) = rand w in
    let (rest, w2) = random_name rand len w1 in (get_or pool (r % length pool) 0 ∷ rest, w2)

-- The items are characters of the pool.
abbrev pub AreInPool : List ℕ → Type 0
AreInPool [] = Unit {0}
AreInPool (x ∷ xs) = ((i : ℕ) × (i < 34) × (x ≡ get_or pool i 0)) × AreInPool xs

-- random_name gives a text of the length that is asked for, of characters of its pool.
pub random_name_lem :
    {W : Type 0} (rand : W → ℕ × W) (len : ℕ) (w : W)
    → (length (random_name rand len w).0 ≡ len) × AreInPool (random_name rand len w).0
unfolding random_name
random_name_lem rand zero w = (refl, tt)
random_name_lem rand (suc len) w =
    let (r, w1) = rand w in
    let (sized, chosen) = random_name_lem rand len w1 in
    (ap suc sized, ((r % 34, omega arith, refl), chosen))
