-- ===== src/Util/Strings.antt =====
-- append_string and remove_newline of src/util.c on the texts of C strings.
use sizigy.Base.{
  ℕ, suc, ◌+◌, ◌<◌, ◌==◌, ◌≡◌, refl, ap, ◌∙◌, Bool-cases, List, [], ◌∷◌, ◌++◌, length, take,
  if◌then◌else◌, inl, inr, arith,
}
use sizigy.Buffer.{strlen}
use sizigy.Buffer.Words.{text}
use sizigy.Util.{append_string, strcspn_newline, remove_newline}

text-append : (s1 s2 : List ℕ) → text (text s1 ++ s2) ≡ text s1 ++ text s2
unfolding strlen
text-append [] s2 = refl
text-append (x ∷ s1) s2 = elim (Bool-cases (x == 0)) [
  | inl stop ↦ rw stop
  | inr go ↦ rw (go, go) (ap (λ t. x ∷ t) (text-append s1 s2))
]

-- One byte more than the text, the terminator, leaves the text.
text-take : (s : List ℕ) → strlen s < length s → text (take (strlen s + 1) s) ≡ text s
unfolding strlen
text-take [] h = absurd (omega arith)
text-take (x ∷ s) h = elim (Bool-cases (x == 0)) [
  | inl stop ↦ rw (stop, stop)
  | inr go ↦
      let shape : suc (strlen s) + 1 ≡ suc (strlen s + 1) = omega arith in
      rw (go, shape, go) (ap (λ t. x ∷ t) (text-take s (ground (arith, go))))
]

ended-append :
    (s1 s2 : List ℕ) → strlen s2 < length s2 → strlen (text s1 ++ s2) < length (text s1 ++ s2)
unfolding strlen
ended-append [] s2 h = h
ended-append (x ∷ s1) s2 h = elim (Bool-cases (x == 0)) [
  | inl stop ↦ rw stop h
  | inr go ↦ rw (go, go) (omega (arith, ended-append s1 s2 h))
]

ended-take :
    (s : List ℕ)
    → strlen s < length s
    → strlen (take (strlen s + 1) s) < length (take (strlen s + 1) s)
unfolding strlen
ended-take [] h = absurd (omega arith)
ended-take (x ∷ s) h = elim (Bool-cases (x == 0)) [
  | inl stop ↦ rw (stop, take, stop) (omega arith)
  | inr go ↦
      let shape : suc (strlen s) + 1 ≡ suc (strlen s + 1) = omega arith in
      let rest = ended-take s (ground (arith, go)) in rw (go, shape, take, go) (omega (arith, rest))
]

-- The text before the first newline.
unfoldable pub first_line : List ℕ → List ℕ
first_line [] = []
first_line (x ∷ xs) = if x == 10 then [] else x ∷ first_line xs

-- remove_newline on a string with its terminator leaves the text before the first newline.
pub remove_newline_lem :
    (s : List ℕ) → strlen s < length s → text (remove_newline s) ≡ first_line (text s)
unfolding remove_newline strcspn_newline first_line strlen
remove_newline_lem [] h = refl
remove_newline_lem (x ∷ s) h = elim (Bool-cases (x == 0)) [
  | inl stop ↦ rw stop
  | inr go ↦ elim (Bool-cases (x == 10)) [
    | inl line ↦ rw (go, line)
    | inr on ↦
        let shape : strcspn_newline s + 1 ≡ suc (strcspn_newline s) = omega arith in
        rw (go, on, shape, go) (ap (λ t. x ∷ t) (remove_newline_lem s (ground (arith, go))))
  ]
]

-- append_string of two strings, the second with its terminator, is a string with its terminator whose text
-- is the two texts one after the other.
pub append_string_lem :
    (s1 s2 : List ℕ)
    → strlen s2 < length s2
    → (text (append_string s1 s2) ≡ text s1 ++ text s2)
      × (strlen (append_string s1 s2) < length (append_string s1 s2))
unfolding append_string
append_string_lem s1 s2 ended = (
  text-append s1 (take (strlen s2 + 1) s2) ∙ ap (λ t. text s1 ++ t) (text-take s2 ended),
  ended-append s1 (take (strlen s2 + 1) s2) (ended-take s2 ended),
)
