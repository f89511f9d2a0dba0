-- ===== src/Network/Scripted.antt =====
-- A socket over a given stream, which shows that the laws of `Socket` can hold.
use sizigy.Base.{
  ℕ, zero, suc, ◌+◌, ◌≤◌, ◌≡◌, refl, sym, ap, ◌∙◌, List, [], ◌∷◌, ◌++◌, min, length, take,
  append-nil, arith,
}
use sizigy.Network.{Socket, got, broken, accepted, refused}

-- `n` items of a stream from a place on.
unfoldable pub slice : (ℕ → ℕ) → ℕ → ℕ → List ℕ
slice stream pos zero = []
slice stream pos (suc n) = stream pos ∷ slice stream (pos + 1) n

pub length-slice : (stream : ℕ → ℕ) (pos n : ℕ) → length (slice stream pos n) ≡ n
unfolding slice
length-slice stream pos zero = refl
length-slice stream pos (suc n) = ap suc (length-slice stream (pos + 1) n)

pub slice-add :
    (stream : ℕ → ℕ) (pos n k : ℕ)
    → slice stream pos (n + k) ≡ slice stream pos n ++ slice stream (pos + n) k
unfolding slice
slice-add stream pos zero k = ground (arith)
slice-add stream pos (suc n) k =
    let shape : suc n + k ≡ suc (n + k) = omega arith in
    let place : pos + 1 + n ≡ pos + suc n = omega arith in
    ap (slice stream pos) shape
    ∙ ap (λ t. stream pos ∷ t)
        (slice-add stream (pos + 1) n k
          ∙ ap (λ p. slice stream (pos + 1) n ++ slice stream p k) place)

-- The place in the stream, and what was sent.
abbrev pub World : Type 0
World = ℕ × List ℕ

-- `recv n` at a place gives `chunk n place` bytes; `send` takes two bytes at most.
unfoldable pub scripted :
    (stream : ℕ → ℕ) (chunk : ℕ → ℕ → ℕ) → ((n pos : ℕ) → chunk n pos ≤ n) → Socket World
scripted stream chunk most = record {
  recv = λ n w. (got (slice stream w.0 (chunk n w.0)), (w.0 + chunk n w.0, w.1));
  send =
      λ bytes w. (accepted (min 2 (length bytes)), (w.0, w.1 ++ take (min 2 (length bytes)) bytes));
  delivered = λ w. slice stream 0 w.0;
  sent = λ w. w.1;
  recv_most = λ n w. omega (arith, length-slice stream w.0 (chunk n w.0), most n w.0);
  recv_delivers = λ n w.
      slice-add stream 0 w.0 (chunk n w.0)
      ∙ ap (λ p. slice stream 0 w.0 ++ slice stream p (chunk n w.0)) (omega arith);
  send_most = λ bytes w. omega arith;
  send_some = λ bytes w h. omega arith;
  send_sends = λ bytes w. refl;
}

-- A socket whose every call fails.
unfoldable pub cut : Socket World
cut = record {
  recv = λ n w. (broken, w);
  send = λ bytes w. (refused, w);
  delivered = λ w. [];
  sent = λ w. w.1;
  recv_most = λ n w. omega arith;
  recv_delivers = λ n w. refl;
  send_most = λ bytes w. omega arith;
  send_some = λ bytes w h. omega arith;
  send_sends = λ bytes w. sym (append-nil w.1);
}
