-- ===== src/Network/Send.antt =====
-- What sendall puts on the wire.
use mathlib.Core.Path.{subst}
use sizigy.Base.{
  ℕ, zero, suc, ◌+◌, ◌-◌, ◌^◌, ◌<◌, ◌≤◌, ◌≡◌, refl, sym, ap, ◌∙◌, true, false, Option, some, List,
  [], ◌∷◌, ◌++◌, ltb, length, length-drop, append_assoc, lt-or-le, arith, take, drop, append-nil,
  take-nil, inl, inr,
}
use sizigy.Ring.{Code, ok, failed}
use sizigy.Network.{
  Socket, Accepted, accepted, refused, count_of, IsProgress, taken, sendall_from, sendall,
  within_fits,
}

module _ {ℓ} {A : Type ℓ} where
  take_more : (n k : ℕ) (xs : List A) → take n xs ++ take k (drop n xs) ≡ take (n + k) xs
  take_more zero k xs = ap (λ m. take m xs) (omega arith)
  take_more (suc n) k [] = take-nil k ∙ sym (take-nil (suc n + k))
  take_more (suc n) k (x ∷ xs) =
      let one_more : suc (n + k) ≡ suc n + k = omega arith in
      ap (λ t. x ∷ t) (take_more n k xs) ∙ ap (λ m. take m (x ∷ xs)) one_more

abbrev pub IsAll : Code → ℕ → ℕ → Type 0
IsAll ok n total = n ≡ total
IsAll failed n total = n < total

-- A run of sendall: it returns, the first `count` bytes of `buf` are behind what `before` had sent,
-- and the result says whether they are all.
pub record Sends {W : Type 0} (socket : Socket W) (run : Option (Code × ℕ × W)) (before : List ℕ)
    (buf : List ℕ) : Type 0 where
  pub code : Code
  pub count : ℕ
  pub world : W
  pub returns : run ≡ some (code, count, world)
  pub wire : socket.sent world ≡ before ++ take count buf
  pub complete : IsAll code count (length buf)

module _ {W : Type 0} (socket : Socket W) (before buf : List ℕ) where
  -- A round with the bytes left and the answer of `send`.
  taken_lem :
      (loop : ℕ → W → Option (Code × ℕ × W)) (sum : ℕ) (w : W) (answer : Accepted × W)
      → sum < length buf
      → length buf < 2 ^ 31
      → socket.sent w ≡ before ++ take sum buf
      → IsProgress answer.0
      → count_of answer.0 ≤ length buf - sum
      → socket.sent answer.1 ≡ socket.sent w ++ take (count_of answer.0) (drop sum buf)
      → (0 < count_of answer.0
          → socket.sent answer.1 ≡ before ++ take (sum + count_of answer.0) buf
          → Sends socket (loop (sum + count_of answer.0) answer.1) before buf)
      → Sends socket (taken loop sum answer) before buf
  unfolding taken
  taken_lem loop sum w (refused, w') h bound start progress most sends next = record {
    code = failed;
    count = sum;
    world = w';
    returns = refl;
    wire = sends ∙ append-nil (socket.sent w) ∙ start;
    complete = h;
  }
  taken_lem loop sum w (accepted n, w') h bound start progress most sends next =
      subst (λ run. Sends socket run before buf)
        (sym (within_fits (sum + n) (loop (sum + n) w') (omega arith)))
        (next progress (
          sends
          ∙ ap (λ t. t ++ take n (drop sum buf)) start
          ∙ append_assoc before (take sum buf) (take n (drop sum buf))
          ∙ ap (λ t. before ++ t) (take_more sum n buf)))

  pub sendall_from_more :
      (fuel sum : ℕ) (w : W)
      → ltb sum (length buf) ≡ true
      → sendall_from socket (suc fuel) sum buf w
        ≡ taken (λ sum' w'. sendall_from socket fuel sum' buf w') sum (socket.send (drop sum buf) w)
  unfolding sendall_from
  sendall_from_more fuel sum w more =
      ap
        (λ b. elim b [
          | false ↦ some (ok, sum, w)
          | true ↦
              taken (λ sum' w'. sendall_from socket fuel sum' buf w') sum
                (socket.send (drop sum buf) w)
        ])
        more

  pub sendall_from_done :
      (fuel sum : ℕ) (w : W)
      → ltb sum (length buf) ≡ false
      → sendall_from socket (suc fuel) sum buf w ≡ some (ok, sum, w)
  unfolding sendall_from
  sendall_from_done fuel sum w done =
      ap
        (λ b. elim b [
          | false ↦ some (ok, sum, w)
          | true ↦
              taken (λ sum' w'. sendall_from socket fuel sum' buf w') sum
                (socket.send (drop sum buf) w)
        ])
        done

  sendall_from_lem :
      (fuel sum : ℕ) (w : W)
      → sum ≤ length buf
      → length buf < sum + fuel
      → length buf < 2 ^ 31
      → socket.sent w ≡ before ++ take sum buf
      → Sends socket (sendall_from socket fuel sum buf w) before buf
  sendall_from_lem zero sum w h enough bound start = absurd (omega arith)
  sendall_from_lem (suc fuel) sum w h enough bound start = elim (lt-or-le sum (length buf)) [
    | inl more ↦
        let rest = drop sum buf in
        let answer = socket.send rest w in
        let left : length rest ≡ length buf - sum = length-drop sum buf in
        let most = socket.send_most rest w in
        subst (λ run. Sends socket run before buf)
          (sym (sendall_from_more fuel sum w (ground arith)))
          (taken_lem _ sum w answer more bound start (socket.send_some rest w (omega arith))
            (omega arith) (socket.send_sends rest w)
            (λ some_bytes start'.
              sendall_from_lem fuel (sum + count_of answer.0) answer.1 (omega arith) (omega arith)
                bound start'))
    | inr done ↦
        subst (λ run. Sends socket run before buf)
          (sym (sendall_from_done fuel sum w (ground arith)))
          (record {
            code = ok;
            count = sum;
            world = w;
            returns = refl;
            wire = start;
            complete = omega arith;
          })
  ]

-- sendall over a socket, of fewer than 2^31 bytes, returns. What it stores in `*sent` is the number of
-- bytes that went out, they are the first of its buffer and follow what was sent before, and the result
-- is 0 if they are all and -1 if some are left.
pub sendall_lem :
    {W : Type 0} (socket : Socket W) (buf : List ℕ) (w : W)
    → length buf < 2 ^ 31
    → Sends socket (sendall socket buf w) (socket.sent w) buf
unfolding sendall
sendall_lem socket buf w bound =
    sendall_from_lem socket (socket.sent w) buf (suc (length buf)) 0 w (omega arith) (omega arith)
      bound (sym (append-nil (socket.sent w)))
