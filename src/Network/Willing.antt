-- ===== src/Network/Willing.antt =====
-- sendall on a socket that refuses nothing, and what it leaves alone.
use mathlib.Core.Path.{subst}
use sizigy.Base.{
  ℕ, zero, suc, ◌+◌, ◌^◌, ◌<◌, ◌≡◌, refl, sym, ap, ap₂, ◌∙◌, Bool, true, false, Option, none, some,
  List, ◌++◌, length, drop, take_all, inl, inr, lt-or-le, arith,
}
use sizigy.Ring.{Code, ok}
use sizigy.Network.{Socket, Accepted, accepted, refused, taken, sendall_from, sendall, within-cases}
use sizigy.Network.Send.{IsAll, sendall_lem, sendall_from_more, sendall_from_done}

abbrev pub is_accepted : Accepted → Bool
is_accepted (accepted n) = true
is_accepted refused = false

-- Every `send` takes a byte at least.
abbrev pub IsWilling : {W : Type 0} → Socket W → Type 0
IsWilling {W} socket = (bytes : List ℕ) (w : W) → is_accepted (socket.send bytes w).0 ≡ true

module _ {W : Type 0} where
  abbrev code_of : Option (Code × ℕ × W) → Code
  code_of none = ok
  code_of (some (code, n, w)) = code

  -- What every `send` leaves alone, a run leaves alone.
  abbrev Keeps : {X : Type 0} → (W → X) → X → Option (Code × ℕ × W) → Type 0
  Keeps seen x none = Unit {0}
  Keeps seen x (some (code, n, w)) = seen w ≡ x

module _ {W : Type 0} (socket : Socket W) (buf : List ℕ) where
  taken_willing :
      (loop : ℕ → W → Option (Code × ℕ × W)) (sum : ℕ) (answer : Accepted × W)
      → is_accepted answer.0 ≡ true
      → ((n : ℕ) (w : W) → code_of (loop n w) ≡ ok)
      → code_of (taken loop sum answer) ≡ ok
  unfolding taken
  taken_willing loop sum (refused, w) h next = cc
  taken_willing loop sum (accepted n, w) h next =
      within-cases (λ run. code_of run ≡ ok) (sum + n) (loop (sum + n) w) refl (next (sum + n) w)

  sendall_from_willing :
      IsWilling socket → (fuel sum : ℕ) (w : W) → code_of (sendall_from socket fuel sum buf w) ≡ ok
  unfolding sendall_from
  sendall_from_willing willing zero sum w = refl
  sendall_from_willing willing (suc fuel) sum w = elim (lt-or-le sum (length buf)) [
    | inl more ↦
        ap code_of (sendall_from_more socket buf buf fuel sum w (ground arith))
        ∙ taken_willing _ sum (socket.send (drop sum buf) w) (willing (drop sum buf) w)
            (sendall_from_willing willing fuel)
    | inr done ↦ ap code_of (sendall_from_done socket buf buf fuel sum w (ground arith))
  ]

  taken-Keeps :
      {X : Type 0} (seen : W → X) (x : X) (loop : ℕ → W → Option (Code × ℕ × W)) (sum : ℕ)
      (answer : Accepted × W)
      → seen answer.1 ≡ x
      → ((n : ℕ) (w : W) → seen w ≡ x → Keeps seen x (loop n w))
      → Keeps seen x (taken loop sum answer)
  unfolding taken
  taken-Keeps seen x loop sum (refused, w) h next = h
  taken-Keeps seen x loop sum (accepted n, w) h next =
      within-cases (Keeps seen x) (sum + n) (loop (sum + n) w) tt (next (sum + n) w h)

  sendall_from-Keeps :
      {X : Type 0} (seen : W → X) (x : X)
      → ((bytes : List ℕ) (w : W) → seen (socket.send bytes w).1 ≡ seen w)
      → (fuel sum : ℕ) (w : W) → seen w ≡ x
      → Keeps seen x (sendall_from socket fuel sum buf w)
  unfolding sendall_from
  sendall_from-Keeps seen x keep zero sum w h = tt
  sendall_from-Keeps seen x keep (suc fuel) sum w h = elim (lt-or-le sum (length buf)) [
    | inl more ↦
        subst (Keeps seen x) (sym (sendall_from_more socket buf buf fuel sum w (ground arith))) (
          taken-Keeps seen x _ sum (socket.send (drop sum buf) w) (keep (drop sum buf) w ∙ h)
            (sendall_from-Keeps seen x keep fuel))
    | inr done ↦
        subst (Keeps seen x) (sym (sendall_from_done socket buf buf fuel sum w (ground arith))) h
  ]

-- The run of sendall on a willing socket.
pub record SendsAll {W : Type 0} (socket : Socket W) (buf : List ℕ) (w : W) : Type 0 where
  pub world : W
  pub returns : sendall socket buf w ≡ some (ok, length buf, world)
  pub wire : socket.sent world ≡ socket.sent w ++ buf
  pub others :
      (seen : W → List ℕ)
      → ((bytes : List ℕ) (v : W) → seen (socket.send bytes v).1 ≡ seen v)
      → seen world ≡ seen w

pub sendall_willing :
    {W : Type 0} (socket : Socket W) (buf : List ℕ) (w : W)
    → IsWilling socket
    → length buf < 2 ^ 31
    → SendsAll socket buf w
unfolding sendall
sendall_willing socket buf w willing bound =
    let sends = sendall_lem socket buf w bound in
    let accepted_all : sends.code ≡ ok =
      sym (ap code_of sends.returns)
      ∙ sendall_from_willing socket buf willing (suc (length buf)) 0 w in
    let all : sends.count ≡ length buf =
      subst (λ c. IsAll c sends.count (length buf)) accepted_all sends.complete in
    record {
      world = sends.world;
      returns = sends.returns ∙ ap₂ (λ c n. some (c, n, sends.world)) accepted_all all;
      wire =
          sends.wire ∙ ap (λ t. socket.sent w ++ t) (take_all sends.count buf (omega (arith, all)));
      others = λ seen keep.
          subst (Keeps seen (seen w)) sends.returns
            (sendall_from-Keeps socket buf seen (seen w) keep (suc (length buf)) 0 w refl);
    }
