-- ===== src/Network/Ledger.antt =====
-- Which descriptors stay open behind the calls that bind and accept.

use sizigy.Base.{
  ℕ, ◌≡◌, refl, ap, ◌∙◌, Bool, true, false, Option, none, some, List, [], ◌∷◌, if◌then◌else◌,
  Option-cases, inl, inr,
}
use sizigy.Network.Listen.{Os, set_nonblocking, bind_first, create_and_bind, accept_connection}

abbrev pub opened : Option ℕ → List ℕ → List ℕ
opened none fds = fds
opened (some fd) fds = fd ∷ fds

abbrev pub arrived : Option (ℕ × List ℕ) → List ℕ → List ℕ
arrived none fds = fds
arrived (some (fd, address)) fds = fd ∷ fds

-- What the system documents of the open descriptors, the newest first.
pub record Ledger {W : Type 0} (os : Os W) : Type 0 where
  pub descriptors : W → List ℕ
  pub socket_opens :
      (a : List ℕ) (w : W)
      → descriptors (os.socket a w).1 ≡ opened (os.socket a w).0 (descriptors w)
  pub accept_opens :
      (fd : ℕ) (w : W) → descriptors (os.accept fd w).1 ≡ arrived (os.accept fd w).0 (descriptors w)
  pub close_closes :
      (fd : ℕ) (fds : List ℕ) (w : W) → descriptors w ≡ fd ∷ fds → descriptors (os.close fd w) ≡ fds
  pub reuse_keeps : (fd : ℕ) (w : W) → descriptors (os.reuse fd w) ≡ descriptors w
  pub bind_keeps : (fd : ℕ) (a : List ℕ) (w : W) → descriptors (os.bind fd a w).1 ≡ descriptors w
  pub getaddrinfo_keeps :
      (host port : List ℕ) (w : W) → descriptors (os.getaddrinfo host port w).1 ≡ descriptors w
  pub getfl_keeps : (fd : ℕ) (w : W) → descriptors (os.getfl fd w).1 ≡ descriptors w
  pub setfl_keeps : (fd flags : ℕ) (w : W) → descriptors (os.setfl fd flags w).1 ≡ descriptors w

module _ {W : Type 0} (os : Os W) (book : Ledger os) where
  abbrev Booked : Option ℕ × W → W → Type 0
  Booked r w = book.descriptors r.1 ≡ opened r.0 (book.descriptors w)

  -- What follows `bind`.
  bound_next :
      (a : List ℕ) (addresses : List (List ℕ)) (fd : ℕ) (w : W) (r : Bool × W)
      → book.descriptors r.1 ≡ fd ∷ book.descriptors w
      → ((v : W) → Booked (bind_first os addresses v) v)
      → Booked (if r.0 then (some fd, r.1) else bind_first os addresses (os.close fd r.1)) w
  bound_next a addresses fd w (true, w2) e rest = e
  bound_next a addresses fd w (false, w2) e rest =
      rest (os.close fd w2)
      ∙ ap (opened (bind_first os addresses (os.close fd w2)).0)
          (book.close_closes fd (book.descriptors w) w2 e)

  -- What follows `socket`.
  socket_next :
      (a : List ℕ) (addresses : List (List ℕ)) (w : W) (r : Option ℕ × W)
      → book.descriptors r.1 ≡ opened r.0 (book.descriptors w)
      → ((v : W) → Booked (bind_first os addresses v) v)
      → Booked
          (elim r.0 as (λ x. Option ℕ × W) [
            | none ↦ bind_first os addresses r.1
            | some fd ↦
                let (bound, w2) = os.bind fd a (os.reuse fd r.1) in
                if bound then (some fd, w2) else bind_first os addresses (os.close fd w2)
          ])
          w
  socket_next a addresses w (none, w1) e rest =
      rest w1 ∙ ap (opened (bind_first os addresses w1).0) e
  socket_next a addresses w (some fd, w1) e rest =
      bound_next a addresses fd w (os.bind fd a (os.reuse fd w1))
        (book.bind_keeps fd a (os.reuse fd w1) ∙ book.reuse_keeps fd w1 ∙ e) rest

  bind_first-Booked : (addresses : List (List ℕ)) (w : W) → Booked (bind_first os addresses w) w
  unfolding bind_first
  bind_first-Booked [] w = refl
  bind_first-Booked (a ∷ addresses) w =
      socket_next a addresses w (os.socket a w) (book.socket_opens a w)
        (bind_first-Booked addresses)

  found_next :
      (w : W) (r : Option (List (List ℕ)) × W)
      → book.descriptors r.1 ≡ book.descriptors w
      → Booked
          (elim r.0 as (λ x. Option ℕ × W) [
            | none ↦ (none, r.1)
            | some addresses ↦ bind_first os addresses r.1
          ])
          w
  found_next w (none, w1) e = e
  found_next w (some addresses, w1) e =
      bind_first-Booked addresses w1 ∙ ap (opened (bind_first os addresses w1).0) e

  set_nonblocking_keeps :
      (fd : ℕ) (w : W) → book.descriptors (set_nonblocking os fd w).1 ≡ book.descriptors w
  unfolding set_nonblocking
  set_nonblocking_keeps fd w = flagged (os.getfl fd w) (book.getfl_keeps fd w)
    where
      flagged :
          (r : Option ℕ × W)
          → book.descriptors r.1 ≡ book.descriptors w
          → book.descriptors
              (elim r.0 as (λ x. Bool × W) [
                | none ↦ (false, r.1)
                | some f ↦ os.setfl fd (os.nonblocking f) r.1
              ]).1
            ≡ book.descriptors w
      flagged (none, w1) e = e
      flagged (some f, w1) e = book.setfl_keeps fd (os.nonblocking f) w1 ∙ e

  accepted_next :
      (w : W) (r : Option (ℕ × List ℕ) × W)
      → book.descriptors r.1 ≡ arrived r.0 (book.descriptors w)
      → Booked
          (elim r.0 as (λ x. Option ℕ × W) [
            | none ↦ (none, r.1)
            | some (clientsock, address) ↦
                let (set, w2) = set_nonblocking os clientsock r.1 in
                elim (os.ntop address) as (λ x. Option ℕ × W) [
                  | none ↦ (none, os.close clientsock w2)
                  | some ip ↦ (some clientsock, w2)
                ]
          ])
          w
  accepted_next w (none, w1) e = e
  accepted_next w (some (fd, address), w1) e = elim (Option-cases (os.ntop address)) [
    | inl bad ↦ rw bad (
        book.close_closes fd (book.descriptors w) (set_nonblocking os fd w1).1
          (set_nonblocking_keeps fd w1 ∙ e))
    | inr (ip, good) ↦ rw good (set_nonblocking_keeps fd w1 ∙ e)
  ]

  -- Over a system that keeps its book of the open descriptors: create_and_bind and accept_connection leave
  -- open what was open before, and the descriptor that they return, if any; every socket that they make and
  -- do not return is closed again.
  pub descriptors_lem :
      (host port : List ℕ) (serversock : ℕ) (w : W)
      → (book.descriptors (create_and_bind os host port w).1
          ≡ opened (create_and_bind os host port w).0 (book.descriptors w))
        × (book.descriptors (accept_connection os serversock w).1
            ≡ opened (accept_connection os serversock w).0 (book.descriptors w))
  unfolding create_and_bind accept_connection
  descriptors_lem host port serversock w = (
    found_next w (os.getaddrinfo host port w) (book.getaddrinfo_keeps host port w),
    accepted_next w (os.accept serversock w) (book.accept_opens serversock w),
  )
