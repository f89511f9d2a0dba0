-- ===== src/Network/Listen.antt =====
-- The sockets of src/network.c that are not yet connected: binding, listening and accepting. The calls
-- of the operating system are parameters.
use sizigy.Base.{ℕ, Bool, false, Option, none, some, List, [], ◌∷◌, if◌then◌else◌}

-- The system's calls: `none` and `false` are the -1 of a call that fails. An address is its bytes.
pub record Os (W : Type 0) : Type 0 where
  pub getfl : ℕ → W → Option ℕ × W
  pub setfl : ℕ → ℕ → W → Bool × W
  -- `flags | O_NONBLOCK`
  pub nonblocking : ℕ → ℕ
  pub getaddrinfo : List ℕ → List ℕ → W → Option (List (List ℕ)) × W
  pub socket : List ℕ → W → Option ℕ × W
  -- setsockopt, whose failure is only logged
  pub reuse : ℕ → W → W
  pub bind : ℕ → List ℕ → W → Bool × W
  pub listen : ℕ → W → Bool × W
  pub close : ℕ → W → W
  pub accept : ℕ → W → Option (ℕ × List ℕ) × W
  -- inet_ntop of an address
  pub ntop : List ℕ → Option (List ℕ)
  pub getpeername : ℕ → W → Option (List ℕ)
  -- `sin_port` of getsockname, in the order of the network
  pub sockport : ℕ → W → Option ℕ
  pub inet_socket : W → Option ℕ × W
  pub gethostbyname : List ℕ → W → Option (List ℕ) × W
  pub connect : ℕ → List ℕ → ℕ → W → Bool × W
  pub rand : W → ℕ × W
  pub epoll_create : W → Option ℕ × W
  -- atoi, and snprintf with "%d"
  pub atoi : List ℕ → ℕ
  pub decimal : ℕ → List ℕ

-- A call returns, gives up behind the clean-up, or the program aborts.
pub data Started (A : Type 0) : Type 0 where
  returns : A → Started A
  given_up : Started A
  aborted : Started A

module _ {W : Type 0} (os : Os W) where
  unfoldable pub set_nonblocking : ℕ → W → Bool × W
  set_nonblocking fd w =
      let (flags, w') = os.getfl fd w in
      elim flags [ none ↦ (false, w') | some f ↦ os.setfl fd (os.nonblocking f) w' ]

  -- The loop over the addresses: the first descriptor that is bound.
  unfoldable pub bind_first : List (List ℕ) → W → Option ℕ × W
  bind_first [] w = (none, w)
  bind_first (a ∷ addresses) w =
      let (sfd, w1) = os.socket a w in
      elim sfd [
        | none ↦ bind_first addresses w1
        | some fd ↦
            let (bound, w2) = os.bind fd a (os.reuse fd w1) in
            if bound then (some fd, w2) else bind_first addresses (os.close fd w2)
      ]

  unfoldable pub create_and_bind : List ℕ → List ℕ → W → Option ℕ × W
  unfolding bind_first
  create_and_bind host port w =
      let (found, w') = os.getaddrinfo host port w in
      elim found [ none ↦ (none, w') | some addresses ↦ bind_first addresses w' ]

  unfoldable pub make_listen : List ℕ → List ℕ → W → Started (ℕ × W)
  unfolding create_and_bind set_nonblocking
  make_listen host port w =
      let (bound, w1) = create_and_bind host port w in
      elim bound [
        | none ↦ aborted
        | some sfd ↦
            let (set, w2) = set_nonblocking sfd w1 in
            if set
            then (let (listening, w3) = os.listen sfd w2 in
                if listening then returns (sfd, w3) else aborted)
            else aborted
      ]

  -- A host that is not found ends the program; to connect the descriptor -1 fails.
  unfoldable pub make_connection : List ℕ → ℕ → W → Started (Option ℕ × W)
  make_connection host port w =
      let (sfd, w1) = os.inet_socket w in
      let (server, w2) = os.gethostbyname host w1 in
      elim server [
        | none ↦ aborted
        | some address ↦ elim sfd [
          | none ↦ returns (none, w2)
          | some fd ↦
              let (connected, w3) = os.connect fd address port w2 in
              returns (if connected then some fd else none, w3)
        ]
      ]

  -- The result of set_nonblocking is not looked at.
  unfoldable pub accept_connection : ℕ → W → Option ℕ × W
  unfolding set_nonblocking
  accept_connection serversock w =
      let (taken, w1) = os.accept serversock w in
      elim taken [
        | none ↦ (none, w1)
        | some (clientsock, address) ↦
            let (set, w2) = set_nonblocking clientsock w1 in
            elim (os.ntop address) [
              | none ↦ (none, os.close clientsock w2)
              | some ip ↦ (some clientsock, w2)
            ]
      ]
