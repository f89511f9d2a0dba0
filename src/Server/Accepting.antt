-- ===== src/Server/Accepting.antt =====
-- accept_handler where it gives up a connection.
use sizigy.Base.{ℕ, ◌≡◌, refl, ◌⊎◌, inl, inr, Option, none, some, Option-cases}
use sizigy.Network.Listen.{Os, accept_connection}
use sizigy.Server.Events.{accept_handler}
use sizigy.Server.Handlers.{minus_one}
use sizigy.Sizigy.{Client, Net, State, returns, ◌>>=◌, cell}
use sizigy.Sizigy.Runs.{load_client_lem}

module _ {W : Type 0} (net : Net W) (os : Os W) where
  -- What makes accept_handler give up a connection.
  abbrev pub CannotWelcome : ℕ → Option ℕ → W → Type 0
  CannotWelcome listening none w = Unit {0}
  CannotWelcome listening (some fd) w =
      (os.getpeername fd w ≡ none) ⊎ (os.sockport listening w ≡ none)

  module _ (s : State W) (p : ℕ) (c : Client) (here : cell s.client_blocks p ≡ some c) where
    abbrev after_accept : Option ℕ × W
    after_accept = accept_connection os c.fd s.world

    -- accept_handler on a listening client, where accept_connection fails, or the peer's name or the port of
    -- the listening socket cannot be had: it returns -1, and nothing but the world is changed. The
    -- listening descriptor, which is armed for one event at a time, is not armed again, and a connection
    -- that was accepted is not closed.
    pub accept_refused :
        (got : Option ℕ)
        → after_accept.0 ≡ got
        → CannotWelcome c.fd got after_accept.1
        → accept_handler net os p s ≡ returns (minus_one, record s { world = after_accept.1 })
    unfolding accept_handler
    accept_refused none e h = rw (accept_handler, ◌>>=◌, load_client_lem s p c here, ◌>>=◌, e) refl
    accept_refused (some fd) e (inl unknown) =
        rw (accept_handler, ◌>>=◌, load_client_lem s p c here, ◌>>=◌, e, unknown) refl
    accept_refused (some fd) e (inr closed) =
        elim (Option-cases (os.getpeername fd after_accept.1)) [
          | inl unknown ↦
              rw (accept_handler, ◌>>=◌, load_client_lem s p c here, ◌>>=◌, e, unknown) refl
          | inr (address, known) ↦ elim (Option-cases (os.ntop address)) [
            | inl odd ↦
                rw (accept_handler, ◌>>=◌, load_client_lem s p c here, ◌>>=◌, e, known, odd) refl
            | inr (ip, text) ↦
                rw
                  (accept_handler, ◌>>=◌, load_client_lem s p c here, ◌>>=◌, e, known, text, closed)
                  refl
          ]
        ]
