-- ===== src/Server/Upkeep/Loop.antt =====
-- accept_handler, the events of the workers and the rounds of keepalive leave the broker sound.
use sizigy.Base.{
  ℕ, ◌≡◌, refl, sym, ap, ◌∙◌, ◌==◌, ◌||◌, ◌&&◌, not, Bool, true, false, Option, none, some, List,
  [], ◌∷◌, ◌++◌, Option-cases, inl, inr,
}
use sizigy.Buffer.{Allocator}
use sizigy.Network.Listen.{Os, accept_connection}
use sizigy.Server.Delivery.{fd_at}
use sizigy.Server.Events.{
  Source, run_fd, client_at, EpollEvent, on_world, create_client, add_peer, welcome, accept_handler,
  data_fd, run_stage, worker_event,
}
use sizigy.Server.Handlers.{Ret, minus_one}
use sizigy.Server.Retaining.{cell-append}
use sizigy.Server.Steps.{request_handler, reply_handler}
use sizigy.Server.Upkeep.Handlers.{quiet_rules}
use sizigy.Server.Upkeep.Turns.{Keeps-request_handler, Keeps-reply_handler}
use sizigy.Sizigy.{
  Client, Stage, accepting, requesting, replying, Net, State, Run, returns, undefined, deadlock,
  out_of_fuel, M, pure, ◌>>=◌, cell, get_state,
}
use sizigy.Sizigy.Clients.{cell-lt}
use sizigy.Sizigy.Keeps.{
  Ensures, Keeps, Keeps-bind, Keeps-load_client, Keeps-get_state, Keeps-option, Keeps-pure,
  Keeps-if, Keeps-then, keeps_rules,
}
use sizigy.Sizigy.Ops.{load_client}
use sizigy.Server.Reply.{close_fd}
use sizigy.Sizigy.Quiet.{Keeps-Quiet, Keeps-close_fd}
use sizigy.Sizigy.Sound.{IsSound, IsSound-quiet, IsLive}
use sizigy.Sizigy.Topics.{Ready, Ready-quiet}

fd_at-append :
    (blocks : List (Option Client)) (c : Client) (q : ℕ)
    → (fd : ℕ) × (fd_at blocks q ≡ some fd)
    → (fd : ℕ) × (fd_at (blocks ++ (some c ∷ [])) q ≡ some fd)
unfolding fd_at
fd_at-append blocks c q (fd, e) = elim (Option-cases (cell blocks q)) [
  | inl gone ↦ absurd (none_not_some (sym (ap fd_of gone) ∙ e))
  | inr (d, here) ↦
      (fd, ap fd_of (cell-append blocks (some c ∷ []) q (cell-lt blocks q d here)) ∙ e)
]
  where
    fd_of : Option Client → Option ℕ
    fd_of o = elim o [ none ↦ none | some c ↦ some c.fd ]

    none_not_some : none ≡ some fd → ⊥
    none_not_some k = cc

module _ {W : Type 0} (p : ℕ) where
  Keeps-on_world : {A : Type 0} (f : W → A × W) → Keeps (Ready p) (on_world f)
  Keeps-on_world f = Keeps-Quiet (Ready-quiet p) (on_world f) (λ s. record {
    lock = refl;
    topics = refl;
    topic_blocks = refl;
    message_blocks = refl;
    live = λ q h. h;
  })

  Keeps-create_client : (c : Client) → Keeps (Ready p) (create_client {W = W} c)
  unfolding create_client
  Keeps-create_client c = Keeps-Quiet (Ready-quiet p) (create_client {W = W} c) (λ s. record {
    lock = refl;
    topics = refl;
    topic_blocks = refl;
    message_blocks = refl;
    live = λ q. fd_at-append s.client_blocks c q;
  })

  Keeps-add_peer : (q : ℕ) → Keeps (Ready p) (add_peer {W = W} q)
  unfolding add_peer
  Keeps-add_peer q = Keeps-Quiet (Ready-quiet p) (add_peer {W = W} q) (λ s. record {
    lock = refl;
    topics = refl;
    topic_blocks = refl;
    message_blocks = refl;
    live = λ q h. h;
  })

  module _ (net : Net W) (os : Os W) where
    Keeps-welcome : (listening fd port : ℕ) → Keeps (Ready p) (welcome net os listening fd port)
    unfolding welcome
    Keeps-welcome listening fd port =
        search (quiet_rules, Keeps-on_world, Keeps-create_client, Keeps-add_peer) depth 16

    Keeps-accept_handler : Keeps (Ready p) (accept_handler net os p)
    unfolding accept_handler
    Keeps-accept_handler = Keeps-bind (load_client p) _ (Keeps-load_client p) (λ c.
        Keeps-bind (on_world (accept_connection os c.fd)) _
          (Keeps-on_world (accept_connection os c.fd))
          (λ clientsock. Keeps-bind get_state _ Keeps-get_state (λ s.
            Keeps-option clientsock _ _ (Keeps-pure minus_one) (λ fd.
              Keeps-option (os.getpeername fd s.world) _ _ (Keeps-pure minus_one) (λ address.
                Keeps-option (os.ntop address) _ _ (Keeps-pure minus_one) (λ ip.
                  Keeps-option (os.sockport c.fd s.world) _ _ (Keeps-pure minus_one)
                    (λ port. Keeps-welcome c.fd fd port)))))))

    module _ (calloc : ℕ → Bool) (alloc : Allocator) (fuel : ℕ) where
      Keeps-stage :
          (stage : Stage)
          → Keeps (Ready p) (elim stage as (λ x. M W Ret) [
            | accepting ↦ accept_handler net os p
            | requesting ↦ request_handler net calloc alloc fuel p
            | replying ↦ reply_handler net calloc alloc p
          ])
      Keeps-stage accepting = Keeps-accept_handler
      Keeps-stage requesting = Keeps-request_handler p net calloc alloc fuel
      Keeps-stage replying = Keeps-reply_handler p net calloc alloc

      Keeps-run_stage : Keeps (Ready p) (run_stage net os calloc alloc fuel p)
      unfolding run_stage
      Keeps-run_stage =
          Keeps-bind (load_client p) _ (Keeps-load_client p) (λ c. Keeps-stage c.ctx_handler)

IsLive-cell :
    {W : Type 0} (s : State W) (p : ℕ) (c : Client) → cell s.client_blocks p ≡ some c → IsLive p s
unfolding fd_at
IsLive-cell s p c here = (c.fd, rw (fd_at, here) refl)

Ensures-IsSound :
    {W A : Type 0} (p : ℕ) (r : Run (A × State W)) → Ensures (Ready p) r → Ensures IsSound r
Ensures-IsSound p (returns (a, s)) h = h.0
Ensures-IsSound p undefined h = tt
Ensures-IsSound p deadlock h = tt
Ensures-IsSound p out_of_fuel h = tt

module _ {W : Type 0} (net : Net W) (os : Os W) (calloc : ℕ → Bool) (alloc : Allocator)
    (fuel : ℕ) where
  -- The client at `p` need not be known to be there: where it is not, the call does not return.
  run_stage-IsSound : (p : ℕ) → Keeps IsSound (run_stage net os calloc alloc fuel p)
  unfolding run_stage load_client
  run_stage-IsSound p = record {
    at = λ s h. elim (Option-cases (cell s.client_blocks p)) [
      | inl gone ↦ rw (◌>>=◌, gone) tt
      | inr (c, here) ↦
          Ensures-IsSound p (run_stage net os calloc alloc fuel p s)
            ((Keeps-run_stage p net os calloc alloc fuel).at s (h, IsLive-cell s p c here))
    ];
  }

  module _ (run : ℕ) (address : ℕ → ℕ) where
    Keeps-handled :
        (source : Source)
        → Keeps IsSound (elim source as (λ x. M W Bool) [
          | run_fd ↦ λ s. undefined
          | client_at p ↦ do ret ← run_stage net os calloc alloc fuel p; pure true
        ])
    Keeps-handled run_fd = record { at = λ s h. tt }
    Keeps-handled (client_at p) = search (keeps_rules, run_stage-IsSound)

    pub worker_event-IsSound :
        (ev : EpollEvent) → Keeps IsSound (worker_event run address net os calloc alloc fuel ev)
    unfolding worker_event
    worker_event-IsSound ev =
        Keeps-if (ev.error || ev.hangup || (not ev.input && not ev.output)) _ _
          (Keeps-then (close_fd (data_fd run address ev.source)) _
            (Keeps-close_fd IsSound-quiet (data_fd run address ev.source)) (Keeps-pure true))
          (Keeps-if (data_fd run address ev.source == run) _ _ (Keeps-pure false)
            (Keeps-handled ev.source))
