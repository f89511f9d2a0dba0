-- ===== src/Server/Delivery.antt =====
-- What publish_message puts on the wires of the subscribers.
use mathlib.Core.Path.{subst}
use native.Mathlib.Decide.{ℕ_discrete}
use sizigy.Base.{
  ℕ, zero, suc, ◌+◌, ◌*◌, ◌^◌, ◌<◌, ◌==◌, ◌≡◌, ◌≢◌, refl, sym, ap, ap₂, ◌∙◌, Bool, true, false,
  Option, none, some, List, [], ◌∷◌, ◌++◌, if◌then◌else◌, length, set, append_assoc, append-nil,
  arith, Option-cases, inl, inr,
}
use sizigy.Network.Willing.{IsWilling, sendall_willing}
use sizigy.Server.Reply.{deliver}
use sizigy.Sizigy.{Client, Subscription, Net, State, Run, returns, ◌>>=◌, ◌>>◌, cell}

-- The descriptor of the client at `p`.
unfoldable pub fd_at : List (Option Client) → ℕ → Option ℕ
unfolding cell
fd_at blocks p = elim (cell blocks p) [ none ↦ none | some c ↦ some c.fd ]

pub cell_of_fd :
    (blocks : List (Option Client)) (p fd : ℕ)
    → fd_at blocks p ≡ some fd
    → (c : Client) × (cell blocks p ≡ some c) × (c.fd ≡ fd)
unfolding fd_at
cell_of_fd blocks p fd e = elim (Option-cases (cell blocks p)) [
  | inl gone ↦ absurd (ground (arith, gone))
  | inr (c, here) ↦ (c, here, ground (arith, here))
]

pub fd_at-set :
    (blocks : List (Option Client)) (p : ℕ) (c c' : Client) (q : ℕ)
    → cell blocks p ≡ some c
    → c'.fd ≡ c.fd
    → fd_at (set blocks p (some c')) q ≡ fd_at blocks q
unfolding fd_at
fd_at-set [] p c c' q e same = refl
fd_at-set (b ∷ blocks) zero c c' zero e same = ap some same ∙ ground (arith)
fd_at-set (b ∷ blocks) zero c c' (suc q) e same = refl
fd_at-set (b ∷ blocks) (suc p) c c' zero e same = refl
fd_at-set (b ∷ blocks) (suc p) c c' (suc q) e same = fd_at-set blocks p c c' q e same

abbrev pub is_at : Option ℕ → ℕ → Bool
is_at none fd = false
is_at (some a) fd = a == fd

-- What a descriptor is due: the bytes once for each subscription of its client.
unfoldable pub due : (ℕ → Option ℕ) → ℕ → List ℕ → List Subscription → List ℕ
due fds fd bytes [] = []
due fds fd bytes (x ∷ xs) = (if is_at (fds x.client) fd then bytes else []) ++ due fds fd bytes xs

-- The client of every subscription is there.
abbrev pub AllLive : (ℕ → Option ℕ) → List Subscription → Type 0
AllLive fds [] = Unit {0}
AllLive fds (x ∷ xs) = ((fd : ℕ) × (fds x.client ≡ some fd)) × AllLive fds xs

-- A client's block, before and after: only the time of its last action may differ.
abbrev pub Stamped : Option Client → Option Client → Type 0
Stamped none after = after ≡ none
Stamped (some c) after = (time : ℕ) × (after ≡ some (record c { last_action_time = time }))

Stamped-refl : (o : Option Client) → Stamped o o
Stamped-refl none = refl
Stamped-refl (some c) = (c.last_action_time, refl)

Stamped-trans : (a b c : Option Client) → Stamped a b → Stamped b c → Stamped a c
Stamped-trans none b c e f = subst (λ o. Stamped o c) e f
Stamped-trans (some a) b c (t, e) f = let (u, g) = subst (λ o. Stamped o c) e f in (u, g)

Stamped-set :
    (blocks : List (Option Client)) (p : ℕ) (c : Client) (time q : ℕ)
    → cell blocks p ≡ some c
    → Stamped (cell blocks q) (cell (set blocks p (some (record c { last_action_time = time }))) q)
unfolding cell
Stamped-set [] p c time q e = refl
Stamped-set (b ∷ blocks) zero c time zero e =
    subst (λ o. Stamped o (some (record c { last_action_time = time }))) (sym e) (time, refl)
Stamped-set (b ∷ blocks) zero c time (suc q) e = Stamped-refl (cell blocks q)
Stamped-set (b ∷ blocks) (suc p) c time zero e = Stamped-refl b
Stamped-set (b ∷ blocks) (suc p) c time (suc q) e = Stamped-set blocks p c time q e

-- Every socket takes what it is sent, and sends on one descriptor show on no other.
pub record IsServing {W : Type 0} (net : Net W) : Type 0 where
  pub willing : (fd : ℕ) → IsWilling (net.socket fd)
  pub apart :
      (a b : ℕ)
      → a ≢ b
      → (bytes : List ℕ) (w : W)
      → (net.socket b).sent ((net.socket a).send bytes w).1 ≡ (net.socket b).sent w

module _ {W : Type 0} (net : Net W) (serving : IsServing net) (bytes : List ℕ)
    (small : length bytes < 2 ^ 31) where
  pub wire-send :
      (a fd : ℕ) (w : W)
      → let sends = sendall_willing (net.socket a) bytes w (serving.willing a) small in
        (net.socket fd).sent sends.world ≡ (net.socket fd).sent w ++ (if a == fd then bytes else [])
  wire-send a fd w =
      let sends = sendall_willing (net.socket a) bytes w (serving.willing a) small in
      elim (ℕ_discrete a fd) [
        | yes e ↦
            let hit : (a == fd) ≡ true = ground arith in
            rw hit (
              subst (λ x. (net.socket x).sent sends.world ≡ (net.socket x).sent w ++ bytes) e
                sends.wire)
        | no n ↦
            let miss : (a == fd) ≡ false = ground arith in
            rw miss (
              sends.others (net.socket fd).sent (λ buf v. serving.apart a fd n buf v)
              ∙ sym (append-nil ((net.socket fd).sent w)))
      ]

  -- A run of `deliver`: each descriptor has got what it was due, and the clients keep theirs.
  pub record Delivered (run : Run (ℕ × State W)) (subs : List Subscription) (total : ℕ)
      (s : State W) : Type 0 where
    pub state : State W
    pub runs : run ≡ returns (total + length subs * length bytes, state)
    pub wires :
        (fd : ℕ)
        → (net.socket fd).sent state.world
          ≡ (net.socket fd).sent s.world ++ due (fd_at s.client_blocks) fd bytes subs
    pub fds : (q : ℕ) → fd_at state.client_blocks q ≡ fd_at s.client_blocks q
    pub clients : (q : ℕ) → Stamped (cell s.client_blocks q) (cell state.client_blocks q)
    pub armed : state.armed ≡ s.armed
    pub message_blocks : state.message_blocks ≡ s.message_blocks
    pub lock : state.lock ≡ s.lock
    pub topics : state.topics ≡ s.topics
    pub topic_blocks : state.topic_blocks ≡ s.topic_blocks

  pub due_congr :
      (f g : ℕ → Option ℕ) (fd : ℕ) (subs : List Subscription)
      → ((q : ℕ) → f q ≡ g q)
      → due f fd bytes subs ≡ due g fd bytes subs
  unfolding due
  due_congr f g fd [] same = refl
  due_congr f g fd (x ∷ xs) same =
      ap₂ (λ o t. (if is_at o fd then bytes else []) ++ t) (same x.client)
        (due_congr f g fd xs same)

  pub AllLive-congr :
      (f g : ℕ → Option ℕ) (subs : List Subscription)
      → ((q : ℕ) → f q ≡ g q)
      → AllLive g subs
      → AllLive f subs
  AllLive-congr f g [] same live = tt
  AllLive-congr f g (x ∷ xs) same ((fd, e), live) =
      ((fd, same x.client ∙ e), AllLive-congr f g xs same live)

  -- One round, over the client that the subscription is of.
  after_round : State W → ℕ → Client → W → State W
  after_round s p c w = record s {
    client_blocks = set s.client_blocks p (some (record c { last_action_time = net.time w }));
    world = w;
  }

  deliver_round :
      (x : Subscription) (xs : List Subscription) (total : ℕ) (s : State W) (c : Client)
      → cell s.client_blocks x.client ≡ some c
      → let sends = sendall_willing (net.socket c.fd) bytes s.world (serving.willing c.fd) small in
        deliver net bytes (x ∷ xs) total s
        ≡ deliver net bytes xs (total + length bytes) (after_round s x.client c sends.world)
  unfolding deliver after_round
  deliver_round x xs total s c here =
      let sends = sendall_willing (net.socket c.fd) bytes s.world (serving.willing c.fd) small in
      rw (deliver, ◌>>=◌, here, ◌>>=◌, sends.returns, ◌>>◌, here)

  pub deliver_lem :
      (subs : List Subscription) (total : ℕ) (s : State W)
      → AllLive (fd_at s.client_blocks) subs
      → Delivered (deliver net bytes subs total s) subs total s
  unfolding deliver due after_round
  deliver_lem [] total s live = record {
    state = s;
    runs = ap (λ n. returns (n, s)) (omega arith);
    wires = λ fd. sym (append-nil ((net.socket fd).sent s.world));
    fds = λ q. refl;
    clients = λ q. Stamped-refl (cell s.client_blocks q);
    armed = refl;
    message_blocks = refl;
    lock = refl;
    topics = refl;
    topic_blocks = refl;
  }
  deliver_lem (x ∷ xs) total s ((a, e), live) =
      let (c, here, same) = cell_of_fd s.client_blocks x.client a e in
      let sends = sendall_willing (net.socket c.fd) bytes s.world (serving.willing c.fd) small in
      let s' = after_round s x.client c sends.world in
      let keeps = λ (q : ℕ).
        fd_at-set s.client_blocks x.client c (record c { last_action_time = net.time sends.world })
          q here refl in
      let rest =
        deliver_lem xs (total + length bytes) s'
          (AllLive-congr (fd_at s'.client_blocks) (fd_at s.client_blocks) xs keeps live) in
      record {
        state = rest.state;
        runs =
            deliver_round x xs total s c here
            ∙ rest.runs
            ∙ ap (λ n. returns (n, rest.state)) (grind arith);
        wires = λ fd.
            rest.wires fd
            ∙ ap₂ (λ u v. u ++ v) (wire-send c.fd fd s.world)
                (due_congr (fd_at s'.client_blocks) (fd_at s.client_blocks) fd xs keeps)
            ∙ append_assoc ((net.socket fd).sent s.world) (if c.fd == fd then bytes else [])
                (due (fd_at s.client_blocks) fd bytes xs)
            ∙ ap
                (λ o.
                  (net.socket fd).sent s.world
                  ++ ((if is_at o fd then bytes else [])
                      ++ due (fd_at s.client_blocks) fd bytes xs))
                (sym (e ∙ ap some (sym same)));
        fds = λ q. rest.fds q ∙ keeps q;
        clients = λ q.
            Stamped-trans (cell s.client_blocks q) (cell s'.client_blocks q)
              (cell rest.state.client_blocks q)
              (Stamped-set s.client_blocks x.client c (net.time sends.world) q here)
              (rest.clients q);
        armed = rest.armed;
        message_blocks = rest.message_blocks;
        lock = rest.lock;
        topics = rest.topics;
        topic_blocks = rest.topic_blocks;
      }
