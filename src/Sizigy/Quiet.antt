-- ===== src/Sizigy/Quiet.antt =====
-- The calls that leave the topics and the messages alone.
use sizigy.Base.{ℕ, zero, suc, ◌≡◌, refl, Bool, Option, none, some, List, [], ◌∷◌, set}
use sizigy.Buffer.{Allocator}
use sizigy.Hashmap as Table
use sizigy.Network.{sendall}
use sizigy.Ring.{Code}
use sizigy.Server.Delivery.{fd_at}
use sizigy.Server.Reply.{set_reply, set_ack_reply, mod_epoll, close_fd, send_to, deliver}
use sizigy.Sizigy.{
  Client, Event, Payload, Subscription, Net, State, Run, returns, undefined, deadlock, out_of_fuel,
  M, ◌>>=◌, asked, get_state, put_state, cell,
}
use sizigy.Sizigy.Keeps.{Ensures, Keeps, Keeps-bind, Keeps-load_client, keeps_rules}
use sizigy.Sizigy.Ops.{load_client, store_client, add_client, del_client, update_client_last_action}
use sizigy.Sizigy.Sound.{Quiet}

pub fd_at-more :
    (blocks : List (Option Client)) (p q : ℕ) (c : Client)
    → (fd : ℕ) × (fd_at blocks q ≡ some fd)
    → (fd : ℕ) × (fd_at (set blocks p (some c)) q ≡ some fd)
unfolding fd_at cell
fd_at-more [] p q c h = h
fd_at-more (b ∷ blocks) zero zero c h = (c.fd, refl)
fd_at-more (b ∷ blocks) zero (suc q) c h = h
fd_at-more (b ∷ blocks) (suc p) zero c h = h
fd_at-more (b ∷ blocks) (suc p) (suc q) c h = fd_at-more blocks p q c h

module _ {W : Type 0} {P : State W → Type 0}
    (stable : (s s' : State W) → Quiet s s' → P s → P s') where
  Ensures-quiet :
      {A : Type 0} (s : State W) (r : Run (A × State W)) → Ensures (Quiet s) r → P s → Ensures P r
  Ensures-quiet s (returns (a, s')) q h = stable s s' q h
  Ensures-quiet s undefined q h = tt
  Ensures-quiet s deadlock q h = tt
  Ensures-quiet s out_of_fuel q h = tt

  pub Keeps-Quiet : {A : Type 0} (m : M W A) → ((s : State W) → Ensures (Quiet s) (m s)) → Keeps P m
  Keeps-Quiet m q = record { at = λ s h. Ensures-quiet s (m s) (q s) h }

  pub Keeps-store_client : (p : ℕ) (c : Client) → Keeps P (store_client p c)
  unfolding store_client
  Keeps-store_client p c = Keeps-Quiet (store_client p c) (λ s. record {
    lock = refl;
    topics = refl;
    topic_blocks = refl;
    message_blocks = refl;
    live = λ q. fd_at-more s.client_blocks p q c;
  })

  pub Keeps-mod_epoll : (fd : ℕ) (ev : Event) → Keeps P (mod_epoll fd ev)
  unfolding mod_epoll
  Keeps-mod_epoll fd ev = Keeps-Quiet (mod_epoll fd ev) (λ s. record {
    lock = refl;
    topics = refl;
    topic_blocks = refl;
    message_blocks = refl;
    live = λ q h. h;
  })

  pub Keeps-close_fd : (fd : ℕ) → Keeps P (close_fd fd)
  unfolding close_fd
  Keeps-close_fd fd = Keeps-Quiet (close_fd fd) (λ s. record {
    lock = refl;
    topics = refl;
    topic_blocks = refl;
    message_blocks = refl;
    live = λ q h. h;
  })

  pub Keeps-set_reply : (p opcode : ℕ) (payload : Payload) → Keeps P (set_reply p opcode payload)
  unfolding set_reply
  Keeps-set_reply p opcode payload = search (keeps_rules, Keeps-store_client)

  pub Keeps-set_ack_reply :
      (alloc : Allocator) (p opcode rc : ℕ) → Keeps P (set_ack_reply alloc p opcode rc)
  unfolding set_ack_reply
  Keeps-set_ack_reply alloc p opcode rc = search (keeps_rules, Keeps-set_reply)

  pub Keeps-update : (net : Net W) (p : ℕ) → Keeps P (update_client_last_action net p)
  unfolding update_client_last_action
  Keeps-update net p = search (keeps_rules, Keeps-store_client)

  pub Keeps-send_to : (net : Net W) (fd : ℕ) (bytes : List ℕ) → Keeps P (send_to net fd bytes)
  unfolding send_to
  Keeps-send_to net fd bytes =
      Keeps-Quiet (send_to net fd bytes) (λ s. sent s (sendall (net.socket fd) bytes s.world))
    where
      sent :
          (s : State W) (o : Option (Code × ℕ × W))
          → Ensures {W = W} {A = Code × ℕ} (Quiet s) (elim o [
            | none ↦ undefined
            | some (code, sent, w) ↦ returns ((code, sent), record s { world = w })
          ])
      sent s none = tt
      sent s (some (code, n, w)) = record {
        lock = refl;
        topics = refl;
        topic_blocks = refl;
        message_blocks = refl;
        live = λ q h. h;
      }

  pub Keeps-deliver :
      (net : Net W) (bytes : List ℕ) (subs : List Subscription) (total : ℕ)
      → Keeps P (deliver net bytes subs total)
  unfolding deliver
  Keeps-deliver net bytes [] total = search keeps_rules
  Keeps-deliver net bytes (x ∷ xs) total =
      let rest : (n : ℕ) → Keeps P (deliver net bytes xs n) = Keeps-deliver net bytes xs in
      search (keeps_rules, Keeps-send_to, Keeps-update)

  -- A change of the table of clients.
  Keeps-clients :
      {A : Type 0} (ask : State W → Table.Outcome A) (table : A → Table.Hashmap ℕ)
      → Keeps P
          (get_state >>= (λ s. asked (ask s) >>= (λ a. put_state (record s { clients = table a }))))
  Keeps-clients ask table =
      Keeps-Quiet
        (get_state >>= (λ s. asked (ask s) >>= (λ a. put_state (record s { clients = table a }))))
        (λ s. changed s (ask s))
    where
      changed :
          (s : State W) (o : Table.Outcome _)
          → Ensures (Quiet s) ((asked o >>= (λ a. put_state (record s { clients = table a }))) s)
      changed s (Table.returns a) = record {
        lock = refl;
        topics = refl;
        topic_blocks = refl;
        message_blocks = refl;
        live = λ q h. h;
      }
      changed s Table.deadlock = tt
      changed s Table.out_of_fuel = tt

  pub Keeps-add_client : (calloc : ℕ → Bool) (p : ℕ) → Keeps P (add_client calloc p)
  unfolding add_client
  Keeps-add_client calloc p =
      Keeps-bind (load_client p) _ (Keeps-load_client p)
        (λ c. Keeps-clients (λ s. Table.put calloc 2 s.clients c.id (some p)) (λ a. a.1))

  pub Keeps-del_client : (p : ℕ) → Keeps P (del_client p)
  unfolding del_client
  Keeps-del_client p =
      Keeps-bind (load_client p) _ (Keeps-load_client p)
        (λ c. Keeps-clients (λ s. Table.del s.clients c.id) (λ a. a.1))
