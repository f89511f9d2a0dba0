-- ===== src/Server/Events.antt =====
-- accept_handler, worker and the start of start_server of src/server.c: which handler an event runs. The
-- address of a client as a text, and the table `ack_waiting`, which nothing uses, are left out.
use sizigy.Base.{
  ℕ, ◌+◌, ◌%◌, ◌^◌, ◌==◌, ◌||◌, ◌&&◌, not, Bool, true, false, none, some, List, [], ◌∷◌, ◌++◌,
  length, if◌then◌else◌,
}
use sizigy.Buffer.{Allocator}
use sizigy.Hashmap as Table
use sizigy.Network.Listen.{Os, Started, given_up, aborted, accept_connection, make_listen}
use sizigy.Network.Listen as Listen
use sizigy.Server.Dispatch.{absent}
use sizigy.Server.Handlers.{Ret, minus_one, nought}
use sizigy.Server.Reply.{mod_epoll, close_fd}
use sizigy.Server.Steps.{request_handler, reply_handler}
use sizigy.Util.Names.{random_name}
use sizigy.Sizigy.{
  online, Stage, accepting, requesting, replying, epollin, Client, Net, State, M, returns,
  undefined, pure, ◌>>=◌, ◌>>◌, get_state,
}
use sizigy.Sizigy.Ops.{load_client}

-- The union `epoll_data` of an event: the descriptor `config.run`, or a pointer to a client.
pub data Source : Type 0 where
  run_fd : Source
  client_at : ℕ → Source

pub record EpollEvent : Type 0 where
  pub error : Bool
  pub hangup : Bool
  pub input : Bool
  pub output : Bool
  pub source : Source

module _ {W : Type 0} where
  -- A call of the system that moves the world on.
  abbrev pub on_world : {A : Type 0} → (W → A × W) → M W A
  on_world f s = returns ((f s.world).0, record s { world = (f s.world).1 })

  -- `malloc` and the writes to the fields of the client.
  unfoldable pub create_client : Client → M W ℕ
  create_client c s =
      returns
        (length s.client_blocks, record s { client_blocks = s.client_blocks ++ (some c ∷ []) })

  -- `db->peers = list_head_insert(db->peers, client)`; nothing else changes the list, whose `len` is its
  -- length.
  unfoldable pub add_peer : ℕ → M W (Unit {0})
  add_peer p s = returns (tt, record s { peers = p ∷ s.peers })

module _ {W : Type 0} (net : Net W) (os : Os W) where
  -- The client of a connection, with what getsockname says of the listening socket's port.
  unfoldable pub welcome : ℕ → ℕ → ℕ → M W Ret
  unfolding create_client add_peer random_name mod_epoll
  welcome listening clientsock port = do
    s ← get_state
    id ← on_world (random_name os.rand 16)
    p ← create_client (record {
      status = online;
      keepalive = 60;
      last_action_time = net.time s.world;
      fd = clientsock;
      ctx_handler = requesting;
      id = id;
      reply = none;
      ptr = absent;
    })
    if port == s.bus_port then add_peer p else pure tt
    mod_epoll clientsock epollin
    mod_epoll listening epollin
    pure nought

  unfoldable pub accept_handler : ℕ → M W Ret
  unfolding load_client accept_connection welcome
  accept_handler server = do
    c ← load_client server
    clientsock ← on_world (accept_connection os c.fd)
    s ← get_state
    elim clientsock [
      | none ↦ pure minus_one
      | some fd ↦ elim (os.getpeername fd s.world) [
        | none ↦ pure minus_one
        | some address ↦ elim (os.ntop address) [
          | none ↦ pure minus_one
          | some ip ↦ elim (os.sockport c.fd s.world) [
            | none ↦ pure minus_one
            | some port ↦ welcome c.fd fd port
          ]
        ]
      ]
    ]

  module _ (calloc : ℕ → Bool) (alloc : Allocator) (fuel : ℕ) where
    -- `c->ctx_handler(db, c)`
    unfoldable pub run_stage : ℕ → M W Ret
    unfolding load_client accept_handler request_handler reply_handler
    run_stage p = do
      c ← load_client p
      elim c.ctx_handler [
        | accepting ↦ accept_handler p
        | requesting ↦ request_handler net calloc alloc fuel p
        | replying ↦ reply_handler net calloc alloc p
      ]

-- `config.run` and the addresses of the clients' blocks.
module _ (run : ℕ) (address : ℕ → ℕ) where
  -- `data.fd` overlaps the low 32 bits of `data.ptr`.
  unfoldable pub data_fd : Source → ℕ
  data_fd run_fd = run
  data_fd (client_at p) = address p % 2 ^ 32

  module _ {W : Type 0} (net : Net W) (os : Os W) (calloc : ℕ → Bool) (alloc : Allocator)
      (fuel : ℕ) where
    -- One event; `false` leaves the loop. hashmap_iterate2 with a null `arg1` does nothing. The call of a
    -- handler on what is no pointer is undefined.
    unfoldable pub worker_event : EpollEvent → M W Bool
    unfolding close_fd data_fd run_stage
    worker_event ev =
        if ev.error || ev.hangup || (not ev.input && not ev.output)
        then (do close_fd (data_fd ev.source); pure true)
        else (if data_fd ev.source == run then pure false else elim ev.source [
          | run_fd ↦ λ s. undefined
          | client_at p ↦ do ret ← run_stage net os calloc alloc fuel p; pure true
        ])

    -- The events of the calls of epoll_wait, one after the other.
    unfoldable pub worker : List EpollEvent → M W (Unit {0})
    unfolding worker_event
    worker [] = pure tt
    worker (ev ∷ evs) = do more ← worker_event ev; if more then worker evs else pure tt

abbrev pub listener : ℕ → Stage → List ℕ → Client
listener fd stage id = record {
  status = online;
  keepalive = 60;
  last_action_time = 0;
  fd = fd;
  ctx_handler = stage;
  id = id;
  reply = none;
  ptr = absent;
}

module _ {W : Type 0} where
  -- What SizigyDB is when the workers start: the clients "server", "bus" and "node".
  unfoldable pub initial : ℕ → ℕ → ℕ → ℕ → W → State W
  initial fd bfd node_fd bport w = record {
    topics = Table.create {V = ℕ};
    clients = Table.create {V = ℕ};
    peers = [];
    bus_port = bport;
    lock = false;
    client_blocks =
        some (listener fd accepting (115 ∷ 101 ∷ 114 ∷ 118 ∷ 101 ∷ 114 ∷ []))
        ∷ some (listener bfd accepting (98 ∷ 117 ∷ 115 ∷ []))
        ∷ some (listener node_fd requesting (110 ∷ 111 ∷ 100 ∷ 101 ∷ []))
        ∷ [];
    topic_blocks = [];
    message_blocks = [];
    armed = (fd, epollin) ∷ [];
    closed = [];
    world = w;
  }

module _ {W : Type 0} (os : Os W) where
  -- start_server up to the workers. The bus's socket is armed at another epoll descriptor, on which no
  -- worker waits.
  unfoldable pub start_server : List ℕ → List ℕ → ℕ → W → Started (State W)
  unfolding make_listen initial
  start_server addr port node_fd w =
      let (epollfd, w1) = os.epoll_create w in
      elim epollfd [
        | none ↦ given_up
        | some efd ↦
            let (bepollfd, w2) = os.epoll_create w1 in
            elim bepollfd [
              | none ↦ given_up
              | some befd ↦ elim (make_listen os addr port w2) [
                | given_up ↦ given_up
                | aborted ↦ aborted
                | Listen.returns (fd, w3) ↦
                    let bport = os.atoi port + 10000 in
                    elim (make_listen os addr (os.decimal bport) w3) [
                      | given_up ↦ given_up
                      | aborted ↦ aborted
                      | Listen.returns (bfd, w4) ↦ Listen.returns (initial fd bfd node_fd bport w4)
                    ]
              ]
            ]
      ]
