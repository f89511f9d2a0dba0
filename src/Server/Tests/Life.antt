-- ===== src/Server/Tests/Life.antt =====
-- The broker from start_server on: a client connects and subscribes.
use sizigy.Hashmap as Table
use sizigy.Server.Delivery.{IsServing}
use sizigy.Server.Events.{initial}
use sizigy.Base.{
  ℕ, zero, suc, ◌≤◌, ◌+◌, ◌≡◌, ap, refl, Bool, true, false, Option, none, some, List, [], ◌∷◌, ◌++◌,
  min, length, take, drop, arith,
}
use sizigy.Buffer.{Allocator}
use sizigy.Network.{Socket, got, accepted}
use sizigy.Network.Listen.{Os, Started, given_up, aborted}
use sizigy.Network.Listen as Listen
use sizigy.Packet.{subscribe_pkt, pack_subscribe}
use sizigy.Server.Events.{EpollEvent, client_at, start_server, worker_event}
use sizigy.Server.Tests.Scene.{c, client_on, Wires, update, update-same, update-other}
use sizigy.Buffer.{strlen}
use sizigy.Packet.{publish_pkt, ack_pkt, unpack_ack, unpack_publish}
use sizigy.Packet.Opcode
use sizigy.Packet.Roundtrip.{unpacked}
use sizigy.Server.Accepting.{accept_refused}
use sizigy.Server.Events.{accept_handler, listener}
use sizigy.Server.Handlers.{minus_one}
use sizigy.Sizigy.{accepting}
use sizigy.Base.{inl}
use sizigy.Server.Course.{
  Course, starts, handles, Course-IsSound, Course-forwards, Course-retains, Greeting, Greeting,
}
use sizigy.Server.Turn.{Turn}
use sizigy.Sizigy.Sound.{IsSound}
use sizigy.Hashmap.Crc as Crc
use sizigy.Ring as Ringbuf
use sizigy.Buffer as Buf
use sizigy.Packet as Wire
use sizigy.Server.Receive as Receive
use sizigy.Network as Network
use sizigy.Server.Events as Events
use sizigy.Sizigy.Ops as Ops
use sizigy.Sizigy.{cell, Client, Topic, Net, State, Run, returns, undefined, deadlock, out_of_fuel}

fill : ℕ → List ℕ
fill zero = []
fill (suc n) = let rest = fill n in 0xAA ∷ rest

length-fill : (n : ℕ) → length (fill n) ≡ n
unfolding fill
length-fill zero = refl
length-fill (suc n) = ap suc (length-fill n)

untouched : Allocator
untouched = record { malloc = fill; malloc_size = length-fill }

-- The bytes yet to come, those that came, and what each descriptor was sent.
pub record Lines : Type 0 where
  pub coming : List ℕ
  pub come : List ℕ
  pub wires : Wires

take_most : (n : ℕ) (xs : List ℕ) → length (take n xs) ≤ n
take_most zero xs = omega arith
take_most (suc n) [] = omega arith
take_most (suc n) (x ∷ xs) = omega (arith, take_most n xs)

unfoldable wired : ℕ → Socket Lines
wired fd = record {
  recv = λ n w. (
    got (take n w.coming),
    record w { coming = drop n w.coming; come = w.come ++ take n w.coming },
  );
  send = λ bytes w. (
    accepted (min 2 (length bytes)),
    record w { wires = update w.wires fd (w.wires fd ++ take (min 2 (length bytes)) bytes) },
  );
  delivered = λ w. w.come;
  sent = λ w. w.wires fd;
  recv_most = λ n w. take_most n w.coming;
  recv_delivers = λ n w. refl;
  send_most = λ bytes w. omega arith;
  send_some = λ bytes w h. omega arith;
  send_sends = λ bytes w. update-same w.wires fd _;
}

abbrev network : Net Lines
network = record { socket = wired; time = λ w. 1000 }

wired-IsServing : IsServing network
unfolding wired
wired-IsServing = record {
  willing = λ fd bytes w. refl;
  apart = λ a b n bytes w. update-other w.wires a b _ n;
}

-- Every connection is accepted at descriptor 7.
abbrev system : Os Lines
system = record {
  getfl = λ fd w. (some 2, w);
  setfl = λ fd flags w. (true, w);
  nonblocking = λ flags. flags + 2048;
  getaddrinfo = λ host port w. (some ((127 ∷ []) ∷ []), w);
  socket = λ a w. (some 3, w);
  reuse = λ fd w. w;
  bind = λ fd a w. (true, w);
  listen = λ fd w. (true, w);
  close = λ fd w. w;
  accept = λ fd w. (some (7, 127 ∷ []), w);
  ntop = λ a. some a;
  getpeername = λ fd w. some (127 ∷ []);
  sockport = λ fd w. some 9090;
  inet_socket = λ w. (some 6, w);
  gethostbyname = λ host w. (some (127 ∷ []), w);
  connect = λ fd a port w. (true, w);
  rand = λ w. (25, w);
  epoll_create = λ w. (some 4, w);
  atoi = λ text. 9090;
  decimal = λ n. [];
}

-- A SUBSCRIBE packet is under way.
abbrev dawn : Lines
dawn = record {
  coming = 128 ∷ 0 ∷ 0 ∷ 0 ∷ 11 ∷ 0 ∷ 1 ∷ 1 ∷ 99 ∷ 170 ∷ 170 ∷ [];
  come = [];
  wires = λ fd. [];
}

abbrev some_memory : ℕ → Bool
some_memory n = true

abbrev start : State Lines
start = initial 3 3 5 19090 dawn

readable : ℕ → EpollEvent
readable p = record {
  error = false;
  hangup = false;
  input = true;
  output = false;
  source = client_at p;
}

-- The state behind a call that returns.
state_of : {A : Type 0} → State Lines → Run (A × State Lines) → State Lines
state_of s (returns (a, s')) = s'
state_of s undefined = s
state_of s deadlock = s
state_of s out_of_fuel = s

handle : EpollEvent → State Lines → Run (Bool × State Lines)
handle = worker_event 6 (λ p. p + 4096) network system some_memory untouched 20

connected : State Lines
connected = state_of start (handle (readable 0) start)

subscribed : State Lines
subscribed = state_of connected (handle (readable 3) connected)

returned : {A : Type 0} → Run (A × State Lines) → Bool
returned (returns (a, s)) = true
returned undefined = false
returned deadlock = false
returned out_of_fuel = false

-- A call that returns.
ran :
    (s : State Lines) (r : Run (Bool × State Lines))
    → returned r ≡ true
    → (more : Bool) × (r ≡ returns (more, state_of s r))
unfolding returned state_of
ran s (returns (more, s')) e = (more, refl)
ran s undefined e = absurd (cc)
ran s deadlock e = absurd (cc)
ran s out_of_fuel e = absurd (cc)

starting : start_server system [] [] 5 dawn ≡ Listen.returns start
unfolding start_server Listen.make_listen Listen.create_and_bind Listen.bind_first
    Listen.set_nonblocking
starting = refl

connecting : returned (handle (readable 0) start) ≡ true
unfolding returned handle connected subscribed state_of readable wired untouched fill cell
    Ops.create_subscription Ringbuf.init Ringbuf.size Ringbuf.bulk_push Ringbuf.pop Receive.pops
    Receive.filled Receive.header_loop Receive.body_loop Receive.recv_body Network.received
    Network.recvbytes Buf.buffer_init Buf.byte Buf.bytes Buf.read_uint8 Buf.read_uint16
    Buf.read_uint32 Buf.read_string Buf.strlen Buf.write_uint8 Buf.write_uint16 Buf.write_uint32
    Wire.ack_pkt Wire.pack_header Wire.unpack_header Wire.unpack_subscribe Wire.pack_ack
    Table.same_key Table.entry Table.holds Table.find_slot Table.free_slot Table.hash Table.create
    Table.write Table.place Table.put_locked Table.get Table.put Crc.hash_int Events.worker
    Events.start_server Buf.stores Buf.store
connecting = refl

subscribing : returned (handle (readable 3) connected) ≡ true
unfolding returned handle connected subscribed state_of readable wired untouched fill cell
    Ops.create_subscription Ringbuf.init Ringbuf.size Ringbuf.bulk_push Ringbuf.pop Receive.pops
    Receive.filled Receive.header_loop Receive.body_loop Receive.recv_body Network.received
    Network.recvbytes Buf.buffer_init Buf.byte Buf.bytes Buf.read_uint8 Buf.read_uint16
    Buf.read_uint32 Buf.read_string Buf.strlen Buf.write_uint8 Buf.write_uint16 Buf.write_uint32
    Wire.ack_pkt Wire.pack_header Wire.unpack_header Wire.unpack_subscribe Wire.pack_ack
    Table.same_key Table.entry Table.holds Table.find_slot Table.free_slot Table.hash Table.create
    Table.write Table.place Table.put_locked Table.get Table.put Crc.hash_int Events.worker
    Events.start_server Buf.stores Buf.store
subscribing = refl

found : Table.get subscribed.topics c ≡ Table.returns (some 0)
unfolding returned handle connected subscribed state_of readable wired untouched fill cell
    Ops.create_subscription Ringbuf.init Ringbuf.size Ringbuf.bulk_push Ringbuf.pop Receive.pops
    Receive.filled Receive.header_loop Receive.body_loop Receive.recv_body Network.received
    Network.recvbytes Buf.buffer_init Buf.byte Buf.bytes Buf.read_uint8 Buf.read_uint16
    Buf.read_uint32 Buf.read_string Buf.strlen Buf.write_uint8 Buf.write_uint16 Buf.write_uint32
    Wire.ack_pkt Wire.pack_header Wire.unpack_header Wire.unpack_subscribe Wire.pack_ack
    Table.same_key Table.entry Table.holds Table.find_slot Table.free_slot Table.hash Table.create
    Table.write Table.place Table.put_locked Table.get Table.put Crc.hash_int Events.worker
    Events.start_server Buf.stores Buf.store
found = refl

-- The client in a block.
client_in : Option Client → Client
client_in none = client_on 0 []
client_in (some client) = client

present : Option Client → Bool
present none = false
present (some client) = true

there : (o : Option Client) → present o ≡ true → o ≡ some (client_in o)
unfolding present client_in
there none e = absurd (cc)
there (some client) e = refl

subscriber : present (cell subscribed.client_blocks 3) ≡ true
unfolding present returned handle connected subscribed state_of readable wired untouched fill cell
    Ops.create_subscription Ringbuf.init Ringbuf.size Ringbuf.bulk_push Ringbuf.pop Receive.pops
    Receive.filled Receive.header_loop Receive.body_loop Receive.recv_body Network.received
    Network.recvbytes Buf.buffer_init Buf.byte Buf.bytes Buf.read_uint8 Buf.read_uint16
    Buf.read_uint32 Buf.read_string Buf.strlen Buf.write_uint8 Buf.write_uint16 Buf.write_uint32
    Wire.ack_pkt Wire.pack_header Wire.unpack_header Wire.unpack_subscribe Wire.pack_ack
    Table.same_key Table.entry Table.holds Table.find_slot Table.free_slot Table.hash Table.create
    Table.write Table.place Table.put_locked Table.get Table.put Crc.hash_int Events.worker
    Events.start_server Buf.stores Buf.store
subscriber = refl

-- The topic that the client subscribed to.
abbrev joined_topic : Topic
joined_topic = record {
  name = c;
  subscribers = record { chain = record { client = 3; topic = c; qos = 1 } ∷ []; len = 1 };
  retained = none;
}

topic_there : cell subscribed.topic_blocks 0 ≡ some joined_topic
unfolding present returned handle connected subscribed state_of readable wired untouched fill cell
    Ops.create_subscription Ringbuf.init Ringbuf.size Ringbuf.bulk_push Ringbuf.pop Receive.pops
    Receive.filled Receive.header_loop Receive.body_loop Receive.recv_body Network.received
    Network.recvbytes Buf.buffer_init Buf.byte Buf.bytes Buf.read_uint8 Buf.read_uint16
    Buf.read_uint32 Buf.read_string Buf.strlen Buf.write_uint8 Buf.write_uint16 Buf.write_uint32
    Wire.ack_pkt Wire.pack_header Wire.unpack_header Wire.unpack_subscribe Wire.pack_ack
    Table.same_key Table.entry Table.holds Table.find_slot Table.free_slot Table.hash Table.create
    Table.write Table.place Table.put_locked Table.get Table.put Crc.hash_int Events.worker
    Events.start_server Buf.stores Buf.store
topic_there = refl

abbrev Life : State Lines → Type 0
Life = Course network system some_memory untouched 6 (λ p. p + 4096)

born : Life start
unfolding handle
born = starts [] [] 5 dawn starting

grown : Life connected
unfolding handle connected
grown =
    let (more, runs) = ran start (handle (readable 0) start) connecting in
    handles start 20 (readable 0) more born runs

wise : Life subscribed
unfolding handle subscribed
wise =
    let (more, runs) = ran connected (handle (readable 3) connected) subscribing in
    handles connected 20 (readable 3) more grown runs

Course-IsSound_example : IsSound subscribed
Course-IsSound_example =
    Course-IsSound network system some_memory untouched 6 (λ p. p + 4096) subscribed wise

abbrev hello : List ℕ
hello = 104 ∷ 105 ∷ []

Course-forwards_example :
    let pkt = publish_pkt c hello 1 0 0 in
    (t : Topic) × ((bytes : List ℕ) × ((ack : List ℕ) × ((unpacked unpack_publish bytes ≡ some pkt)
          × (unpacked unpack_ack ack ≡ some (ack_pkt Opcode.puback 0 0))
          × Turn network some_memory untouched 3
              (client_in (cell subscribed.client_blocks 3))
              pkt
              bytes
              ack
              t
              subscribed
          × (cell subscribed.topic_blocks 0 ≡ some t))))
unfolding strlen
Course-forwards_example =
    Course-forwards network system some_memory untouched 6 (λ p. p + 4096) wired-IsServing
      subscribed 3 0 (client_in (cell subscribed.client_blocks 3)) c hello 1 0 wise
      (there (cell subscribed.client_blocks 3) subscriber) found refl refl (omega arith)
      (omega arith) (omega arith) (omega arith) (omega arith)

-- The client subscribes again, after the publication.
Course-retains_example :
    Greeting network system some_memory untouched 6
      (λ p. p + 4096)
      wired-IsServing
      0
      3
      1
      joined_topic
      (client_in (cell subscribed.client_blocks 3))
      c
      hello
      1
      1
      0
      (112 ∷ [])
      subscribed
unfolding strlen
Course-retains_example =
    Course-retains network system some_memory untouched 6 (λ p. p + 4096) wired-IsServing subscribed
      0 3 1 joined_topic (client_in (cell subscribed.client_blocks 3)) c hello 1 1 0 (112 ∷ []) wise
      found topic_there refl (there (cell subscribed.client_blocks 3) subscriber) refl refl refl
      (omega arith) (omega arith) (omega arith) (omega arith) (omega arith) (omega arith)

-- Nobody knows the peer.
abbrev blind : Os Lines
blind = record system { getpeername = λ fd w. none }

accept_refused_example :
    accept_handler network blind 0 start ≡ returns (minus_one, record start { world = dawn })
unfolding cell Listen.accept_connection Listen.set_nonblocking initial
accept_refused_example =
    accept_refused network blind start 0
      (listener 3 accepting (115 ∷ 101 ∷ 114 ∷ 118 ∷ 101 ∷ 114 ∷ [])) refl (some 7) refl (inl refl)
