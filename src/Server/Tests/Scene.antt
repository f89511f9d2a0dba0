-- ===== src/Server/Tests/Scene.antt =====
-- A broker with one topic, a client that publishes to it and two that subscribe, over sockets that take
-- two bytes at a time.
use sizigy.Base.{
  ℕ, ◌≡◌, ◌≢◌, refl, false, none, some, List, [], ◌∷◌, ◌++◌, ◌==◌, if◌then◌else◌, min, length, take,
  arith, Bool-cases, inl, inr,
}
use sizigy.Hashmap as Table
use sizigy.Hashmap.{Hashmap, create, write, entry, holds, find_slot, same_key}
use sizigy.Hashmap.Crc.{hash_int}
use sizigy.Network.{Socket, got, accepted}
use sizigy.Server.Delivery.{IsServing}
use sizigy.Server.Dispatch.{absent}
use sizigy.Sizigy.{online, requesting, Client, Subscription, Topic, Net, State}

-- What each descriptor was sent.
abbrev pub Wires : Type 0
Wires = ℕ → List ℕ

unfoldable pub update : Wires → ℕ → List ℕ → Wires
update w fd bytes q = if q == fd then bytes else w q

pub update-same : (w : Wires) (fd : ℕ) (bytes : List ℕ) → update w fd bytes fd ≡ bytes
unfolding update
update-same w fd bytes = ground arith

pub update-other : (w : Wires) (a b : ℕ) (bytes : List ℕ) → a ≢ b → update w a bytes b ≡ w b
unfolding update
update-other w a b bytes n = elim (Bool-cases (b == a)) [
  | inl e ↦ absurd (n (ground arith))
  | inr e ↦ rw (update, e)
]

unfoldable pub line : ℕ → Socket Wires
line fd = record {
  recv = λ n w. (got [], w);
  send = λ bytes w.
      (accepted (min 2 (length bytes)), update w fd (w fd ++ take (min 2 (length bytes)) bytes));
  delivered = λ w. [];
  sent = λ w. w fd;
  recv_most = λ n w. omega arith;
  recv_delivers = λ n w. refl;
  send_most = λ bytes w. omega arith;
  send_some = λ bytes w h. omega arith;
  send_sends = λ bytes w. update-same w fd _;
}

abbrev pub lines : Net Wires
lines = record { socket = line; time = λ w. 1000 }

pub lines-IsServing : IsServing lines
unfolding line
lines-IsServing = record {
  willing = λ fd bytes w. refl;
  apart = λ a b n bytes w. update-other w a b _ n;
}

abbrev pub client_on : ℕ → List ℕ → Client
client_on fd id = record {
  status = online;
  keepalive = 60;
  last_action_time = 0;
  fd = fd;
  ctx_handler = requesting;
  id = id;
  reply = none;
  ptr = absent;
}

-- The name of the topic.
abbrev pub c : List ℕ
c = 99 ∷ []

abbrev pub subscription_of : ℕ → Subscription
subscription_of p = record { client = p; topic = c; qos = 0 }

-- The second client has subscribed twice.
abbrev pub topic_c : Topic
topic_c = record {
  name = c;
  subscribers = record {
    chain = subscription_of 1 ∷ subscription_of 2 ∷ subscription_of 1 ∷ [];
    len = 3;
  };
  retained = none;
}

unfoldable pub topics : Hashmap ℕ
topics = write (create {V = ℕ}) 64 c (some 0)

abbrev pub scene : State Wires
scene = record {
  topics = topics;
  clients = create {V = ℕ};
  peers = [];
  bus_port = 19090;
  lock = false;
  client_blocks =
      some (client_on 7 (112 ∷ []))
      ∷ some (client_on 8 (113 ∷ []))
      ∷ some (client_on 9 (114 ∷ []))
      ∷ [];
  topic_blocks = some topic_c ∷ [];
  message_blocks = [];
  armed = [];
  closed = [];
  world = λ q. [];
}

pub get-c : Table.get scene.topics c ≡ Table.returns (some 0)
unfolding topics Table.get create entry hash_int write holds find_slot same_key
get-c = refl
