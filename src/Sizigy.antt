-- ===== src/Sizigy.antt =====
-- src/sizigy.h and src/sizigy.c: clients, topics, subscriptions and messages, and the state that the
-- handlers of src/server.c change. A pointer to a client, a topic or a message is a place in a list of
-- blocks, which is `none` once the block is freed; strings are values.
pub mod Runs
pub mod Ops
pub mod Clients
pub mod Removal
pub mod Keeps
pub mod Sound
pub mod Quiet
pub mod Topics
use sizigy.Base.{ℕ, Bool, Option, none, some, List, [], ◌∷◌, ◌++◌, length, get_elem?, set}
use sizigy.Hashmap.{Hashmap}
use sizigy.Hashmap as Table
use sizigy.Network.{Socket}
use sizigy.Packet.{Publish}
use sizigy.Server.Dispatch.{Unpacked}

-- `enum STATUS`
pub data Status : Type 0 where
  online offline : Status

-- What `ctx_handler` points to.
pub data Stage : Type 0 where
  accepting requesting replying : Stage

pub data Event : Type 0 where
  epollin epollout : Event

-- The union of `struct reply`.
pub data Payload : Type 0 where
  block : List ℕ → Payload
  publication : Publish → Payload

-- A field of a block of `malloc` that may not have been written.
pub data Written (A : Type 0) : Type 0 where
  unwritten : Written A
  written : A → Written A

-- `retained` is a `Message *`.
pub record Reply : Type 0 where
  pub opcode : ℕ
  pub fd : ℕ
  pub payload : Payload
  pub retained : Written (Option ℕ)

pub record Client : Type 0 where
  pub status : Status
  pub keepalive : ℕ
  pub last_action_time : ℕ
  pub fd : ℕ
  pub ctx_handler : Stage
  pub id : List ℕ
  pub reply : Option Reply
  pub ptr : Unpacked

pub record Message : Type 0 where
  pub qos : ℕ
  pub dup : ℕ
  pub retained : ℕ
  pub creation_time : ℕ
  pub sender : List ℕ
  pub topic : List ℕ
  pub payload : List ℕ

-- `client` is a `Client *`.
pub record Subscription : Type 0 where
  pub client : ℕ
  pub topic : List ℕ
  pub qos : ℕ

-- A list of src/list.c, as the nodes that `head` leads to and the field `len`.
pub record Subscribers : Type 0 where
  pub chain : List Subscription
  pub len : ℕ

-- `retained` is a `Message *`. The queue `messages` is made empty and never used; it is left out.
pub record Topic : Type 0 where
  pub name : List ℕ
  pub subscribers : Subscribers
  pub retained : Option ℕ

-- What lies outside the program: the sockets by their descriptors, and the clock.
pub record Net (W : Type 0) : Type 0 where
  pub socket : ℕ → Socket W
  pub time : W → ℕ

-- `SizigyDB`, the blocks, the events that `epollfd` is armed for, newest first, the descriptors closed,
-- and the world. `peers` holds `Client *`.
pub record State (W : Type 0) : Type 0 where
  pub topics : Hashmap ℕ
  pub clients : Hashmap ℕ
  pub peers : List ℕ
  pub bus_port : ℕ
  pub lock : Bool
  pub client_blocks : List (Option Client)
  pub topic_blocks : List (Option Topic)
  pub message_blocks : List (Option Message)
  pub armed : List (ℕ × Event)
  pub closed : List ℕ
  pub world : W

-- A call returns, does what C leaves undefined, waits for ever, or is cut off by the fuel.
pub data Run (A : Type 0) : Type 0 where
  returns : A → Run A
  undefined deadlock out_of_fuel : Run A

abbrev pub M : Type 0 → Type 0 → Type 0
M W A = State W → Run (A × State W)

abbrev pub pure : {W A : Type 0} → A → M W A
pure a s = returns (a, s)

infixl 5 ◌>>=◌ ◌>>◌
abbrev pub ◌>>=◌ : {W A B : Type 0} → M W A → (A → M W B) → M W B
◌>>=◌ m f s = elim (m s) [
  | returns (a, s') ↦ f a s'
  | undefined ↦ undefined
  | deadlock ↦ deadlock
  | out_of_fuel ↦ out_of_fuel
]

abbrev pub ◌>>◌ : {W B : Type 0} → M W (Unit {0}) → M W B → M W B
◌>>◌ m k s = elim (m s) [
  | returns (_, s') ↦ k s'
  | undefined ↦ undefined
  | deadlock ↦ deadlock
  | out_of_fuel ↦ out_of_fuel
]

-- A value that may be missing, where C would read it all the same.
abbrev pub defined : {W A : Type 0} → Option A → M W A
defined none s = undefined
defined (some a) s = returns (a, s)

-- A call of the table that changes nothing.
abbrev pub asked : {W A : Type 0} → Table.Outcome A → M W A
asked (Table.returns a) s = returns (a, s)
asked Table.deadlock s = deadlock
asked Table.out_of_fuel s = out_of_fuel

abbrev pub get_state : {W : Type 0} → M W (State W)
get_state s = returns (s, s)

abbrev pub put_state : {W : Type 0} → State W → M W (Unit {0})
put_state s' s = returns (tt, s')

-- `*p`, where the block is not freed.
unfoldable pub cell : {A : Type 0} → List (Option A) → ℕ → Option A
cell blocks p = elim (get_elem? blocks p) [ none ↦ none | some content ↦ content ]
