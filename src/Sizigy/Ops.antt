-- ===== src/Sizigy/Ops.antt =====
-- The functions of src/sizigy.c, over the state. `malloc` returns a block at a fresh place, or the
-- program ends.
use sizigy.Base.{
  ℕ, ◌+◌, Bool, true, false, none, some, List, [], ◌∷◌, ◌++◌, ◌==◌, if◌then◌else◌, length, set,
}
use sizigy.Buffer.Words.{text}
use sizigy.Hashmap.{Key}
use sizigy.Hashmap as Table
use sizigy.Packet.{Publish}
use sizigy.Sizigy.{
  Client, Message, Subscription, Subscribers, Topic, Net, returns, deadlock, M, pure, ◌>>=◌, ◌>>◌,
  defined, asked, get_state, put_state, cell,
}

unfoldable pub create_subscription : ℕ → List ℕ → ℕ → Subscription
create_subscription c topic qos = record { client = c; topic = topic; qos = qos }

-- list_head_insert
abbrev pub head_insert : Subscribers → Subscription → Subscribers
head_insert l x = record { chain = if l.len == 0 then x ∷ [] else x ∷ l.chain; len = l.len + 1 }

module _ {W : Type 0} where
  unfoldable pub load_client : ℕ → M W Client
  load_client p s = defined (cell s.client_blocks p) s

  unfoldable pub store_client : ℕ → Client → M W (Unit {0})
  store_client p c s = returns (tt, record s { client_blocks = set s.client_blocks p (some c) })

  unfoldable pub load_topic : ℕ → M W Topic
  load_topic p s = defined (cell s.topic_blocks p) s

  unfoldable pub store_topic : ℕ → Topic → M W (Unit {0})
  store_topic p t s = returns (tt, record s { topic_blocks = set s.topic_blocks p (some t) })

  unfoldable pub load_message : ℕ → M W Message
  load_message p s = defined (cell s.message_blocks p) s

  -- `pthread_mutex_lock(&db->lock)`; the lock is free again at the end of both functions that take it.
  unfoldable pub locked : {A : Type 0} → M W A → M W A
  locked body s =
      if s.lock
      then deadlock
      else (do a ← body; s' ← get_state; put_state (record s' { lock = false }); pure a)
          (record s { lock = true })

  unfoldable pub create_topic : List ℕ → M W ℕ
  create_topic name s = returns (
    length s.topic_blocks,
    record s {
      topic_blocks =
          s.topic_blocks
          ++ (some (record {
            name = text name;
            subscribers = record { chain = []; len = 0 };
            retained = none;
          })
              ∷ []);
    },
  )

  unfoldable pub destroy_message : ℕ → M W (Unit {0})
  unfolding load_message
  destroy_message p = do
    m ← load_message p
    s ← get_state
    put_state (record s { message_blocks = set s.message_blocks p none })

  unfoldable pub add_subscriber : Subscription → M W (Unit {0})
  unfolding locked load_topic store_topic
  add_subscriber sub = do
    s ← get_state
    raw ← asked (Table.get s.topics (text sub.topic))
    locked (do
      p ← defined raw
      t ← load_topic p
      store_topic p (record t { subscribers = head_insert t.subscribers sub }))

  -- list_remove_node with sub_compare: the first node whose client has the descriptor goes.
  unfoldable pub remove_node : ℕ → List Subscription → M W (List Subscription)
  unfolding load_client
  remove_node fd [] = pure []
  remove_node fd (x ∷ xs) = do
    c ← load_client x.client
    if c.fd == fd then pure xs else do rest ← remove_node fd xs; pure (x ∷ rest)

  -- The `len` of the list stays as it was.
  unfoldable pub del_subscriber : Subscription → M W (Unit {0})
  unfolding locked load_topic store_topic load_client remove_node
  del_subscriber sub = do
    s ← get_state
    raw ← asked (Table.get s.topics (text sub.topic))
    locked (do
      p ← defined raw
      t ← load_topic p
      c ← load_client sub.client
      chain ← remove_node c.fd t.subscribers.chain
      store_topic p (record t { subscribers = record { chain = chain; len = t.subscribers.len } }))

  unfoldable pub del_client : ℕ → M W (Unit {0})
  unfolding load_client
  del_client p = do
    c ← load_client p
    s ← get_state
    (status, m) ← asked (Table.del s.clients c.id)
    put_state (record s { clients = m })

-- `calloc n` says whether an array of `n` entries can be had.
module _ {W : Type 0} (calloc : ℕ → Bool) where
  -- Two levels of hashmap_put are fuel enough. No caller looks at the status.
  unfoldable pub put_topic : Key → ℕ → M W (Unit {0})
  put_topic key p = do
    s ← get_state
    (status, m) ← asked (Table.put calloc 2 s.topics key (some p))
    put_state (record s { topics = m })

  unfoldable pub add_client : ℕ → M W (Unit {0})
  unfolding load_client
  add_client p = do
    c ← load_client p
    s ← get_state
    (status, m) ← asked (Table.put calloc 2 s.clients c.id (some p))
    put_state (record s { clients = m })

  unfoldable pub add_topic : List ℕ → M W (Unit {0})
  unfolding create_topic put_topic
  add_topic name = do t ← create_topic name; put_topic (text name) t

module _ {W : Type 0} (net : Net W) where
  -- The compare-and-swap expects what it has just read.
  unfoldable pub update_client_last_action : ℕ → M W (Unit {0})
  unfolding load_client store_client
  update_client_last_action p = do
    c ← load_client p
    s ← get_state
    store_client p (record c { last_action_time = net.time s.world })

  unfoldable pub create_message : Publish → List ℕ → M W ℕ
  create_message msg sender s = returns (
    length s.message_blocks,
    record s {
      message_blocks =
          s.message_blocks
          ++ (some (record {
            qos = msg.qos;
            dup = msg.dup;
            retained = msg.retain;
            creation_time = net.time s.world;
            sender = sender;
            topic = text msg.topic;
            payload = text msg.message;
          })
              ∷ []);
    },
  )
