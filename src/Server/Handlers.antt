-- ===== src/Server/Handlers.antt =====
-- The handlers of src/server.c. One handler runs at a time; what two workers do to one client or topic
-- at once is not modelled.
use sizigy.Base.{ℕ, ◌==◌, Bool, Option, none, some, List, if◌then◌else◌}
use sizigy.Buffer.{Allocator}
use sizigy.Buffer.Words.{text}
use sizigy.Hashmap as Table
use sizigy.Packet.{Connect, Subscribe, Unsubscribe, Publish}
use sizigy.Packet.Opcode
use sizigy.Server.Dispatch.{Unpacked, connection, subscription, publication}
use sizigy.Server.Reply.{set_reply, set_ack_reply, close_fd}
use sizigy.Sizigy as Broker
use sizigy.Sizigy.{
  Payload, unwritten, written, Client, Reply, Net, State, Run, returns, undefined, deadlock, M,
  pure, ◌>>=◌, ◌>>◌, defined, asked, get_state,
}
use sizigy.Sizigy.Ops.{
  load_client, store_client, load_topic, create_topic, create_subscription, add_subscriber,
  del_subscriber, add_client, del_client, put_topic, update_client_last_action,
}

-- What a handler returns.
pub data Ret : Type 0 where
  minus_one nought one : Ret

-- `(Connect *) c->ptr` and the like, where the packet is of that kind.
abbrev as_connect : Unpacked → Option Connect
as_connect (connection pkt) = some pkt
as_connect _ = none

abbrev as_subscribe : Unpacked → Option Subscribe
as_subscribe (subscription pkt) = some pkt
as_subscribe _ = none

abbrev as_publish : Unpacked → Option Publish
as_publish (publication pkt) = some pkt
as_publish _ = none

module _ {W : Type 0} where
  -- hashmap_iterate2 with a null `arg1`: close_socket returns at once for each topic.
  unfoldable pub disconnect : ℕ → M W Ret
  unfolding load_client close_fd
  disconnect p = do c ← load_client p; close_fd c.fd; pure minus_one

  -- The reply takes the packet over; nothing is replied to a packet with no topic.
  unfoldable pub publish : ℕ → M W Ret
  unfolding load_client set_reply
  publish p = do
    c ← load_client p
    pkt ← defined (as_publish c.ptr)
    if pkt.topic_len == 0 then pure tt else set_reply p Opcode.publish (Broker.publication pkt)
    pure one

  -- `c->reply->retained = retained`
  unfoldable pub set_retained : ℕ → Option ℕ → M W (Unit {0})
  unfolding load_client store_client
  set_retained p retained = do
    c ← load_client p
    r ← defined c.reply
    store_client p (record c { reply = some (record r { retained = written retained }) })

module _ {W : Type 0} (calloc : ℕ → Bool) where
  -- hashmap_get, or a new topic under the name.
  unfoldable pub topic_of : List ℕ → M W ℕ
  unfolding create_topic put_topic
  topic_of name = do
    s ← get_state
    raw ← asked (Table.get s.topics (text name))
    elim raw [
      | some t ↦ pure t
      | none ↦ do t ← create_topic name; put_topic calloc (text name) t; pure t
    ]

module _ {W : Type 0} (alloc : Allocator) where
  -- The packet is an Unsubscribe, which unpack_packet never makes; its topic is an argument.
  unfoldable pub unsubscribe : Unsubscribe → ℕ → M W Ret
  unfolding set_ack_reply del_subscriber
  unsubscribe pkt p = do
    if pkt.topic_len == 0 then set_ack_reply alloc p Opcode.unsuback 1 else do
      set_ack_reply alloc p Opcode.unsuback 0
      del_subscriber (record { client = p; topic = pkt.topic; qos = 0 })
    pure nought

module _ {W : Type 0} (net : Net W) (alloc : Allocator) where
  unfoldable pub pingreq : ℕ → M W Ret
  unfolding set_ack_reply update_client_last_action
  pingreq p = do set_ack_reply alloc p Opcode.pingresp 0; update_client_last_action net p; pure one

module _ {W : Type 0} (calloc : ℕ → Bool) (alloc : Allocator) where
  unfoldable pub subscribe : ℕ → M W Ret
  unfolding load_client load_topic topic_of set_ack_reply add_subscriber set_retained
  subscribe p = do
    c ← load_client p
    pkt ← defined (as_subscribe c.ptr)
    if pkt.topic_len == 0 then set_ack_reply alloc p Opcode.suback 1 else do
      tp ← topic_of calloc pkt.topic
      set_ack_reply alloc p Opcode.suback 0
      t ← load_topic tp
      add_subscriber (create_subscription p t.name pkt.qos)
      t' ← load_topic tp
      set_retained p t'.retained
    pure nought

module _ {W : Type 0} (net : Net W) (calloc : ℕ → Bool) (alloc : Allocator) where
  unfoldable pub connect : ℕ → M W Ret
  unfolding load_client store_client add_client del_client set_ack_reply update_client_last_action
  connect p = do
    c ← load_client p
    pkt ← defined (as_connect c.ptr)
    if pkt.idlen == 0
        then pure tt
        else (if pkt.clean_session == 1
            then (do
              del_client p
              store_client p (record c { id = text pkt.id })
              add_client calloc p)
            else add_client calloc p)
    set_ack_reply alloc p Opcode.connack (if pkt.idlen == 0 then 1 else 0)
    update_client_last_action net p
    pure nought
