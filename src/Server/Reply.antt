-- ===== src/Server/Reply.antt =====
-- set_reply, set_ack_reply, retain_message and publish_message of src/server.c.
use sizigy.Base.{ℕ, ◌+◌, ◌==◌, none, some, List, [], ◌∷◌, if◌then◌else◌, set}
use sizigy.Buffer.{Allocator}
use sizigy.Network.{sendall}
use sizigy.Packet.{Publish, ack_pkt, pack_ack, pack_publish}
use sizigy.Packet.Roundtrip.{packed}
use sizigy.Ring.{Code}
use sizigy.Sizigy.{
  undefined, Event, Payload, block, unwritten, Subscription, Net, returns, M, pure, ◌>>=◌, ◌>>◌,
  defined, get_state, put_state,
}
use sizigy.Sizigy.Ops.{
  load_client, store_client, load_topic, store_topic, load_message, destroy_message, create_message,
  update_client_last_action,
}

module _ {W : Type 0} where
  -- `retained` of the new reply is not written.
  unfoldable pub set_reply : ℕ → ℕ → Payload → M W (Unit {0})
  unfolding load_client store_client
  set_reply p opcode payload = do
    c ← load_client p
    store_client p (record c {
      reply = some (record { opcode = opcode; fd = c.fd; payload = payload; retained = unwritten });
    })

  -- mod_epoll; what the events are armed for
  unfoldable pub mod_epoll : ℕ → Event → M W (Unit {0})
  mod_epoll fd ev s = returns (tt, record s { armed = (fd, ev) ∷ s.armed })

  -- `shutdown` and `close`
  unfoldable pub close_fd : ℕ → M W (Unit {0})
  close_fd fd s = returns (tt, record s { closed = fd ∷ s.closed })

module _ {W : Type 0} (alloc : Allocator) where
  unfoldable pub set_ack_reply : ℕ → ℕ → ℕ → M W (Unit {0})
  unfolding set_reply
  set_ack_reply p opcode rc = do
    let ack = ack_pkt opcode 0 rc
    bytes ← defined (packed alloc ack.header.size (pack_ack ack))
    set_reply p opcode (block bytes)

module _ {W : Type 0} (net : Net W) where
  -- sendall on a descriptor: the code and what it stores in `*sent`.
  unfoldable pub send_to : ℕ → List ℕ → M W (Code × ℕ)
  send_to fd bytes s = elim (sendall (net.socket fd) bytes s.world) [
    | none ↦ undefined
    | some (code, sent, w) ↦ returns ((code, sent), record s { world = w })
  ]

  unfoldable pub retain_message : ℕ → Publish → List ℕ → M W (Unit {0})
  unfolding load_message load_topic store_topic destroy_message create_message
  retain_message p msg sender = do
    m ← create_message net msg sender
    content ← load_message m
    s ← get_state
    put_state (record s {
      message_blocks = set s.message_blocks m (some (record content { retained = 1 }));
    })
    t ← load_topic p
    elim t.retained [ none ↦ pure tt | some old ↦ destroy_message old ]
    store_topic p (record t { retained = some m })

  -- The loop over the subscribers, with the bytes sent so far.
  unfoldable pub deliver : List ℕ → List Subscription → ℕ → M W ℕ
  unfolding load_client send_to update_client_last_action
  deliver bytes [] total = pure total
  deliver bytes (sub ∷ subs) total = do
    c ← load_client sub.client
    (code, sent) ← send_to c.fd bytes
    update_client_last_action net sub.client
    deliver bytes subs (total + sent)

module _ {W : Type 0} (net : Net W) (alloc : Allocator) where
  unfoldable pub publish_message : ℕ → Publish → List ℕ → M W ℕ
  unfolding load_topic retain_message deliver
  publish_message p msg sender = do
    bytes ← defined (packed alloc msg.header.size (pack_publish msg))
    if msg.retain == 0 then pure tt else retain_message net p msg sender
    t ← load_topic p
    deliver net bytes t.subscribers.chain 0
