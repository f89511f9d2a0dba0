-- ===== src/Server/Steps.antt =====
-- request_handler and reply_handler of src/server.c: the two states of a client between which epoll's
-- events move it.
use sizigy.Base.{
  ℕ, ◌*◌, ◌==◌, ◌||◌, not, Bool, true, false, Option, none, some, List, [], ◌∷◌, if◌then◌else◌,
}
use sizigy.Buffer.{Allocator}
use sizigy.Packet.{Publish, ack_pkt, pack_ack, publish_pkt, pack_publish}
use sizigy.Packet.Opcode
use sizigy.Packet.Roundtrip.{packed}
use sizigy.Ring as Ringbuf
use sizigy.Ring.{Code}
use sizigy.Server.Dispatch.{
  Unpacked, absent, Handler, connect_handler, publish_handler, pingreq_handler, subscribe_handler,
  unsubscribe_handler, disconnect_handler, commands, matching, unpack_packet,
}
use sizigy.Server.Receive as Receive
use sizigy.Server.Receive.{Packet, recv_packet}
use sizigy.Server.Reply.{mod_epoll, send_to, publish_message}
use sizigy.Server.Handlers.{
  Ret, minus_one, nought, one, connect, publish, pingreq, subscribe, disconnect, topic_of,
}
use sizigy.Sizigy as Broker
use sizigy.Sizigy.{
  requesting, replying, epollin, epollout, Payload, block, Written, written, unwritten, Reply, Net,
  State, Run, returns, undefined, deadlock, out_of_fuel, M, pure, ◌>>=◌, ◌>>◌, defined, get_state,
}
use sizigy.Sizigy.Ops.{load_client, store_client, load_message, update_client_last_action}

abbrev as_block : Payload → Option (List ℕ)
as_block (block bytes) = some bytes
as_block (Broker.publication pkt) = none

abbrev as_publication : Payload → Option Publish
as_publication (block bytes) = none
as_publication (Broker.publication pkt) = some pkt

abbrev as_written : {A : Type 0} → Written A → Option A
as_written unwritten = none
as_written (written a) = some a

-- A call of recv_packet moves the world on.
abbrev pub receive : {W A : Type 0} → Receive.Reception (A × W) → M W A
receive (Receive.returns (a, w)) s = returns (a, record s { world = w })
receive Receive.undefined s = undefined
receive Receive.out_of_fuel s = out_of_fuel

abbrev ret_of : Code → Ret
ret_of Ringbuf.ok = nought
ret_of Ringbuf.failed = minus_one

module _ {W : Type 0} where
  -- `client->ctx_handler = …; mod_epoll(db->epollfd, client->fd, …, client)`
  unfoldable pub rearm : ℕ → Broker.Stage → Broker.Event → M W (Unit {0})
  unfolding load_client store_client mod_epoll
  rearm p stage ev = do
    c ← load_client p
    store_client p (record c { ctx_handler = stage })
    mod_epoll c.fd ev

  unfoldable pub drop_reply : ℕ → M W (Unit {0})
  unfolding load_client store_client
  drop_reply p = do c ← load_client p; store_client p (record c { reply = none })

module _ {W : Type 0} (net : Net W) (alloc : Allocator) where
  -- The PUBACK to the sender of a PUBLISH of quality 1.
  unfoldable pub acknowledge : ℕ → ℕ → M W Ret
  unfolding send_to
  acknowledge qos fd =
      if qos == 1
      then (do
        let ack = ack_pkt Opcode.puback 0 0
        bytes ← defined (packed alloc ack.header.size (pack_ack ack))
        (code, sent) ← send_to net fd bytes
        pure (ret_of code))
      else pure nought

module _ {W : Type 0} (net : Net W) (calloc : ℕ → Bool) (alloc : Allocator) where
  -- A packet for unsubscribe_handler would be of a kind that unpack_packet never makes.
  unfoldable pub run_handler : Handler → ℕ → M W Ret
  unfolding connect publish pingreq subscribe disconnect
  run_handler connect_handler p = connect net calloc alloc p
  run_handler publish_handler p = publish p
  run_handler pingreq_handler p = pingreq net alloc p
  run_handler subscribe_handler p = subscribe calloc alloc p
  run_handler unsubscribe_handler p = λ s. undefined
  run_handler disconnect_handler p = disconnect p

  -- The calls that the loop over the commands makes: `executed`, and the last result.
  unfoldable pub run_handlers : List Handler → ℕ → Bool × Ret → M W (Bool × Ret)
  unfolding run_handler
  run_handlers [] p last = pure last
  run_handlers (h ∷ hs) p last = do ret ← run_handler h p; run_handlers hs p (true, ret)

  -- request_handler behind recv_packet and unpack_packet.
  unfoldable pub serve : ℕ → ℕ → Unpacked → M W Ret
  unfolding load_client store_client update_client_last_action run_handlers matching rearm
      drop_reply
  serve p opcode pkt = do
    update_client_last_action net p
    c ← load_client p
    store_client p (record c { ptr = pkt })
    (executed, ret) ← run_handlers (matching opcode commands) p (false, minus_one)
    if not (opcode == Opcode.pubrec) || not executed then rearm p replying epollout else (do
      rearm p requesting epollin
      elim ret [ minus_one ↦ pure tt | nought ↦ drop_reply p | one ↦ drop_reply p ])
    pure nought

  unfoldable pub handle_packet : ℕ → Packet → M W Ret
  unfolding rearm unpack_packet serve
  handle_packet p Receive.null = do rearm p requesting epollin; pure nought
  handle_packet p (Receive.packet opcode b) = do
    pkt ← defined (unpack_packet opcode b)
    elim pkt [ absent ↦ pure minus_one | other ↦ serve p opcode other ]

  -- A ring of 2 MB on the stack; recv_packet has its fuel.
  unfoldable pub request_handler : ℕ → ℕ → M W Ret
  unfolding load_client recv_packet handle_packet
  request_handler fuel p = do
    c ← load_client p
    s ← get_state
    r ← defined (
        Ringbuf.init (record { buffer = []; head = 0; tail = 0; max = 0; full = false })
          (alloc.malloc (2 * 1048576)) (2 * 1048576))
    pkt ← receive (recv_packet (net.socket c.fd) alloc fuel r s.world)
    handle_packet p pkt

  -- The branch of reply_handler for a PUBLISH reply.
  unfoldable pub reply_publish : ℕ → Reply → M W Ret
  unfolding load_client topic_of publish_message update_client_last_action acknowledge
  reply_publish p reply = do
    pkt ← defined (as_publication reply.payload)
    tp ← topic_of calloc pkt.topic
    c ← load_client p
    sent ← publish_message net alloc tp pkt c.id
    update_client_last_action net p
    acknowledge net alloc pkt.qos reply.fd

  -- The branch that sends the packet at hand.
  unfoldable pub reply_block : Reply → M W Ret
  unfolding send_to
  reply_block reply = do
    bytes ← defined (as_block reply.payload)
    (code, sent) ← send_to net reply.fd bytes
    pure (ret_of code)

  -- The branch for a SUBACK to a topic with a retained message.
  unfoldable pub reply_retained : ℕ → Reply → ℕ → M W Ret
  unfolding reply_block load_message send_to update_client_last_action
  reply_retained p reply m = do
    ret ← reply_block reply
    r ← load_message m
    let msg = publish_pkt r.topic r.payload r.qos 1 0
    bytes ← defined (packed alloc msg.header.size (pack_publish msg))
    (code, sent) ← send_to net reply.fd bytes
    update_client_last_action net p
    pure (elim code [ Ringbuf.ok ↦ ret | Ringbuf.failed ↦ minus_one ])

  unfoldable pub reply_with : ℕ → Reply → M W Ret
  unfolding reply_publish reply_block reply_retained
  reply_with p reply =
      if reply.opcode == Opcode.publish
      then reply_publish p reply
      else (if reply.opcode == Opcode.suback
          then (do
            retained ← defined (as_written reply.retained)
            elim retained [ none ↦ reply_block reply | some m ↦ reply_retained p reply m ])
          else reply_block reply)

  unfoldable pub reply_handler : ℕ → M W Ret
  unfolding load_client reply_with drop_reply rearm
  reply_handler p = do
    c ← load_client p
    elim c.reply [
      | none ↦ pure nought
      | some reply ↦ do ret ← reply_with p reply; drop_reply p; rearm p requesting epollin; pure ret
    ]
