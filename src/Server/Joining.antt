-- ===== src/Server/Joining.antt =====
-- A whole turn of a client that subscribes: request_handler takes the packet, and reply_handler answers.
use mathlib.Core.Path.{subst}
use sizigy.Base.{
  ℕ, ◌^◌, ◌<◌, arith, ◌==◌, ◌≡◌, refl, ap, ◌∙◌, Bool, ◌+◌, ◌≤◌, false, none, some, List, [], ◌∷◌,
  ◌++◌, length, set, if◌then◌else◌,
}
use sizigy.Buffer.{Allocator}
use sizigy.Buffer.Words.{text}
use sizigy.Hashmap as Table
use sizigy.Packet.{Subscribe, ack_pkt, pack_ack}
use sizigy.Packet.Opcode
use sizigy.Packet.Roundtrip.{packed, ack-small}
use sizigy.Server.Cycle.{serve_run, reply_run}
use sizigy.Server.Delivery.{IsServing}
use sizigy.Server.Dispatch.{subscription, subscribe_handler, matching}
use sizigy.Server.Handlers.{nought}
use sizigy.Server.Steps.{run_handler, serve, reply_handler}
use sizigy.Server.Subscribing.{acking, with_topic, subscribe-with}
use sizigy.Sizigy.{
  replying, requesting, epollin, epollout, written, Client, Topic, Net, State, returns, cell,
}
use sizigy.Sizigy.Ops.{head_insert, create_subscription}
use sizigy.Sizigy.Clients.{with_client, with_client_self, cell-set_self, cell-lt}
use sizigy.Server.Greeting.{Greets, Greets-kept, reply_with_suback, head_insert_lem}

module _ {W : Type 0} (net : Net W) (serving : IsServing net) where
  module _ (calloc : ℕ → Bool) (alloc : Allocator) (p : ℕ) where
    -- The client `c` has subscribed with `pkt` to the topic `t`: it stands at the head of the subscribers,
    -- it has got the SUBACK and what the topic retains, and it is listened to again.
    pub record Subscribed (c : Client) (pkt : Subscribe) (tp : ℕ) (t : Topic) (bytes extra : List ℕ)
        (s : State W) : Type 0 where
      pub served : State W
      pub replied : State W
      pub serves :
          serve net calloc alloc p Opcode.subscribe (subscription pkt) s ≡ returns (nought, served)
      pub replies : reply_handler net calloc alloc p served ≡ returns (nought, replied)
      pub wires :
          (fd : ℕ)
          → (net.socket fd).sent replied.world
            ≡ (net.socket fd).sent s.world ++ (if c.fd == fd then bytes ++ extra else [])
      pub topics :
          replied.topic_blocks
          ≡ set s.topic_blocks tp (
              some (record t {
                subscribers = record {
                  chain =
                      record { client = p; topic = t.name; qos = pkt.qos } ∷ t.subscribers.chain;
                  len = t.subscribers.len + 1;
                };
              }))
      pub client :
          (time : ℕ) × (cell replied.client_blocks p
            ≡ some (record c {
              ctx_handler = requesting;
              reply = none;
              ptr = subscription pkt;
              last_action_time = time;
            }))
      pub armed : replied.armed ≡ (c.fd, epollin) ∷ (c.fd, epollout) ∷ s.armed

    -- Every socket takes what it is sent, and sends on one descriptor show on no other. A client sends a
    -- SUBSCRIBE packet for a topic that exists, is in the table under its own name, and whose list is no
    -- longer than its `len`, with the lock free; the message that the topic retains, if any, is there and
    -- packs into fewer than 2^31 bytes. request_handler, behind recv_packet and unpack_packet, and
    -- reply_handler both return 0; the client's subscription is the first of the topic's list; its
    -- descriptor has got the SUBACK and then, where the topic retains a message, that message as a PUBLISH
    -- packet, and no other descriptor has got anything; the client is listened to again with no reply
    -- pending.
    pub subscribe_lem :
        (tp : ℕ) (t : Topic) (c : Client) (pkt : Subscribe) (bytes extra : List ℕ) (s : State W)
        → cell s.client_blocks p ≡ some c
        → (pkt.topic_len == 0) ≡ false
        → s.lock ≡ false
        → Table.get s.topics (text pkt.topic) ≡ Table.returns (some tp)
        → Table.get s.topics (text t.name) ≡ Table.returns (some tp)
        → cell s.topic_blocks tp ≡ some t
        → length t.subscribers.chain ≤ t.subscribers.len
        → packed alloc
            (ack_pkt Opcode.suback 0 0).header.size
            (pack_ack (ack_pkt Opcode.suback 0 0))
          ≡ some bytes
        → Greets alloc s t.retained extra
        → length extra < 2 ^ 31
        → Subscribed c pkt tp t bytes extra s
    unfolding run_handler matching create_subscription
    subscribe_lem tp t c pkt bytes extra s here named free found again there sized made greets
          extra_small =
        let inside = cell-lt s.client_blocks p c here in
        let t' = record t {
          subscribers = head_insert t.subscribers (create_subscription p t.name pkt.qos);
        } in
        let s1 = record (with_topic s tp t') { armed = (c.fd, epollout) ∷ s.armed } in
        let c1 = record c { last_action_time = net.time s.world } in
        let reply = acking Opcode.suback c.fd bytes (written t.retained) in
        let c2 = record c1 { ptr = subscription pkt; reply = some reply; ctx_handler = replying } in
        let g =
          reply_with_suback net serving calloc alloc p c2 c.fd bytes extra t.retained s1
            (ack-small alloc Opcode.suback 0 0 bytes (omega arith) (omega arith) made) extra_small
            inside (Greets-kept alloc s s1 t.retained extra refl greets) in
        record {
          served = with_client s1 p c2;
          replied =
              record (with_client g.state p
                (record c2 { last_action_time = g.time; reply = none; ctx_handler = requesting })) {
                  armed = (c.fd, epollin) ∷ g.state.armed;
                };
          serves =
              subst
                (λ v.
                  serve net calloc alloc p Opcode.subscribe (subscription pkt) v
                  ≡ returns (nought, with_client s1 p c2))
                (with_client_self s p c here)
                (serve_run net calloc alloc p Opcode.subscribe (subscription pkt) subscribe_handler
                  nought s (with_topic s tp t') c
                  (record c1 { ptr = subscription pkt; reply = some reply }) inside inside refl refl
                  (subscribe-with s p inside calloc alloc tp t c1 pkt bytes named free found again
                    there made));
          replies =
              reply_run net calloc alloc p reply nought s1 g.state
                (record c1 { ptr = subscription pkt; ctx_handler = replying })
                (record c2 { last_action_time = g.time }) inside g.inside g.runs;
          wires = g.wires;
          topics =
              g.topic_blocks
              ∙ ap (λ l. set s.topic_blocks tp (some (record t { subscribers = l })))
                  (head_insert_lem t.subscribers (create_subscription p t.name pkt.qos) sized);
          client = (g.time, cell-set_self g.state.client_blocks p _ g.inside);
          armed = ap (λ a. (c.fd, epollin) ∷ a) g.armed;
        }
