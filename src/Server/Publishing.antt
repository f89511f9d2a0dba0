-- ===== src/Server/Publishing.antt =====
-- reply_handler on the reply that publish_handler makes: the packet goes to the subscribers.
use mathlib.Core.Path.{subst}
use sizigy.Base.{
  ℕ, ◌^◌, ◌==◌, ◌≡◌, ◌<◌, sym, ap, ◌∙◌, Bool, true, some, List, [], ◌++◌, if◌then◌else◌, length,
  append_assoc, append-nil, Bool-cases, inl, inr,
}
use sizigy.Buffer.{Allocator}
use sizigy.Buffer.Words.{text}
use sizigy.Hashmap as Table
use sizigy.Network.Willing.{sendall_willing}
use sizigy.Packet.{Publish, ack_pkt, pack_ack, pack_publish}
use sizigy.Packet.Opcode
use sizigy.Packet.Roundtrip.{packed}
use sizigy.Ring.{ok}
use sizigy.Server.Delivery.{
  fd_at, due, AllLive, IsServing, Delivered, Stamped, deliver_lem, wire-send,
}
use sizigy.Server.Handlers.{nought, topic_of}
use sizigy.Server.Reply.{deliver, send_to, publish_message}
use sizigy.Server.Steps.{acknowledge, reply_publish}
use sizigy.Sizigy as Broker
use sizigy.Sizigy.{
  unwritten, Client, Reply, Subscription, Topic, Net, State, Run, returns, M, ◌>>=◌, ◌>>◌, cell,
}
use sizigy.Sizigy.Runs.{load_client_lem, load_topic_lem, update_client_last_action_lem}
use sizigy.Sizigy.Clients.{with_client, cell-lt}

-- The reply that publish_handler makes.
abbrev pub publishing : ℕ → Publish → Reply
publishing fd pkt = record {
  opcode = Opcode.publish;
  fd = fd;
  payload = Broker.publication pkt;
  retained = unwritten;
}

module _ {W : Type 0} (s : State W) (calloc : ℕ → Bool) where
  -- The topic of that name, where the table has it.
  pub topic_of-found :
      (name : List ℕ) (tp : ℕ)
      → Table.get s.topics (text name) ≡ Table.returns (some tp)
      → topic_of calloc name s ≡ returns (tp, s)
  unfolding topic_of
  topic_of-found name tp e = rw (topic_of, ◌>>=◌, e)

module _ {W : Type 0} (net : Net W) (serving : IsServing net) where
  pub send_to_willing :
      (fd : ℕ) (bytes : List ℕ) (small : length bytes < 2 ^ 31) (s : State W)
      → let sends = sendall_willing (net.socket fd) bytes s.world (serving.willing fd) small in
        send_to net fd bytes s ≡ returns ((ok, length bytes), record s { world = sends.world })
  unfolding send_to
  send_to_willing fd bytes small s =
      let sends = sendall_willing (net.socket fd) bytes s.world (serving.willing fd) small in
      rw (send_to, sends.returns)

  module _ (alloc : Allocator) where
    publish_message_lem :
        (tp : ℕ) (t : Topic) (pkt : Publish) (sender bytes : List ℕ) (small : length bytes < 2 ^ 31)
        (s : State W)
        → (pkt.retain == 0) ≡ true
        → packed alloc pkt.header.size (pack_publish pkt) ≡ some bytes
        → cell s.topic_blocks tp ≡ some t
        → AllLive (fd_at s.client_blocks) t.subscribers.chain
        → Delivered net serving bytes small
            (publish_message net alloc tp pkt sender s)
            t.subscribers.chain
            0
            s
    unfolding publish_message
    publish_message_lem tp t pkt sender bytes small s plain made here live =
        let run : publish_message net alloc tp pkt sender s
            ≡ deliver net bytes t.subscribers.chain 0 s =
          rw (publish_message, ◌>>=◌, made, plain, ◌>>=◌, load_topic_lem s tp t here) in
        subst (λ r. Delivered net serving bytes small r t.subscribers.chain 0 s) (sym run)
          (deliver_lem net serving bytes small t.subscribers.chain 0 s live)

    -- What a descriptor gets as the sender's acknowledgement.
    abbrev pub acked : ℕ → ℕ → ℕ → List ℕ → List ℕ
    acked qos sender fd ack = if qos == 1 then (if sender == fd then ack else []) else []

    record Acknowledged (qos sender : ℕ) (ack : List ℕ) (s : State W) : Type 0 where
      world : W
      runs : acknowledge net alloc qos sender s ≡ returns (nought, record s { world = world })
      wires :
          (fd : ℕ)
          → (net.socket fd).sent world ≡ (net.socket fd).sent s.world ++ acked qos sender fd ack

    acknowledge_lem :
        (qos sender : ℕ) (ack : List ℕ) (small : length ack < 2 ^ 31) (s : State W)
        → packed alloc
            (ack_pkt Opcode.puback 0 0).header.size
            (pack_ack (ack_pkt Opcode.puback 0 0))
          ≡ some ack
        → Acknowledged qos sender ack s
    unfolding acknowledge
    acknowledge_lem qos sender ack small s made = elim (Bool-cases (qos == 1)) [
      | inl asks ↦
          let sends =
            sendall_willing (net.socket sender) ack s.world (serving.willing sender) small in
          record {
            world = sends.world;
            runs = rw (acknowledge, asks, ◌>>=◌, made, ◌>>=◌, send_to_willing sender ack small s);
            wires = λ fd. rw asks (wire-send net serving ack small sender fd s.world);
          }
      | inr silent ↦ record {
        world = s.world;
        runs = rw (acknowledge, silent);
        wires = λ fd. rw silent (sym (append-nil ((net.socket fd).sent s.world)));
      }
    ]

    -- A run of reply_publish for the client `c` at `p`.
    pub record Published (calloc : ℕ → Bool) (p : ℕ) (c : Client) (reply : Reply) (qos : ℕ)
        (bytes ack : List ℕ) (subs : List Subscription) (s : State W) : Type 0 where
      pub state : State W
      pub time : ℕ
      pub inside : p < length state.client_blocks
      pub runs :
          reply_publish net calloc alloc p reply s
          ≡ returns (nought, with_client state p (record c { last_action_time = time }))
      pub wires :
          (fd : ℕ)
          → (net.socket fd).sent state.world
            ≡ (net.socket fd).sent s.world
              ++ (due (fd_at s.client_blocks) fd bytes subs ++ acked qos reply.fd fd ack)
      pub armed : state.armed ≡ s.armed

    pub reply_publish_lem :
        (calloc : ℕ → Bool) (p tp : ℕ) (c : Client) (t : Topic) (fd : ℕ) (pkt : Publish)
        (bytes ack : List ℕ) (small : length bytes < 2 ^ 31) (ack_small : length ack < 2 ^ 31)
        (s : State W)
        → cell s.client_blocks p ≡ some c
        → (pkt.retain == 0) ≡ true
        → Table.get s.topics (text pkt.topic) ≡ Table.returns (some tp)
        → cell s.topic_blocks tp ≡ some t
        → AllLive (fd_at s.client_blocks) t.subscribers.chain
        → packed alloc pkt.header.size (pack_publish pkt) ≡ some bytes
        → packed alloc
            (ack_pkt Opcode.puback 0 0).header.size
            (pack_ack (ack_pkt Opcode.puback 0 0))
          ≡ some ack
        → Published calloc p c (publishing fd pkt) pkt.qos bytes ack t.subscribers.chain s
    unfolding reply_publish
    reply_publish_lem calloc p tp c t sender pkt bytes ack small ack_small s here plain found there
          live made ack_made =
        let d = publish_message_lem tp t pkt c.id bytes small s plain made there live in
        let (before, kept) =
          subst (λ o. Stamped o (cell d.state.client_blocks p)) here (d.clients p) in
        let c1 = record c { last_action_time = before } in
        let now = net.time d.state.world in
        let a =
          acknowledge_lem pkt.qos sender ack ack_small
            (with_client d.state p (record c { last_action_time = now })) ack_made in
        record {
          state = record d.state { world = a.world };
          time = now;
          inside = cell-lt d.state.client_blocks p c1 kept;
          runs = rw (
            reply_publish,
            ◌>>=◌,
            topic_of-found s calloc pkt.topic tp found,
            ◌>>=◌,
            load_client_lem s p c here,
            ◌>>=◌,
            d.runs,
            ◌>>◌,
            update_client_last_action_lem d.state p net c1 kept,
            a.runs,
          );
          wires = λ fd.
              a.wires fd
              ∙ ap (λ w. w ++ acked pkt.qos sender fd ack) (d.wires fd)
              ∙ append_assoc ((net.socket fd).sent s.world)
                  (due (fd_at s.client_blocks) fd bytes t.subscribers.chain)
                  (acked pkt.qos sender fd ack);
          armed = d.armed;
        }
