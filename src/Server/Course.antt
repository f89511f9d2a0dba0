-- ===== src/Server/Course.antt =====
-- Every state that the broker comes to from start_server, by the events that its workers handle and the
-- rounds of keepalive, in any order.
use mathlib.Core.Path.{subst}
use sizigy.Base.{
  ℕ, ◌+◌, ◌^◌, ◌<◌, ◌==◌, ◌≡◌, refl, sym, ap, ◌∙◌, arith, Bool, false, Option, none, some, List,
  length, [], ◌∷◌,
}
use sizigy.Buffer.{Allocator, strlen}
use sizigy.Hashmap as Table
use sizigy.Hashmap.Values.{Answers, AllVals-blank, get-vals}
use sizigy.Network.Listen.{Os, Started, given_up, aborted}
use sizigy.Network.Listen as Listen
use sizigy.Buffer.Words.{text}
use sizigy.Packet.{subscribe_pkt, publish_pkt, ack_pkt, unpack_ack, unpack_publish}
use sizigy.Packet.Opcode
use sizigy.Packet.Roundtrip.{unpacked, bind_some, ack_roundtrip}
use sizigy.Packet.Unpack.{IsText, text_of_IsText}
use sizigy.Server.Delivery.{IsServing, Stamped}
use sizigy.Server.Joining.{Subscribed, subscribe_lem}
use sizigy.Server.Events.{EpollEvent, worker_event, worker, initial, start_server}
use sizigy.Server.Keepalive.{keepalive_round}
use sizigy.Server.Remembering.{Remembered, retained_lem}
use sizigy.Server.Turn.{Turn, forward_lem}
use sizigy.Server.Upkeep.Loop.{worker_event-IsSound}
use sizigy.Server.Upkeep.Retain.{IsKept-points}
use sizigy.Server.Upkeep.Rounds.{Rounded, keepalive_round-IsSound}
use sizigy.Sizigy.{Client, Topic, Net, State, Run, returns, cell, undefined, deadlock, out_of_fuel}
use sizigy.Sizigy.Keeps.{Ensures, Keeps, Keeps-pure, Keeps-bind, Keeps-if}
use sizigy.Sizigy.Sound.{PointsTo, IsSound}

module _ {W : Type 0} (net : Net W) (os : Os W) (calloc : ℕ → Bool) (alloc : Allocator) (run : ℕ)
    (address : ℕ → ℕ) where
  pub data Course : State W → Type 0 where
    starts :
        (addr port : List ℕ) (node_fd : ℕ) (w : W) {s : State W}
        → start_server os addr port node_fd w ≡ Listen.returns s
        → Course s
    handles :
        (s : State W) (fuel : ℕ) (ev : EpollEvent) (more : Bool) {s' : State W}
        → Course s
        → worker_event run address net os calloc alloc fuel ev s ≡ returns (more, s')
        → Course s'
    rounds :
        (s : State W) (status : Table.Status) {s' : State W}
        → Course s
        → keepalive_round net s ≡ (status, returns s')
        → Course s'

  initial-IsSound : (fd bfd node_fd bport : ℕ) (w : W) → IsSound (initial fd bfd node_fd bport w)
  unfolding initial Table.create cell
  initial-IsSound fd bfd node_fd bport w = record {
    lock = refl;
    points = AllVals-blank (PointsTo {A = Topic} []) tt 256;
    topics = λ p t e. absurd (cc);
    apart = λ p q m t u a b. absurd (cc);
  }

  -- What start_server makes of a state.
  abbrev Starts : Started (State W) → Type 0
  Starts (Listen.returns s) = IsSound s
  Starts given_up = Unit {0}
  Starts aborted = Unit {0}

  Starts-option :
      (o : Option ℕ) (k : ℕ → Started (State W))
      → ((a : ℕ) → Starts (k a))
      → Starts (elim o as (λ x. Started (State W)) [ none ↦ given_up | some a ↦ k a ])
  Starts-option none k h = tt
  Starts-option (some a) k h = h a

  Starts-listening :
      (r : Started (ℕ × W)) (k : ℕ → W → Started (State W))
      → ((fd : ℕ) (w : W) → Starts (k fd w))
      → Starts (elim r as (λ x. Started (State W)) [
        | given_up ↦ given_up
        | aborted ↦ aborted
        | Listen.returns (fd, w) ↦ k fd w
      ])
  Starts-listening (Listen.returns (fd, w)) k h = h fd w
  Starts-listening given_up k h = tt
  Starts-listening aborted k h = tt

  start_server-IsSound :
      (addr port : List ℕ) (node_fd : ℕ) (w : W) → Starts (start_server os addr port node_fd w)
  unfolding start_server
  start_server-IsSound addr port node_fd w = Starts-option (os.epoll_create w).0 _ (λ efd.
      Starts-option (os.epoll_create (os.epoll_create w).1).0 _ (λ befd.
        Starts-listening (Listen.make_listen os addr port (os.epoll_create (os.epoll_create w).1).1)
          _
          (λ fd w3.
            Starts-listening (Listen.make_listen os addr (os.decimal (os.atoi port + 10000)) w3) _
              (λ bfd w4. initial-IsSound fd bfd node_fd (os.atoi port + 10000) w4))))

  -- In every state that the broker comes to from start_server, by the events that its workers handle and
  -- rounds of keepalive, in any order and whatever bytes come in: the lock of the database is free, every
  -- value of the table of topics points to a topic that is there, the subscribers of every topic are
  -- clients that are there and as many as the list says, the message that a topic retains is there, and
  -- no two topics retain the same message.
  pub Course-IsSound : (s : State W) → Course s → IsSound s
  Course-IsSound s (starts addr port node_fd w e) =
      subst Starts e (start_server-IsSound addr port node_fd w)
  Course-IsSound s (handles s0 fuel ev more c e) =
      subst (Ensures IsSound) e
        ((worker_event-IsSound net os calloc alloc fuel run address ev).at s0 (Course-IsSound s0 c))
  Course-IsSound s (rounds s0 status c e) =
      subst (Rounded IsSound) (ap (λ r. r.1) e)
        (keepalive_round-IsSound net s0 (Course-IsSound s0 c))

  handled :
      (fuel : ℕ) (ev : EpollEvent) (s : State W) (r : Run (Bool × State W))
      → Course s
      → worker_event run address net os calloc alloc fuel ev s ≡ r
      → Ensures Course r
  handled fuel ev s (returns (more, s')) course e = handles s fuel ev more course e
  handled fuel ev s undefined course e = tt
  handled fuel ev s deadlock course e = tt
  handled fuel ev s out_of_fuel course e = tt

  -- A worker that handles the events it is given, one after the other, leaves the broker in such a state.
  worker-Course :
      (fuel : ℕ) (evs : List EpollEvent)
      → Keeps Course (worker run address net os calloc alloc fuel evs)
  unfolding worker
  worker-Course fuel [] = Keeps-pure tt
  worker-Course fuel (ev ∷ evs) =
      Keeps-bind (worker_event run address net os calloc alloc fuel ev) _
        (record {
          at = λ s course.
              handled fuel ev s (worker_event run address net os calloc alloc fuel ev s) course
                refl;
        })
        (λ more. Keeps-if more _ _ (worker-Course fuel evs) (Keeps-pure tt))

  -- The topic that the table has under a name is there.
  found_topic :
      (s : State W) (name : List ℕ) (tp : ℕ)
      → IsSound s
      → Table.get s.topics name ≡ Table.returns (some tp)
      → (t : Topic) × (cell s.topic_blocks tp ≡ some t)
  found_topic s name tp h found =
      subst (Answers (PointsTo s.topic_blocks)) found
        (get-vals (PointsTo s.topic_blocks) tt s.topics name h.points)

  -- In every state that the broker comes to from start_server, over sockets that take what they are sent:
  -- a client publishes a packet that no one need retain, of a topic that the table has; its strings are
  -- texts, the topic is not empty and shorter than 2^16 bytes, and the packet is shorter than 2^31 bytes and
  -- its `qos` and `dup` fit a byte. The topic is there;
  -- request_handler, behind recv_packet and unpack_packet, and reply_handler both return 0; each descriptor
  -- has got the packet once for each subscription of its client and the sender a PUBACK if the quality of
  -- service is 1; and a subscriber that unpacks its bytes has the packet that was published.
  pub Course-forwards :
      (serving : IsServing net) (s : State W) (p tp : ℕ) (c : Client) (topic message : List ℕ)
      (qos dup : ℕ)
      → Course s
      → cell s.client_blocks p ≡ some c
      → Table.get s.topics topic ≡ Table.returns (some tp)
      → IsText topic
      → IsText message
      → 0 < length topic
      → length topic < 2 ^ 16
      → length topic + length message + 16 < 2 ^ 31
      → qos < 2 ^ 8
      → dup < 2 ^ 8
      → let pkt = publish_pkt topic message qos 0 dup in
        (t : Topic) × ((bytes : List ℕ) × ((ack : List ℕ) × ((unpacked unpack_publish bytes
                ≡ some pkt)
              × (unpacked unpack_ack ack ≡ some (ack_pkt Opcode.puback 0 0))
              × Turn net calloc alloc p c pkt bytes ack t s
              × (cell s.topic_blocks tp ≡ some t))))
  Course-forwards serving s p tp c topic message qos dup course here found topic_text message_text
        named short total hq hd =
      let sound = Course-IsSound s course in
      let (t, there) = found_topic s topic tp sound found in
      let (bytes, (ack, (reads, acks, turn))) =
        forward_lem net calloc alloc p serving tp c t topic message qos dup s here found there
          (sound.topics tp t there).live topic_text message_text named short total hq hd in
      (t, (bytes, (ack, (reads, acks, turn, there))))

  -- A client that subscribes to the topic where publish_message has left the broker: what
  -- subscribe_lem says of it, with the message that was published behind the SUBACK.
  pub record Greeting (serving : IsServing net) (tp p sub_qos : ℕ) (t : Topic) (c : Client)
      (topic message : List ℕ) (qos retain dup : ℕ) (sender : List ℕ) (s : State W) : Type 0 where
    pub published : Remembered net alloc tp t topic message qos retain dup sender s
    pub subscriber : Client
    pub same_fd : subscriber.fd ≡ c.fd
    pub ack : List ℕ
    pub reads_ack : unpacked unpack_ack ack ≡ some (ack_pkt Opcode.suback 0 0)
    pub subscribed :
        Subscribed net serving calloc alloc p subscriber
          (subscribe_pkt topic sub_qos)
          tp
          (record t { retained = some published.place })
          ack
          published.extra
          published.state

  -- In every state that the broker comes to from start_server, over sockets that take what they are sent:
  -- publish_message with a packet that is to be retained, on a topic that the table has under its name (its
  -- strings are texts, the topic is not empty and shorter than 2^16 bytes, the packet is shorter than 2^31
  -- bytes and its `qos`, `retain` and `dup` fit a byte), returns, and the subscribers get the packet. Then a
  -- client sends a SUBSCRIBE packet for the topic: request_handler, behind recv_packet and unpack_packet,
  -- and reply_handler both return 0, and its descriptor gets a SUBACK and behind it bytes that unpack to a
  -- PUBLISH packet with the topic, the message and the quality of service that were published, and no
  -- other descriptor gets anything.
  pub Course-retains :
      (serving : IsServing net) (s : State W) (tp p sub_qos : ℕ) (t : Topic) (c : Client)
      (topic message : List ℕ) (qos retain dup : ℕ) (sender : List ℕ)
      → Course s
      → Table.get s.topics topic ≡ Table.returns (some tp)
      → cell s.topic_blocks tp ≡ some t
      → t.name ≡ topic
      → cell s.client_blocks p ≡ some c
      → (retain == 0) ≡ false
      → IsText topic
      → IsText message
      → 0 < length topic
      → length topic < 2 ^ 16
      → length topic + length message + 16 < 2 ^ 31
      → qos < 2 ^ 8
      → retain < 2 ^ 8
      → dup < 2 ^ 8
      → Greeting serving tp p sub_qos t c topic message qos retain dup sender s
  unfolding subscribe_pkt strlen
  Course-retains serving s tp p sub_qos t c topic message qos retain dup sender course found there
        name here retains topic_text message_text named short total hq hr hd =
      let sound = Course-IsSound s course in
      let topic_sound = sound.topics tp t there in
      let r =
        retained_lem net alloc serving tp t t.retained topic message qos retain dup sender s there
          (IsKept-points s t.retained topic_sound.kept) topic_sound.live retains topic_text
          message_text short total hq hr hd in
      let (time, now) = subst (λ o. Stamped o (cell r.state.client_blocks p)) here (r.clients p) in
      let (ack, ack_made, ack_reads) =
        bind_some _ _ _
          (ack_roundtrip alloc Opcode.suback 0 0 (omega arith) (omega arith) (omega arith)) in
      let found' : Table.get r.state.topics topic ≡ Table.returns (some tp) =
        ap (λ m. Table.get m topic) r.topics ∙ found in
      let same_text = sym (text_of_IsText topic topic_text) in
      record {
        published = r;
        subscriber = record c { last_action_time = time };
        same_fd = refl;
        ack = ack;
        reads_ack = ack_reads;
        subscribed =
            subscribe_lem net serving calloc alloc p tp (record t { retained = some r.place })
              (record c { last_action_time = time }) (subscribe_pkt topic sub_qos) ack r.extra
              r.state now (ground arith) (r.lock ∙ sound.lock)
              (subst (λ k. Table.get r.state.topics k ≡ Table.returns (some tp)) same_text found')
              (subst (λ k. Table.get r.state.topics (text k) ≡ Table.returns (some tp)) (sym name)
                (subst (λ k. Table.get r.state.topics k ≡ Table.returns (some tp)) same_text
                  found'))
              r.topic_kept (omega (arith, topic_sound.counted)) ack_made r.greets r.extra_small;
      }
