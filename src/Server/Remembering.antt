-- ===== src/Server/Remembering.antt =====
-- publish_message with a message that is to be retained.
use mathlib.Core.Path.{subst}
use sizigy.Base.{
  ℕ, ◌+◌, ◌*◌, ◌^◌, ◌==◌, ◌≡◌, ◌<◌, sym, ap, ◌∙◌, false, Option, some, List, ◌++◌, length, arith,
}
use sizigy.Buffer.{Allocator}
use sizigy.Buffer.Words.{text}
use sizigy.Packet.{publish_pkt, pack_publish, unpack_publish}
use sizigy.Packet.Roundtrip.{packed, unpacked, publish_sent}
use sizigy.Packet.Unpack.{IsText, text_of_IsText}
use sizigy.Server.Delivery.{fd_at, due, AllLive, IsServing, Stamped, deliver_lem}
use sizigy.Server.Greeting.{Greets}
use sizigy.Server.Reply.{publish_message}
use sizigy.Server.Retaining.{IsKept, kept_message, retain_message_lem}
use sizigy.Sizigy.{Topic, Net, State, returns, ◌>>=◌, ◌>>◌, cell}
use sizigy.Sizigy.Runs.{load_topic_lem}

module _ {W : Type 0} (net : Net W) (alloc : Allocator) where
  -- A run of publish_message with a message that the topic `t` at `tp` is to retain.
  pub record Remembered (tp : ℕ) (t : Topic) (topic message : List ℕ) (qos retain dup : ℕ)
      (sender : List ℕ) (s : State W) : Type 0 where
    pub state : State W
    pub place : ℕ
    pub bytes : List ℕ
    pub extra : List ℕ
    pub runs :
        publish_message net alloc tp (publish_pkt topic message qos retain dup) sender s
        ≡ returns (length t.subscribers.chain * length bytes, state)
    pub wires :
        (fd : ℕ)
        → (net.socket fd).sent state.world
          ≡ (net.socket fd).sent s.world ++ due (fd_at s.client_blocks) fd bytes t.subscribers.chain
    pub topic_kept : cell state.topic_blocks tp ≡ some (record t { retained = some place })
    pub greets : Greets alloc state (some place) extra
    pub extra_small : length extra < 2 ^ 31
    pub lock : state.lock ≡ s.lock
    pub topics : state.topics ≡ s.topics
    pub clients : (q : ℕ) → Stamped (cell s.client_blocks q) (cell state.client_blocks q)
    pub reads_bytes :
        unpacked unpack_publish bytes ≡ some (publish_pkt topic message qos retain dup)
    pub reads_extra : unpacked unpack_publish extra ≡ some (publish_pkt topic message qos 1 0)

  -- publish_message with a packet that is to be retained, on a topic whose old retained message, if any,
  -- is there. The subscribers get the packet; the topic then retains a message, and packed with `retain` 1
  -- it unpacks to the topic, the message and the quality of service that were published.
  pub retained_lem :
      (serving : IsServing net) (tp : ℕ) (t : Topic) (old : Option ℕ) (topic message : List ℕ)
      (qos retain dup : ℕ) (sender : List ℕ) (s : State W)
      → cell s.topic_blocks tp ≡ some (record t { retained = old })
      → IsKept s old
      → AllLive (fd_at s.client_blocks) t.subscribers.chain
      → (retain == 0) ≡ false
      → IsText topic
      → IsText message
      → length topic < 2 ^ 16
      → length topic + length message + 16 < 2 ^ 31
      → qos < 2 ^ 8
      → retain < 2 ^ 8
      → dup < 2 ^ 8
      → Remembered tp t topic message qos retain dup sender s
  unfolding publish_message publish_pkt
  retained_lem serving tp t old topic message qos retain dup sender s there kept live retains
        topic_text message_text short total hq hr hd =
      let pkt = publish_pkt topic message qos retain dup in
      let one_fits : 1 < 2 ^ 8 = omega arith in
      let zero_fits : 0 < 2 ^ 8 = omega arith in
      let (bytes, made, reads, small) =
        publish_sent alloc topic message qos retain dup topic_text message_text short total hq hr
          hd in
      let (extra, extra_made, extra_reads, extra_small) =
        publish_sent alloc topic message qos 1 0 topic_text message_text short total hq one_fits
          zero_fits in
      let k = retain_message_lem net tp pkt sender s t old there kept in
      let d =
        deliver_lem net serving bytes small t.subscribers.chain 0 k.state
          (subst (λ b. AllLive (fd_at b) t.subscribers.chain) (sym k.clients) live) in
      record {
        state = d.state;
        place = k.place;
        bytes = bytes;
        extra = extra;
        runs =
            rw
              (
                publish_message,
                ◌>>=◌,
                made,
                retains,
                ◌>>◌,
                k.runs,
                ◌>>=◌,
                load_topic_lem k.state tp _ k.topic,
                d.runs,
              )
              (ap (λ n. returns (n, d.state)) (omega arith));
        wires = λ fd.
            subst
              (λ v.
                (net.socket fd).sent d.state.world
                ≡ (net.socket fd).sent v
                  ++ due (fd_at s.client_blocks) fd bytes t.subscribers.chain)
              k.world
              (subst
                (λ b.
                  (net.socket fd).sent d.state.world
                  ≡ (net.socket fd).sent k.state.world
                    ++ due (fd_at b) fd bytes t.subscribers.chain)
                k.clients (d.wires fd));
        topic_kept = ap (λ b. cell b tp) d.topic_blocks ∙ k.topic;
        greets = (
          kept_message net pkt sender s.world,
          ap (λ b. cell b k.place) d.message_blocks ∙ k.message,
          subst
              (λ m.
                packed alloc (publish_pkt (text topic) m qos 1 0).header.size
                  (pack_publish (publish_pkt (text topic) m qos 1 0))
                ≡ some extra)
              (sym (text_of_IsText message message_text))
              (subst
                (λ n.
                  packed alloc (publish_pkt n message qos 1 0).header.size
                    (pack_publish (publish_pkt n message qos 1 0))
                  ≡ some extra)
                (sym (text_of_IsText topic topic_text)) extra_made),
        );
        extra_small = extra_small;
        lock = d.lock ∙ k.lock;
        topics = d.topics ∙ k.topics;
        clients = λ q.
            subst (λ b. Stamped (cell b q) (cell d.state.client_blocks q)) k.clients (d.clients q);
        reads_bytes = reads;
        reads_extra = extra_reads;
      }
