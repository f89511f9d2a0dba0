-- ===== src/Server/Turn.antt =====
-- A whole turn of a client that publishes: request_handler takes the packet, and reply_handler hands it
-- to the subscribers.
use mathlib.Core.Path.{subst}
use sizigy.Base.{
  ℕ, ◌+◌, ◌%◌, ◌^◌, ◌==◌, ◌≡◌, ◌<◌, refl, sym, ap, ◌∙◌, Bool, true, false, none, some, List, [],
  ◌∷◌, ◌++◌, if◌then◌else◌, length, arith,
}
use sizigy.Buffer.{Allocator, strlen}
use sizigy.Buffer.Words.{text}
use sizigy.Hashmap as Table
use sizigy.Packet.{
  Publish, publish_pkt, ack_pkt, pack_ack, pack_publish, unpack_ack, unpack_publish,
}
use sizigy.Packet.Opcode
use sizigy.Packet.Unpack.{IsText, text_of_IsText}
use sizigy.Packet.Roundtrip.{packed, unpacked, bind_some, publish_sent, ack-small, ack_roundtrip}
use sizigy.Server.Cycle.{serve_run, reply_run}
use sizigy.Server.Delivery.{fd_at, fd_at-set, due, due_congr, AllLive, AllLive-congr, IsServing}
use sizigy.Server.Dispatch.{publication, publish_handler, matching}
use sizigy.Server.Handlers.{nought, one, publish}
use sizigy.Server.Publishing.{publishing, reply_publish_lem}
use sizigy.Server.Steps.{run_handler, serve, reply_with, reply_handler}
use sizigy.Sizigy as Broker
use sizigy.Sizigy.{
  requesting, replying, epollin, epollout, Client, Reply, Topic, Net, State, Run, returns, ◌>>=◌,
  ◌>>◌, cell,
}
use sizigy.Sizigy.Clients.{
  with_client, with_client_self, cell-set_self, cell-lt, load-with, set_reply-with,
}

module _ {W : Type 0} (s : State W) (p : ℕ) (inside : p < length s.client_blocks) where
  -- publish_handler keeps the packet for the reply.
  pub publish-with :
      (c : Client) (pkt : Publish)
      → (pkt.topic_len == 0) ≡ false
      → publish p (with_client s p (record c { ptr = publication pkt }))
        ≡ returns (
          one,
          with_client s p (record c { ptr = publication pkt; reply = some (publishing c.fd pkt) }),
        )
  unfolding publish
  publish-with c pkt named =
      let c1 = record c { ptr = publication pkt } in
      rw (
        publish,
        ◌>>=◌,
        load-with s p inside c1,
        named,
        ◌>>◌,
        set_reply-with s p inside c1 Opcode.publish (Broker.publication pkt),
      )

module _ {W : Type 0} (net : Net W) (calloc : ℕ → Bool) (alloc : Allocator) (p : ℕ) where
  -- The client `c` has published `pkt`: it is listened to again, and each descriptor has got the packet
  -- once for each of its subscriptions, and the sender an acknowledgement where it asked for one.
  pub record Turn (c : Client) (pkt : Publish) (bytes ack : List ℕ) (t : Topic) (s : State W)
      : Type 0 where
    pub served : State W
    pub replied : State W
    pub serves :
        serve net calloc alloc p Opcode.publish (publication pkt) s ≡ returns (nought, served)
    pub replies : reply_handler net calloc alloc p served ≡ returns (nought, replied)
    pub wires :
        (fd : ℕ)
        → (net.socket fd).sent replied.world
          ≡ (net.socket fd).sent s.world
            ++ (due (fd_at s.client_blocks) fd bytes t.subscribers.chain
                ++ (if pkt.qos == 1 then (if c.fd == fd then ack else []) else []))
    pub client :
        (time : ℕ) × (cell replied.client_blocks p
          ≡ some (record c {
            ctx_handler = requesting;
            reply = none;
            ptr = publication pkt;
            last_action_time = time;
          }))
    pub armed : replied.armed ≡ (c.fd, epollin) ∷ (c.fd, epollout) ∷ s.armed

  turn_lem :
      (serving : IsServing net) (tp : ℕ) (c : Client) (t : Topic) (pkt : Publish)
      (bytes ack : List ℕ) (small : length bytes < 2 ^ 31) (ack_small : length ack < 2 ^ 31)
      (s : State W)
      → cell s.client_blocks p ≡ some c
      → (pkt.topic_len == 0) ≡ false
      → (pkt.retain == 0) ≡ true
      → Table.get s.topics (text pkt.topic) ≡ Table.returns (some tp)
      → cell s.topic_blocks tp ≡ some t
      → AllLive (fd_at s.client_blocks) t.subscribers.chain
      → packed alloc pkt.header.size (pack_publish pkt) ≡ some bytes
      → packed alloc (ack_pkt Opcode.puback 0 0).header.size (pack_ack (ack_pkt Opcode.puback 0 0))
        ≡ some ack
      → Turn c pkt bytes ack t s
  unfolding run_handler matching reply_with
  turn_lem serving tp c t pkt bytes ack small ack_small s here named plain found there live made
        ack_made =
      let inside = cell-lt s.client_blocks p c here in
      let c1 = record c { last_action_time = net.time s.world; ptr = publication pkt } in
      let c2 = record c1 { reply = some (publishing c.fd pkt); ctx_handler = replying } in
      let s1 = record s { armed = (c.fd, epollout) ∷ s.armed } in
      let same = λ (q : ℕ). fd_at-set s.client_blocks p c c2 q here refl in
      let r =
        reply_publish_lem net serving alloc calloc p tp c2 t c.fd pkt bytes ack small ack_small
          (with_client s1 p c2) (cell-set_self s.client_blocks p c2 inside) plain found there
          (AllLive-congr net serving bytes small (fd_at (with_client s1 p c2).client_blocks)
            (fd_at s.client_blocks) t.subscribers.chain same live)
          made ack_made in
      record {
        served = with_client s1 p c2;
        replied =
            record (with_client r.state p
              (record c2 { last_action_time = r.time; reply = none; ctx_handler = requesting })) {
                armed = (c.fd, epollin) ∷ r.state.armed;
              };
        serves =
            subst
              (λ v.
                serve net calloc alloc p Opcode.publish (publication pkt) v
                ≡ returns (nought, with_client s1 p c2))
              (with_client_self s p c here)
              (serve_run net calloc alloc p Opcode.publish (publication pkt) publish_handler one s s
                c (record c1 { reply = some (publishing c.fd pkt) }) inside inside refl refl
                (publish-with s p inside (record c { last_action_time = net.time s.world }) pkt
                  named));
        replies =
            reply_run net calloc alloc p (publishing c.fd pkt) nought s1 r.state
              (record c1 { ctx_handler = replying }) (record c2 { last_action_time = r.time })
              inside r.inside r.runs;
        wires = λ fd.
            r.wires fd
            ∙ ap
                (λ d.
                  (net.socket fd).sent s.world
                  ++ (d ++ (if pkt.qos == 1 then (if c.fd == fd then ack else []) else [])))
                (due_congr net serving bytes small (fd_at (with_client s1 p c2).client_blocks)
                  (fd_at s.client_blocks) fd t.subscribers.chain same);
        client = (r.time, cell-set_self r.state.client_blocks p _ r.inside);
        armed = ap (λ a. (c.fd, epollin) ∷ a) r.armed;
      }

  -- A client of the broker publishes a packet that no one need retain, to a topic that exists and whose
  -- subscribers are there, over sockets that take what they are sent. Then request_handler and
  -- reply_handler both return 0; the client is listened to again with no reply pending; each descriptor has
  -- got the packet once for each subscription of its client and the sender a PUBACK if the quality of
  -- service is 1, and nothing else; and a subscriber that unpacks its bytes has the packet that was
  -- published.
  pub forward_lem :
      (serving : IsServing net) (tp : ℕ) (c : Client) (t : Topic) (topic message : List ℕ)
      (qos dup : ℕ) (s : State W)
      → cell s.client_blocks p ≡ some c
      → Table.get s.topics topic ≡ Table.returns (some tp)
      → cell s.topic_blocks tp ≡ some t
      → AllLive (fd_at s.client_blocks) t.subscribers.chain
      → IsText topic
      → IsText message
      → 0 < length topic
      → length topic < 2 ^ 16
      → length topic + length message + 16 < 2 ^ 31
      → qos < 2 ^ 8
      → dup < 2 ^ 8
      → let pkt = publish_pkt topic message qos 0 dup in
        (bytes : List ℕ) × ((ack : List ℕ) × ((unpacked unpack_publish bytes ≡ some pkt)
            × (unpacked unpack_ack ack ≡ some (ack_pkt Opcode.puback 0 0))
            × Turn c pkt bytes ack t s))
  unfolding publish_pkt
  forward_lem serving tp c t topic message qos dup s here found there live topic_text message_text
        named short total hq hd =
      let named_by : (strlen topic % 2 ^ 16 == 0) ≡ false = ground arith in
      let zero_fits : 0 < 2 ^ 8 = omega arith in
      let id_fits : 0 < 2 ^ 16 = omega arith in
      let puback_fits : Opcode.puback < 2 ^ 8 = omega arith in
      let (bytes, made, reads, small) =
        publish_sent alloc topic message qos 0 dup topic_text message_text short total hq zero_fits
          hd in
      let (ack, ack_made, ack_reads) =
        bind_some _ _ _ (ack_roundtrip alloc Opcode.puback 0 0 puback_fits id_fits zero_fits) in
      (
        bytes,
        (
          ack,
          (
            reads,
            ack_reads,
            turn_lem serving tp c t (publish_pkt topic message qos 0 dup) bytes ack small
                (ack-small alloc Opcode.puback 0 0 ack puback_fits zero_fits ack_made) s here
                named_by refl
                (subst (λ k. Table.get s.topics k ≡ Table.returns (some tp))
                  (sym (text_of_IsText topic topic_text)) found)
                there live made ack_made,
          ),
        ),
      )
