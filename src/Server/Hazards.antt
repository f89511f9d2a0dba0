-- ===== src/Server/Hazards.antt =====
-- Replies that read what nobody has written, or what is freed.
use mathlib.Core.Path.{subst}
use sizigy.Base.{
  ◌^◌, ℕ, ◌*◌, ◌==◌, ◌≡◌, ◌<◌, refl, sym, ap, ◌∙◌, Bool, true, false, none, some, List, ◌∷◌, length,
  arith,
}
use sizigy.Buffer.{Allocator}
use sizigy.Packet.{Publish, Subscribe, ack_pkt, pack_ack, pack_publish}
use sizigy.Packet.Opcode
use sizigy.Packet.Roundtrip.{packed}
use sizigy.Server.Cycle.{serve_run}
use sizigy.Server.Delivery.{fd_at, AllLive, IsServing, Stamped, deliver_lem}
use sizigy.Server.Dispatch.{subscription, subscribe_handler, matching}
use sizigy.Server.Greeting.{after_send, reply_block_lem}
use sizigy.Server.Handlers.{nought, subscribe}
use sizigy.Server.Reply.{publish_message}
use sizigy.Server.Retaining.{retain_message_lem}
use sizigy.Server.Steps.{run_handler, serve, reply_with, reply_retained, reply_handler}
use sizigy.Server.Subscribing.{acking, set_ack_reply-with}
use sizigy.Sizigy.{
  replying, epollout, unwritten, written, Client, Message, Topic, Net, State, returns, undefined,
  ◌>>=◌, ◌>>◌, cell,
}
use sizigy.Sizigy.Runs.{load_client_lem, load_topic_lem, load_message-freed}
use sizigy.Sizigy.Clients.{with_client, with_client_self, cell-lt, load-with}

subscribe-unnamed :
    {W : Type 0} (s : State W) (p : ℕ)
    → p < length s.client_blocks
    → (calloc : ℕ → Bool) (alloc : Allocator) (c : Client) (pkt : Subscribe) (bytes : List ℕ)
    → (pkt.topic_len == 0) ≡ true
    → packed alloc (ack_pkt Opcode.suback 0 1).header.size (pack_ack (ack_pkt Opcode.suback 0 1))
      ≡ some bytes
    → subscribe calloc alloc p (with_client s p (record c { ptr = subscription pkt }))
      ≡ returns (
        nought,
        with_client s p (record c {
          ptr = subscription pkt;
          reply = some (acking Opcode.suback c.fd bytes unwritten);
        }),
      )
unfolding subscribe
subscribe-unnamed s p inside calloc alloc c pkt bytes unnamed made =
    let c1 = record c { ptr = subscription pkt } in
    rw (
      subscribe,
      ◌>>=◌,
      load-with s p inside c1,
      unnamed,
      ◌>>◌,
      set_ack_reply-with s p inside alloc c1 Opcode.suback 1 bytes made,
    )

module _ {W : Type 0} (net : Net W) (calloc : ℕ → Bool) (alloc : Allocator) (p : ℕ) where
  -- A client sends a SUBSCRIBE packet with no topic. request_handler returns 0 with a SUBACK reply whose
  -- `retained` nobody has written; reply_handler then reads it, which C leaves undefined.
  pub unnamed_subscribe_undefined :
      (c : Client) (pkt : Subscribe) (bytes : List ℕ) (s : State W)
      → cell s.client_blocks p ≡ some c
      → (pkt.topic_len == 0) ≡ true
      → packed alloc (ack_pkt Opcode.suback 0 1).header.size (pack_ack (ack_pkt Opcode.suback 0 1))
        ≡ some bytes
      → (served : State W) × (serve net calloc alloc p Opcode.subscribe (subscription pkt) s
          ≡ returns (nought, served))
        × (reply_handler net calloc alloc p served ≡ undefined)
  unfolding run_handler matching reply_with reply_handler
  unnamed_subscribe_undefined c pkt bytes s here unnamed made =
      let inside = cell-lt s.client_blocks p c here in
      let c1 = record c { last_action_time = net.time s.world } in
      let reply = acking Opcode.suback c.fd bytes unwritten in
      let s1 = record s { armed = (c.fd, epollout) ∷ s.armed } in
      let c2 = record c1 { ptr = subscription pkt; reply = some reply; ctx_handler = replying } in
      (
        with_client s1 p c2,
        subst
            (λ v.
              serve net calloc alloc p Opcode.subscribe (subscription pkt) v
              ≡ returns (nought, with_client s1 p c2))
            (with_client_self s p c here)
            (serve_run net calloc alloc p Opcode.subscribe (subscription pkt) subscribe_handler
              nought s s c (record c1 { ptr = subscription pkt; reply = some reply }) inside inside
              refl refl (subscribe-unnamed s p inside calloc alloc c1 pkt bytes unnamed made)),
        rw (reply_handler, ◌>>=◌, load-with s1 p inside c2, ◌>>=◌),
      )

  -- A reply that is to send a message that is freed.
  reply-freed :
      (serving : IsServing net) (c : Client) (fd old : ℕ) (bytes : List ℕ)
      (small : length bytes < 2 ^ 31) (s : State W)
      → cell s.client_blocks p
        ≡ some (record c { reply = some (acking Opcode.suback fd bytes (written (some old))) })
      → cell s.message_blocks old ≡ none
      → reply_handler net calloc alloc p s ≡ undefined
  unfolding reply_with reply_handler after_send
  reply-freed serving c fd old bytes small s here gone = rw (
    reply_handler,
    ◌>>=◌,
    load_client_lem s p
        (record c { reply = some (acking Opcode.suback fd bytes (written (some old))) }) here,
    ◌>>=◌,
    reply_retained,
    ◌>>=◌,
    reply_block_lem net serving calloc alloc Opcode.suback fd bytes small (written (some old)) s,
    ◌>>=◌,
    load_message-freed (after_send net serving fd bytes small s) old gone,
  )

  -- Over sockets that take what they are sent, with packets of fewer than 2^31 bytes.
  -- A client's SUBACK is to be followed by the message that a topic retains. Before it is sent, another
  -- client publishes a message that the topic is to retain instead. The publication succeeds and frees the
  -- old message, and reply_handler then reads it, which C leaves undefined.
  pub late_greeting_undefined :
      (serving : IsServing net) (tp fd old : ℕ) (c : Client) (t : Topic) (r : Message)
      (pkt : Publish) (ack bytes sender : List ℕ) (s : State W)
      → cell s.client_blocks p
        ≡ some (record c { reply = some (acking Opcode.suback fd ack (written (some old))) })
      → cell s.topic_blocks tp ≡ some (record t { retained = some old })
      → cell s.message_blocks old ≡ some r
      → (pkt.retain == 0) ≡ false
      → AllLive (fd_at s.client_blocks) t.subscribers.chain
      → packed alloc pkt.header.size (pack_publish pkt) ≡ some bytes
      → length bytes < 2 ^ 31
      → length ack < 2 ^ 31
      → (state : State W) × (publish_message net alloc tp pkt sender s
          ≡ returns (length t.subscribers.chain * length bytes, state))
        × (reply_handler net calloc alloc p state ≡ undefined)
  unfolding publish_message
  late_greeting_undefined serving tp fd old c t r pkt ack bytes sender s here there kept retains
        live made small ack_small =
      let k = retain_message_lem net tp pkt sender s t (some old) there (r, kept) in
      let d =
        deliver_lem net serving bytes small t.subscribers.chain 0 k.state
          (subst (λ b. AllLive (fd_at b) t.subscribers.chain) (sym k.clients) live) in
      let before = ap (λ b. cell b p) k.clients ∙ here in
      let (time, now) =
        subst (λ o. Stamped o (cell d.state.client_blocks p)) before (d.clients p) in
      (
        d.state,
        rw
            (
              publish_message,
              ◌>>=◌,
              made,
              retains,
              ◌>>◌,
              k.runs,
              ◌>>=◌,
              load_topic_lem k.state tp _ k.topic,
              d.runs,
            )
            (ap (λ n. returns (n, d.state)) (omega arith)),
        reply-freed serving (record c { last_action_time = time }) fd old ack ack_small d.state now
            (ap (λ b. cell b old) d.message_blocks ∙ k.freed),
      )
