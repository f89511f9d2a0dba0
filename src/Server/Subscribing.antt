-- ===== src/Server/Subscribing.antt =====
-- subscribe_handler, and what reply_handler does with its reply.

use sizigy.Base.{ℕ, ◌==◌, ◌≡◌, ◌<◌, Bool, false, Option, some, List, length, set}
use sizigy.Buffer.{Allocator}
use sizigy.Buffer.Words.{text}
use sizigy.Hashmap as Table
use sizigy.Packet.{Subscribe, ack_pkt, pack_ack}
use sizigy.Packet.Opcode
use sizigy.Packet.Roundtrip.{packed}
use sizigy.Server.Dispatch.{subscription}
use sizigy.Server.Handlers.{nought, subscribe, set_retained}
use sizigy.Server.Publishing.{topic_of-found}
use sizigy.Server.Reply.{set_ack_reply}
use sizigy.Sizigy.{
  block, Written, unwritten, written, Client, Reply, Subscription, Topic, State, returns, ◌>>=◌,
  ◌>>◌, cell,
}
use sizigy.Sizigy.Ops.{
  head_insert, locked, add_subscriber, create_subscription, load_topic, store_topic,
}
use sizigy.Sizigy.Runs.{load_topic_lem}
use sizigy.Sizigy.Clients.{
  with_client, cell-set_self, cell-lt, load-with, store-with, set_reply-with,
}

abbrev pub acking : ℕ → ℕ → List ℕ → Written (Option ℕ) → Reply
acking opcode fd bytes retained = record {
  opcode = opcode;
  fd = fd;
  payload = block bytes;
  retained = retained;
}

module _ {W : Type 0} (s : State W) (p : ℕ) (inside : p < length s.client_blocks) where
  pub set_ack_reply-with :
      (alloc : Allocator) (c : Client) (opcode rc : ℕ) (bytes : List ℕ)
      → packed alloc (ack_pkt opcode 0 rc).header.size (pack_ack (ack_pkt opcode 0 rc)) ≡ some bytes
      → set_ack_reply alloc p opcode rc (with_client s p c)
        ≡ returns
            (tt, with_client s p (record c { reply = some (acking opcode c.fd bytes unwritten) }))
  unfolding set_ack_reply
  set_ack_reply-with alloc c opcode rc bytes made =
      rw (set_ack_reply, ◌>>=◌, made, set_reply-with s p inside c opcode (block bytes))

  set_retained-with :
      (c : Client) (r : Reply) (retained : Option ℕ)
      → set_retained p retained (with_client s p (record c { reply = some r }))
        ≡ returns (
          tt,
          with_client s p (record c { reply = some (record r { retained = written retained }) }),
        )
  unfolding set_retained
  set_retained-with c r retained =
      let c1 = record c { reply = some r } in
      rw (
        set_retained,
        ◌>>=◌,
        load-with s p inside c1,
        store-with s p inside c1
            (record c { reply = some (record r { retained = written retained }) }),
      )

module _ {W : Type 0} (s : State W) where
  -- The state with `t` at `tp`, and the lock free.
  abbrev pub with_topic : ℕ → Topic → State W
  with_topic tp t = record s { topic_blocks = set s.topic_blocks tp (some t); lock = false }

  pub add_subscriber_lem :
      (sub : Subscription) (tp : ℕ) (t : Topic)
      → s.lock ≡ false
      → Table.get s.topics (text sub.topic) ≡ Table.returns (some tp)
      → cell s.topic_blocks tp ≡ some t
      → add_subscriber sub s
        ≡ returns (tt, with_topic tp (record t { subscribers = head_insert t.subscribers sub }))
  unfolding add_subscriber locked store_topic load_topic
  add_subscriber_lem sub tp t free found here =
      rw (add_subscriber, ◌>>=◌, found, locked, free, ◌>>=◌, here)

module _ {W : Type 0} (s : State W) (p : ℕ) (inside : p < length s.client_blocks) where
  pub subscribe-with :
      (calloc : ℕ → Bool) (alloc : Allocator) (tp : ℕ) (t : Topic) (c : Client) (pkt : Subscribe)
      (bytes : List ℕ)
      → (pkt.topic_len == 0) ≡ false
      → s.lock ≡ false
      → Table.get s.topics (text pkt.topic) ≡ Table.returns (some tp)
      → Table.get s.topics (text t.name) ≡ Table.returns (some tp)
      → cell s.topic_blocks tp ≡ some t
      → packed alloc (ack_pkt Opcode.suback 0 0).header.size (pack_ack (ack_pkt Opcode.suback 0 0))
        ≡ some bytes
      → let t' = record t {
        subscribers = head_insert t.subscribers (create_subscription p t.name pkt.qos);
      } in
        subscribe calloc alloc p (with_client s p (record c { ptr = subscription pkt }))
        ≡ returns (
          nought,
          with_client (with_topic s tp t') p (record c {
            ptr = subscription pkt;
            reply = some (acking Opcode.suback c.fd bytes (written t.retained));
          }),
        )
  unfolding subscribe create_subscription
  subscribe-with calloc alloc tp t c pkt bytes named free found again here made =
      let c1 = record c { ptr = subscription pkt } in
      let c2 = record c1 { reply = some (acking Opcode.suback c.fd bytes unwritten) } in
      let sub = create_subscription p t.name pkt.qos in
      let t' = record t { subscribers = head_insert t.subscribers sub } in
      rw (
        subscribe,
        ◌>>=◌,
        load-with s p inside c1,
        named,
        ◌>>=◌,
        topic_of-found (with_client s p c1) calloc pkt.topic tp found,
        ◌>>◌,
        set_ack_reply-with s p inside alloc c1 Opcode.suback 0 bytes made,
        ◌>>=◌,
        load_topic_lem (with_client s p c2) tp t here,
        ◌>>◌,
        add_subscriber_lem (with_client s p c2) sub tp t free again here,
        ◌>>=◌,
        load_topic_lem (with_client (with_topic s tp t') p c2) tp t'
            (cell-set_self s.topic_blocks tp t' (cell-lt s.topic_blocks tp t here)),
        ◌>>◌,
        set_retained-with (with_topic s tp t') p inside c1
            (acking Opcode.suback c.fd bytes unwritten) t.retained,
      )
