-- ===== src/Server/Tests/Broker.antt =====
-- The theorems on the handlers, in the scene.
use sizigy.Base.{
  ℕ, ◌*◌, ◌^◌, ◌<◌, ◌≡◌, refl, Bool, true, some, List, [], ◌∷◌, ◌++◌, length, drop,
  length-replicate, replicate, arith,
}
use sizigy.Buffer.{Allocator, strlen}
use sizigy.Packet.{Publish, Subscribe, subscribe_pkt, publish_pkt, ack_pkt, pack_ack, pack_publish}
use sizigy.Packet.Opcode
use sizigy.Packet.Roundtrip.{packed, packed-ack, packed-publish, publish-small, ack-small}
use sizigy.Server.Delivery.{fd_at}
use sizigy.Packet.Wire.{ack_wire, publish_wire}
use sizigy.Server.Reply.{publish_message}
use sizigy.Server.Dispatch.{publication, subscription}
use sizigy.Server.Steps.{serve, reply_handler}
use sizigy.Server.Handlers.{nought}
use sizigy.Server.Stalls.{waiting, stall_lem}
use sizigy.Server.Joining.{Subscribed, subscribe_lem}
use sizigy.Server.Hazards.{unnamed_subscribe_undefined, late_greeting_undefined}
use sizigy.Server.Tests.Scene.{Wires, lines, lines-IsServing, client_on, c, topic_c, scene, get-c}
use sizigy.Server.Subscribing.{acking}
use sizigy.Sizigy.{Client, Message, State, returns, undefined, written, cell}

abbrev roomy : ℕ → Bool
roomy n = true

untouched : Allocator
untouched = record { malloc = λ n. replicate n 0xAA; malloc_size = λ n. length-replicate n 0xAA }

abbrev hello : List ℕ
hello = 104 ∷ 105 ∷ []

abbrev ack_bytes : ℕ → ℕ → List ℕ
ack_bytes opcode rc =
    let wire = ack_wire 8 (ack_pkt opcode 0 rc) in wire ++ drop (length wire) (untouched.malloc 8)

packed-suback :
    (rc : ℕ)
    → rc < 2 ^ 8
    → packed untouched
        (ack_pkt Opcode.suback 0 rc).header.size
        (pack_ack (ack_pkt Opcode.suback 0 rc))
      ≡ some (ack_bytes Opcode.suback rc)
packed-suback rc h = packed-ack untouched Opcode.suback 0 rc (omega arith) h

-- A PUBLISH packet with no topic leaves its sender unheard.
stall_lem_example :
    let pkt = publication (publish_pkt [] hello 0 0 0) in
    let c = client_on 7 (112 ∷ []) in
    (serve lines roomy untouched 0 Opcode.publish pkt scene
      ≡ returns (nought, waiting lines 0 pkt c scene))
    × (reply_handler lines roomy untouched 0 (waiting lines 0 pkt c scene)
        ≡ returns (nought, waiting lines 0 pkt c scene))
unfolding cell strlen publish_pkt
stall_lem_example =
    stall_lem lines roomy untouched 0 Opcode.publish (publication (publish_pkt [] hello 0 0 0))
      scene (client_on 7 (112 ∷ [])) refl refl

abbrev joining : Subscribe
joining = subscribe_pkt c 1

unnamed_subscribe_undefined_example :
    (served : State Wires) × (serve lines roomy untouched 0 Opcode.subscribe
        (subscription (subscribe_pkt [] 1))
        scene
      ≡ returns (nought, served))
    × (reply_handler lines roomy untouched 0 served ≡ undefined)
unfolding cell strlen subscribe_pkt
unnamed_subscribe_undefined_example =
    unnamed_subscribe_undefined lines roomy untouched 0 (client_on 7 (112 ∷ []))
      (subscribe_pkt [] 1) (ack_bytes Opcode.suback 1) scene refl refl
      (packed-suback 1 (omega arith))

-- The topic retains a message, and the second client is to be told of it.
abbrev kept : Message
kept = record {
  qos = 0;
  dup = 0;
  retained = 1;
  creation_time = 0;
  sender = 114 ∷ [];
  topic = c;
  payload = hello;
}

abbrev told : Client
told = record (client_on 8 (113 ∷ [])) {
  reply = some (acking Opcode.suback 8 (ack_bytes Opcode.suback 0) (written (some 0)));
}

abbrev retaining : State Wires
retaining = record scene {
  client_blocks = some (client_on 7 (112 ∷ [])) ∷ some told ∷ some (client_on 9 (114 ∷ [])) ∷ [];
  topic_blocks = some (record topic_c { retained = some 0 }) ∷ [];
  message_blocks = some kept ∷ [];
}

abbrev news : Publish
news = publish_pkt c hello 0 1 0

abbrev news_bytes : List ℕ
news_bytes =
    let n = news.header.size in
    let wire = publish_wire n news in wire ++ drop (length wire) (untouched.malloc n)

packed-news : packed untouched news.header.size (pack_publish news) ≡ some news_bytes
unfolding strlen publish_pkt
packed-news =
    packed-publish untouched c hello 0 1 0 refl refl (omega arith) (omega arith) (omega arith)
      (omega arith)

news-small : length news_bytes < 2 ^ 31
unfolding strlen publish_pkt
news-small =
    publish-small untouched c hello 0 1 0 news_bytes refl refl (omega arith) (omega arith)
      (omega arith) (omega arith) packed-news

suback-small : length (ack_bytes Opcode.suback 0) < 2 ^ 31
suback-small =
    ack-small untouched Opcode.suback 0 0 (ack_bytes Opcode.suback 0) (omega arith) (omega arith)
      (packed-suback 0 (omega arith))

-- The first client subscribes to that topic.
subscribe_lem_example :
    Subscribed lines lines-IsServing roomy untouched 0
      (client_on 7 (112 ∷ []))
      joining
      0
      (record topic_c { retained = some 0 })
      (ack_bytes Opcode.suback 0)
      news_bytes
      retaining
unfolding cell strlen subscribe_pkt publish_pkt
subscribe_lem_example =
    subscribe_lem lines lines-IsServing roomy untouched 0 0 (record topic_c { retained = some 0 })
      (client_on 7 (112 ∷ [])) joining (ack_bytes Opcode.suback 0) news_bytes retaining refl refl
      refl get-c get-c refl (omega arith) (packed-suback 0 (omega arith)) (kept, refl, packed-news)
      news-small

late_greeting_undefined_example :
    (state : State Wires) × (publish_message lines untouched 0 news (112 ∷ []) retaining
      ≡ returns (3 * length news_bytes, state))
    × (reply_handler lines roomy untouched 1 state ≡ undefined)
unfolding cell fd_at strlen publish_pkt
late_greeting_undefined_example =
    late_greeting_undefined lines roomy untouched 1 lines-IsServing 0 8 0 (client_on 8 (113 ∷ []))
      topic_c kept news (ack_bytes Opcode.suback 0) news_bytes (112 ∷ []) retaining refl refl refl
      refl ((8, refl), ((9, refl), ((8, refl), tt))) packed-news news-small suback-small
