-- ===== src/Packet/Tests.antt =====
-- Packets of a few bytes, and the theorems at them.
use sizigy.Base
use sizigy.Base.{
  ◌<◌, ◌≢◌, true, false, ℕ, ◌+◌, ◌-◌, ◌^◌, ◌≡◌, refl, none, some, List, [], ◌∷◌, ◌++◌, arith,
  length, length-replicate, replicate, drop,
}
use sizigy.Buffer.{Allocator, strlen}
use sizigy.Packet.{
  Publish, connect_pkt, subscribe_pkt, unsubscribe_pkt, publish_pkt, ack_pkt, pack_connect,
  pack_subscribe, pack_publish, pack_ack, unpack_subscribe, unpack_publish, unpack_ack,
}
use sizigy.Packet.Wire.{publish_wire}
use sizigy.Packet.{pack_unsubscribe}
use sizigy.Packet.Fit.{Leaves, packers_leave, publish_sends_unwritten}
use sizigy.Packet.Roundtrip.{
  packed, unpacked, subscribe_roundtrip, publish_roundtrip, ack_roundtrip,
}
use sizigy.Packet.Release.{Owner, publish, Memory, owned, release, free_publish, free_field, free}
use sizigy.Packet.Freed.{Freed, release_lem}
use sizigy.Packet.Bounds.{publish_front, unpack_publish_bounds}

untouched : Allocator
untouched = record { malloc = λ n. replicate n 0xAA; malloc_size = λ n. length-replicate n 0xAA }

-- "ab" and "xyz"
abbrev topic : List ℕ
topic = b'a' ∷ b'b' ∷ []

abbrev message : List ℕ
message = b'x' ∷ b'y' ∷ b'z' ∷ []

subscribe_roundtrip_example :
    let p = subscribe_pkt topic 1 in
    Base.◌>>=◌ (packed untouched p.header.size (pack_subscribe p)) (unpacked unpack_subscribe)
    ≡ some p
unfolding strlen
subscribe_roundtrip_example = subscribe_roundtrip untouched topic 1 refl (omega arith) (omega arith)

publish_roundtrip_example :
    let p = publish_pkt topic message 1 0 0 in
    Base.◌>>=◌ (packed untouched p.header.size (pack_publish p)) (unpacked unpack_publish) ≡ some p
unfolding strlen
publish_roundtrip_example =
    publish_roundtrip untouched topic message 1 0 0 refl refl (omega arith) (omega arith)
      (omega arith) (omega arith) (omega arith)

ack_roundtrip_example :
    let p = ack_pkt 0x90 7 1 in
    Base.◌>>=◌ (packed untouched p.header.size (pack_ack p)) (unpacked unpack_ack) ≡ some p
ack_roundtrip_example = ack_roundtrip untouched 0x90 7 1 (omega arith) (omega arith) (omega arith)

packers_leave_example :
    let k = connect_pkt topic 1 0 in
    let s = subscribe_pkt topic 1 in
    let u = unsubscribe_pkt topic in
    let p = publish_pkt topic message 1 0 0 in
    let r = ack_pkt 1 0 0 in
    Leaves k.header.size 1 (λ alloc. packed alloc k.header.size (pack_connect k))
    × Leaves s.header.size 2 (λ alloc. packed alloc s.header.size (pack_subscribe s))
    × Leaves u.header.size 1 (λ alloc. packed alloc u.header.size (pack_unsubscribe u))
    × Leaves p.header.size 2 (λ alloc. packed alloc p.header.size (pack_publish p))
    × Leaves r.header.size 0 (λ alloc. packed alloc r.header.size (pack_ack r))
unfolding strlen
packers_leave_example =
    packers_leave topic message 1 0 0 refl refl (omega arith) (omega arith) (omega arith)
      (omega arith)

publish_sends_unwritten_example :
    let p = publish_pkt topic message 1 0 0 in
    let n = p.header.size in
    (packed untouched n (pack_publish p)
      ≡ some (publish_wire n p ++ drop (n - 2) (untouched.malloc n)))
    × (length (drop (n - 2) (untouched.malloc n)) ≡ 2)
unfolding strlen
publish_sends_unwritten_example =
    publish_sends_unwritten untouched topic message 1 0 0 refl refl (omega arith) (omega arith)
      (omega arith) (omega arith)

-- A packet that claims a message of 100 bytes and brings three.
abbrev crafted : Publish
crafted = record {
  header = record { opcode = 0x30; size = 19 };
  topic_len = 2;
  message_len = 100;
  qos = 0;
  retain = 0;
  dup = 0;
  topic = [];
  message = [];
}

unpack_publish_bounds_example :
    unpacked unpack_publish (publish_front crafted ++ (topic ++ message)) ≡ none
unpack_publish_bounds_example =
    unpack_publish_bounds crafted
      (record { size = omega arith; topic_len = omega arith; message_len = omega arith })
      (topic ++ message)

-- A PUBLISH packet in four blocks, beside one that is someone else's.
abbrev held : Owner
held = publish (record { self = 0; header = some 1; topic = some 3; message = some 4 })

abbrev five : Memory
five = true ∷ true ∷ true ∷ true ∷ true ∷ []

release_lem_example : Freed five (owned held) (λ m. (true, m)) (release held five)
release_lem_example =
    let apart : (a b : ℕ) → a < b → a ≢ b = λ a b h e. omega (arith, h, e) in
    let away : (a b : ℕ) → b < a → a ≢ b = λ a b h e. omega (arith, h, e) in
    release_lem held five (
      refl,
      (apart 1 3 (omega arith), (apart 1 4 (omega arith), (away 1 0 (omega arith), tt))),
      (
        refl,
        (apart 3 4 (omega arith), (away 3 0 (omega arith), tt)),
        (refl, (away 4 0 (omega arith), tt), (refl, tt, tt)),
      ),
    )

release-held : release held five ≡ some (true, false ∷ false ∷ true ∷ false ∷ false ∷ [])
unfolding release free_publish free_field free
release-held = refl
