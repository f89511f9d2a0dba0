-- ===== src/Packet/Fit.antt =====
-- The lengths that the constructors put into a header, against the bytes that pack_* writes.
use sizigy.Base.{
  ℕ, ◌+◌, ◌-◌, ◌^◌, ◌<◌, ◌≤◌, ◌≡◌, ap, ◌∙◌, Option, some, List, [], ◌∷◌, ◌++◌, arith, length, drop,
  length-append, length-drop,
}
use sizigy.Buffer.{Allocator, Buf}
use sizigy.Buffer.Endian.{big_endian}
use sizigy.Packet.{
  connect_pkt, subscribe_pkt, unsubscribe_pkt, publish_pkt, ack_pkt, pack_connect, pack_subscribe,
  pack_unsubscribe, pack_publish, pack_ack,
}
use sizigy.Buffer.Words.{Emits}
use sizigy.Packet.Wire.{
  connect_wire, subscribe_wire, unsubscribe_wire, publish_wire, ack_wire, Emits-connect,
  Emits-subscribe, Emits-unsubscribe, Emits-publish, Emits-ack,
}
use sizigy.Packet.Unpack.{IsText, text_of_IsText}
use sizigy.Packet.Roundtrip.{packed, packed-Emits}

-- The bytes of a packet against the length in its header, for strings whose packets fit 32 bits.
wire_sizes :
    (str message : List ℕ) (a b c n : ℕ)
    → IsText str
    → IsText message
    → length str + length message + 16 < 2 ^ 32
    → let k = connect_pkt str a b in
      let s = subscribe_pkt str a in
      let u = unsubscribe_pkt str in
      let p = publish_pkt str message a b c in
      let r = ack_pkt a b c in
      (length (connect_wire n k) + 1 ≡ k.header.size)
      × (length (subscribe_wire n s) + 2 ≡ s.header.size)
      × (length (unsubscribe_wire n u) + 1 ≡ u.header.size)
      × (length (publish_wire n p) + 2 ≡ p.header.size)
      × (length (ack_wire n r) ≡ r.header.size)
unfolding connect_pkt subscribe_pkt unsubscribe_pkt publish_pkt ack_pkt
wire_sizes str message a b c n txt txt' fits =
    rw (text_of_IsText str txt, text_of_IsText message txt')
      (omega (arith, length-append str message, length-append str (big_endian 2 a ++ (b ∷ []))))

-- A packer of a block of `n` bytes: the first of them are the same whatever `malloc` gave, and the last
-- `k` are as `malloc` left them.
pub record Leaves (n k : ℕ) (run : Allocator → Option (List ℕ)) : Type 0 where
  pub front : List ℕ
  pub front_size : length front + k ≡ n
  pub packs : (alloc : Allocator) → run alloc ≡ some (front ++ drop (n - k) (alloc.malloc n))

leaves :
    (n k : ℕ) (m : Buf (Unit {0})) (ws : List ℕ)
    → Emits n m ws
    → length ws + k ≡ n
    → Leaves n k (λ alloc. packed alloc n m)
leaves n k m ws e fits =
    let short : length ws ≤ n = omega (arith, fits) in
    let rest : length ws ≡ n - k = omega (arith, fits) in
    record {
      front = ws;
      front_size = fits;
      packs = λ alloc.
          packed-Emits alloc n m e short ∙ ap (λ i. some (ws ++ drop i (alloc.malloc n))) rest;
    }

-- The constructors and packers of the five kinds of packet, for texts whose packets fit 32 bits and fields
-- that fit a byte: what is packed into a block of the length in the header leaves exactly the last byte
-- unwritten for CONNECT and UNSUBSCRIBE, the last two for SUBSCRIBE and PUBLISH, and none for an
-- acknowledgement.
pub packers_leave :
    (str message : List ℕ) (a b c : ℕ)
    → IsText str
    → IsText message
    → length str + length message + 16 < 2 ^ 32
    → a < 2 ^ 8
    → b < 2 ^ 8
    → c < 2 ^ 8
    → let k = connect_pkt str a b in
      let s = subscribe_pkt str a in
      let u = unsubscribe_pkt str in
      let p = publish_pkt str message a b c in
      let r = ack_pkt a b c in
      Leaves k.header.size 1 (λ alloc. packed alloc k.header.size (pack_connect k))
      × Leaves s.header.size 2 (λ alloc. packed alloc s.header.size (pack_subscribe s))
      × Leaves u.header.size 1 (λ alloc. packed alloc u.header.size (pack_unsubscribe u))
      × Leaves p.header.size 2 (λ alloc. packed alloc p.header.size (pack_publish p))
      × Leaves r.header.size 0 (λ alloc. packed alloc r.header.size (pack_ack r))
unfolding connect_pkt subscribe_pkt unsubscribe_pkt publish_pkt ack_pkt
packers_leave str message a b c txt txt' fits ha hb hc =
    let k = connect_pkt str a b in
    let s = subscribe_pkt str a in
    let u = unsubscribe_pkt str in
    let p = publish_pkt str message a b c in
    let r = ack_pkt a b c in
    let sizes = λ (n : ℕ). wire_sizes str message a b c n txt txt' fits in
    (
      leaves k.header.size 1 _ _ (Emits-connect k.header.size k (omega arith) hb)
          (sizes k.header.size).0,
      leaves s.header.size 2 _ _ (Emits-subscribe s.header.size s (omega arith) ha)
          (sizes s.header.size).1,
      leaves u.header.size 1 _ _ (Emits-unsubscribe u.header.size u (omega arith))
          (sizes u.header.size).2,
      leaves p.header.size 2 _ _ (Emits-publish p.header.size p (omega arith) ha hb hc)
          (sizes p.header.size).3,
      leaves r.header.size 0 _ _ (Emits-ack r.header.size r ha hc)
          (omega (arith, (sizes r.header.size).4)),
    )

-- The block that goes out for a PUBLISH packet is the packet, and then the last two bytes of the
-- allocation as `malloc` left them.
pub publish_sends_unwritten :
    (alloc : Allocator) (topic message : List ℕ) (qos retain dup : ℕ)
    → IsText topic
    → IsText message
    → length topic + length message + 16 < 2 ^ 32
    → qos < 2 ^ 8
    → retain < 2 ^ 8
    → dup < 2 ^ 8
    → let p = publish_pkt topic message qos retain dup in
      let n = p.header.size in
      (packed alloc n (pack_publish p) ≡ some (publish_wire n p ++ drop (n - 2) (alloc.malloc n)))
      × (length (drop (n - 2) (alloc.malloc n)) ≡ 2)
unfolding publish_pkt
publish_sends_unwritten alloc topic message qos retain dup t m fits hq hr hd =
    let p = publish_pkt topic message qos retain dup in
    let n = p.header.size in
    let sizes = wire_sizes topic message qos retain dup n t m fits in
    let written : length (publish_wire n p) ≡ n - 2 = omega arith in
    let out =
      packed-Emits alloc n (pack_publish p) (Emits-publish n p (omega arith) hq hr hd)
        (omega arith) in
    (
      out ∙ ap (λ k. some (publish_wire n p ++ drop k (alloc.malloc n))) written,
      omega (arith, length-drop (n - 2) (alloc.malloc n), alloc.malloc_size n),
    )
