-- ===== src/Packet/Roundtrip.antt =====
-- What one side packs into a fresh buffer of the packet's size, the other side unpacks.
use sizigy.Base
use sizigy.Base.{
  ℕ, ◌+◌, ◌%◌, ◌^◌, ◌<◌, ◌≤◌, ◌≡◌, refl, sym, ap, ap₂, ◌∙◌, Option, none, some, List, [], ◌∷◌, ◌++◌,
  arith, length, drop, length-append, length-drop,
}
use sizigy.Buffer.{Buf, Allocator, buffer_init, strlen}
use sizigy.Buffer.Words.{Emits, Takes}
use sizigy.Packet.{
  unpack_subscribe, unpack_unsubscribe, unpack_publish, unpack_ack, pack_subscribe,
  pack_unsubscribe, pack_publish, pack_ack, subscribe_pkt, unsubscribe_pkt, publish_pkt, ack_pkt,
}
use sizigy.Packet.Wire.{
  Emits-subscribe, Emits-unsubscribe, Emits-publish, Emits-ack, ack_wire, publish_wire,
}
use sizigy.Packet.Unpack.{
  IsText, text_of_IsText, Takes-subscribe, Takes-unsubscribe, Takes-publish, Takes-ack,
}

-- The block after a packer has run on a fresh buffer of `n` bytes: what `sendall` is given.
abbrev pub packed : Allocator → ℕ → Buf (Unit {0}) → Option (List ℕ)
packed a n m = elim (m (buffer_init a n)) [ none ↦ none | some (_, b) ↦ some b.data_ ]

-- What an unpacker makes of a block that `recv_packet` has filled.
abbrev pub unpacked : {A : Type 0} → Buf A → List ℕ → Option A
unpacked m bytes = elim (m (record { size = length bytes; pos = 0; data_ = bytes })) [
  | none ↦ none
  | some (a, _) ↦ some a
]

-- A chain that gives a result, in its two steps.
pub bind_some :
    {A B : Type 0} (o : Option A) (f : A → Option B) (b : B)
    → Base.◌>>=◌ o f ≡ some b
    → (a : A) × (o ≡ some a) × (f a ≡ some b)
bind_some none f b e = absurd (cc)
bind_some (some a) f b e = (a, refl, e)

-- A fresh block with room for what a writer writes holds that, and then its own last bytes.
pub packed-Emits :
    (alloc : Allocator) (n : ℕ) (m : Buf (Unit {0})) {ws : List ℕ}
    → Emits n m ws
    → length ws ≤ n
    → packed alloc n m ≡ some (ws ++ drop (length ws) (alloc.malloc n))
unfolding buffer_init
packed-Emits alloc n m p h =
    rw (packed, p.emits [] (alloc.malloc n) (omega (arith, alloc.malloc_size n)))

-- A packed block is as long as the packet.
pub packed-size :
    (alloc : Allocator) (n : ℕ) (m : Buf (Unit {0})) {ws bytes : List ℕ}
    → Emits n m ws
    → length ws ≤ n
    → packed alloc n m ≡ some bytes
    → length bytes ≡ n
packed-size alloc n m {ws} {bytes} p h made =
    let fills =
      ap (λ o. elim o [ none ↦ n | some xs ↦ length xs ]) (sym made ∙ packed-Emits alloc n m p h) in
    omega (
      arith,
      fills,
      length-append ws (drop (length ws) (alloc.malloc n)),
      length-drop (length ws) (alloc.malloc n),
      alloc.malloc_size n,
      h,
    )

-- A reader takes what a writer has put into a fresh block.
pub transfer :
    {A : Type 0} (alloc : Allocator) (n : ℕ) (m : Buf (Unit {0})) (r : Buf A) {ws : List ℕ} {a : A}
    → Emits n m ws
    → Takes r ws a
    → length ws ≤ n
    → Base.◌>>=◌ (packed alloc n m) (unpacked r) ≡ some a
transfer alloc n m r {ws} p q h =
    let rest = drop (length ws) (alloc.malloc n) in
    rw (packed-Emits alloc n m p h, unpacked, q.takes (length (ws ++ rest)) [] rest)

module _ (alloc : Allocator) where
  -- A SUBSCRIBE packet of a text shorter than 2^16 bytes, whose `qos` fits a byte, comes back as it was
  -- built.
  pub subscribe_roundtrip :
      (topic : List ℕ) (qos : ℕ)
      → IsText topic
      → length topic < 2 ^ 16
      → qos < 2 ^ 8
      → let p = subscribe_pkt topic qos in
        Base.◌>>=◌ (packed alloc p.header.size (pack_subscribe p)) (unpacked unpack_subscribe)
        ≡ some p
  unfolding subscribe_pkt
  subscribe_roundtrip topic qos txt short small =
      let p = subscribe_pkt topic qos in
      let n = p.header.size in
      let len : strlen topic % 2 ^ 16 ≡ strlen topic = omega arith in
      transfer alloc n _ _ (Emits-subscribe n p (omega arith) small)
        (Takes-subscribe n p (omega arith) (omega arith) txt)
        (rw (text_of_IsText topic txt) (omega arith))
      ∙ ap (λ k. some (record p { topic_len = k })) (sym len)

  -- An UNSUBSCRIBE packet of a text shorter than 2^16 bytes comes back as it was built.
  pub unsubscribe_roundtrip :
      (topic : List ℕ)
      → IsText topic
      → length topic < 2 ^ 16
      → let p = unsubscribe_pkt topic in
        Base.◌>>=◌ (packed alloc p.header.size (pack_unsubscribe p)) (unpacked unpack_unsubscribe)
        ≡ some p
  unfolding unsubscribe_pkt
  unsubscribe_roundtrip topic txt short =
      let p = unsubscribe_pkt topic in
      let n = p.header.size in
      transfer alloc n _ _ (Emits-unsubscribe n p (omega arith))
        (Takes-unsubscribe n p (omega arith) (omega arith) (omega arith) txt)
        (rw (text_of_IsText topic txt) (omega arith))

  -- A PUBLISH packet of texts, whose topic is shorter than 2^16 bytes, whose length fits 32 bits and whose
  -- `qos`, `retain` and `dup` fit a byte, comes back as it was built.
  pub publish_roundtrip :
      (topic message : List ℕ) (qos retain dup : ℕ)
      → IsText topic
      → IsText message
      → length topic < 2 ^ 16
      → length topic + length message + 16 < 2 ^ 32
      → qos < 2 ^ 8
      → retain < 2 ^ 8
      → dup < 2 ^ 8
      → let p = publish_pkt topic message qos retain dup in
        Base.◌>>=◌ (packed alloc p.header.size (pack_publish p)) (unpacked unpack_publish) ≡ some p
  unfolding publish_pkt
  publish_roundtrip topic message qos retain dup t m short total hq hr hd =
      let p = publish_pkt topic message qos retain dup in
      let n = p.header.size in
      let t_len : strlen topic % 2 ^ 16 ≡ strlen topic = omega arith in
      let m_len : strlen message % 2 ^ 32 ≡ strlen message = omega arith in
      transfer alloc n _ _ (Emits-publish n p (omega arith) hq hr hd)
        (Takes-publish n p (omega arith) (omega arith) (omega arith) t m)
        (rw (text_of_IsText topic t, text_of_IsText message m)
          (omega (arith, length-append topic message)))
      ∙ ap₂ (λ j k. some (record p { topic_len = j; message_len = k })) (sym t_len) (sym m_len)

  -- An acknowledgement whose opcode and `rc` fit a byte and whose id fits 16 bits comes back as it was
  -- built.
  pub ack_roundtrip :
      (opcode id rc : ℕ)
      → opcode < 2 ^ 8
      → id < 2 ^ 16
      → rc < 2 ^ 8
      → let p = ack_pkt opcode id rc in
        Base.◌>>=◌ (packed alloc p.header.size (pack_ack p)) (unpacked unpack_ack) ≡ some p
  unfolding ack_pkt
  ack_roundtrip opcode id rc ho hi hr =
      let p = ack_pkt opcode id rc in
      let n = p.header.size in
      transfer alloc n _ _ (Emits-ack n p ho hr) (Takes-ack n p (omega arith) hi) (omega arith)

  -- The block that is sent for an acknowledgement.
  pub packed-ack :
      (opcode id rc : ℕ)
      → opcode < 2 ^ 8
      → rc < 2 ^ 8
      → let p = ack_pkt opcode id rc in
        packed alloc p.header.size (pack_ack p)
        ≡ some (ack_wire 8 p ++ drop (length (ack_wire 8 p)) (alloc.malloc 8))
  unfolding ack_pkt
  packed-ack opcode id rc ho hr =
      packed-Emits alloc 8 _ (Emits-ack 8 (ack_pkt opcode id rc) ho hr) (omega arith)

  -- That block is short.
  pub ack-small :
      (opcode id rc : ℕ) (bytes : List ℕ)
      → opcode < 2 ^ 8
      → rc < 2 ^ 8
      → let p = ack_pkt opcode id rc in
        packed alloc p.header.size (pack_ack p) ≡ some bytes → length bytes < 2 ^ 31
  unfolding ack_pkt
  ack-small opcode id rc bytes ho hr made =
      let size =
        packed-size alloc 8 _ (Emits-ack 8 (ack_pkt opcode id rc) ho hr) (omega arith) made in
      omega (arith, size)

  -- The block that is sent for a PUBLISH packet of texts.
  pub packed-publish :
      (topic message : List ℕ) (qos retain dup : ℕ)
      → IsText topic
      → IsText message
      → length topic + length message + 16 < 2 ^ 32
      → qos < 2 ^ 8
      → retain < 2 ^ 8
      → dup < 2 ^ 8
      → let p = publish_pkt topic message qos retain dup in
        let n = p.header.size in
        packed alloc n (pack_publish p)
        ≡ some (publish_wire n p ++ drop (length (publish_wire n p)) (alloc.malloc n))
  unfolding publish_pkt
  packed-publish topic message qos retain dup t m total hq hr hd =
      let p = publish_pkt topic message qos retain dup in
      let n = p.header.size in
      packed-Emits alloc n _ (Emits-publish n p (omega arith) hq hr hd) (
        rw (text_of_IsText topic t, text_of_IsText message m)
          (omega (arith, length-append topic message)))

  -- That block is shorter than 2^31 bytes, where the strings are.
  pub publish-small :
      (topic message : List ℕ) (qos retain dup : ℕ) (bytes : List ℕ)
      → IsText topic
      → IsText message
      → length topic + length message + 16 < 2 ^ 31
      → qos < 2 ^ 8
      → retain < 2 ^ 8
      → dup < 2 ^ 8
      → let p = publish_pkt topic message qos retain dup in
        packed alloc p.header.size (pack_publish p) ≡ some bytes → length bytes < 2 ^ 31
  unfolding publish_pkt
  publish-small topic message qos retain dup bytes t m total hq hr hd made =
      let p = publish_pkt topic message qos retain dup in
      let n = p.header.size in
      let size =
        packed-size alloc n _ (Emits-publish n p (omega arith) hq hr hd)
          (rw (text_of_IsText topic t, text_of_IsText message m)
            (omega (arith, length-append topic message)))
          made in
      omega (arith, size)

  -- The block that is sent for a PUBLISH packet of texts, and that it reads back.
  pub publish_sent :
      (topic message : List ℕ) (qos retain dup : ℕ)
      → IsText topic
      → IsText message
      → length topic < 2 ^ 16
      → length topic + length message + 16 < 2 ^ 31
      → qos < 2 ^ 8
      → retain < 2 ^ 8
      → dup < 2 ^ 8
      → let p = publish_pkt topic message qos retain dup in
        (bytes : List ℕ) × (packed alloc p.header.size (pack_publish p) ≡ some bytes)
        × (unpacked unpack_publish bytes ≡ some p)
        × (length bytes < 2 ^ 31)
  unfolding publish_pkt
  publish_sent topic message qos retain dup t m short total hq hr hd =
      let p = publish_pkt topic message qos retain dup in
      let n = p.header.size in
      let fits : length topic + length message + 16 < 2 ^ 32 = omega arith in
      let (bytes, made, reads) =
        bind_some (packed alloc n (pack_publish p)) (unpacked unpack_publish) p
          (publish_roundtrip topic message qos retain dup t m short fits hq hr hd) in
      (bytes, made, reads, publish-small topic message qos retain dup bytes t m total hq hr hd made)
