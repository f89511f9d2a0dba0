-- ===== src/Packet/Wire.antt =====
-- The layout of each packet on the wire, as one list of bytes, and that pack_* writes it.
use sizigy.Base.{ℕ, ◌^◌, ◌<◌, List, [], ◌∷◌, ◌++◌}
use sizigy.Buffer.{strlen}
use sizigy.Buffer.Endian.{big_endian}
use sizigy.Buffer.Words.{
  Emits, Emits-then, Emits-uint8, Emits-uint16, Emits-uint32, Emits-string, text,
}
use sizigy.Packet.{
  Header, Connect, Subscribe, Unsubscribe, Publish, Ack, pack_header, pack_connect, pack_subscribe,
  pack_unsubscribe, pack_publish, pack_ack,
}

-- A packet of `n` bytes in all begins with its opcode and that number.
abbrev pub head_wire : ℕ → ℕ → List ℕ
head_wire n opcode = (opcode ∷ []) ++ big_endian 4 n

abbrev pub connect_wire : ℕ → Connect → List ℕ
connect_wire n p =
    head_wire n p.header.opcode
    ++ (big_endian 2 (strlen p.id)
        ++ (text p.id ++ (big_endian 2 p.keepalive ++ (p.clean_session ∷ []))))

abbrev pub subscribe_wire : ℕ → Subscribe → List ℕ
subscribe_wire n p =
    head_wire n p.header.opcode ++ (big_endian 2 (strlen p.topic) ++ ((p.qos ∷ []) ++ text p.topic))

abbrev pub unsubscribe_wire : ℕ → Unsubscribe → List ℕ
unsubscribe_wire n p = head_wire n p.header.opcode ++ (big_endian 2 p.topic_len ++ text p.topic)

abbrev pub publish_wire : ℕ → Publish → List ℕ
publish_wire n p =
    head_wire n p.header.opcode
    ++ (big_endian 2 (strlen p.topic)
        ++ (big_endian 4 (strlen p.message)
            ++ ((p.qos ∷ [])
                ++ ((p.retain ∷ []) ++ ((p.dup ∷ []) ++ (text p.topic ++ text p.message))))))

abbrev pub ack_wire : ℕ → Ack → List ℕ
ack_wire n p = head_wire n p.header.opcode ++ (big_endian 2 p.id ++ (p.rc ∷ []))

module _ (n : ℕ) where
  Emits-header : (h : Header) → h.opcode < 2 ^ 8 → Emits n (pack_header h) (head_wire n h.opcode)
  unfolding pack_header
  Emits-header h small = record {
    emits = (Emits-then (Emits-uint8 n h.opcode small) (Emits-uint32 n n)).emits;
  }

  pub Emits-connect :
      (p : Connect)
      → p.header.opcode < 2 ^ 8
      → p.clean_session < 2 ^ 8
      → Emits n (pack_connect p) (connect_wire n p)
  unfolding pack_connect
  Emits-connect p small clean = Emits-then (Emits-header p.header small) (
      Emits-then (Emits-uint16 n (strlen p.id)) (
        Emits-then (Emits-string n p.id)
          (Emits-then (Emits-uint16 n p.keepalive) (Emits-uint8 n p.clean_session clean))))

  pub Emits-subscribe :
      (p : Subscribe)
      → p.header.opcode < 2 ^ 8
      → p.qos < 2 ^ 8
      → Emits n (pack_subscribe p) (subscribe_wire n p)
  unfolding pack_subscribe
  Emits-subscribe p small qos = Emits-then (Emits-header p.header small) (
      Emits-then (Emits-uint16 n (strlen p.topic))
        (Emits-then (Emits-uint8 n p.qos qos) (Emits-string n p.topic)))

  pub Emits-unsubscribe :
      (p : Unsubscribe)
      → p.header.opcode < 2 ^ 8
      → Emits n (pack_unsubscribe p) (unsubscribe_wire n p)
  unfolding pack_unsubscribe
  Emits-unsubscribe p small =
      Emits-then (Emits-header p.header small)
        (Emits-then (Emits-uint16 n p.topic_len) (Emits-string n p.topic))

  pub Emits-publish :
      (p : Publish)
      → p.header.opcode < 2 ^ 8
      → p.qos < 2 ^ 8
      → p.retain < 2 ^ 8
      → p.dup < 2 ^ 8
      → Emits n (pack_publish p) (publish_wire n p)
  unfolding pack_publish
  Emits-publish p small qos retain dup = Emits-then (Emits-header p.header small) (
      Emits-then (Emits-uint16 n (strlen p.topic)) (
        Emits-then (Emits-uint32 n (strlen p.message)) (
          Emits-then (Emits-uint8 n p.qos qos) (
            Emits-then (Emits-uint8 n p.retain retain) (
              Emits-then (Emits-uint8 n p.dup dup)
                (Emits-then (Emits-string n p.topic) (Emits-string n p.message)))))))

  pub Emits-ack :
      (p : Ack) → p.header.opcode < 2 ^ 8 → p.rc < 2 ^ 8 → Emits n (pack_ack p) (ack_wire n p)
  unfolding pack_ack
  Emits-ack p small rc =
      Emits-then (Emits-header p.header small)
        (Emits-then (Emits-uint16 n p.id) (Emits-uint8 n p.rc rc))
