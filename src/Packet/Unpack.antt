-- ===== src/Packet/Unpack.antt =====
-- What the unpack_* functions read from the layouts that pack_* writes.
use sizigy.Base.{ℕ, ◌^◌, ◌<◌, ◌≡◌, refl, ap, ◌∙◌, List, [], ◌∷◌, length, take}
use sizigy.Buffer.{strlen}
use sizigy.Buffer.Words.{
  Takes, Takes-then, Takes-last, Takes-uint8, Takes-uint16, Takes-uint32, Takes-string, text,
}
use sizigy.Packet.{
  Subscribe, Unsubscribe, Publish, Ack, unpack_header, unpack_subscribe, unpack_unsubscribe,
  unpack_publish, unpack_ack,
}
use sizigy.Packet.Wire.{head_wire, subscribe_wire, unsubscribe_wire, publish_wire, ack_wire}

-- No zero byte stands in the block before its end.
abbrev pub IsText : List ℕ → Type 0
IsText str = strlen str ≡ length str

take-length : (xs : List ℕ) → take (length xs) xs ≡ xs
take-length [] = refl
take-length (x ∷ xs) = ap (λ t. x ∷ t) (take-length xs)

pub text_of_IsText : (str : List ℕ) → IsText str → text str ≡ str
text_of_IsText str e = ap (λ n. take n str) e ∙ take-length str

pub Takes-header :
    (n opcode : ℕ)
    → n < 2 ^ 32
    → Takes unpack_header (head_wire n opcode) (record { opcode = opcode; size = n })
unfolding unpack_header
Takes-header n opcode h =
    Takes-then _ (Takes-uint8 opcode)
      (Takes-last (λ k. record { opcode = opcode; size = k }) (Takes-uint32 n h))

pub Takes-subscribe :
    (n : ℕ) (p : Subscribe)
    → n < 2 ^ 32
    → strlen p.topic < 2 ^ 16
    → IsText p.topic
    → Takes unpack_subscribe (subscribe_wire n p) (record p {
      header = record { opcode = p.header.opcode; size = n };
      topic_len = strlen p.topic;
    })
unfolding unpack_subscribe
Takes-subscribe n p h fits txt = Takes-then _ (Takes-header n p.header.opcode h) (
    Takes-then _ (Takes-uint16 (strlen p.topic) fits) (
      Takes-then _ (Takes-uint8 p.qos) (
        rw (text_of_IsText p.topic txt)
          (Takes-last _ (Takes-string p.topic (strlen p.topic) txt)))))

pub Takes-unsubscribe :
    (n : ℕ) (p : Unsubscribe)
    → n < 2 ^ 32
    → p.topic_len < 2 ^ 16
    → p.topic_len ≡ length p.topic
    → IsText p.topic
    → Takes unpack_unsubscribe
        (unsubscribe_wire n p)
        (record p { header = record { opcode = p.header.opcode; size = n } })
unfolding unpack_unsubscribe
Takes-unsubscribe n p h fits len txt = Takes-then _ (Takes-header n p.header.opcode h) (
    Takes-then _ (Takes-uint16 p.topic_len fits)
      (rw (text_of_IsText p.topic txt) (Takes-last _ (Takes-string p.topic p.topic_len len))))

pub Takes-publish :
    (n : ℕ) (p : Publish)
    → n < 2 ^ 32
    → strlen p.topic < 2 ^ 16
    → strlen p.message < 2 ^ 32
    → IsText p.topic
    → IsText p.message
    → Takes unpack_publish (publish_wire n p) (record p {
      header = record { opcode = p.header.opcode; size = n };
      topic_len = strlen p.topic;
      message_len = strlen p.message;
    })
unfolding unpack_publish
Takes-publish n p h fits_topic fits_message topic message =
    Takes-then _ (Takes-header n p.header.opcode h) (
      Takes-then _ (Takes-uint16 (strlen p.topic) fits_topic) (
        Takes-then _ (Takes-uint32 (strlen p.message) fits_message) (
          Takes-then _ (Takes-uint8 p.qos) (
            Takes-then _ (Takes-uint8 p.retain) (
              Takes-then _ (Takes-uint8 p.dup) (
                rw (text_of_IsText p.topic topic, text_of_IsText p.message message)
                  (Takes-then _ (Takes-string p.topic (strlen p.topic) topic)
                    (Takes-last _ (Takes-string p.message (strlen p.message) message)))))))))

pub Takes-ack :
    (n : ℕ) (p : Ack)
    → n < 2 ^ 32
    → p.id < 2 ^ 16
    → Takes unpack_ack
        (ack_wire n p)
        (record p { header = record { opcode = p.header.opcode; size = n } })
unfolding unpack_ack
Takes-ack n p h fits =
    Takes-then _ (Takes-header n p.header.opcode h)
      (Takes-then _ (Takes-uint16 p.id fits) (Takes-last _ (Takes-uint8 p.rc)))
