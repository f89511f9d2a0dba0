-- ===== src/Packet/Bounds.antt =====
-- unpack_* on whatever bytes arrive: the lengths inside a packet are not checked against its end.
use mathlib.Core.Path.{subst}
use sizigy.Base.{
  ℕ, ◌+◌, ◌^◌, ◌<◌, ◌≤◌, ◌≡◌, ap, ◌∙◌, some, none, List, [], ◌∷◌, ◌++◌, arith, length, length-take,
  length-drop, take, drop, take-append-drop, ltb, if◌then◌else◌, lt-or-le, inl, inr, lt→ltb,
  le→not-ltb, append_assoc,
}
use sizigy.Buffer.Endian.{big_endian}
use sizigy.Buffer.Words.{
  Takes, Takes-then, Takes-last, Takes-uint8, Takes-uint16, Takes-uint32, Takes-string, Overruns,
  Overruns-here, Overruns-then, Overruns-string,
}
use sizigy.Packet.{Publish, unpack_publish}
use sizigy.Packet.Wire.{head_wire}
use sizigy.Packet.Unpack.{Takes-header}
use sizigy.Packet.Roundtrip.{unpacked}

unpacked-Takes :
    {A : Type 0} (m : _) {ws : List ℕ} {a : A} (back : List ℕ)
    → Takes m ws a
    → unpacked m (ws ++ back) ≡ some a
unpacked-Takes m {ws} back t = rw (unpacked, t.takes (length (ws ++ back)) [] back)

unpacked-Overruns :
    {A : Type 0} (m : _) {ws : List ℕ} → Overruns {A = A} m ws → unpacked m ws ≡ none
unpacked-Overruns m {ws} t = rw (unpacked, t.overruns (length ws) [])

-- The fixed part of a PUBLISH packet, with the lengths that it claims.
abbrev pub publish_front : Publish → List ℕ
publish_front p =
    head_wire p.header.size p.header.opcode
    ++ (big_endian 2 p.topic_len
        ++ (big_endian 4 p.message_len ++ ((p.qos ∷ []) ++ ((p.retain ∷ []) ++ (p.dup ∷ [])))))

-- The strings that the claimed lengths cut out of what follows the fixed part.
abbrev pub publish_cut : Publish → List ℕ → Publish
publish_cut p body = record p {
  topic = take p.topic_len body;
  message = take p.message_len (drop p.topic_len body);
}

-- The numbers in front are what a packet's bytes can hold.
pub record IsWire (p : Publish) : Type 0 where
  pub size : p.header.size < 2 ^ 32
  pub topic_len : p.topic_len < 2 ^ 16
  pub message_len : p.message_len < 2 ^ 32

module _ (p : Publish) (w : IsWire p) (body : List ℕ) where
  Takes-publish_cut :
      p.topic_len + p.message_len ≤ length body
      → Takes unpack_publish
          (publish_front p ++ (take p.topic_len body ++ take p.message_len (drop p.topic_len body)))
          (publish_cut p body)
  unfolding unpack_publish
  Takes-publish_cut h =
      let rest = drop p.topic_len body in
      Takes-then _ (Takes-header p.header.size p.header.opcode w.size) (
        Takes-then _ (Takes-uint16 p.topic_len w.topic_len) (
          Takes-then _ (Takes-uint32 p.message_len w.message_len) (
            Takes-then _ (Takes-uint8 p.qos) (
              Takes-then _ (Takes-uint8 p.retain) (
                Takes-then _ (Takes-uint8 p.dup) (
                  Takes-then _
                    (Takes-string (take p.topic_len body) p.topic_len
                      (omega (arith, length-take p.topic_len body)))
                    (Takes-last _ (
                      Takes-string (take p.message_len rest) p.message_len (
                        omega (
                          arith,
                          length-take p.message_len rest,
                          length-drop p.topic_len body,
                        ))))))))))

  Overruns-publish :
      length body < p.topic_len + p.message_len → Overruns unpack_publish (publish_front p ++ body)
  unfolding unpack_publish
  Overruns-publish h = Overruns-then _ (Takes-header p.header.size p.header.opcode w.size) (
      Overruns-then _ (Takes-uint16 p.topic_len w.topic_len) (
        Overruns-then _ (Takes-uint32 p.message_len w.message_len) (
          Overruns-then _ (Takes-uint8 p.qos) (
            Overruns-then _ (Takes-uint8 p.retain) (
              Overruns-then _ (Takes-uint8 p.dup) (elim (lt-or-le (length body) p.topic_len) [
                | inl short ↦ Overruns-here _ (Overruns-string body p.topic_len short)
                | inr long ↦ rw (← take-append-drop p.topic_len body) (
                    Overruns-then _
                      (Takes-string (take p.topic_len body) p.topic_len
                        (omega (arith, length-take p.topic_len body)))
                      (Overruns-here _ (
                        Overruns-string (drop p.topic_len body) p.message_len
                          (omega (arith, length-drop p.topic_len body)))))
              ]))))))

  split :
      (take p.topic_len body ++ take p.message_len (drop p.topic_len body))
        ++ drop p.message_len (drop p.topic_len body)
      ≡ body
  split =
      append_assoc (take p.topic_len body) _ _
      ∙ ap (λ t. take p.topic_len body ++ t)
          (take-append-drop p.message_len (drop p.topic_len body))
      ∙ take-append-drop p.topic_len body

  -- unpack_publish reads outside the block exactly when the two lengths in the packet add up to more
  -- than the bytes behind the fixed part. Otherwise it returns the strings of those lengths.
  pub unpack_publish_bounds : unpacked unpack_publish (publish_front p ++ body) ≡ (
      if ltb (length body) (p.topic_len + p.message_len) then none else some (publish_cut p body))
  unpack_publish_bounds = elim (lt-or-le (length body) (p.topic_len + p.message_len)) [
    | inl short ↦ rw (lt→ltb _ _ short) (unpacked-Overruns unpack_publish (Overruns-publish short))
    | inr fits ↦ rw (le→not-ltb _ _ fits) (
        subst (λ b. unpacked unpack_publish (publish_front p ++ b) ≡ some (publish_cut p body))
          split
          (unpacked-Takes unpack_publish (drop p.message_len (drop p.topic_len body))
            (Takes-publish_cut fits)))
  ]
