-- ===== src/Server/Dispatch.antt =====
-- unpack_packet of src/server.c, and the search of request_handler for a command.
use sizigy.Base.{
  ℕ, ◌≡◌, refl, sym, ap, ◌∙◌, not, Bool, true, false, ◌||◌, Option, none, some, List, [], ◌∷◌, ◌==◌,
  if◌then◌else◌, arith,
}
use sizigy.Buffer.{Buffer}
use sizigy.Packet.{
  Connect, Subscribe, Publish, Ack, unpack_connect, unpack_subscribe, unpack_publish, unpack_ack,
}
use sizigy.Packet.Opcode

-- What the `void *` of unpack_packet points to; `absent` is `NULL`.
pub data Unpacked : Type 0 where
  connection : Connect → Unpacked
  subscription : Subscribe → Unpacked
  publication : Publish → Unpacked
  acknowledgement : Ack → Unpacked
  absent : Unpacked

pub data Handler : Type 0 where
  connect_handler publish_handler pingreq_handler : Handler
  subscribe_handler unsubscribe_handler disconnect_handler : Handler

abbrev pub commands : List (ℕ × Handler)
commands =
    (Opcode.connect, connect_handler)
    ∷ (Opcode.publish, publish_handler)
    ∷ (Opcode.pingreq, pingreq_handler)
    ∷ (Opcode.subscribe, subscribe_handler)
    ∷ (Opcode.unsubscribe, unsubscribe_handler)
    ∷ (Opcode.disconnect, disconnect_handler)
    ∷ []

-- The packet that a reader returns, as one of several kinds.
abbrev as_kind : {A : Type 0} → (A → Unpacked) → Option (A × Buffer) → Option Unpacked
as_kind kind none = none
as_kind kind (some (pkt, b)) = some (kind pkt)

-- `none` where a reader leaves its buffer.
unfoldable pub unpack_packet : ℕ → Buffer → Option Unpacked
unpack_packet opcode b =
    if opcode == Opcode.connect
    then as_kind connection (unpack_connect b)
    else (if opcode == Opcode.subscribe
        then as_kind subscription (unpack_subscribe b)
        else (if opcode == Opcode.publish
            then as_kind publication (unpack_publish b)
            else (if opcode == Opcode.suback
                  || (opcode == Opcode.puback || opcode == Opcode.pingreq)
                then as_kind acknowledgement (unpack_ack b)
                else some absent)))

-- The loop over `commands_hashmap`: the handlers that it calls, in their order.
unfoldable pub matching : ℕ → List (ℕ × Handler) → List Handler
matching opcode [] = []
matching opcode ((ctype, handler) ∷ rest) =
    if ctype == opcode then handler ∷ matching opcode rest else matching opcode rest

-- What request_handler does with a received packet: it returns -1, or it calls handlers.
pub data Request : Type 0 where
  rejected : Request
  called : List Handler → Request

unfoldable pub request : ℕ → Buffer → Option Request
request opcode b = elim (unpack_packet opcode b) [
  | none ↦ none
  | some absent ↦ some rejected
  | some (connection p) ↦ some (called (matching opcode commands))
  | some (subscription p) ↦ some (called (matching opcode commands))
  | some (publication p) ↦ some (called (matching opcode commands))
  | some (acknowledgement p) ↦ some (called (matching opcode commands))
]

-- The opcodes of the packets that the broker answers.
abbrev answer_to : ℕ → Request
answer_to opcode =
    if opcode == Opcode.connect
    then called (connect_handler ∷ [])
    else (if opcode == Opcode.publish
        then called (publish_handler ∷ [])
        else (if opcode == Opcode.pingreq
            then called (pingreq_handler ∷ [])
            else (if opcode == Opcode.subscribe
                then called (subscribe_handler ∷ [])
                else (if opcode == Opcode.suback || opcode == Opcode.puback
                    then called []
                    else rejected))))

abbrev is_absent : Unpacked → Bool
is_absent absent = true
is_absent (connection p) = false
is_absent (subscription p) = false
is_absent (publication p) = false
is_absent (acknowledgement p) = false

-- Not one of the opcodes that unpack_packet knows.
abbrev is_unknown : ℕ → Bool
is_unknown opcode = not (
    opcode == Opcode.connect
    || (opcode == Opcode.subscribe
        || (opcode == Opcode.publish
            || (opcode == Opcode.suback || (opcode == Opcode.puback || opcode == Opcode.pingreq)))))

abbrev or_absent : Option Unpacked → Bool
or_absent none = true
or_absent (some u) = is_absent u

as_kind_present :
    {A : Type 0} (kind : A → Unpacked) (r : Option (A × Buffer)) (u : Unpacked)
    → ((p : A) → is_absent (kind p) ≡ false)
    → as_kind kind r ≡ some u
    → is_absent u ≡ false
as_kind_present kind none u h e = cc
as_kind_present kind (some (p, b)) u h e = ap or_absent (sym e) ∙ h p

is_absent-unpack_packet :
    (opcode : ℕ) (b : Buffer) (u : Unpacked)
    → unpack_packet opcode b ≡ some u
    → is_absent u ≡ is_unknown opcode
unfolding unpack_packet
is_absent-unpack_packet opcode b u e = ground (
  arith,
  as_kind_present connection (unpack_connect b) u (λ p. refl),
  as_kind_present subscription (unpack_subscribe b) u (λ p. refl),
  as_kind_present publication (unpack_publish b) u (λ p. refl),
  as_kind_present acknowledgement (unpack_ack b) u (λ p. refl),
)

called_or_rejected :
    (opcode : ℕ) (b : Buffer) (u : Unpacked)
    → (elim u [
      | absent ↦ some rejected
      | connection p ↦ some (called (matching opcode commands))
      | subscription p ↦ some (called (matching opcode commands))
      | publication p ↦ some (called (matching opcode commands))
      | acknowledgement p ↦ some (called (matching opcode commands))
    ])
      ≡ some (if is_absent u then rejected else called (matching opcode commands))
called_or_rejected opcode b absent = refl
called_or_rejected opcode b (connection p) = refl
called_or_rejected opcode b (subscription p) = refl
called_or_rejected opcode b (publication p) = refl
called_or_rejected opcode b (acknowledgement p) = refl

request-called :
    (opcode : ℕ) (b : Buffer) (u : Unpacked)
    → unpack_packet opcode b ≡ some u
    → request opcode b ≡ some (if is_absent u then rejected else called (matching opcode commands))
unfolding request
request-called opcode b u e = rw (request, e) (called_or_rejected opcode b u)

matching_lem :
    (opcode : ℕ)
    → (if is_unknown opcode then rejected else called (matching opcode commands)) ≡ answer_to opcode
unfolding matching
matching_lem opcode = ground arith

-- A packet that its reader does not overrun calls one handler if it is a CONNECT, PUBLISH, PINGREQ or
-- SUBSCRIBE packet and none if it is a SUBACK or PUBACK packet. Every other packet, UNSUBSCRIBE and
-- DISCONNECT among them, is rejected with -1 before any handler is called.
pub request_lem :
    (opcode : ℕ) (b : Buffer) (u : Unpacked)
    → unpack_packet opcode b ≡ some u
    → request opcode b ≡ some (answer_to opcode)
request_lem opcode b u e =
    request-called opcode b u e
    ∙ ap (λ x. some (if x then rejected else called (matching opcode commands)))
        (is_absent-unpack_packet opcode b u e)
    ∙ ap some (matching_lem opcode)
