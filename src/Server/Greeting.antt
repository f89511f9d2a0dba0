-- ===== src/Server/Greeting.antt =====
-- What reply_handler does with a SUBACK reply: the SUBACK, and the message that the topic retains.

use sizigy.Base.{
  ℕ, ◌^◌, ◌==◌, ◌≡◌, ◌<◌, refl, sym, ap, ◌∙◌, Bool, Bool-cases, inl, inr, arith, ◌+◌, ◌≤◌, true,
  false, Option, none, some, List, [], ◌∷◌, ◌++◌, length, if◌then◌else◌, append_assoc, append-nil,
}
use sizigy.Buffer.{Allocator}
use sizigy.Network.Willing.{sendall_willing}
use sizigy.Packet.{publish_pkt, pack_publish}
use sizigy.Packet.Opcode
use sizigy.Packet.Roundtrip.{packed}
use sizigy.Server.Delivery.{IsServing, wire-send}
use sizigy.Server.Handlers.{nought}
use sizigy.Server.Publishing.{send_to_willing}
use sizigy.Server.Steps.{reply_block, reply_retained, reply_with}
use sizigy.Server.Subscribing.{acking}
use sizigy.Sizigy.{
  Written, written, Client, Message, Subscription, Subscribers, Net, State, returns, ◌>>=◌, ◌>>◌,
  cell,
}
use sizigy.Sizigy.Ops.{head_insert}
use sizigy.Sizigy.Runs.{load_message_lem}
use sizigy.Sizigy.Clients.{with_client, update-with}

twice :
    (b : Bool) (w x y : List ℕ)
    → (w ++ (if b then x else [])) ++ (if b then y else []) ≡ w ++ (if b then x ++ y else [])
twice true w x y = append_assoc w x y
twice false w x y = append-nil (w ++ [])

empty : {A : Type 0} (xs : List A) → length xs ≤ 0 → xs ≡ []
empty [] h = refl
empty (x ∷ xs) h = absurd (omega arith)

-- A list that is no longer than its `len` takes the new node in front.
pub head_insert_lem :
    (l : Subscribers) (x : Subscription)
    → length l.chain ≤ l.len
    → head_insert l x ≡ record { chain = x ∷ l.chain; len = l.len + 1 }
head_insert_lem l x sized = elim (Bool-cases (l.len == 0)) [
  | inl none_there ↦
      let bare : l.chain ≡ [] = empty l.chain (ground arith) in
      ap (λ b. record { chain = if b then x ∷ [] else x ∷ l.chain; len = l.len + 1 }) none_there
      ∙ ap (λ c. record { chain = x ∷ c; len = l.len + 1 }) (sym bare)
  | inr some_there ↦
      ap (λ b. record { chain = if b then x ∷ [] else x ∷ l.chain; len = l.len + 1 }) some_there
]

module _ {W : Type 0} (alloc : Allocator) where
  -- The bytes of the message that the topic retains, behind the SUBACK.
  abbrev pub Greets : State W → Option ℕ → List ℕ → Type 0
  Greets s none extra = extra ≡ []
  Greets s (some m) extra =
      (r : Message) × (cell s.message_blocks m ≡ some r)
      × (packed alloc (publish_pkt r.topic r.payload r.qos 1 0).header.size
            (pack_publish (publish_pkt r.topic r.payload r.qos 1 0))
          ≡ some extra)

  pub Greets-kept :
      (s s' : State W) (retained : Option ℕ) (extra : List ℕ)
      → s'.message_blocks ≡ s.message_blocks
      → Greets s retained extra
      → Greets s' retained extra
  Greets-kept s s' none extra same g = g
  Greets-kept s s' (some m) extra same (r, here, made) = (r, ap (λ b. cell b m) same ∙ here, made)

module _ {W : Type 0} (net : Net W) (serving : IsServing net) where
  unfoldable pub after_send : ℕ → (bytes : List ℕ) → length bytes < 2 ^ 31 → State W → State W
  after_send fd bytes small s = record s {
    world = (sendall_willing (net.socket fd) bytes s.world (serving.willing fd) small).world;
  }

  pub reply_block_lem :
      (calloc : ℕ → Bool) (alloc : Allocator) (opcode fd : ℕ) (bytes : List ℕ)
      (small : length bytes < 2 ^ 31) (retained : Written (Option ℕ)) (s : State W)
      → reply_block net calloc alloc (acking opcode fd bytes retained) s
        ≡ returns (nought, after_send fd bytes small s)
  unfolding reply_block after_send
  reply_block_lem calloc alloc opcode fd bytes small retained s =
      rw (reply_block, ◌>>=◌, send_to_willing net serving fd bytes small s)

  wire-after_send :
      (a : ℕ) (bytes : List ℕ) (small : length bytes < 2 ^ 31) (s : State W) (fd : ℕ)
      → (net.socket fd).sent (after_send a bytes small s).world
        ≡ (net.socket fd).sent s.world ++ (if a == fd then bytes else [])
  unfolding after_send
  wire-after_send a bytes small s fd = wire-send net serving bytes small a fd s.world

  module _ (calloc : ℕ → Bool) (alloc : Allocator) (p : ℕ) where
    -- A run of reply_handler's branches for a SUBACK reply.
    pub record Greeted (c : Client) (fd : ℕ) (bytes extra : List ℕ) (retained : Option ℕ)
        (s : State W) : Type 0 where
      pub state : State W
      pub time : ℕ
      pub inside : p < length state.client_blocks
      pub runs :
          reply_with net calloc alloc p
            (acking Opcode.suback fd bytes (written retained))
            (with_client s p c)
          ≡ returns (nought, with_client state p (record c { last_action_time = time }))
      pub wires :
          (q : ℕ)
          → (net.socket q).sent state.world
            ≡ (net.socket q).sent s.world ++ (if fd == q then bytes ++ extra else [])
      pub armed : state.armed ≡ s.armed
      pub topic_blocks : state.topic_blocks ≡ s.topic_blocks

    pub reply_with_suback :
        (c : Client) (fd : ℕ) (bytes extra : List ℕ) (retained : Option ℕ) (s : State W)
        → (small : length bytes < 2 ^ 31) → (extra_small : length extra < 2 ^ 31)
        → p < length s.client_blocks
        → Greets alloc s retained extra
        → Greeted c fd bytes extra retained s
    unfolding reply_with after_send
    reply_with_suback c fd bytes extra none s small extra_small inside none_kept = record {
      state = after_send fd bytes small s;
      time = c.last_action_time;
      inside = inside;
      runs =
          reply_block_lem calloc alloc Opcode.suback fd bytes small (written none)
            (with_client s p c);
      wires = λ q.
          wire-after_send fd bytes small s q
          ∙ ap (λ t. (net.socket q).sent s.world ++ (if fd == q then t else []))
              (sym (append-nil bytes) ∙ ap (λ t. bytes ++ t) (sym none_kept));
      armed = refl;
      topic_blocks = refl;
    }
    reply_with_suback c fd bytes extra (some m) s small extra_small inside (r, here, made) =
        let s1 = after_send fd bytes small s in
        let s2 = after_send fd extra extra_small s1 in
        record {
          state = s2;
          time = net.time s2.world;
          inside = inside;
          runs = rw (
            reply_retained,
            ◌>>=◌,
            reply_block_lem calloc alloc Opcode.suback fd bytes small (written (some m))
                (with_client s p c),
            ◌>>=◌,
            load_message_lem (with_client s1 p c) m r here,
            ◌>>=◌,
            made,
            ◌>>=◌,
            send_to_willing net serving fd extra extra_small (with_client s1 p c),
            ◌>>◌,
            update-with s2 p inside net c,
          );
          wires = λ q.
              wire-after_send fd extra extra_small s1 q
              ∙ ap (λ w. w ++ (if fd == q then extra else [])) (wire-after_send fd bytes small s q)
              ∙ twice (fd == q) ((net.socket q).sent s.world) bytes extra;
          armed = refl;
          topic_blocks = refl;
        }
