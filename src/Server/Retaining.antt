-- ===== src/Server/Retaining.antt =====
-- retain_message: the message that a topic keeps for those who subscribe later.

use sizigy.Base.{
  ℕ, zero, suc, ◌≡◌, ◌≢◌, ◌<◌, refl, ap, ◌∙◌, Option, none, some, List, [], ◌∷◌, ◌++◌, length, set,
  arith,
}
use sizigy.Buffer.Words.{text}
use sizigy.Packet.{Publish}
use sizigy.Server.Reply.{retain_message}
use sizigy.Sizigy.{Message, Topic, Net, State, returns, undefined, pure, ◌>>=◌, ◌>>◌, cell}
use sizigy.Sizigy.Ops.{store_topic, destroy_message, create_message}
use sizigy.Sizigy.Runs.{load_topic_lem, load_message_lem, load_topic-missing}
use sizigy.Sizigy.Clients.{cell-set_self, cell-lt}

module _ {A : Type 0} where
  pub cell-snoc :
      (blocks : List (Option A)) (a : A) → cell (blocks ++ (some a ∷ [])) (length blocks) ≡ some a
  unfolding cell
  cell-snoc [] a = refl
  cell-snoc (b ∷ blocks) a = cell-snoc blocks a

  pub cell-append :
      (blocks rest : List (Option A)) (p : ℕ)
      → p < length blocks
      → cell (blocks ++ rest) p ≡ cell blocks p
  unfolding cell
  cell-append [] rest p h = absurd (omega arith)
  cell-append (b ∷ blocks) rest zero h = refl
  cell-append (b ∷ blocks) rest (suc p) h = cell-append blocks rest p (omega arith)

  pub cell-set_freed : (blocks : List (Option A)) (p : ℕ) → cell (set blocks p none) p ≡ none
  unfolding cell
  cell-set_freed [] p = refl
  cell-set_freed (b ∷ blocks) zero = refl
  cell-set_freed (b ∷ blocks) (suc p) = cell-set_freed blocks p

  pub cell-set_other :
      (blocks : List (Option A)) (p q : ℕ) (o : Option A)
      → p ≢ q
      → cell (set blocks p o) q ≡ cell blocks q
  unfolding cell
  cell-set_other [] p q o n = refl
  cell-set_other (b ∷ blocks) zero zero o n = absurd (n refl)
  cell-set_other (b ∷ blocks) zero (suc q) o n = refl
  cell-set_other (b ∷ blocks) (suc p) zero o n = refl
  cell-set_other (b ∷ blocks) (suc p) (suc q) o n = cell-set_other blocks p q o (λ e. n (ap suc e))

  set-snoc :
      (blocks : List (Option A)) (a b : Option A)
      → set (blocks ++ (a ∷ [])) (length blocks) b ≡ blocks ++ (b ∷ [])
  set-snoc [] a b = refl
  set-snoc (x ∷ blocks) a b = ap (λ t. x ∷ t) (set-snoc blocks a b)

-- What the topic keeps of a packet.
abbrev pub kept_message : {W : Type 0} → Net W → Publish → List ℕ → W → Message
kept_message net msg sender w = record {
  qos = msg.qos;
  dup = msg.dup;
  retained = 1;
  creation_time = net.time w;
  sender = sender;
  topic = text msg.topic;
  payload = text msg.message;
}

-- The message that a topic retains, if any, is there.
abbrev pub IsKept : {W : Type 0} → State W → Option ℕ → Type 0
IsKept s none = Unit {0}
IsKept s (some old) = (r : Message) × (cell s.message_blocks old ≡ some r)

-- The message that was kept before is freed.
abbrev pub IsFreed : {W : Type 0} → State W → Option ℕ → Type 0
IsFreed s none = Unit {0}
IsFreed s (some old) = cell s.message_blocks old ≡ none

-- A run of retain_message on the topic `t` at `tp`.
pub record Retained {W : Type 0} (net : Net W) (tp : ℕ) (t : Topic) (msg : Publish)
    (sender : List ℕ) (s : State W) : Type 0 where
  pub state : State W
  pub place : ℕ
  pub runs : retain_message net tp msg sender s ≡ returns (tt, state)
  pub topic : cell state.topic_blocks tp ≡ some (record t { retained = some place })
  pub message : cell state.message_blocks place ≡ some (kept_message net msg sender s.world)
  pub freed : IsFreed state t.retained
  pub clients : state.client_blocks ≡ s.client_blocks
  pub topics : state.topics ≡ s.topics
  pub world : state.world ≡ s.world
  pub armed : state.armed ≡ s.armed
  pub lock : state.lock ≡ s.lock
  pub new : place ≡ length s.message_blocks
  pub topic_blocks :
      state.topic_blocks ≡ set s.topic_blocks tp (some (record t { retained = some place }))
  pub others :
      (q : ℕ) (r : Message)
      → cell s.message_blocks q ≡ some r
      → t.retained ≢ some q
      → cell state.message_blocks q ≡ some r

module _ {W : Type 0} (net : Net W) (tp : ℕ) (msg : Publish) (sender : List ℕ) where
  -- The state with the new message behind the blocks.
  grown : State W → State W
  grown s = record s {
    message_blocks = s.message_blocks ++ (some (kept_message net msg sender s.world) ∷ []);
  }

  first_message : State W → Message
  first_message s = record (kept_message net msg sender s.world) { retained = msg.retain }

  retain_steps :
      (s : State W) (t : Topic) (old : Option ℕ)
      → cell s.topic_blocks tp ≡ some (record t { retained = old })
      → retain_message net tp msg sender s
        ≡ (do
          elim old [ none ↦ pure tt | some q ↦ destroy_message q ]
          store_topic tp (record t { retained = some (length s.message_blocks) }))
            (grown s)
  unfolding retain_message create_message grown first_message
  retain_steps s t old here = rw (
    retain_message,
    ◌>>=◌,
    load_message_lem
        (record s { message_blocks = s.message_blocks ++ (some (first_message s) ∷ []) })
        (length s.message_blocks) (first_message s) (cell-snoc s.message_blocks (first_message s)),
    ◌>>=◌,
    set-snoc s.message_blocks (some (first_message s)) (some (kept_message net msg sender s.world)),
    load_topic_lem (grown s) tp (record t { retained = old }) here,
  )

  pub retain_message-missing :
      (s : State W) → cell s.topic_blocks tp ≡ none → retain_message net tp msg sender s ≡ undefined
  unfolding retain_message create_message grown first_message
  retain_message-missing s gone = rw (
    retain_message,
    ◌>>=◌,
    load_message_lem
        (record s { message_blocks = s.message_blocks ++ (some (first_message s) ∷ []) })
        (length s.message_blocks) (first_message s) (cell-snoc s.message_blocks (first_message s)),
    ◌>>=◌,
    set-snoc s.message_blocks (some (first_message s)) (some (kept_message net msg sender s.world)),
    load_topic-missing (grown s) tp gone,
  )

  pub retain_message_lem :
      (s : State W) (t : Topic) (old : Option ℕ)
      → cell s.topic_blocks tp ≡ some (record t { retained = old })
      → IsKept s old
      → Retained net tp (record t { retained = old }) msg sender s
  unfolding store_topic destroy_message grown
  retain_message_lem s t none here kept = record {
    state = record (grown s) {
      topic_blocks =
          set s.topic_blocks tp (some (record t { retained = some (length s.message_blocks) }));
    };
    place = length s.message_blocks;
    runs = retain_steps s t none here;
    topic = cell-set_self s.topic_blocks tp _ (cell-lt s.topic_blocks tp _ here);
    message = cell-snoc s.message_blocks (kept_message net msg sender s.world);
    freed = tt;
    clients = refl;
    topics = refl;
    world = refl;
    armed = refl;
    lock = refl;
    new = refl;
    topic_blocks = refl;
    others = λ i m there n.
        cell-append s.message_blocks _ i (cell-lt s.message_blocks i m there) ∙ there;
  }
  retain_message_lem s t (some q) here (r, live) =
      let before : q < length s.message_blocks = cell-lt s.message_blocks q r live in
      let still : cell (grown s).message_blocks q ≡ some r =
        cell-append s.message_blocks _ q before ∙ live in
      record {
        state = record (grown s) {
          message_blocks = set (grown s).message_blocks q none;
          topic_blocks =
              set s.topic_blocks tp (some (record t { retained = some (length s.message_blocks) }));
        };
        place = length s.message_blocks;
        runs =
            retain_steps s t (some q) here
            ∙ rw (◌>>◌, destroy_message, ◌>>=◌, load_message_lem (grown s) q r still) refl;
        topic = cell-set_self s.topic_blocks tp _ (cell-lt s.topic_blocks tp _ here);
        message =
            cell-set_other (grown s).message_blocks q (length s.message_blocks) none
              (λ e. omega (arith, before, e))
            ∙ cell-snoc s.message_blocks (kept_message net msg sender s.world);
        freed = cell-set_freed (grown s).message_blocks q;
        clients = refl;
        topics = refl;
        world = refl;
        armed = refl;
        lock = refl;
        new = refl;
        topic_blocks = refl;
        others = λ i m there n.
            cell-set_other (grown s).message_blocks q i none (λ e. n (ap some e))
            ∙ cell-append s.message_blocks _ i (cell-lt s.message_blocks i m there)
            ∙ there;
      }
