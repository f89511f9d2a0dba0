-- ===== src/Sizigy/Sound.antt =====
-- The invariant of the state between two calls of the event loop: the lock is free, the topics of the
-- table are there, and what a topic points to is there.
use sizigy.Base.{ℕ, ◌≡◌, false, Option, none, some, List, [], ◌∷◌, length}
use sizigy.Hashmap.Values.{AllVals}
use sizigy.Server.Delivery.{AllLive, fd_at}
use sizigy.Sizigy.{Client, Message, Subscription, Topic, State, cell}

-- What a pointer that is not null points to is there.
abbrev pub PointsTo : {A : Type 0} → List (Option A) → Option ℕ → Type 0
PointsTo {A} blocks none = Unit {0}
PointsTo {A} blocks (some p) = (a : A) × (cell blocks p ≡ some a)

-- The subscribers of a topic are clients that are there, as many as its list says, and so is the
-- message it retains.
pub record IsTopic (clients : List (Option Client)) (messages : List (Option Message)) (t : Topic)
    : Type 0 where
  pub live : AllLive (fd_at clients) t.subscribers.chain
  pub counted : length t.subscribers.chain ≡ t.subscribers.len
  pub kept : PointsTo messages t.retained

pub record IsSound {W : Type 0} (s : State W) : Type 0 where
  pub lock : s.lock ≡ false
  pub points : AllVals (PointsTo s.topic_blocks) s.topics.entries
  pub topics :
      (p : ℕ) (t : Topic)
      → cell s.topic_blocks p ≡ some t
      → IsTopic s.client_blocks s.message_blocks t
  pub apart :
      (p q m : ℕ) (t u : Topic)
      → cell s.topic_blocks p ≡ some t
      → cell s.topic_blocks q ≡ some u
      → t.retained ≡ some m
      → u.retained ≡ some m
      → p ≡ q

-- The client is there.
abbrev pub IsLive : {W : Type 0} → ℕ → State W → Type 0
IsLive p s = (fd : ℕ) × (fd_at s.client_blocks p ≡ some fd)

-- What a call that leaves the topics and the messages alone may do: clients come and change, and none
-- goes.
pub record Quiet {W : Type 0} (s s' : State W) : Type 0 where
  pub lock : s'.lock ≡ s.lock
  pub topics : s'.topics ≡ s.topics
  pub topic_blocks : s'.topic_blocks ≡ s.topic_blocks
  pub message_blocks : s'.message_blocks ≡ s.message_blocks
  pub live : (q : ℕ) → IsLive q s → IsLive q s'

AllLive-grow :
    (f g : ℕ → Option ℕ) (subs : List Subscription)
    → ((q : ℕ) → (fd : ℕ) × (f q ≡ some fd) → (fd : ℕ) × (g q ≡ some fd))
    → AllLive f subs
    → AllLive g subs
AllLive-grow f g [] more h = tt
AllLive-grow f g (x ∷ xs) more (l, h) = (more x.client l, AllLive-grow f g xs more h)

module _ {W : Type 0} (s s' : State W) (q : Quiet s s') where
  IsTopic-quiet :
      (t : Topic)
      → IsTopic s.client_blocks s.message_blocks t
      → IsTopic s'.client_blocks s'.message_blocks t
  IsTopic-quiet t h = record {
    live =
        AllLive-grow (fd_at s.client_blocks) (fd_at s'.client_blocks) t.subscribers.chain q.live
          h.live;
    counted = h.counted;
    kept = rw q.message_blocks h.kept;
  }

  pub IsSound-quiet : IsSound s → IsSound s'
  IsSound-quiet h = record {
    lock = rw q.lock h.lock;
    points = rw (q.topic_blocks, q.topics) h.points;
    topics = λ p t here. IsTopic-quiet t (h.topics p t (rw (← q.topic_blocks) here));
    apart =
        λ p p' m t u a b. h.apart p p' m t u (rw (← q.topic_blocks) a) (rw (← q.topic_blocks) b);
  }
