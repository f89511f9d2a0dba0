-- ===== src/Server/Upkeep/Topics.antt =====
-- The calls that make a topic, subscribe to it, and retain a message for it.
use sizigy.Base.{
  ℕ, suc, ◌+◌, ◌==◌, ◌≡◌, refl, Bool, true, Option, none, some, List, [], ◌∷◌, ◌++◌, length,
  Bool-cases, inl, inr, arith,
}
use sizigy.Buffer.Words.{text}
use sizigy.Hashmap as Table
use sizigy.Hashmap.Values.{AllVals, Answers, put-vals, get-vals}
use sizigy.Server.Delivery.{fd_at}
use sizigy.Server.Handlers.{topic_of}
use sizigy.Sizigy.{
  Client, Message, Topic, Subscription, State, M, ◌>>=◌, ◌>>◌, pure, asked, defined, get_state,
  put_state,
}
use sizigy.Sizigy.Keeps.{Ensures, Keeps, Keeps-bind, Keeps-get_state, Keeps-asked, Keeps-pure}
use sizigy.Sizigy.Ops.{
  create_topic, put_topic, head_insert, add_subscriber, locked, load_topic, store_topic,
}
use sizigy.Sizigy.Sound.{PointsTo, IsTopic, IsLive}
use sizigy.Sizigy.Topics.{
  Ready, PointsTo-snoc, IsSound-new, IsSound-store, IsSound-unlocked, AllVals-map, new_topic,
}
use sizigy.Server.Retaining.{cell-snoc}

zero_len : (n : ℕ) → (n == 0) ≡ true → n ≡ 0
zero_len n e = ground arith

IsTopic-insert :
    (clients : List (Option Client)) (messages : List (Option Message)) (t : Topic)
    (sub : Subscription)
    → IsTopic clients messages t
    → ((fd : ℕ) × (fd_at clients sub.client ≡ some fd))
    → IsTopic clients messages (record t { subscribers = head_insert t.subscribers sub })
IsTopic-insert clients messages t sub h live = elim (Bool-cases (t.subscribers.len == 0)) [
  | inl first ↦
      let one_more : 1 ≡ t.subscribers.len + 1 = omega (arith, zero_len t.subscribers.len first) in
      record { live = rw first (live, tt); counted = rw first one_more; kept = h.kept }
  | inr more ↦
      let one_more : suc (length t.subscribers.chain) ≡ t.subscribers.len + 1 =
        omega (arith, h.counted) in
      record { live = rw more (live, h.live); counted = rw more one_more; kept = h.kept }
]

module _ {W : Type 0} (c : ℕ) where
  made :
      (name : List ℕ) (s : State W) (o : Table.Outcome (Table.Status × Table.Hashmap ℕ))
      → Answers
          (λ (a : Table.Status × Table.Hashmap ℕ).
            AllVals (PointsTo (s.topic_blocks ++ (some (new_topic name) ∷ []))) a.1.entries)
          o
      → Ready c s
      → Ensures {W = W} {A = ℕ} (Ready c) (
          ((do
            (status, m) ← asked o
            put_state (record s {
              topic_blocks = s.topic_blocks ++ (some (new_topic name) ∷ []);
              topics = m;
            }))
              >> pure (length s.topic_blocks))
            (record s { topic_blocks = s.topic_blocks ++ (some (new_topic name) ∷ []) }))
  made name s (Table.returns (status, m)) points (sound, live) =
      (IsSound-new s name m points sound, live)
  made name s Table.deadlock points ready = tt
  made name s Table.out_of_fuel points ready = tt

  pub Keeps-topic_of :
      (calloc : ℕ → Bool) (name : List ℕ) → Keeps (Ready c) (topic_of {W = W} calloc name)
  unfolding topic_of create_topic put_topic
  Keeps-topic_of calloc name = Keeps-bind get_state _ Keeps-get_state (λ s.
      Keeps-bind (asked (Table.get s.topics (text name))) _
        (Keeps-asked (Table.get s.topics (text name))) (λ raw. either raw))
    where
      created :
          Keeps
            (Ready c)
            (create_topic {W = W} name >>= (λ t. put_topic calloc (text name) t >> pure t))
      created = record {
        at = λ s h.
            made name s (Table.put calloc 2 s.topics (text name) (some (length s.topic_blocks)))
              (put-vals (PointsTo (s.topic_blocks ++ (some (new_topic name) ∷ []))) tt calloc 2
                s.topics (text name) (some (length s.topic_blocks))
                (AllVals-map (PointsTo s.topic_blocks)
                  (PointsTo (s.topic_blocks ++ (some (new_topic name) ∷ []))) s.topics.entries
                  (PointsTo-snoc s.topic_blocks (new_topic name)) h.0.points)
                (new_topic name, cell-snoc s.topic_blocks (new_topic name)))
              h;
      }

      either :
          (raw : Option ℕ)
          → Keeps (Ready c) (elim raw as (λ x. M W ℕ) [
            | none ↦ create_topic {W = W} name >>= (λ t. put_topic calloc (text name) t >> pure t)
            | some t ↦ pure t
          ])
      either none = created
      either (some t) = Keeps-pure t

  -- The subscriber is put in the topic that the table answers with, if any.
  inserted :
      (s : State W) (sub : Subscription) (raw : Option ℕ)
      → PointsTo s.topic_blocks raw
      → IsLive sub.client s
      → Ready c s
      → Ensures (Ready c) (
          locked
            (do
              p ← defined raw
              t ← load_topic p
              store_topic p (record t { subscribers = head_insert t.subscribers sub }))
            s)
  unfolding locked load_topic store_topic
  inserted s sub none points here (sound, live) = rw (Ensures, sound.lock) tt
  inserted s sub (some p) (t, there) here (sound, live) =
      rw (sound.lock, ◌>>=◌, there)
        (
          IsSound-unlocked _ (
              IsSound-store s p t (record t { subscribers = head_insert t.subscribers sub }) there
                refl
                (IsTopic-insert s.client_blocks s.message_blocks t sub (sound.topics p t there)
                  here)
                sound),
          live,
        )

  answered :
      (s : State W) (sub : Subscription) (o : Table.Outcome (Option ℕ))
      → Answers (PointsTo s.topic_blocks) o
      → IsLive sub.client s
      → Ready c s
      → Ensures (Ready c) (
          (asked o >>= (λ raw. locked (do
            p ← defined raw
            t ← load_topic p
            store_topic p (record t { subscribers = head_insert t.subscribers sub }))))
            s)
  answered s sub (Table.returns raw) points here ready = inserted s sub raw points here ready
  answered s sub Table.deadlock points here ready = tt
  answered s sub Table.out_of_fuel points here ready = tt

  pub Keeps-add_subscriber :
      (topic : List ℕ) (qos : ℕ)
      → Keeps (Ready c) (add_subscriber {W = W} (record { client = c; topic = topic; qos = qos }))
  unfolding add_subscriber
  Keeps-add_subscriber topic qos = record {
    at = λ s h.
        answered s (record { client = c; topic = topic; qos = qos })
          (Table.get s.topics (text topic))
          (get-vals (PointsTo s.topic_blocks) tt s.topics (text topic) h.0.points) h.1 h;
  }
