-- ===== src/Server/Upkeep/Retain.antt =====
-- retain_message leaves the broker sound: the message that it frees is retained by no other topic.
use mathlib.Core.Path.{subst}
use native.Mathlib.Decide.{ℕ_discrete}
use sizigy.Base.{
  ◌⊎◌, ℕ, ◌≡◌, ◌≢◌, refl, sym, ap, ◌∙◌, Option, none, some, List, set, Option-cases, inl, inr,
  arith,
}
use sizigy.Packet.{Publish}
use sizigy.Server.Reply.{retain_message}
use sizigy.Server.Retaining.{
  IsKept, Retained, retain_message_lem, retain_message-missing, cell-set_other,
}
use sizigy.Sizigy.{Topic, Net, State, cell}
use sizigy.Sizigy.Clients.{cell-lt}
use sizigy.Sizigy.Keeps.{Keeps}
use sizigy.Sizigy.Sound.{PointsTo, IsTopic, IsSound}
use sizigy.Sizigy.Topics.{Ready, PointsTo-set, AllVals-map}

pub IsKept-points :
    {W : Type 0} (s : State W) (o : Option ℕ) → PointsTo s.message_blocks o → IsKept s o
IsKept-points s none h = tt
IsKept-points s (some m) h = h

some_inj : {A : Type 0} {a b : A} → some a ≡ some b → a ≡ b
some_inj e = cc

module _ {W : Type 0} (net : Net W) (tp : ℕ) (msg : Publish) (sender : List ℕ) where
  module _ (s : State W) (t : Topic) (here : cell s.topic_blocks tp ≡ some t)
      (r : Retained net tp t msg sender s) (h : IsSound s) where
    -- What another topic retains is neither freed nor the new message.
    points_still :
        (q : ℕ) (u : Topic) (o : Option ℕ)
        → q ≢ tp
        → cell s.topic_blocks q ≡ some u
        → u.retained ≡ o
        → PointsTo s.message_blocks o
        → PointsTo r.state.message_blocks o
    points_still q u none n there e kept = tt
    points_still q u (some m) n there e (x, live) =
        (x, r.others m x live (λ f. n (h.apart q tp m u t there here e f)))

    not_new : (q : ℕ) (u : Topic) → cell s.topic_blocks q ≡ some u → u.retained ≢ some r.place
    not_new q u there e =
        let (x, live) : PointsTo s.message_blocks (some r.place) =
          subst (PointsTo s.message_blocks) e (h.topics q u there).kept in
        absurd (omega (arith, cell-lt s.message_blocks r.place x live, r.new))

    kept_topic : Topic
    kept_topic = record t { retained = some r.place }

    owner :
        (q : ℕ) (u : Topic)
        → cell r.state.topic_blocks q ≡ some u
        → ((q ≡ tp) × (u ≡ kept_topic)) ⊎ ((q ≢ tp) × (cell s.topic_blocks q ≡ some u))
    unfolding kept_topic
    owner q u e = elim (ℕ_discrete q tp) [
      | yes same ↦ inl (same, some_inj (sym e ∙ ap (cell r.state.topic_blocks) same ∙ r.topic))
      | no other ↦ inr (
        other,
        sym (cell-set_other s.topic_blocks tp q (some kept_topic) (λ k. other (sym k)))
            ∙ ap (λ blocks. cell blocks q) (sym r.topic_blocks)
            ∙ e,
      )
    ]

    IsTopic-kept : IsTopic r.state.client_blocks r.state.message_blocks kept_topic
    unfolding kept_topic
    IsTopic-kept =
        let old = h.topics tp t here in
        record { live = rw r.clients old.live; counted = old.counted; kept = (_, r.message) }

    IsTopic-other :
        (q : ℕ) (u : Topic)
        → q ≢ tp
        → cell s.topic_blocks q ≡ some u
        → IsTopic r.state.client_blocks r.state.message_blocks u
    IsTopic-other q u n there =
        let old = h.topics q u there in
        record {
          live = rw r.clients old.live;
          counted = old.counted;
          kept = points_still q u u.retained n there refl old.kept;
        }

    IsSound-retained : IsSound r.state
    unfolding kept_topic
    IsSound-retained = record {
      lock = r.lock ∙ h.lock;
      points =
          rw (r.topics, r.topic_blocks)
            (AllVals-map (PointsTo s.topic_blocks)
              (PointsTo (set s.topic_blocks tp (some (record t { retained = some r.place }))))
              s.topics.entries
              (PointsTo-set s.topic_blocks tp (record t { retained = some r.place })) h.points);
      topics = λ q u e. elim (owner q u e) [
        | inl (same, new) ↦ rw new IsTopic-kept
        | inr (other, old) ↦ IsTopic-other q u other old
      ];
      apart = λ a b m u v ea eb ra rb. elim (owner a u ea) [
        | inl (same, new) ↦ elim (owner b v eb) [
          | inl (same', new') ↦ same ∙ sym same'
          | inr (other, old) ↦ absurd (not_new b v old (rb ∙ sym ra ∙ ap (λ x. x.retained) new))
        ]
        | inr (other, old) ↦ elim (owner b v eb) [
          | inl (same', new') ↦ absurd (not_new a u old (ra ∙ sym rb ∙ ap (λ x. x.retained) new'))
          | inr (other', old') ↦ h.apart a b m u v old old' ra rb
        ]
      ];
    }

  pub Keeps-retain_message : (c : ℕ) → Keeps (Ready c) (retain_message net tp msg sender)
  Keeps-retain_message c = record {
    at = λ s h. elim (Option-cases (cell s.topic_blocks tp)) [
      | inl gone ↦ rw (retain_message-missing net tp msg sender s gone) tt
      | inr (t, here) ↦
          let r =
            retain_message_lem net tp msg sender s t t.retained here
              (IsKept-points s t.retained (h.0.topics tp t here).kept) in
          rw r.runs (IsSound-retained s t here r h.0, rw r.clients h.1)
    ];
  }
