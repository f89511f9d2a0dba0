-- ===== src/Sizigy/Topics.antt =====
-- The calls that make a topic, subscribe to it, and retain a message for it.
use native.Mathlib.Decide.{ℕ_discrete}
use sizigy.Base.{
  ℕ, zero, suc, ◌⊎◌, inl, inr, ◌≡◌, refl, sym, ap, ◌∙◌, false, Option, none, some, List, [], ◌∷◌,
  ◌++◌, set,
}
use sizigy.Buffer.Words.{text}
use sizigy.Hashmap.{Key}
use sizigy.Hashmap as Table
use sizigy.Hashmap.Values.{AllVals}
use sizigy.Server.Retaining.{cell-append, cell-set_other}
use sizigy.Sizigy.{Topic, State, cell}
use sizigy.Sizigy.Clients.{cell-lt, cell-set_self}
use sizigy.Sizigy.Sound.{PointsTo, IsTopic, IsSound, IsSound-quiet, IsLive, Quiet}

-- A block of the longer list is an old one or the new one.
pub cell-snoc_cases :
    {A : Type 0} (blocks : List (Option A)) (x : A) (p : ℕ) (a : A)
    → cell (blocks ++ (some x ∷ [])) p ≡ some a
    → (cell blocks p ≡ some a) ⊎ (a ≡ x)
unfolding cell
cell-snoc_cases [] x zero a e = inr (cc)
cell-snoc_cases [] x (suc p) a e = absurd (cc)
cell-snoc_cases (b ∷ blocks) x zero a e = inl e
cell-snoc_cases (b ∷ blocks) x (suc p) a e = cell-snoc_cases blocks x p a e

-- A block of a list with one put in its place is that one or an old one.
pub cell-set_cases :
    {A : Type 0} (blocks : List (Option A)) (p : ℕ) (x : A) (q : ℕ) (a : A)
    → cell (set blocks p (some x)) q ≡ some a
    → ((q ≡ p) × (a ≡ x)) ⊎ (cell blocks q ≡ some a)
unfolding cell
cell-set_cases [] p x q a e = inr e
cell-set_cases (b ∷ blocks) zero x zero a e = inl (refl, cc)
cell-set_cases (b ∷ blocks) zero x (suc q) a e = inr e
cell-set_cases (b ∷ blocks) (suc p) x zero a e = inr e
cell-set_cases (b ∷ blocks) (suc p) x (suc q) a e = elim (cell-set_cases blocks p x q a e) [
  | inl (same, new) ↦ inl (ap suc same, new)
  | inr old ↦ inr old
]

pub AllVals-map :
    {V : Type 0} (R S : Option V → Type 0) (es : List (Table.Entry V))
    → ((o : Option V) → R o → S o)
    → AllVals R es
    → AllVals S es
AllVals-map R S [] more h = tt
AllVals-map R S (e ∷ es) more (r, h) = (more e.val r, AllVals-map R S es more h)

pub PointsTo-snoc :
    {A : Type 0} (blocks : List (Option A)) (x : A) (o : Option ℕ)
    → PointsTo blocks o
    → PointsTo (blocks ++ (some x ∷ [])) o
PointsTo-snoc blocks x none h = tt
PointsTo-snoc blocks x (some p) (t, e) =
    (t, cell-append blocks (some x ∷ []) p (cell-lt blocks p t e) ∙ e)

-- A block that is there stays there when one is written.
pub PointsTo-set :
    {A : Type 0} (blocks : List (Option A)) (q : ℕ) (x : A) (o : Option ℕ)
    → PointsTo blocks o
    → PointsTo (set blocks q (some x)) o
PointsTo-set blocks q x none h = tt
PointsTo-set blocks q x (some p) (t, e) = elim (ℕ_discrete q p) [
  | yes same ↦ (x, rw same (cell-set_self blocks p x (cell-lt blocks p t e)))
  | no other ↦ (t, cell-set_other blocks q p (some x) other ∙ e)
]

-- The broker is sound and the client is there.
abbrev pub Ready : {W : Type 0} → ℕ → State W → Type 0
Ready p s = IsSound s × IsLive p s

pub Ready-quiet : {W : Type 0} (p : ℕ) (s s' : State W) → Quiet s s' → Ready p s → Ready p s'
Ready-quiet p s s' q (sound, live) = (IsSound-quiet s s' q sound, q.live p live)

none_not_some : {A : Type 0} {a : A} → none ≡ some a → ⊥
none_not_some e = cc

abbrev pub new_topic : List ℕ → Topic
new_topic name = record {
  name = text name;
  subscribers = record { chain = []; len = 0 };
  retained = none;
}

module _ {W : Type 0} (s : State W) where
  pub IsSound-unlocked : IsSound s → IsSound (record s { lock = false })
  IsSound-unlocked h = record { lock = refl; points = h.points; topics = h.topics; apart = h.apart }

  pub IsSound-new :
      (name : List ℕ) (m : Table.Hashmap ℕ)
      → AllVals (PointsTo (s.topic_blocks ++ (some (new_topic name) ∷ []))) m.entries
      → IsSound s
      → IsSound
          (record s { topic_blocks = s.topic_blocks ++ (some (new_topic name) ∷ []); topics = m })
  IsSound-new name m points h = record {
    lock = h.lock;
    points = points;
    topics = λ p t e. elim (cell-snoc_cases s.topic_blocks (new_topic name) p t e) [
      | inl old ↦ h.topics p t old
      | inr new ↦ rw new (record { live = tt; counted = refl; kept = tt })
    ];
    apart = λ p q i t u a b e f. elim (cell-snoc_cases s.topic_blocks (new_topic name) p t a) [
      | inl old ↦ elim (cell-snoc_cases s.topic_blocks (new_topic name) q u b) [
        | inl old' ↦ h.apart p q i t u old old' e f
        | inr new ↦ absurd (none_not_some (sym (ap (λ x. x.retained) new) ∙ f))
      ]
      | inr new ↦ absurd (none_not_some (sym (ap (λ x. x.retained) new) ∙ e))
    ];
  }

  pub IsSound-store :
      (p : ℕ) (t t' : Topic)
      → cell s.topic_blocks p ≡ some t
      → t'.retained ≡ t.retained
      → IsTopic s.client_blocks s.message_blocks t'
      → IsSound s
      → IsSound (record s { topic_blocks = set s.topic_blocks p (some t') })
  IsSound-store p t t' here same topic h =
      let owner : (q : ℕ) (u : Topic)
          → cell (set s.topic_blocks p (some t')) q ≡ some u
          → (v : Topic) × (cell s.topic_blocks q ≡ some v) × (u.retained ≡ v.retained) =
        λ q u e. elim (cell-set_cases s.topic_blocks p t' q u e) [
          | inl (eq, new) ↦ (t, rw eq here, rw new same)
          | inr old ↦ (u, old, refl)
        ] in
      record {
        lock = h.lock;
        points =
            AllVals-map (PointsTo s.topic_blocks) (PointsTo (set s.topic_blocks p (some t')))
              s.topics.entries (PointsTo-set s.topic_blocks p t') h.points;
        topics = λ q u e. elim (cell-set_cases s.topic_blocks p t' q u e) [
          | inl (eq, new) ↦ rw new topic
          | inr old ↦ h.topics q u old
        ];
        apart = λ a b i u v ea eb ra rb.
            let (u', fa, sa) = owner a u ea in
            let (v', fb, sb) = owner b v eb in
            h.apart a b i u' v' fa fb (sym sa ∙ ra) (sym sb ∙ rb);
      }
