-- ===== src/Packet/Release.antt =====
-- The functions of src/protocol.c and src/sizigy.c that free a packet or a subscription. Memory says of
-- each block whether it is allocated; to free one that is not is undefined.
use sizigy.Base.{
  ℕ, ◌≡◌, ◌≢◌, Bool, true, false, Option, none, some, List, [], ◌∷◌, ◌>>=◌, get_elem?, set,
}

abbrev pub Memory : Type 0
Memory = List Bool

unfoldable pub free : ℕ → Memory → Option Memory
free p mem = elim (get_elem? mem p) [
  | none ↦ none
  | some live ↦ elim live [ true ↦ some (set mem p false) | false ↦ none ]
]

-- `if (p) { free(p); p = NULL; }`
unfoldable pub free_field : Option ℕ → Memory → Option Memory
unfolding free
free_field none mem = some mem
free_field (some p) mem = free p mem

pub record AckBlock : Type 0 where
  pub self : ℕ
  pub header : Option ℕ

pub record ConnectBlock : Type 0 where
  pub self : ℕ
  pub header : Option ℕ
  pub id : Option ℕ

pub record PublishBlock : Type 0 where
  pub self : ℕ
  pub header : Option ℕ
  pub topic : Option ℕ
  pub message : Option ℕ

-- Of a Subscribe, and of an Unsubscribe.
pub record SubscribeBlock : Type 0 where
  pub self : ℕ
  pub header : Option ℕ
  pub topic : Option ℕ

pub record SubscriptionBlock : Type 0 where
  pub self : ℕ
  pub topic : Option ℕ

-- The last lines: the structure itself, and `*p = NULL`.
abbrev pub free_self : {A : Type 0} → ℕ → Memory → Option (Option A × Memory)
free_self p mem = elim (free p mem) [ none ↦ none | some after ↦ some (none, after) ]

unfoldable pub free_ack : Option AckBlock → Memory → Option (Option AckBlock × Memory)
unfolding free_field
free_ack none mem = some (none, mem)
free_ack (some a) mem = do m1 ← free_field a.header mem; free_self a.self m1

unfoldable pub free_connect : Option ConnectBlock → Memory → Option (Option ConnectBlock × Memory)
unfolding free_field
free_connect none mem = some (none, mem)
free_connect (some c) mem = do
  m1 ← free_field c.header mem
  m2 ← free_field c.id m1
  free_self c.self m2

unfoldable pub free_publish : Option PublishBlock → Memory → Option (Option PublishBlock × Memory)
unfolding free_field
free_publish none mem = some (none, mem)
free_publish (some p) mem = do
  m1 ← free_field p.header mem
  m2 ← free_field p.topic m1
  m3 ← free_field p.message m2
  free_self p.self m3

unfoldable pub free_subscribe :
    Option SubscribeBlock → Memory → Option (Option SubscribeBlock × Memory)
unfolding free_field
free_subscribe none mem = some (none, mem)
free_subscribe (some s) mem = do
  m1 ← free_field s.header mem
  m2 ← free_field s.topic m1
  free_self s.self m2

unfoldable pub free_unsubscribe :
    Option SubscribeBlock → Memory → Option (Option SubscribeBlock × Memory)
unfolding free_field
free_unsubscribe none mem = some (none, mem)
free_unsubscribe (some u) mem = do
  m1 ← free_field u.header mem
  m2 ← free_field u.topic m1
  free_self u.self m2

unfoldable pub destroy_subscription :
    Option SubscriptionBlock → Memory → Option (Option SubscriptionBlock × Memory)
unfolding free_field
destroy_subscription none mem = some (none, mem)
destroy_subscription (some s) mem = do m1 ← free_field s.topic mem; free_self s.self m1

-- One of these structures.
pub data Owner : Type 0 where
  ack : AckBlock → Owner
  connect : ConnectBlock → Owner
  publish : PublishBlock → Owner
  subscribe : SubscribeBlock → Owner
  unsubscribe : SubscribeBlock → Owner
  subscription : SubscriptionBlock → Owner

abbrev pub memory_of : {A : Type 0} → Option (Option A × Memory) → Option (Bool × Memory)
memory_of none = none
memory_of (some (none, mem)) = some (true, mem)
memory_of (some (some a, mem)) = some (false, mem)

-- The function for the structure: whether the pointer is null behind it, and the memory.
unfoldable pub release : Owner → Memory → Option (Bool × Memory)
unfolding free_ack free_connect free_publish free_subscribe free_unsubscribe destroy_subscription
release (ack a) mem = memory_of (free_ack (some a) mem)
release (connect c) mem = memory_of (free_connect (some c) mem)
release (publish p) mem = memory_of (free_publish (some p) mem)
release (subscribe s) mem = memory_of (free_subscribe (some s) mem)
release (unsubscribe u) mem = memory_of (free_unsubscribe (some u) mem)
release (subscription s) mem = memory_of (destroy_subscription (some s) mem)

-- The pointers that the structure owns, and to itself.
abbrev pub owned : Owner → List (Option ℕ)
owned (ack a) = a.header ∷ some a.self ∷ []
owned (connect c) = c.header ∷ c.id ∷ some c.self ∷ []
owned (publish p) = p.header ∷ p.topic ∷ p.message ∷ some p.self ∷ []
owned (subscribe s) = s.header ∷ s.topic ∷ some s.self ∷ []
owned (unsubscribe u) = u.header ∷ u.topic ∷ some u.self ∷ []
owned (subscription s) = s.topic ∷ some s.self ∷ []

-- The block is none of those.
abbrev pub IsApart : ℕ → List (Option ℕ) → Type 0
IsApart p [] = Unit {0}
IsApart p (none ∷ ps) = IsApart p ps
IsApart p (some q ∷ ps) = (p ≢ q) × IsApart p ps

-- The blocks are allocated, each owned once.
abbrev pub AreOwned : Memory → List (Option ℕ) → Type 0
AreOwned mem [] = Unit {0}
AreOwned mem (none ∷ ps) = AreOwned mem ps
AreOwned mem (some p ∷ ps) = (get_elem? mem p ≡ some true) × IsApart p ps × AreOwned mem ps

abbrev pub AreFree : Memory → List (Option ℕ) → Type 0
AreFree mem [] = Unit {0}
AreFree mem (none ∷ ps) = AreFree mem ps
AreFree mem (some p ∷ ps) = (get_elem? mem p ≡ some false) × AreFree mem ps

-- All of them, one after the other.
unfoldable pub free_all : List (Option ℕ) → Memory → Option Memory
free_all [] mem = some mem
free_all (p ∷ ps) mem = do after ← free_field p mem; free_all ps after
