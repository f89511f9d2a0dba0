-- ===== src/Sizigy/Keeps.antt =====
-- Invariants of the calls on the state, one rule for each way to build a call.
use sizigy.Base.{ℕ, Bool, true, false, Option, none, some, if◌then◌else◌}
use sizigy.Hashmap as Table
use sizigy.Sizigy.{
  State, Run, returns, undefined, deadlock, out_of_fuel, M, pure, ◌>>=◌, ◌>>◌, defined, asked,
  get_state, cell, Client, Topic, Message,
}
use sizigy.Sizigy.Ops.{load_client, load_topic, load_message}

-- The state behind a call that returns.
abbrev pub Ensures : {W A : Type 0} → (State W → Type 0) → Run (A × State W) → Type 0
Ensures P (returns (a, s)) = P s
Ensures P undefined = Unit {0}
Ensures P deadlock = Unit {0}
Ensures P out_of_fuel = Unit {0}

-- Where `P` holds before the call, it holds when the call returns.
pub record Keeps {W A : Type 0} (P : State W → Type 0) (m : M W A) : Type 0 where
  pub at : (s : State W) → P s → Ensures P (m s)

module _ {W A : Type 0} {P : State W → Type 0} where
  pub Keeps-pure : (a : A) → Keeps P (pure a)
  Keeps-pure a = record { at = λ s h. h }

  pub Keeps-defined : (o : Option A) → Keeps P (defined o)
  Keeps-defined none = record { at = λ s h. tt }
  Keeps-defined (some a) = record { at = λ s h. h }

  pub Keeps-asked : (o : Table.Outcome A) → Keeps P (asked o)
  Keeps-asked (Table.returns a) = record { at = λ s h. h }
  Keeps-asked Table.deadlock = record { at = λ s h. tt }
  Keeps-asked Table.out_of_fuel = record { at = λ s h. tt }

  pub Keeps-if : (b : Bool) (m n : M W A) → Keeps P m → Keeps P n → Keeps P (if b then m else n)
  Keeps-if true m n km kn = km
  Keeps-if false m n km kn = kn

module _ {W A B : Type 0} {P : State W → Type 0} where
  pub Keeps-option :
      (o : Option A) (m : M W B) (f : A → M W B)
      → Keeps P m
      → ((a : A) → Keeps P (f a))
      → Keeps P (elim o as (λ x. M W B) [ none ↦ m | some a ↦ f a ])
  Keeps-option none m f km kf = km
  Keeps-option (some a) m f km kf = kf a

  Ensures-bind :
      (r : Run (A × State W)) (f : A → M W B)
      → Ensures P r
      → ((a : A) → Keeps P (f a))
      → Ensures P (elim r [
        | returns (a, s) ↦ f a s
        | undefined ↦ undefined
        | deadlock ↦ deadlock
        | out_of_fuel ↦ out_of_fuel
      ])
  Ensures-bind (returns (a, s)) f h kf = (kf a).at s h
  Ensures-bind undefined f h kf = tt
  Ensures-bind deadlock f h kf = tt
  Ensures-bind out_of_fuel f h kf = tt

  pub Keeps-bind :
      (m : M W A) (f : A → M W B) → Keeps P m → ((a : A) → Keeps P (f a)) → Keeps P (m >>= f)
  Keeps-bind m f km kf = record { at = λ s h. Ensures-bind (m s) f (km.at s h) kf }

module _ {W B : Type 0} {P : State W → Type 0} where
  Ensures-then :
      (r : Run (Unit {0} × State W)) (k : M W B)
      → Ensures P r
      → Keeps P k
      → Ensures P (elim r [
        | returns (_, s) ↦ k s
        | undefined ↦ undefined
        | deadlock ↦ deadlock
        | out_of_fuel ↦ out_of_fuel
      ])
  Ensures-then (returns (a, s)) k h kk = kk.at s h
  Ensures-then undefined k h kk = tt
  Ensures-then deadlock k h kk = tt
  Ensures-then out_of_fuel k h kk = tt

  pub Keeps-then : (m : M W (Unit {0})) (k : M W B) → Keeps P m → Keeps P k → Keeps P (m >> k)
  Keeps-then m k km kk = record { at = λ s h. Ensures-then (m s) k (km.at s h) kk }

module _ {W : Type 0} {P : State W → Type 0} where
  pub Keeps-get_state : Keeps P (get_state {W = W})
  Keeps-get_state = record { at = λ s h. h }

  pub Keeps-load_client : (p : ℕ) → Keeps P (load_client p)
  unfolding load_client
  Keeps-load_client p = record {
    at = λ s h. (Keeps-defined {A = Client} {P = P} (cell s.client_blocks p)).at s h;
  }

  pub Keeps-load_topic : (p : ℕ) → Keeps P (load_topic p)
  unfolding load_topic
  Keeps-load_topic p = record {
    at = λ s h. (Keeps-defined {A = Topic} {P = P} (cell s.topic_blocks p)).at s h;
  }

  pub Keeps-load_message : (p : ℕ) → Keeps P (load_message p)
  unfolding load_message
  Keeps-load_message p = record {
    at = λ s h. (Keeps-defined {A = Message} {P = P} (cell s.message_blocks p)).at s h;
  }

pub ruleset keeps_rules = (
  Keeps-pure, Keeps-defined, Keeps-asked, Keeps-if, Keeps-bind, Keeps-then, Keeps-get_state,
  Keeps-load_client, Keeps-load_topic, Keeps-load_message,
)
