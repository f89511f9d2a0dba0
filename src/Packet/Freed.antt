-- ===== src/Packet/Freed.antt =====
-- What is freed of a packet or of a subscription.

use sizigy.Base.{
  ℕ, zero, suc, ◌≡◌, ◌≢◌, refl, sym, ap, ◌∙◌, Bool, true, false, Option, none, some, List, [], ◌∷◌,
  ◌>>=◌, get_elem?, set,
}
use sizigy.Packet.Release.{
  AckBlock, ConnectBlock, PublishBlock, SubscribeBlock, SubscriptionBlock, Memory, free, free_field,
  free_ack, free_connect, free_publish, free_subscribe, free_unsubscribe, destroy_subscription,
  Owner, ack, connect, publish, subscribe, unsubscribe, subscription, memory_of, release, owned,
  IsApart, AreOwned, AreFree, free_all,
}

set_self :
    (mem : Memory) (p : ℕ) (b x : Bool)
    → get_elem? mem p ≡ some b
    → get_elem? (set mem p x) p ≡ some x
set_self [] p b x e = cc
set_self (y ∷ mem) zero b x e = refl
set_self (y ∷ mem) (suc p) b x e = set_self mem p b x e

set_other :
    (mem : Memory) (p q : ℕ) (x : Bool) → q ≢ p → get_elem? (set mem p x) q ≡ get_elem? mem q
set_other [] p q x n = refl
set_other (y ∷ mem) zero zero x n = absurd (n refl)
set_other (y ∷ mem) zero (suc q) x n = refl
set_other (y ∷ mem) (suc p) zero x n = refl
set_other (y ∷ mem) (suc p) (suc q) x n = set_other mem p q x (λ e. n (ap suc e))

-- The blocks that are apart from a freed one stay owned.
AreOwned-set :
    (mem : Memory) (p : ℕ) (ps : List (Option ℕ))
    → IsApart p ps
    → AreOwned mem ps
    → AreOwned (set mem p false) ps
AreOwned-set mem p [] apart h = tt
AreOwned-set mem p (none ∷ ps) apart h = AreOwned-set mem p ps apart h
AreOwned-set mem p (some q ∷ ps) (n, apart) (live, once, h) =
    (set_other mem p q false (λ e. n (sym e)) ∙ live, once, AreOwned-set mem p ps apart h)

-- A run that frees these blocks and no others.
pub record Freed {A : Type 0} (mem : Memory) (ps : List (Option ℕ)) (null : Memory → A)
    (run : Option A) : Type 0 where
  pub after : Memory
  pub runs : run ≡ some (null after)
  pub gone : AreFree after ps
  pub others : (q : ℕ) → IsApart q ps → get_elem? after q ≡ get_elem? mem q

pub free_all_lem :
    (mem : Memory) (ps : List (Option ℕ))
    → AreOwned mem ps
    → Freed mem ps (λ m. m) (free_all ps mem)
unfolding free_all free_field free
free_all_lem mem [] h = record { after = mem; runs = refl; gone = tt; others = λ q apart. refl }
free_all_lem mem (none ∷ ps) h =
    let rest = free_all_lem mem ps h in
    record { after = rest.after; runs = rest.runs; gone = rest.gone; others = rest.others }
free_all_lem mem (some p ∷ ps) (live, once, h) =
    let rest = free_all_lem (set mem p false) ps (AreOwned-set mem p ps once h) in
    record {
      after = rest.after;
      runs = rw (free_all, free_field, free, live) rest.runs;
      gone = (rest.others p once ∙ set_self mem p true false live, rest.gone);
      others = λ q apart. rest.others q apart.1 ∙ set_other mem p q false apart.0;
    }

unfoldable pub nulled : Option Memory → Option (Bool × Memory)
nulled none = none
nulled (some mem) = some (true, mem)

module _ {A : Type 0} where
  pub then_lem :
      (x : Option Memory) (f : Memory → Option (Option A × Memory)) (g : Memory → Option Memory)
      → ((m : Memory) → memory_of (f m) ≡ nulled (g m))
      → memory_of (x >>= f) ≡ nulled (x >>= g)
  unfolding nulled
  then_lem none f g same = refl
  then_lem (some m) f g same = same m

pub self_of :
    (A : Type 0) (o : Option Memory)
    → memory_of (elim o as (λ x. Option (Option A × Memory)) [
      | none ↦ none
      | some after ↦ some (none, after)
    ])
      ≡ nulled (o >>= (λ after. some after))
unfolding nulled
self_of A none = refl
self_of A (some after) = refl

pub release-free_all : (o : Owner) (mem : Memory) → release o mem ≡ nulled (free_all (owned o) mem)
unfolding release free_ack free_connect free_publish free_subscribe free_unsubscribe
    destroy_subscription free_all free_field
release-free_all (ack a) mem =
    then_lem (free_field a.header mem) _ _ (λ m. self_of AckBlock (free a.self m))
release-free_all (connect c) mem =
    then_lem (free_field c.header mem) _ _
      (λ m1. then_lem (free_field c.id m1) _ _ (λ m. self_of ConnectBlock (free c.self m)))
release-free_all (publish p) mem = then_lem (free_field p.header mem) _ _ (λ m1.
    then_lem (free_field p.topic m1) _ _
      (λ m2. then_lem (free_field p.message m2) _ _ (λ m. self_of PublishBlock (free p.self m))))
release-free_all (subscribe s) mem =
    then_lem (free_field s.header mem) _ _
      (λ m1. then_lem (free_field s.topic m1) _ _ (λ m. self_of SubscribeBlock (free s.self m)))
release-free_all (unsubscribe u) mem =
    then_lem (free_field u.header mem) _ _
      (λ m1. then_lem (free_field u.topic m1) _ _ (λ m. self_of SubscribeBlock (free u.self m)))
release-free_all (subscription s) mem =
    then_lem (free_field s.topic mem) _ _ (λ m. self_of SubscriptionBlock (free s.self m))

-- The function that frees a packet or a subscription, where the blocks that it owns are allocated and each
-- is owned once: it returns with the caller's pointer null, all those blocks are free, and every other
-- block is as it was.
pub release_lem :
    (o : Owner) (mem : Memory)
    → AreOwned mem (owned o)
    → Freed mem (owned o) (λ m. (true, m)) (release o mem)
unfolding nulled
release_lem o mem h =
    let f = free_all_lem mem (owned o) h in
    record {
      after = f.after;
      runs = release-free_all o mem ∙ ap nulled f.runs;
      gone = f.gone;
      others = f.others;
    }
