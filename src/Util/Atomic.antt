-- ===== src/Util/Atomic.antt =====
-- The counter of src/util.c under any interleaving of threads.

use native.Mathlib.Decide.{ℕ_discrete}
use sizigy.Base.{
  Bool, ℕ, ◌==◌, ◌≡◌, ◌≢◌, ◌⊎◌, refl, sym, ap, ◌∙◌, true, false, some, List, [], ◌∷◌, inl, inr,
  arith,
}
use sizigy.Util.{
  Call, adding, counting, counting_and_reading, writing, reading, after, Phase, idle, inside,
  fetched, answered, System, update, stored, Step, locks, fetches, stores, unlocks, init_atomic,
  Reach, start, later,
}

-- The value after these calls, one after the other, from 0 on.
unfoldable pub replay : List Call → ℕ
replay [] = 0
replay (call ∷ log) = after call (replay log)

update_cases :
    (phases : ℕ → Phase) (t : ℕ) (p : Phase) (u : ℕ)
    → ((t ≡ u) × (update phases t p u ≡ p)) ⊎ ((t ≢ u) × (update phases t p u ≡ phases u))
unfolding update
update_cases phases t p u = elim (ℕ_discrete t u) [
  | yes e ↦ inl (e, ground arith)
  | no n ↦ let miss : (t == u) ≡ false = ground arith in inr (n, rw miss)
]

record Inv (s : System) : Type 0 where
  value : s.value ≡ replay s.log
  held : (t : ℕ) → (s.phase t ≡ idle) ⊎ (s.lock ≡ some t)
  fresh : (t : ℕ) (call : Call) (v : ℕ) → s.phase t ≡ fetched call v → v ≡ s.value
  right : (t : ℕ) (call : Call) (r : ℕ) → s.phase t ≡ answered call r → r ≡ s.value
  own :
      (t : ℕ) (call : Call) (r : ℕ)
      → s.phase t ≡ answered call r
      → (rest : List Call) × (s.log ≡ call ∷ rest)

stored-after : (call : Call) (v now : ℕ) → v ≡ now → stored call v now ≡ after call now
unfolding stored after
stored-after (adding by) v now e = ap (after (adding by)) e
stored-after counting v now e = ap (after counting) e
stored-after counting_and_reading v now e = ap (after counting_and_reading) e
stored-after (writing new) v now e = refl
stored-after reading v now e = refl

-- Not outside.
abbrev pub is_in_call : Phase → Bool
is_in_call idle = false
is_in_call (inside call) = true
is_in_call (fetched call v) = true
is_in_call (answered call r) = true

mine : (s : System) (t : ℕ) → Inv s → is_in_call (s.phase t) ≡ true → s.lock ≡ some t
mine s t inv busy = elim (inv.held t) [ inl out ↦ absurd (cc) | inr yes_mine ↦ yes_mine ]

outside-fetched : {c : Call} {v : ℕ} → idle ≡ fetched c v → ⊥
outside-fetched e = cc

outside-answered : {c : Call} {v : ℕ} → idle ≡ answered c v → ⊥
outside-answered e = cc

-- The thread that is in a call holds the lock, and every other thread is outside.
others_idle : (s : System) (t u : ℕ) → Inv s → s.lock ≡ some t → t ≢ u → s.phase u ≡ idle
others_idle s t u inv mine n = elim (inv.held u) [
  | inl out ↦ out
  | inr theirs ↦ absurd (n (ground (arith, sym mine ∙ theirs)))
]

Step-Inv : {s s' : System} → Step s s' → Inv s → Inv s'
unfolding replay
Step-Inv {s} (locks t call free out) inv = record {
  value = inv.value;
  held = λ u. elim (update_cases s.phase t (inside call) u) [
    | inl (e, at) ↦ inr (ap some e)
    | inr (n, at) ↦ elim (inv.held u) [
      | inl idle_there ↦ inl (at ∙ idle_there)
      | inr theirs ↦ absurd (cc)
    ]
  ];
  fresh = λ u c v at'. elim (update_cases s.phase t (inside call) u) [
    | inl (e, at) ↦ absurd (cc)
    | inr (n, at) ↦ inv.fresh u c v (sym at ∙ at')
  ];
  right = λ u c r at'. elim (update_cases s.phase t (inside call) u) [
    | inl (e, at) ↦ absurd (cc)
    | inr (n, at) ↦ inv.right u c r (sym at ∙ at')
  ];
  own = λ u c r at'. elim (update_cases s.phase t (inside call) u) [
    | inl (e, at) ↦ absurd (cc)
    | inr (n, at) ↦ inv.own u c r (sym at ∙ at')
  ];
}
Step-Inv {s} (fetches t call at_t) inv =
    let lock_t = mine s t inv (ap is_in_call at_t) in
    record {
      value = inv.value;
      held = λ u. elim (update_cases s.phase t (fetched call s.value) u) [
        | inl (e, at) ↦ inr (lock_t ∙ ap some e)
        | inr (n, at) ↦ inl (at ∙ others_idle s t u inv lock_t n)
      ];
      fresh = λ u c v at'. elim (update_cases s.phase t (fetched call s.value) u) [
        | inl (e, at) ↦ cc
        | inr (n, at) ↦ inv.fresh u c v (sym at ∙ at')
      ];
      right = λ u c r at'. elim (update_cases s.phase t (fetched call s.value) u) [
        | inl (e, at) ↦ absurd (cc)
        | inr (n, at) ↦ inv.right u c r (sym at ∙ at')
      ];
      own = λ u c r at'. elim (update_cases s.phase t (fetched call s.value) u) [
        | inl (e, at) ↦ absurd (cc)
        | inr (n, at) ↦ inv.own u c r (sym at ∙ at')
      ];
    }
Step-Inv {s} (stores t call v at_t) inv =
    let lock_t = mine s t inv (ap is_in_call at_t) in
    let now = inv.fresh t call v at_t in
    let new = stored-after call v s.value now in
    record {
      value = new ∙ ap (after call) inv.value;
      held = λ u. elim (update_cases s.phase t (answered call (after call v)) u) [
        | inl (e, at) ↦ inr (lock_t ∙ ap some e)
        | inr (n, at) ↦ inl (at ∙ others_idle s t u inv lock_t n)
      ];
      fresh = λ u c w at'. elim (update_cases s.phase t (answered call (after call v)) u) [
        | inl (e, at) ↦ absurd (cc)
        | inr (n, at) ↦
            absurd (outside-fetched (sym (others_idle s t u inv lock_t n) ∙ sym at ∙ at'))
      ];
      right = λ u c r at'. elim (update_cases s.phase t (answered call (after call v)) u) [
        | inl (e, at) ↦ let same : r ≡ after call v = cc in same ∙ ap (after call) now ∙ sym new
        | inr (n, at) ↦
            absurd (outside-answered (sym (others_idle s t u inv lock_t n) ∙ sym at ∙ at'))
      ];
      own = λ u c r at'. elim (update_cases s.phase t (answered call (after call v)) u) [
        | inl (e, at) ↦ let same : call ≡ c = cc in (s.log, ap (λ k. k ∷ s.log) same)
        | inr (n, at) ↦
            absurd (outside-answered (sym (others_idle s t u inv lock_t n) ∙ sym at ∙ at'))
      ];
    }
Step-Inv {s} (unlocks t call r at_t) inv =
    let lock_t = mine s t inv (ap is_in_call at_t) in
    record {
      value = inv.value;
      held = λ u. elim (update_cases s.phase t idle u) [
        | inl (e, at) ↦ inl at
        | inr (n, at) ↦ inl (at ∙ others_idle s t u inv lock_t n)
      ];
      fresh = λ u c v at'. elim (update_cases s.phase t idle u) [
        | inl (e, at) ↦ absurd (cc)
        | inr (n, at) ↦ inv.fresh u c v (sym at ∙ at')
      ];
      right = λ u c r at'. elim (update_cases s.phase t idle u) [
        | inl (e, at) ↦ absurd (cc)
        | inr (n, at) ↦ inv.right u c r (sym at ∙ at')
      ];
      own = λ u c k at'. elim (update_cases s.phase t idle u) [
        | inl (e, at) ↦ absurd (cc)
        | inr (n, at) ↦ inv.own u c k (sym at ∙ at')
      ];
    }

Reach-Inv : {s : System} → Reach s → Inv s
unfolding init_atomic replay
Reach-Inv start = record {
  value = refl;
  held = λ t. inl refl;
  fresh = λ t call v e. absurd (outside-fetched e);
  right = λ t call r e. absurd (outside-answered e);
  own = λ t call r e. absurd (outside-answered e);
}
Reach-Inv (later r st) = Step-Inv st (Reach-Inv r)

-- In every state that threads reach from init_atomic on, however their steps interleave: the value is what
-- the calls that have had their effect give, one after the other; two threads are never in a call at once;
-- and a thread that is about to leave its call has as its result the value after these calls, its own the
-- last of them.
pub reach_lem :
    (s : System)
    → Reach s
    → (s.value ≡ replay s.log)
      × ((t u : ℕ) → is_in_call (s.phase t) ≡ true → is_in_call (s.phase u) ≡ true → t ≡ u)
      × ((t : ℕ) (call : Call) (r : ℕ)
          → s.phase t ≡ answered call r
          → (rest : List Call) × (s.log ≡ call ∷ rest) × (r ≡ replay s.log))
reach_lem s reached =
    let inv = Reach-Inv reached in
    (
      inv.value,
      (λ t u busy_t busy_u. let same = sym (mine s t inv busy_t) ∙ mine s u inv busy_u in cc),
      (λ t call r at.
          let (rest, last) = inv.own t call r at in
          (rest, last, inv.right t call r at ∙ inv.value)),
    )
