-- ===== src/Util/Tests.antt =====
-- Two threads on a counter, and two strings.
use sizigy.Base.{ℕ, ◌≡◌, refl, true, some, List, [], ◌∷◌}
use sizigy.Util.{
  Call, counting_and_reading, idle, inside, fetched, answered, System, update, after, stored, locks,
  fetches, stores, init_atomic, Reach, start, later, incr_read_atomic, remove_newline,
  strcspn_newline,
}
use sizigy.Util.Atomic.{is_in_call, replay, reach_lem}

-- Thread 3 counts and reads, up to the unlocking.
abbrev counted : System
counted = record {
  value = stored counting_and_reading 0 0;
  lock = some 3;
  phase =
      update
        (update (update (λ t. idle) 3 (inside counting_and_reading)) 3
          (fetched counting_and_reading 0))
        3 (answered counting_and_reading (after counting_and_reading 0));
  log = counting_and_reading ∷ [];
}

Reach-counted : Reach counted
unfolding init_atomic update
Reach-counted =
    later
      (later (later start (locks 3 counting_and_reading refl refl))
        (fetches 3 counting_and_reading refl))
      (stores 3 counting_and_reading 0 refl)

stored-count : counted.value ≡ 1
unfolding stored after incr_read_atomic
stored-count = refl

reach_lem_example :
    (counted.value ≡ replay counted.log)
    × ((t u : ℕ)
        → is_in_call (counted.phase t) ≡ true
        → is_in_call (counted.phase u) ≡ true
        → t ≡ u)
    × ((t : ℕ) (call : Call) (r : ℕ)
        → counted.phase t ≡ answered call r
        → (rest : List Call) × (counted.log ≡ call ∷ rest) × (r ≡ replay counted.log))
reach_lem_example = reach_lem counted Reach-counted

remove_newline-line : remove_newline (97 ∷ 10 ∷ 98 ∷ 0 ∷ []) ≡ 97 ∷ 0 ∷ 98 ∷ 0 ∷ []
unfolding remove_newline strcspn_newline
remove_newline-line = refl
