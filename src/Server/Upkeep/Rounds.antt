-- ===== src/Server/Upkeep/Rounds.antt =====
-- The rounds of keepalive leave the broker sound.
use sizigy.Base.{
  ℕ, refl, ◌==◌, Bool, true, false, List, [], ◌∷◌, Option-cases, Bool-cases, inl, inr,
}
use sizigy.Hashmap as Table
use sizigy.Hashmap.{Entry, ok, err, iterate, iterate_from}
use sizigy.Server.Keepalive.{is_expired, expire, check_client_status, keepalive_round}
use sizigy.Sizigy.{
  Client, Net, State, Run, offline, returns, undefined, deadlock, out_of_fuel, cell,
}
use sizigy.Sizigy.Quiet.{fd_at-more}
use sizigy.Sizigy.Sound.{IsSound, IsSound-quiet}

-- What holds of the state behind a round of keepalive.
abbrev pub Rounded : {W : Type 0} → (State W → Type 0) → Run (State W) → Type 0
Rounded P (returns s) = P s
Rounded P undefined = Unit {0}
Rounded P deadlock = Unit {0}
Rounded P out_of_fuel = Unit {0}

module _ {W : Type 0} (net : Net W) where
  expire-IsSound : (s : State W) (p : ℕ) (c : Client) → IsSound s → IsSound (expire s p c)
  unfolding expire
  expire-IsSound s p c h =
      IsSound-quiet s (expire s p c)
        (record {
          lock = refl;
          topics = refl;
          topic_blocks = refl;
          message_blocks = refl;
          live = λ q. fd_at-more s.client_blocks p q (record c { status = offline });
        })
        h

  check-IsSound :
      (e : Entry ℕ) (r : Run (State W))
      → Rounded IsSound r
      → Rounded IsSound (check_client_status net r e).1
  unfolding check_client_status
  check-IsSound e (returns s) h = elim (Option-cases e.val) [
    | inl null ↦ rw (check_client_status, null) h
    | inr (p, val) ↦ elim (Option-cases (cell s.client_blocks p)) [
      | inl gone ↦ rw (check_client_status, val, gone) tt
      | inr (c, here) ↦ elim (Bool-cases (is_expired c (net.time s.world))) [
        | inl late ↦ rw (check_client_status, val, here, late) (expire-IsSound s p c h)
        | inr alive ↦ rw (check_client_status, val, here, alive) h
      ]
    ]
  ]
  check-IsSound e undefined h = tt
  check-IsSound e deadlock h = tt
  check-IsSound e out_of_fuel h = tt

  -- The two cases of an entry.
  passed :
      (b : Bool) (x y : Table.Status × Run (State W))
      → Rounded IsSound x.1
      → Rounded IsSound y.1
      → Rounded IsSound (elim b as (λ b. Table.Status × Run (State W)) [ false ↦ x | true ↦ y ]).1
  passed true x y hx hy = hy
  passed false x y hx hy = hx

  iterate-IsSound :
      (es : List (Entry ℕ)) (r : Run (State W))
      → Rounded IsSound r
      → Rounded IsSound (iterate_from (check_client_status net) es r).1
  unfolding iterate_from
  iterate-IsSound [] r h = h
  iterate-IsSound (e ∷ es) r h =
      passed e.in_use _ _ (iterate-IsSound es r h)
        (next (check_client_status net r e) (check-IsSound e r h) (iterate-IsSound es))
    where
      next :
          (o : Table.Status × Run (State W))
          → Rounded IsSound o.1
          → ((r' : Run (State W))
              → Rounded IsSound r'
              → Rounded IsSound (iterate_from (check_client_status net) es r').1)
          → Rounded IsSound
              (elim o.0 as (λ x. Table.Status × Run (State W)) [
                | ok ↦ iterate_from (check_client_status net) es o.1
                | err ↦ (err, o.1)
              ]).1
      next (ok, r') h' rest = rest r' h'
      next (err, r') h' rest = h'

  pub keepalive_round-IsSound :
      (s : State W) → IsSound s → Rounded IsSound (keepalive_round net s).1
  unfolding keepalive_round iterate
  keepalive_round-IsSound s h = elim (Bool-cases (s.clients.size == 0)) [
    | inl empty ↦ rw empty h
    | inr some_there ↦ rw some_there (iterate-IsSound s.clients.entries (returns s) h)
  ]
