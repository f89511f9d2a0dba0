-- ===== src/Server/Keepalive.antt =====
-- check_client_status and a round of keepalive of src/server.c.

use sizigy.Base.{
  ℕ, ◌+◌, ◌-◌, ◌%◌, ◌^◌, ◌≡◌, ◌≢◌, refl, sym, ap, ◌∙◌, Bool, true, false, ◌&&◌, leb, none, some,
  List, [], ◌∷◌, ◌++◌, set, if◌then◌else◌,
}
use sizigy.Hashmap as Table
use sizigy.Hashmap.{Entry, ok, err, iterate}
use sizigy.Hashmap.Valid.{IsValid}
use sizigy.Hashmap.Visit.{live, visit, iterate_lem}
use sizigy.Server.Retaining.{cell-set_other}
use sizigy.Sizigy.{
  Status, online, offline, Client, Net, State, Run, returns, undefined, deadlock, out_of_fuel, cell,
}

abbrev is_online : Status → Bool
is_online online = true
is_online offline = false

-- `c->status == ONLINE && (now - last_action) >= c->keepalive`, on 64 bits
unfoldable pub is_expired : Client → ℕ → Bool
is_expired c now =
    is_online c.status && leb c.keepalive ((now + 2 ^ 64 - c.last_action_time) % 2 ^ 64)

-- The place is none of these.
abbrev pub IsFresh : ℕ → List (ℕ × Client) → Type 0
IsFresh p [] = Unit {0}
IsFresh p ((q, c) ∷ marks) = (q ≢ p) × IsFresh p marks

module _ {W : Type 0} where
  -- The client's descriptor is closed.
  unfoldable pub expire : State W → ℕ → Client → State W
  expire s p c = record s {
    closed = c.fd ∷ s.closed;
    client_blocks = set s.client_blocks p (some (record c { status = offline }));
  }

  unfoldable pub check_client_status :
      Net W → Run (State W) → Entry ℕ → Table.Status × Run (State W)
  unfolding expire is_expired
  check_client_status net (returns s) e = elim e.val [
    | none ↦ (ok, returns s)
    | some p ↦ elim (cell s.client_blocks p) [
      | none ↦ (err, undefined)
      | some c ↦
          if is_expired c (net.time s.world) then (ok, returns (expire s p c)) else (err, returns s)
    ]
  ]
  check_client_status net undefined e = (err, undefined)
  check_client_status net deadlock e = (err, deadlock)
  check_client_status net out_of_fuel e = (err, out_of_fuel)

  -- `hashmap_iterate2(db->clients, check_client_status, NULL)`
  unfoldable pub keepalive_round : Net W → State W → Table.Status × Run (State W)
  unfolding check_client_status
  keepalive_round net s = iterate (check_client_status net) s.clients (returns s)

  -- The entries are of these clients, at different places, whose time is up.
  abbrev pub AreExpired : Net W → State W → List (Entry ℕ) → List (ℕ × Client) → Type 0
  AreExpired net s [] [] = Unit {0}
  AreExpired net s [] (m ∷ marks) = ⊥
  AreExpired net s (e ∷ es) [] = ⊥
  AreExpired net s (e ∷ es) ((p, c) ∷ marks) =
      (e.val ≡ some p)
      × (cell s.client_blocks p ≡ some c)
      × (is_expired c (net.time s.world) ≡ true)
      × IsFresh p marks
      × AreExpired net s es marks

  -- The state with these clients disconnected, one after the other.
  unfoldable pub reap : List (ℕ × Client) → State W → State W
  unfolding expire
  reap [] s = s
  reap ((p, c) ∷ marks) s = reap marks (expire s p c)

  -- The clients that are not among those keep their blocks.
  reap_others :
      (marks : List (ℕ × Client)) (s : State W) (q : ℕ)
      → IsFresh q marks
      → cell (reap marks s).client_blocks q ≡ cell s.client_blocks q
  unfolding reap
  reap_others [] s q apart = refl
  reap_others ((p, c) ∷ marks) s q (n, apart) =
      reap_others marks (expire s p c) q apart
      ∙ cell-set_other s.client_blocks p q (some (record c { status = offline })) n

  -- A client that is disconnected does not touch the others whose time is up.
  AreExpired-expire :
      (net : Net W) (s : State W) (p : ℕ) (c : Client) (es : List (Entry ℕ))
      (marks : List (ℕ × Client))
      → IsFresh p marks
      → AreExpired net s es marks
      → AreExpired net (expire s p c) es marks
  unfolding expire
  AreExpired-expire net s p c [] [] apart h = tt
  AreExpired-expire net s p c [] (m ∷ marks) apart h = h
  AreExpired-expire net s p c (e ∷ es) [] apart h = h
  AreExpired-expire net s p c (e ∷ es) ((q, d) ∷ marks) (n, apart) (val, here, time, fresh, h) = (
    val,
    cell-set_other s.client_blocks p q (some (record c { status = offline })) (λ k. n (sym k))
        ∙ here,
    time,
    fresh,
    AreExpired-expire net s p c es marks apart h,
  )

  check-alive :
      (net : Net W) (e : Entry ℕ) (p : ℕ) (c : Client) (s : State W)
      → e.val ≡ some p
      → cell s.client_blocks p ≡ some c
      → is_expired c (net.time s.world) ≡ false
      → check_client_status net (returns s) e ≡ (err, returns s)
  unfolding check_client_status
  check-alive net e p c s val here alive = rw (check_client_status, val, here, alive)

  check-expired :
      (net : Net W) (e : Entry ℕ) (p : ℕ) (c : Client) (s : State W)
      → e.val ≡ some p
      → cell s.client_blocks p ≡ some c
      → is_expired c (net.time s.world) ≡ true
      → check_client_status net (returns s) e ≡ (ok, returns (expire s p c))
  unfolding check_client_status
  check-expired net e p c s val here late = rw (check_client_status, val, here, late)

  -- What follows the call for one entry.
  visit_step : Net W → List (Entry ℕ) → Table.Status × Run (State W) → Table.Status × Run (State W)
  visit_step net es r = elim r.0 [ ok ↦ visit (check_client_status net) es r.1 | err ↦ (err, r.1) ]

  visit_expired :
      (net : Net W) (front : List (Entry ℕ)) (e : Entry ℕ) (rest : List (Entry ℕ))
      (marks : List (ℕ × Client)) (q : ℕ) (d : Client) (s : State W)
      → AreExpired net s front marks
      → e.val ≡ some q
      → IsFresh q marks
      → cell s.client_blocks q ≡ some d
      → is_expired d (net.time s.world) ≡ false
      → visit (check_client_status net) (front ++ (e ∷ rest)) (returns s)
        ≡ (err, returns (reap marks s))
  unfolding visit reap visit_step
  visit_expired net [] e rest [] q d s h val fresh here alive =
      ap (visit_step net rest) (check-alive net e q d s val here alive)
  visit_expired net [] e rest (m ∷ marks) q d s h val fresh here alive = absurd h
  visit_expired net (f ∷ front) e rest [] q d s h val fresh here alive = absurd h
  visit_expired net (f ∷ front) e rest ((p, c) ∷ marks) q d s (f_val, f_here, time, f_fresh, h) val
        (n, fresh) here alive =
      ap (visit_step net (front ++ (e ∷ rest))) (check-expired net f p c s f_val f_here time)
      ∙ visit_expired net front e rest marks q d (expire s p c)
          (AreExpired-expire net s p c front marks f_fresh h) val fresh
          (cell-set_other s.client_blocks p q (some (record c { status = offline })) n ∙ here) alive

  front_or_not :
      (net : Net W) (s : State W) (front : List (Entry ℕ)) (e : Entry ℕ) (rest : List (Entry ℕ))
      → (elim (front ++ (e ∷ rest)) [
        | [] ↦ (err, returns s)
        | x ∷ xs ↦ visit (check_client_status net) (x ∷ xs) (returns s)
      ])
        ≡ visit (check_client_status net) (front ++ (e ∷ rest)) (returns s)
  front_or_not net s [] e rest = refl
  front_or_not net s (f ∷ front) e rest = refl

  -- A round of keepalive over a valid table, where the clients of the first entries in use are at different
  -- places and their time is up, and the client of the next entry is alive. The round disconnects the
  -- first ones and stops with HASHMAP_ERR at the one that is alive: every other client keeps its block,
  -- whether its time is up or not.
  pub keepalive_lem :
      (net : Net W) (s : State W) (front rest : List (Entry ℕ)) (e : Entry ℕ)
      (marks : List (ℕ × Client)) (q : ℕ) (d : Client)
      → IsValid s.clients
      → live s.clients.entries ≡ front ++ (e ∷ rest)
      → AreExpired net s front marks
      → e.val ≡ some q
      → IsFresh q marks
      → cell s.client_blocks q ≡ some d
      → is_expired d (net.time s.world) ≡ false
      → (keepalive_round net s ≡ (err, returns (reap marks s)))
        × ((other : ℕ)
            → IsFresh other marks
            → cell (reap marks s).client_blocks other ≡ cell s.client_blocks other)
  unfolding keepalive_round
  keepalive_lem net s front rest e marks q d valid shape expired val fresh here alive = (
    iterate_lem (check_client_status net) s.clients (returns s) valid
        ∙ ap
            (λ es. elim es [
              | [] ↦ (err, returns s)
              | x ∷ xs ↦ visit (check_client_status net) (x ∷ xs) (returns s)
            ])
            shape
        ∙ front_or_not net s front e rest
        ∙ visit_expired net front e rest marks q d s expired val fresh here alive,
    λ other apart. reap_others marks s other apart,
  )
