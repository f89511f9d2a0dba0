-- ===== src/Sizigy/Clients.antt =====
-- Runs over one client: a state with the block of that client put in its place.
use sizigy.Base.{
  ℕ, zero, suc, ◌<◌, ◌≡◌, refl, sym, ap, Option, some, List, [], ◌∷◌, length, set, arith,
}
use sizigy.Sizigy.{Payload, unwritten, Client, Net, State, returns, ◌>>=◌, cell}
use sizigy.Sizigy.Ops.{load_client, store_client, update_client_last_action}
use sizigy.Server.Reply.{set_reply}

module _ {A : Type 0} where
  pub cell-set_self :
      (blocks : List (Option A)) (p : ℕ) (a : A)
      → p < length blocks
      → cell (set blocks p (some a)) p ≡ some a
  unfolding cell
  cell-set_self [] p a h = absurd (omega arith)
  cell-set_self (b ∷ blocks) zero a h = refl
  cell-set_self (b ∷ blocks) (suc p) a h = cell-set_self blocks p a (omega arith)

  pub set-set :
      (blocks : List (Option A)) (p : ℕ) (a b : Option A)
      → set (set blocks p a) p b ≡ set blocks p b
  set-set [] p a b = refl
  set-set (x ∷ blocks) zero a b = refl
  set-set (x ∷ blocks) (suc p) a b = ap (λ t. x ∷ t) (set-set blocks p a b)

  pub set-cell :
      (blocks : List (Option A)) (p : ℕ) (a : A)
      → cell blocks p ≡ some a
      → set blocks p (some a) ≡ blocks
  unfolding cell
  set-cell [] p a e = cc
  set-cell (b ∷ blocks) zero a e = ap (λ t. t ∷ blocks) (sym e)
  set-cell (b ∷ blocks) (suc p) a e = ap (λ t. b ∷ t) (set-cell blocks p a e)

  pub cell-lt :
      (blocks : List (Option A)) (p : ℕ) (a : A) → cell blocks p ≡ some a → p < length blocks
  unfolding cell
  cell-lt [] p a e = absurd (cc)
  cell-lt (b ∷ blocks) zero a e = omega arith
  cell-lt (b ∷ blocks) (suc p) a e = omega (arith, cell-lt blocks p a e)

-- The state with `c` at `p`.
abbrev pub with_client : {W : Type 0} → State W → ℕ → Client → State W
with_client s p c = record s { client_blocks = set s.client_blocks p (some c) }

module _ {W : Type 0} (s : State W) (p : ℕ) where
  pub with_client_self : (c : Client) → cell s.client_blocks p ≡ some c → with_client s p c ≡ s
  with_client_self c here =
      ap (λ t. record s { client_blocks = t }) (set-cell s.client_blocks p c here)

  pub with_client_twice :
      (c c' : Client) → with_client (with_client s p c) p c' ≡ with_client s p c'
  with_client_twice c c' =
      ap (λ t. record s { client_blocks = t }) (set-set s.client_blocks p (some c) (some c'))

  module _ (inside : p < length s.client_blocks) where
    pub load-with :
        (c : Client) → load_client p (with_client s p c) ≡ returns (c, with_client s p c)
    unfolding load_client
    load-with c = rw (cell-set_self s.client_blocks p c inside)

    pub store-with :
        (c c' : Client) → store_client p c' (with_client s p c) ≡ returns (tt, with_client s p c')
    unfolding store_client
    store-with c c' = ap (λ t. returns (tt, t)) (with_client_twice c c')

    pub update-with :
        (net : Net W) (c : Client)
        → update_client_last_action net p (with_client s p c)
          ≡ returns (tt, with_client s p (record c { last_action_time = net.time s.world }))
    unfolding update_client_last_action
    update-with net c = rw (
      update_client_last_action,
      ◌>>=◌,
      load-with c,
      ◌>>=◌,
      store-with c (record c { last_action_time = net.time s.world }),
    )

    pub set_reply-with :
        (c : Client) (opcode : ℕ) (payload : Payload)
        → set_reply p opcode payload (with_client s p c)
          ≡ returns (
            tt,
            with_client s p (record c {
              reply =
                  some (record {
                    opcode = opcode;
                    fd = c.fd;
                    payload = payload;
                    retained = unwritten;
                  });
            }),
          )
    unfolding set_reply
    set_reply-with c opcode payload = rw (
      set_reply,
      ◌>>=◌,
      load-with c,
      store-with c (record c {
        reply =
            some (record { opcode = opcode; fd = c.fd; payload = payload; retained = unwritten });
      }),
    )
