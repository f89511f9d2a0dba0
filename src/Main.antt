-- ===== src/Main.antt =====
-- src/main.c: the options of the broker and the node that it joins, up to the call of start_server. What
-- getopt makes of the arguments is given.
pub mod Options
mod Tests
use sizigy.Base.{ℕ, ◌+◌, Bool, Option, none, some, List, [], ◌∷◌, if◌then◌else◌, length}
use sizigy.Network.Listen.{
  Os, Started, returns, given_up, aborted, make_connection, set_nonblocking,
}

-- A result of getopt, with `optarg`.
pub data Choice : Type 0 where
  choice_a choice_p choice_n : List ℕ → Choice
  choice_v unknown : Choice

-- The variables that the options set.
pub record Settings : Type 0 where
  pub addr : List ℕ
  pub port : List ℕ
  pub debug : ℕ
  pub workers : ℕ

-- "127.0.0.1" and "9090"
abbrev pub defaults : Settings
defaults = record {
  addr = 49 ∷ 50 ∷ 55 ∷ 46 ∷ 48 ∷ 46 ∷ 48 ∷ 46 ∷ 49 ∷ [];
  port = 57 ∷ 48 ∷ 57 ∷ 48 ∷ [];
  debug = 1;
  workers = 4;
}

-- "join"
abbrev pub join : List ℕ
join = 106 ∷ 111 ∷ 105 ∷ 110 ∷ []

-- The loop over the options; `none` is the exit behind the usage. `case 'n'` has no break.
unfoldable pub parse : List Choice → Settings → Option Settings
parse [] o = some o
parse (choice_a text ∷ choices) o = parse choices (record o { addr = text })
parse (choice_p text ∷ choices) o = parse choices (record o { port = text })
parse (choice_v ∷ choices) o = parse choices (record o { debug = 1 })
parse (choice_n text ∷ choices) o = none
parse (unknown ∷ choices) o = none

module _ {W : Type 0} (os : Os W) where
  -- The arguments behind the options; `same a b n` is `strncasecmp(a, b, n) == 0`. Without two more
  -- arguments the program reads past them: the inner `none`.
  unfoldable pub joining :
      (List ℕ → List ℕ → ℕ → Bool) → List (List ℕ) → W → Option (Started (Option ℕ × W))
  unfolding make_connection set_nonblocking
  joining same [] w = some (returns (none, w))
  joining same (word ∷ []) w =
      if same word join (length word) then none else some (returns (none, w))
  joining same (word ∷ (target ∷ [])) w =
      if same word join (length word) then none else some (returns (none, w))
  joining same (word ∷ (target ∷ (tport ∷ more))) w =
      if same word join (length word)
      then some (elim (make_connection os target (os.atoi tport + 10000) w) [
        | returns (sfd, w') ↦ elim sfd [
          | none ↦ returns (none, w')
          | some fd ↦ returns (some fd, (set_nonblocking os fd w').1)
        ]
        | given_up ↦ given_up
        | aborted ↦ aborted
      ])
      else some (returns (none, w))
