-- ===== src/Main/Options.antt =====
-- Which options are taken, and what they set.
use sizigy.Base.{ℕ, ◌≡◌, refl, Bool, true, false, ◌||◌, none, some, List, [], ◌∷◌, if◌then◌else◌}
use sizigy.Main.{Choice, choice_a, choice_p, choice_v, choice_n, unknown, Settings, parse}

abbrev pub is_refused : Choice → Bool
is_refused (choice_a text) = false
is_refused (choice_p text) = false
is_refused choice_v = false
is_refused (choice_n text) = true
is_refused unknown = true

-- One of the options is none of those the loop goes on behind.
unfoldable pub any_refused : List Choice → Bool
any_refused [] = false
any_refused (first ∷ choices) = is_refused first || any_refused choices

-- The last `-a`, the last `-p`, and whether there is a `-v`.
unfoldable pub last_addr : List Choice → List ℕ → List ℕ
last_addr [] text = text
last_addr (choice_a text ∷ choices) old = last_addr choices text
last_addr (other ∷ choices) old = last_addr choices old

unfoldable pub last_port : List Choice → List ℕ → List ℕ
last_port [] text = text
last_port (choice_p text ∷ choices) old = last_port choices text
last_port (other ∷ choices) old = last_port choices old

unfoldable pub last_debug : List Choice → ℕ → ℕ
last_debug [] n = n
last_debug (choice_v ∷ choices) old = last_debug choices 1
last_debug (other ∷ choices) old = last_debug choices old

-- The options of the command line end in the usage exactly where there is an unknown one or a `-n`, which
-- the usage itself does not name; else the last `-a` and the last `-p` count, a `-v` sets `debug`, and
-- `workers` is what it was.
pub parse_lem :
    (choices : List Choice) (o : Settings)
    → parse choices o ≡ (
        if any_refused choices
        then none
        else some (record {
          addr = last_addr choices o.addr;
          port = last_port choices o.port;
          debug = last_debug choices o.debug;
          workers = o.workers;
        }))
unfolding parse any_refused last_addr last_port last_debug
parse_lem [] o = refl
parse_lem (choice_a text ∷ choices) o = parse_lem choices (record o { addr = text })
parse_lem (choice_p text ∷ choices) o = parse_lem choices (record o { port = text })
parse_lem (choice_v ∷ choices) o = parse_lem choices (record o { debug = 1 })
parse_lem (choice_n text ∷ choices) o = refl
parse_lem (unknown ∷ choices) o = refl
