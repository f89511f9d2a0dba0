-- ===== src/Main/Tests.antt =====
-- An address, a port, and the address again.
use sizigy.Base.{◌≡◌, refl, none, some, List, [], ◌∷◌, if◌then◌else◌}
use sizigy.Main.{Choice, choice_a, choice_p, choice_n, defaults, parse}
use sizigy.Main.Options.{any_refused, last_addr, last_port, last_debug, parse_lem}

abbrev choices : List Choice
choices = choice_a (49 ∷ []) ∷ choice_p (50 ∷ []) ∷ choice_a (51 ∷ []) ∷ []

parse_lem_example : parse choices defaults ≡ (
    if any_refused choices
    then none
    else some (record {
      addr = last_addr choices defaults.addr;
      port = last_port choices defaults.port;
      debug = last_debug choices defaults.debug;
      workers = 4;
    }))
parse_lem_example = parse_lem choices defaults

parse-workers : parse (choice_n (50 ∷ []) ∷ []) defaults ≡ none
unfolding parse
parse-workers = refl
