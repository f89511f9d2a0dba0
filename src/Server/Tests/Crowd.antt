-- ===== src/Server/Tests/Crowd.antt =====
-- The theorems on retained messages, on subscriptions that end, and on the round of keepalive, at small
-- states.
use sizigy.Base.{ℕ, ◌≡◌, refl, true, some, List, [], ◌∷◌, ◌++◌, length-replicate, replicate, arith}
use sizigy.Buffer.{Allocator, strlen}
use sizigy.Hashmap.{Entry, Hashmap, create, write, entry, err}
use sizigy.Hashmap.Valid.{IsValid, create-IsValid, write-IsValid}
use sizigy.Hashmap.Visit.{live}
use sizigy.Server.Delivery.{fd_at}
use sizigy.Server.Keepalive.{is_expired, keepalive_round, reap, IsFresh, keepalive_lem}
use sizigy.Server.Subscribing.{with_topic}
use sizigy.Server.Tests.Scene.{Wires, lines, client_on, topic_c, subscription_of, scene, get-c}
use sizigy.Sizigy.{Client, State, returns, cell}
use sizigy.Sizigy.Ops.{del_subscriber}
use sizigy.Sizigy.Removal.{without, del_subscriber_lem}

untouched : Allocator
untouched = record { malloc = λ n. replicate n 0xAA; malloc_size = λ n. length-replicate n 0xAA }

abbrev hello : List ℕ
hello = 104 ∷ 105 ∷ []

-- The second client leaves: one of its two subscriptions stays, and so does `len`.
del_subscriber_lem_example :
    del_subscriber (subscription_of 1) scene
    ≡ returns (
      tt,
      with_topic scene 0 (record topic_c {
        subscribers = record { chain = subscription_of 2 ∷ subscription_of 1 ∷ []; len = 3 };
      }),
    )
unfolding cell fd_at without strlen
del_subscriber_lem_example =
    del_subscriber_lem scene (subscription_of 1) 0 topic_c (client_on 8 (113 ∷ [])) refl get-c refl
      refl ((8, refl), ((9, refl), ((8, refl), tt)))

-- Three clients in the table: the first is late, the second alive, the third late again.
abbrev late : Client
late = client_on 7 (112 ∷ [])

abbrev lively : Client
lively = record (client_on 8 (113 ∷ [])) { last_action_time = 990 }

unfoldable clients : Hashmap ℕ
clients =
    write (write (write (create {V = ℕ}) 10 (112 ∷ []) (some 0)) 20 (113 ∷ []) (some 1)) 30
      (114 ∷ []) (some 2)

abbrev crowd : State Wires
crowd = record scene {
  clients = clients;
  client_blocks = some late ∷ some lively ∷ some (client_on 9 (114 ∷ [])) ∷ [];
}

abbrev entry_of : List ℕ → ℕ → Entry ℕ
entry_of key p = record { key = key; val = some p; in_use = true }

live-clients :
    live clients.entries
    ≡ (entry_of (112 ∷ []) 0 ∷ []) ++ (entry_of (113 ∷ []) 1 ∷ entry_of (114 ∷ []) 2 ∷ [])
unfolding clients live create write entry
live-clients = refl

clients-IsValid : IsValid clients
unfolding clients create write
clients-IsValid =
    write-IsValid (write (write (create {V = ℕ}) 10 (112 ∷ []) (some 0)) 20 (113 ∷ []) (some 1)) 30
      (114 ∷ []) (some 2) (omega arith)
      (write-IsValid (write (create {V = ℕ}) 10 (112 ∷ []) (some 0)) 20 (113 ∷ []) (some 1)
        (omega arith)
        (write-IsValid (create {V = ℕ}) 10 (112 ∷ []) (some 0) (omega arith)
          (create-IsValid (create {V = ℕ}) refl)))

keepalive_lem_example :
    (keepalive_round lines crowd ≡ (err, returns (reap ((0, late) ∷ []) crowd)))
    × ((other : ℕ)
        → IsFresh other ((0, late) ∷ [])
        → cell (reap ((0, late) ∷ []) crowd).client_blocks other ≡ cell crowd.client_blocks other)
unfolding cell is_expired
keepalive_lem_example =
    keepalive_lem lines crowd (entry_of (112 ∷ []) 0 ∷ []) (entry_of (114 ∷ []) 2 ∷ [])
      (entry_of (113 ∷ []) 1) ((0, late) ∷ []) 1 lively clients-IsValid live-clients
      (refl, refl, refl, tt, tt) refl ((λ e. omega (arith, e)), tt) refl refl
