-- ===== src/Sizigy/Runs.antt =====
-- What the basic steps on the state do.
use sizigy.Base.{ℕ, ◌≡◌, none, some, set}
use sizigy.Sizigy.{Client, Topic, Message, Net, State, Run, returns, undefined, M, ◌>>=◌, cell}
use sizigy.Sizigy.Ops.{load_client, load_topic, load_message, update_client_last_action}

-- A first step that is known, and what follows it.
pub bind_run :
    {W A B : Type 0} (m : M W A) (f : A → M W B) {s s' : State W} {a : A} {r : Run (B × State W)}
    → m s ≡ returns (a, s')
    → f a s' ≡ r
    → (m >>= f) s ≡ r
bind_run m f e rest = rw (◌>>=◌, e) rest

module _ {W : Type 0} (s : State W) (p : ℕ) where
  pub load_client_lem :
      (c : Client) → cell s.client_blocks p ≡ some c → load_client p s ≡ returns (c, s)
  unfolding load_client
  load_client_lem c here = rw here

  pub load_topic_lem :
      (t : Topic) → cell s.topic_blocks p ≡ some t → load_topic p s ≡ returns (t, s)
  unfolding load_topic
  load_topic_lem t here = rw here

  pub load_topic-missing : cell s.topic_blocks p ≡ none → load_topic p s ≡ undefined
  unfolding load_topic
  load_topic-missing gone = rw gone

  pub load_message_lem :
      (m : Message) → cell s.message_blocks p ≡ some m → load_message p s ≡ returns (m, s)
  unfolding load_message
  load_message_lem m here = rw here

  pub load_message-freed : cell s.message_blocks p ≡ none → load_message p s ≡ undefined
  unfolding load_message
  load_message-freed gone = rw gone

  pub update_client_last_action_lem :
      (net : Net W) (c : Client)
      → cell s.client_blocks p ≡ some c
      → update_client_last_action net p s
        ≡ returns (
          tt,
          record s {
            client_blocks =
                set s.client_blocks p (some (record c { last_action_time = net.time s.world }));
          },
        )
  unfolding update_client_last_action
  update_client_last_action_lem net c here = rw (update_client_last_action, ◌>>=◌, here)
