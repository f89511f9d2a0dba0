-- ===== src/Sizigy/Removal.antt =====
-- del_subscriber against the list without its first node of the client's descriptor.
use sizigy.Base.{
  ℕ, ◌==◌, ◌≡◌, refl, sym, ap, ◌∙◌, true, false, Option, some, List, [], ◌∷◌, if◌then◌else◌,
  Bool-cases, inl, inr,
}
use sizigy.Buffer.Words.{text}
use sizigy.Hashmap as Table
use sizigy.Server.Delivery.{fd_at, cell_of_fd, is_at, AllLive}
use sizigy.Server.Subscribing.{with_topic}
use sizigy.Sizigy.{Client, Subscription, Topic, State, returns, ◌>>=◌, cell}
use sizigy.Sizigy.Ops.{load_topic, store_topic, locked, remove_node, del_subscriber}
use sizigy.Sizigy.Runs.{load_client_lem}

-- The list without the first subscription whose client has the descriptor.
unfoldable pub without : (ℕ → Option ℕ) → ℕ → List Subscription → List Subscription
without fds fd [] = []
without fds fd (x ∷ xs) = if is_at (fds x.client) fd then xs else x ∷ without fds fd xs

module _ {W : Type 0} (s : State W) where
  remove_node_lem :
      (fd : ℕ) (xs : List Subscription)
      → AllLive (fd_at s.client_blocks) xs
      → remove_node fd xs s ≡ returns (without (fd_at s.client_blocks) fd xs, s)
  unfolding remove_node without
  remove_node_lem fd [] live = refl
  remove_node_lem fd (x ∷ xs) ((a, e), live) =
      let (c, here, same) = cell_of_fd s.client_blocks x.client a e in
      let rest = remove_node_lem fd xs live in
      elim (Bool-cases (c.fd == fd)) [
        | inl hit ↦
            rw
              (
                remove_node,
                ◌>>=◌,
                load_client_lem s x.client c here,
                hit,
                without,
                e,
                ap (λ k. k == fd) (sym same) ∙ hit,
              )
              refl
        | inr miss ↦
            rw
              (
                remove_node,
                ◌>>=◌,
                load_client_lem s x.client c here,
                miss,
                without,
                e,
                ap (λ k. k == fd) (sym same) ∙ miss,
                ◌>>=◌,
                rest,
              )
              refl
      ]

module _ {W : Type 0} (s : State W) where
  -- del_subscriber for a client and a topic that are there, with the lock free: the first subscription
  -- whose client has the same descriptor leaves the topic's list, whose field `len` stays as it was.
  pub del_subscriber_lem :
      (sub : Subscription) (tp : ℕ) (t : Topic) (c : Client)
      → s.lock ≡ false
      → Table.get s.topics (text sub.topic) ≡ Table.returns (some tp)
      → cell s.topic_blocks tp ≡ some t
      → cell s.client_blocks sub.client ≡ some c
      → AllLive (fd_at s.client_blocks) t.subscribers.chain
      → del_subscriber sub s
        ≡ returns (
          tt,
          with_topic s tp (record t {
            subscribers = record {
              chain = without (fd_at s.client_blocks) c.fd t.subscribers.chain;
              len = t.subscribers.len;
            };
          }),
        )
  unfolding del_subscriber locked store_topic load_topic
  del_subscriber_lem sub tp t c free found here client live = rw (
    del_subscriber,
    ◌>>=◌,
    found,
    locked,
    free,
    ◌>>=◌,
    here,
    ◌>>=◌,
    load_client_lem (record s { lock = true }) sub.client c client,
    ◌>>=◌,
    remove_node_lem (record s { lock = true }) c.fd t.subscribers.chain live,
  )
