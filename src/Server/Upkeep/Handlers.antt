-- ===== src/Server/Upkeep/Handlers.antt =====
-- The handlers of the commands leave the broker sound, for a client that is there.
use sizigy.Base.{ℕ, Bool, Option, List, [], ◌∷◌}
use sizigy.Buffer.{Allocator}
use sizigy.Packet.{Publish}
use sizigy.Server.Dispatch.{
  Handler, connect_handler, publish_handler, pingreq_handler, subscribe_handler,
  unsubscribe_handler, disconnect_handler,
}
use sizigy.Server.Handlers.{Ret, connect, publish, pingreq, subscribe, disconnect, set_retained}
use sizigy.Server.Reply.{publish_message}
use sizigy.Server.Steps.{run_handler, run_handlers}
use sizigy.Server.Upkeep.Topics.{Keeps-topic_of, Keeps-add_subscriber}
use sizigy.Server.Upkeep.Retain.{Keeps-retain_message}
use sizigy.Sizigy.{Net}
use sizigy.Sizigy.Keeps.{Keeps, keeps_rules}
use sizigy.Sizigy.Ops.{create_subscription}
use sizigy.Sizigy.Quiet.{
  Keeps-store_client, Keeps-mod_epoll, Keeps-close_fd, Keeps-set_reply, Keeps-set_ack_reply,
  Keeps-update, Keeps-send_to, Keeps-deliver, Keeps-add_client, Keeps-del_client,
}
use sizigy.Sizigy.Topics.{Ready, Ready-quiet}

pub ruleset quiet_rules = (
  keeps_rules, Ready-quiet, Keeps-store_client, Keeps-mod_epoll, Keeps-close_fd, Keeps-set_reply,
  Keeps-set_ack_reply, Keeps-update, Keeps-send_to, Keeps-deliver, Keeps-add_client,
  Keeps-del_client,
)

module _ {W : Type 0} (p : ℕ) where
  Keeps-disconnect : Keeps (Ready p) (disconnect {W = W} p)
  unfolding disconnect
  Keeps-disconnect = search quiet_rules depth 12

  Keeps-publish : Keeps (Ready p) (publish {W = W} p)
  unfolding publish
  Keeps-publish = search quiet_rules depth 12

  Keeps-pingreq : (net : Net W) (alloc : Allocator) → Keeps (Ready p) (pingreq net alloc p)
  unfolding pingreq
  Keeps-pingreq net alloc = search quiet_rules depth 12

  Keeps-set_retained : (retained : Option ℕ) → Keeps (Ready p) (set_retained {W = W} p retained)
  unfolding set_retained
  Keeps-set_retained retained = search quiet_rules depth 12

  Keeps-subscribe :
      (calloc : ℕ → Bool) (alloc : Allocator) → Keeps (Ready p) (subscribe {W = W} calloc alloc p)
  unfolding subscribe create_subscription
  Keeps-subscribe calloc alloc =
      search (quiet_rules, Keeps-topic_of, Keeps-add_subscriber, Keeps-set_retained) depth 16

  Keeps-connect :
      (net : Net W) (calloc : ℕ → Bool) (alloc : Allocator)
      → Keeps (Ready p) (connect net calloc alloc p)
  unfolding connect
  Keeps-connect net calloc alloc = search quiet_rules depth 12

  Keeps-run_handler :
      (net : Net W) (calloc : ℕ → Bool) (alloc : Allocator) (h : Handler)
      → Keeps (Ready p) (run_handler net calloc alloc h p)
  unfolding run_handler
  Keeps-run_handler net calloc alloc connect_handler = Keeps-connect net calloc alloc
  Keeps-run_handler net calloc alloc publish_handler = Keeps-publish
  Keeps-run_handler net calloc alloc pingreq_handler = Keeps-pingreq net alloc
  Keeps-run_handler net calloc alloc subscribe_handler = Keeps-subscribe calloc alloc
  Keeps-run_handler net calloc alloc unsubscribe_handler = record { at = λ s h. tt }
  Keeps-run_handler net calloc alloc disconnect_handler = Keeps-disconnect

  pub Keeps-run_handlers :
      (net : Net W) (calloc : ℕ → Bool) (alloc : Allocator) (hs : List Handler) (last : Bool × Ret)
      → Keeps (Ready p) (run_handlers net calloc alloc hs p last)
  unfolding run_handlers
  Keeps-run_handlers net calloc alloc [] last = search keeps_rules
  Keeps-run_handlers net calloc alloc (h ∷ hs) last =
      let rest : (next : Bool × Ret) → Keeps (Ready p) (run_handlers net calloc alloc hs p next) =
        Keeps-run_handlers net calloc alloc hs in
      search (quiet_rules, Keeps-run_handler)

  pub Keeps-publish_message :
      (net : Net W) (alloc : Allocator) (tp : ℕ) (msg : Publish) (sender : List ℕ)
      → Keeps (Ready p) (publish_message net alloc tp msg sender)
  unfolding publish_message
  Keeps-publish_message net alloc tp msg sender =
      search (quiet_rules, Keeps-retain_message) depth 12
