-- ===== src/Server/Upkeep/Turns.antt =====
-- request_handler and reply_handler leave the broker sound, whatever bytes come in.
use sizigy.Base.{refl, ℕ, ◌==◌, ◌||◌, not, Bool, true, false, Option, none, some, if◌then◌else◌}
use sizigy.Buffer.{Allocator}
use sizigy.Packet.Opcode
use sizigy.Server.Dispatch.{Unpacked, absent, matching, commands}
use sizigy.Server.Handlers.{Ret, minus_one, nought, one}
use sizigy.Server.Receive as Receive
use sizigy.Server.Steps.{
  receive, rearm, drop_reply, acknowledge, serve, handle_packet, request_handler, reply_publish,
  reply_block, reply_retained, reply_with, reply_handler,
}
use sizigy.Server.Upkeep.Handlers.{quiet_rules, Keeps-run_handlers, Keeps-publish_message}
use sizigy.Server.Upkeep.Topics.{Keeps-topic_of}
use sizigy.Sizigy.{
  Stage, Event, Reply, Net, M, pure, ◌>>=◌, ◌>>◌, requesting, replying, epollin, epollout,
}
use sizigy.Sizigy.Keeps.{Keeps, Keeps-then, Keeps-bind, Keeps-load_client}
use sizigy.Sizigy.Ops.{update_client_last_action, load_client, store_client}
use sizigy.Server.Steps.{run_handlers}
use sizigy.Sizigy.Quiet.{Keeps-update, Keeps-store_client, Keeps-Quiet}
use sizigy.Sizigy.Topics.{Ready, Ready-quiet}

module _ {W : Type 0} (p : ℕ) where
  Keeps-rearm : (stage : Stage) (ev : Event) → Keeps (Ready p) (rearm {W = W} p stage ev)
  unfolding rearm
  Keeps-rearm stage ev = search quiet_rules depth 12

  Keeps-drop_reply : Keeps (Ready p) (drop_reply {W = W} p)
  unfolding drop_reply
  Keeps-drop_reply = search quiet_rules depth 12

  Keeps-acknowledge :
      (net : Net W) (alloc : Allocator) (qos fd : ℕ)
      → Keeps (Ready p) (acknowledge net alloc qos fd)
  unfolding acknowledge
  Keeps-acknowledge net alloc qos fd = search quiet_rules depth 12

  Keeps-dropped :
      (ret : Ret)
      → Keeps (Ready p) (elim ret as (λ x. M W (Unit {0})) [
        | minus_one ↦ pure tt
        | nought ↦ drop_reply p
        | one ↦ drop_reply p
      ])
  Keeps-dropped minus_one = search quiet_rules
  Keeps-dropped nought = Keeps-drop_reply
  Keeps-dropped one = Keeps-drop_reply

  -- The end of request_handler.
  Keeps-served :
      (b : Bool) (ret : Ret)
      → Keeps (Ready p) (
          (if b then rearm {W = W} p replying epollout else (do
            rearm p requesting epollin
            elim ret [ minus_one ↦ pure tt | nought ↦ drop_reply p | one ↦ drop_reply p ]))
          >> pure nought)
  Keeps-served true ret = search (quiet_rules, Keeps-rearm) depth 12
  Keeps-served false minus_one = search (quiet_rules, Keeps-rearm) depth 12
  Keeps-served false nought = search (quiet_rules, Keeps-rearm, Keeps-drop_reply) depth 12
  Keeps-served false one = search (quiet_rules, Keeps-rearm, Keeps-drop_reply) depth 12

  Keeps-receive : {A : Type 0} (r : Receive.Reception (A × W)) → Keeps (Ready p) (receive r)
  Keeps-receive (Receive.returns (a, w)) =
      Keeps-Quiet (Ready-quiet p) (receive (Receive.returns (a, w))) (λ s. record {
        lock = refl;
        topics = refl;
        topic_blocks = refl;
        message_blocks = refl;
        live = λ q h. h;
      })
  Keeps-receive Receive.undefined = record { at = λ s h. tt }
  Keeps-receive Receive.out_of_fuel = record { at = λ s h. tt }

  module _ (net : Net W) (calloc : ℕ → Bool) (alloc : Allocator) where
    Keeps-serve :
        (opcode : ℕ) (pkt : Unpacked) → Keeps (Ready p) (serve net calloc alloc p opcode pkt)
    unfolding serve
    Keeps-serve opcode pkt =
        Keeps-then (update_client_last_action net p) _ (Keeps-update (Ready-quiet p) net p) (
          Keeps-bind (load_client p) _ (Keeps-load_client p) (λ c.
            Keeps-then (store_client p (record c { ptr = pkt })) _
              (Keeps-store_client (Ready-quiet p) p (record c { ptr = pkt }))
              (Keeps-bind
                (run_handlers net calloc alloc (matching opcode commands) p (false, minus_one)) _
                (Keeps-run_handlers p net calloc alloc (matching opcode commands)
                  (false, minus_one))
                (λ x. Keeps-served (not (opcode == Opcode.pubrec) || not x.0) x.1))))

    Keeps-unpacked :
        (opcode : ℕ) (pkt : Unpacked)
        → Keeps (Ready p) (elim pkt as (λ x. M W Ret) [
          | absent ↦ pure minus_one
          | other ↦ serve net calloc alloc p opcode other
        ])
    Keeps-unpacked opcode absent = search quiet_rules
    Keeps-unpacked opcode pkt = Keeps-serve opcode pkt

    Keeps-handle_packet :
        (pkt : Receive.Packet) → Keeps (Ready p) (handle_packet net calloc alloc p pkt)
    unfolding handle_packet
    Keeps-handle_packet Receive.null = search (quiet_rules, Keeps-rearm)
    Keeps-handle_packet (Receive.packet opcode b) = search (quiet_rules, Keeps-unpacked)

    -- Whatever bytes come in, request_handler leaves the broker sound where it returns.
    pub Keeps-request_handler :
        (fuel : ℕ) → Keeps (Ready p) (request_handler net calloc alloc fuel p)
    unfolding request_handler
    Keeps-request_handler fuel = search (quiet_rules, Keeps-receive, Keeps-handle_packet) depth 16

    Keeps-reply_publish : (reply : Reply) → Keeps (Ready p) (reply_publish net calloc alloc p reply)
    unfolding reply_publish
    Keeps-reply_publish reply =
        search (quiet_rules, Keeps-topic_of, Keeps-publish_message, Keeps-acknowledge) depth 16

    Keeps-reply_block : (reply : Reply) → Keeps (Ready p) (reply_block net calloc alloc reply)
    unfolding reply_block
    Keeps-reply_block reply = search quiet_rules depth 12

    Keeps-reply_retained :
        (reply : Reply) (m : ℕ) → Keeps (Ready p) (reply_retained net calloc alloc p reply m)
    unfolding reply_retained
    Keeps-reply_retained reply m = search (quiet_rules, Keeps-reply_block) depth 16

    Keeps-either :
        (reply : Reply) (retained : Option ℕ)
        → Keeps (Ready p) (elim retained as (λ x. M W Ret) [
          | none ↦ reply_block net calloc alloc reply
          | some m ↦ reply_retained net calloc alloc p reply m
        ])
    Keeps-either reply none = Keeps-reply_block reply
    Keeps-either reply (some m) = Keeps-reply_retained reply m

    Keeps-reply_with : (reply : Reply) → Keeps (Ready p) (reply_with net calloc alloc p reply)
    unfolding reply_with
    Keeps-reply_with reply =
        search (quiet_rules, Keeps-reply_publish, Keeps-either, Keeps-reply_block) depth 16

    Keeps-replied :
        (o : Option Reply)
        → Keeps (Ready p) (elim o as (λ x. M W Ret) [
          | none ↦ pure nought
          | some reply ↦ do
            ret ← reply_with net calloc alloc p reply
            drop_reply p
            rearm p requesting epollin
            pure ret
        ])
    Keeps-replied none = search quiet_rules
    Keeps-replied (some reply) =
        search (quiet_rules, Keeps-reply_with, Keeps-drop_reply, Keeps-rearm) depth 12

    -- So does reply_handler, for every reply.
    pub Keeps-reply_handler : Keeps (Ready p) (reply_handler net calloc alloc p)
    unfolding reply_handler
    Keeps-reply_handler =
        Keeps-bind (load_client p) _ (Keeps-load_client p) (λ c. Keeps-replied c.reply)
