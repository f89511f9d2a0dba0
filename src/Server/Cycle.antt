-- ===== src/Server/Cycle.antt =====
-- One turn of a client: request_handler serves a packet, and reply_handler sends the reply.
use sizigy.Base.{ℕ, ◌<◌, ◌≡◌, ◌==◌, refl, Bool, false, none, some, [], ◌∷◌, length}
use sizigy.Buffer.{Allocator}
use sizigy.Packet.Opcode
use sizigy.Server.Dispatch.{Unpacked, Handler, commands, matching}
use sizigy.Server.Handlers.{Ret, nought}
use sizigy.Server.Steps.{
  rearm, drop_reply, run_handler, run_handlers, serve, reply_with, reply_handler,
}
use sizigy.Sizigy.{
  Stage, Event, requesting, replying, epollin, epollout, Client, Reply, Net, State, returns, ◌>>=◌,
  ◌>>◌,
}
use sizigy.Server.Reply.{mod_epoll}
use sizigy.Sizigy.Ops.{load_client, store_client}
use sizigy.Sizigy.Runs.{bind_run}
use sizigy.Sizigy.Clients.{with_client, set-set, load-with, store-with, update-with}

module _ {W : Type 0} (s : State W) (p : ℕ) (inside : p < length s.client_blocks) where
  rearm-with :
      (stage : Stage) (ev : Event) (c : Client)
      → rearm p stage ev (with_client s p c)
        ≡ returns (
          tt,
          record (with_client s p (record c { ctx_handler = stage })) {
            armed = (c.fd, ev) ∷ s.armed;
          },
        )
  unfolding rearm
  rearm-with stage ev c =
      bind_run (load_client p)
        (λ c. store_client p (record c { ctx_handler = stage }) >> mod_epoll c.fd ev)
        (load-with s p inside c)
        (bind_run (store_client p (record c { ctx_handler = stage })) (λ _. mod_epoll c.fd ev)
          (store-with s p inside c (record c { ctx_handler = stage })) refl)

  drop_reply-with :
      (c : Client)
      → drop_reply p (with_client s p c) ≡ returns (tt, with_client s p (record c { reply = none }))
  unfolding drop_reply
  drop_reply-with c = rw (
    drop_reply,
    ◌>>=◌,
    load-with s p inside c,
    store-with s p inside c (record c { reply = none }),
  )

module _ {W : Type 0} (net : Net W) (calloc : ℕ → Bool) (alloc : Allocator) (p : ℕ) where
  -- request_handler with a packet that calls one handler: the client waits to be written to.
  pub serve_run :
      (opcode : ℕ) (pkt : Unpacked) (h : Handler) (ret : Ret) (s s' : State W) (c c' : Client)
      → p < length s.client_blocks
      → p < length s'.client_blocks
      → matching opcode commands ≡ h ∷ []
      → (opcode == Opcode.pubrec) ≡ false
      → run_handler net calloc alloc h p
          (with_client s p (record c { last_action_time = net.time s.world; ptr = pkt }))
        ≡ returns (ret, with_client s' p c')
      → serve net calloc alloc p opcode pkt (with_client s p c)
        ≡ returns (
          nought,
          record (with_client s' p (record c' { ctx_handler = replying })) {
            armed = (c'.fd, epollout) ∷ s'.armed;
          },
        )
  unfolding serve run_handlers
  serve_run opcode pkt h ret s s' c c' inside inside' one_match other run =
      let c1 = record c { last_action_time = net.time s.world } in
      rw (
        serve,
        ◌>>◌,
        update-with s p inside net c,
        ◌>>=◌,
        load-with s p inside c1,
        ◌>>◌,
        set-set s.client_blocks p (some c1) (some (record c1 { ptr = pkt })),
        one_match,
        ◌>>=◌,
        run,
        other,
        ◌>>◌,
        rearm-with s' p inside' replying epollout c',
      )

  -- request_handler with a packet that no handler is for.
  pub serve_none :
      (opcode : ℕ) (pkt : Unpacked) (s : State W) (c : Client)
      → p < length s.client_blocks
      → matching opcode commands ≡ []
      → (opcode == Opcode.pubrec) ≡ false
      → serve net calloc alloc p opcode pkt (with_client s p c)
        ≡ returns (
          nought,
          record (with_client s p (record c {
            last_action_time = net.time s.world;
            ptr = pkt;
            ctx_handler = replying;
          })) { armed = (c.fd, epollout) ∷ s.armed },
        )
  unfolding serve run_handlers
  serve_none opcode pkt s c inside no_match other =
      let c1 = record c { last_action_time = net.time s.world } in
      rw (
        serve,
        ◌>>◌,
        update-with s p inside net c,
        ◌>>=◌,
        load-with s p inside c1,
        ◌>>◌,
        set-set s.client_blocks p (some c1) (some (record c1 { ptr = pkt })),
        no_match,
        ◌>>=◌,
        other,
        ◌>>◌,
        rearm-with s p inside replying epollout (record c1 { ptr = pkt }),
      )

  -- reply_handler with a reply at hand: the client is listened to again.
  pub reply_run :
      (reply : Reply) (ret : Ret) (s s' : State W) (c c' : Client)
      → p < length s.client_blocks
      → p < length s'.client_blocks
      → reply_with net calloc alloc p reply (with_client s p (record c { reply = some reply }))
        ≡ returns (ret, with_client s' p c')
      → reply_handler net calloc alloc p (with_client s p (record c { reply = some reply }))
        ≡ returns (
          ret,
          record (with_client s' p (record c' { reply = none; ctx_handler = requesting })) {
            armed = (c'.fd, epollin) ∷ s'.armed;
          },
        )
  unfolding reply_handler
  reply_run reply ret s s' c c' inside inside' run = rw (
    reply_handler,
    ◌>>=◌,
    load-with s p inside (record c { reply = some reply }),
    ◌>>=◌,
    run,
    ◌>>◌,
    drop_reply-with s' p inside' c',
    ◌>>◌,
    rearm-with s' p inside' requesting epollin (record c' { reply = none }),
  )
