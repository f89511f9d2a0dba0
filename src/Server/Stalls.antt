-- ===== src/Server/Stalls.antt =====
-- Packets that leave a client with no reply: nobody arms its descriptor for input again.
use mathlib.Core.Path.{subst}
use sizigy.Base.{ℕ, ◌==◌, ◌≡◌, ◌<◌, Bool, true, false, ◌&&◌, ◌||◌, none, some, ◌∷◌, length, arith}
use sizigy.Buffer.{Allocator}
use sizigy.Packet.{Publish}
use sizigy.Packet.Opcode
use sizigy.Server.Cycle.{serve_run, serve_none}
use sizigy.Server.Dispatch.{
  Unpacked, connection, subscription, publication, acknowledgement, absent, publish_handler,
  matching,
}
use sizigy.Server.Handlers.{nought, one, publish}
use sizigy.Server.Steps.{run_handler, serve, reply_handler}
use sizigy.Sizigy.{replying, epollout, Client, Net, State, returns, ◌>>=◌, cell}
use sizigy.Sizigy.Clients.{with_client, with_client_self, cell-lt, load-with}

-- A SUBACK or PUBACK packet, or a PUBLISH packet with no topic.
abbrev pub is_silent : ℕ → Unpacked → Bool
is_silent opcode (acknowledgement ack) = opcode == Opcode.suback || opcode == Opcode.puback
is_silent opcode (publication pkt) = opcode == Opcode.publish && pkt.topic_len == 0
is_silent opcode (connection pkt) = false
is_silent opcode (subscription pkt) = false
is_silent opcode absent = false

-- The client after such a packet: it waits to be written to.
abbrev pub waiting : {W : Type 0} → Net W → ℕ → Unpacked → Client → State W → State W
waiting net p pkt c s =
    record (with_client s p
      (record c { last_action_time = net.time s.world; ptr = pkt; ctx_handler = replying })) {
        armed = (c.fd, epollout) ∷ s.armed;
      }

publish-unnamed :
    {W : Type 0} (s : State W) (p : ℕ)
    → p < length s.client_blocks
    → (c : Client) (pkt : Publish) → (pkt.topic_len == 0) ≡ true
    → publish p (with_client s p (record c { ptr = publication pkt }))
      ≡ returns (one, with_client s p (record c { ptr = publication pkt }))
unfolding publish
publish-unnamed s p inside c pkt unnamed =
    rw (publish, ◌>>=◌, load-with s p inside (record c { ptr = publication pkt }), unnamed)

module _ {W : Type 0} (net : Net W) (calloc : ℕ → Bool) (alloc : Allocator) (p : ℕ) where
  serve_silent :
      (opcode : ℕ) (pkt : Unpacked) (s : State W) (c : Client)
      → p < length s.client_blocks
      → is_silent opcode pkt ≡ true
      → serve net calloc alloc p opcode pkt (with_client s p c)
        ≡ returns (nought, waiting net p pkt c s)
  unfolding matching run_handler
  serve_silent opcode (acknowledgement ack) s c inside silent =
      serve_none net calloc alloc p opcode (acknowledgement ack) s c inside (ground arith)
        (ground arith)
  serve_silent opcode (publication pkt) s c inside silent =
      let c1 = record c { last_action_time = net.time s.world } in
      let unnamed : (pkt.topic_len == 0) ≡ true = ground arith in
      serve_run net calloc alloc p opcode (publication pkt) publish_handler one s s c
        (record c1 { ptr = publication pkt }) inside inside (ground arith) (ground arith)
        (publish-unnamed s p inside c1 pkt unnamed)
  serve_silent opcode (connection pkt) s c inside silent = cc
  serve_silent opcode (subscription pkt) s c inside silent = cc
  serve_silent opcode absent s c inside silent = cc

  -- A client with no reply pending sends a SUBACK or PUBACK packet, or a PUBLISH packet with no topic.
  -- request_handler returns 0 and arms the client's descriptor for output, once; reply_handler then
  -- returns 0 and changes nothing: the descriptor is not armed for input again.
  pub stall_lem :
      (opcode : ℕ) (pkt : Unpacked) (s : State W) (c : Client)
      → cell s.client_blocks p ≡ some (record c { reply = none })
      → is_silent opcode pkt ≡ true
      → (serve net calloc alloc p opcode pkt s
          ≡ returns (nought, waiting net p pkt (record c { reply = none }) s))
        × (reply_handler net calloc alloc p (waiting net p pkt (record c { reply = none }) s)
            ≡ returns (nought, waiting net p pkt (record c { reply = none }) s))
  unfolding reply_handler
  stall_lem opcode pkt s c here silent =
      let c0 = record c { reply = none } in
      let inside = cell-lt s.client_blocks p c0 here in
      let s1 = record s { armed = (c.fd, epollout) ∷ s.armed } in
      let c1 = record c0 {
        last_action_time = net.time s.world;
        ptr = pkt;
        ctx_handler = replying;
      } in
      (
        subst
            (λ v. serve net calloc alloc p opcode pkt v ≡ returns (nought, waiting net p pkt c0 s))
            (with_client_self s p c0 here) (serve_silent opcode pkt s c0 inside silent),
        rw (reply_handler, ◌>>=◌, load-with s1 p inside c1),
      )
