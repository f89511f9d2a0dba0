-- ===== src/Server/Freeing.antt =====
-- buffer_destroy of src/protocol.c, and free_reply and free_client of src/server.c, over a memory that says
-- of each block whether it is allocated. The `data` of a buffer is not null, which buffer_destroy asserts.
use sizigy.Base.{
  ℕ, ◌==◌, ◌≡◌, refl, sym, ap, ◌∙◌, true, false, Option, none, some, List, [], ◌∷◌, ◌++◌, ◌>>=◌,
  if◌then◌else◌,
}
use sizigy.Packet.Opcode
use sizigy.Packet.Release.{
  PublishBlock, Memory, free, free_field, free_publish, free_self, memory_of, owned, publish,
  AreOwned, free_all, release,
}
use sizigy.Packet.Freed.{Freed, free_all_lem, release-free_all, nulled, then_lem, self_of}

pub record BufferBlock : Type 0 where
  pub self : ℕ
  pub bytes : ℕ

unfoldable pub buffer_destroy : BufferBlock → Memory → Option Memory
buffer_destroy b mem = do after ← free b.bytes mem; free b.self after

-- What the union of a Reply points to.
pub data Body : Type 0 where
  empty : Body
  payload : BufferBlock → Body
  to_send : PublishBlock → Body

pub record ReplyBlock : Type 0 where
  pub self : ℕ
  pub opcode : ℕ
  pub body : Body

-- A Publish that is taken for a Buffer, or a Buffer for a Publish, is undefined.
unfoldable pub free_body : ℕ → Body → Memory → Option Memory
free_body opcode empty mem = some mem
free_body opcode (payload b) mem = if opcode == Opcode.publish then none else buffer_destroy b mem
free_body opcode (to_send p) mem =
    if opcode == Opcode.publish
    then (do (q, after) ← free_publish (some p) mem; some after)
    else none

unfoldable pub free_reply : Option ReplyBlock → Memory → Option (Option ReplyBlock × Memory)
free_reply none mem = some (none, mem)
free_reply (some r) mem = do m1 ← free_body r.opcode r.body mem; free_self r.self m1

pub record ClientBlock : Type 0 where
  pub self : ℕ
  pub id : Option ℕ
  pub reply : Option ReplyBlock
  pub addr : Option ℕ

unfoldable pub free_client : Option ClientBlock → Memory → Option (Option ClientBlock × Memory)
free_client none mem = some (none, mem)
free_client (some c) mem = do
  m1 ← free_field c.id mem
  (r, m2) ← free_reply c.reply m1
  m3 ← free_field c.addr m2
  free_self c.self m3

-- The opcode says what the union points to.
abbrev pub IsTaggedBody : ℕ → Body → Type 0
IsTaggedBody opcode empty = Unit {0}
IsTaggedBody opcode (payload b) = (opcode == Opcode.publish) ≡ false
IsTaggedBody opcode (to_send p) = (opcode == Opcode.publish) ≡ true

abbrev pub IsTagged : Option ReplyBlock → Type 0
IsTagged none = Unit {0}
IsTagged (some r) = IsTaggedBody r.opcode r.body

abbrev pub owned_body : Body → List (Option ℕ)
owned_body empty = []
owned_body (payload b) = some b.bytes ∷ some b.self ∷ []
owned_body (to_send p) = owned (publish p)

abbrev pub owned_reply : Option ReplyBlock → List (Option ℕ)
owned_reply none = []
owned_reply (some r) = owned_body r.body ++ some r.self ∷ []

-- The pointers that a client owns, and to itself.
abbrev pub owned_client : ClientBlock → List (Option ℕ)
owned_client c = c.id ∷ owned_reply c.reply ++ c.addr ∷ some c.self ∷ []

bind_some : {A : Type 0} → (o : Option A) → (o >>= some) ≡ o
bind_some none = refl
bind_some (some a) = refl

ends : {A B : Type 0} → (o : Option A) (f : A → Option B) → (o >>= (λ a. f a >>= some)) ≡ (o >>= f)
ends none f = refl
ends (some a) f = bind_some (f a)

module _ {A : Type 0} where
  second_lem :
      (x : Option (Option A × Memory)) (o : Option Memory)
      → memory_of x ≡ nulled o
      → (x >>= (λ r. some r.1)) ≡ o
  unfolding nulled
  second_lem none none e = refl
  second_lem none (some m) e = cc
  second_lem (some (none, m)) none e = cc
  second_lem (some (none, m)) (some m') e = cc
  second_lem (some (some a, m)) none e = cc
  second_lem (some (some a, m)) (some m') e = cc

module _ {A B : Type 0} where
  second_then :
      (x : Option (Option A × Memory)) (o : Option Memory) (f : Memory → Option (Option B × Memory))
      (g : Memory → Option Memory)
      → memory_of x ≡ nulled o
      → ((m : Memory) → memory_of (f m) ≡ nulled (g m))
      → memory_of (x >>= (λ r. f r.1)) ≡ nulled (o >>= g)
  unfolding nulled
  second_then none none f g e same = refl
  second_then none (some m) f g e same = cc
  second_then (some (none, m)) none f g e same = cc
  second_then (some (none, m)) (some m') f g e same =
      let same_memory : m ≡ m' = cc in rw same_memory (same m')
  second_then (some (some a, m)) none f g e same = cc
  second_then (some (some a, m)) (some m') f g e same = cc

append_step :
    (o : Option Memory) (f g h : Memory → Option Memory)
    → ((m : Memory) → f m ≡ g m >>= h)
    → (o >>= f) ≡ (o >>= g) >>= h
append_step none f g h same = refl
append_step (some m) f g h same = same m

free_all-append :
    (ps qs : List (Option ℕ)) (mem : Memory)
    → free_all (ps ++ qs) mem ≡ free_all ps mem >>= (λ m. free_all qs m)
unfolding free_all
free_all-append [] qs mem = refl
free_all-append (p ∷ ps) qs mem =
    append_step (free_field p mem) _ (λ m. free_all ps m) _ (λ m. free_all-append ps qs m)

free_body-owned :
    (opcode : ℕ) (body : Body) (mem : Memory)
    → IsTaggedBody opcode body
    → free_body opcode body mem ≡ free_all (owned_body body) mem
unfolding free_body buffer_destroy free_all free_field free_publish release
free_body-owned opcode empty mem tagged = refl
free_body-owned opcode (payload b) mem tagged =
    rw tagged (sym (ends (free b.bytes mem) (λ m. free b.self m)))
free_body-owned opcode (to_send p) mem tagged = rw tagged (
    second_lem (free_publish (some p) mem) (free_all (owned (publish p)) mem)
      (release-free_all (publish p) mem))

free_reply-owned :
    (r : Option ReplyBlock) (mem : Memory)
    → IsTagged r
    → memory_of (free_reply r mem) ≡ nulled (free_all (owned_reply r) mem)
unfolding free_reply free_all free_field nulled
free_reply-owned none mem tagged = refl
free_reply-owned (some r) mem tagged =
    rw
      (
        free_body-owned r.opcode r.body mem tagged,
        free_all-append (owned_body r.body) (some r.self ∷ []) mem,
      )
      (then_lem (free_all (owned_body r.body) mem) _ _ (λ m. self_of ReplyBlock (free r.self m)))

free_client-owned :
    (c : ClientBlock) (mem : Memory)
    → IsTagged c.reply
    → memory_of (free_client (some c) mem) ≡ nulled (free_all (owned_client c) mem)
unfolding free_client free_all free_field free
free_client-owned c mem tagged = then_lem (free_field c.id mem) _ _ (λ m1.
    rw (free_all-append (owned_reply c.reply) (c.addr ∷ some c.self ∷ []) m1) (
      second_then (free_reply c.reply m1) (free_all (owned_reply c.reply) m1) _ _
        (free_reply-owned c.reply m1 tagged)
        (λ m2. then_lem (free_field c.addr m2) _ _ (λ m. self_of ClientBlock (free c.self m)))))

-- free_client, where the opcode of the reply says what its union points to and the blocks that the client
-- owns are allocated and each owned once: it returns with the caller's pointer null, all those blocks are
-- free, and every other block is as it was.
pub free_client_lem :
    (c : ClientBlock) (mem : Memory)
    → IsTagged c.reply
    → AreOwned mem (owned_client c)
    → Freed mem (owned_client c) (λ m. (true, m)) (memory_of (free_client (some c) mem))
unfolding nulled
free_client_lem c mem tagged h =
    let f = free_all_lem mem (owned_client c) h in
    record {
      after = f.after;
      runs = free_client-owned c mem tagged ∙ ap nulled f.runs;
      gone = f.gone;
      others = f.others;
    }
