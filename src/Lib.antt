-- ===== src/Lib.antt =====
-- Verification of the sizigy message broker (an MQTT-like server in C).
--
-- The program reads bytes from sockets into a ring buffer (src/ringbuf.c), cuts packets out of it,
-- unpacks them (src/protocol.c), and dispatches them to handlers that work on hash tables of topics
-- and clients (src/hashmap.c, src/sizigy.c, src/server.c). Answers are packed and sent.
--
-- Which file models what:
--   Base.antt, Base/       shared names, Boolean tests, lists with native indices
--   Ring.antt, Ring/       src/ringbuf.c: struct ringbuf and its functions; Ring/Fifo is the queue
--                          that src/ringbuf.h promises
--   Buffer.antt, Buffer/   the byte buffers of src/protocol.c: readers, writers, byte order
--   Packet.antt, Packet/   the packets of src/protocol.h: constructors, pack_* and unpack_*;
--                          Packet/Release has the free_* functions, over a memory whose blocks are
--                          allocated or free
--   Hashmap.antt, Hashmap/ src/hashmap.c: the table, its hash function and its operations; the lock
--                          is a flag, and a call that locks twice is the outcome `deadlock`. The
--                          mutual recursion of put and rehash has fuel; two levels are enough,
--                          since the inner call finds the lock taken
--   Network.antt, Network/ src/network.c: sendall, recvbytes and recvall over `send` and `recv` of the
--                          system, which `Socket` takes as parameters with their laws;
--                          Network/Listen has the functions that bind, accept and connect, over the
--                          calls of the system in `Os`. Network/Scripted is an instance. Each round moves a byte at least, so
--                          that one round more than there are bytes is enough fuel
--   Sizigy.antt, Sizigy/   src/sizigy.h and src/sizigy.c: clients, topics, subscriptions and messages as
--                          blocks of a store, the state of the broker, and the functions on them
--   Server.antt, Server/   src/server.c: recv_packet, unpack_packet and the table of commands
--                          (Receive, Dispatch). Two rounds of each loop of recv_packet are enough on a
--                          socket that keeps sending, and no number is on one that was closed.
--                          Reply and Handlers are set_reply, publish_message and the handlers; Steps is
--                          request_handler and reply_handler, the two states of a client; Turn, Joining
--                          and Remembering put them together for PUBLISH and SUBSCRIBE; Stalls and
--                          Hazards are what goes wrong; Keepalive is check_client_status.
--                          Events is accept_handler, the handling of an event by worker, and
--                          start_server; Course is every state that comes of them, and Upkeep the
--                          invariant of those states, handler by handler. Freeing is free_client
--                          and free_reply, over the memory of Packet/Release
--   Main.antt, Main/       src/main.c: the options, and the connection to a node that is joined
--   Queue.antt, Queue/     src/queue.c: the queue on a heap of items. A round of send_queue takes one
--                          item, so that one more than there are items is enough fuel
--   LinkedList.antt, LinkedList/  src/list.c: the list on a heap of nodes. list_remove_node recurs once a
--                          node, so that one more than there are nodes is enough fuel
--   Util.antt, Util/       src/util.c: the Atomic as a system of threads whose steps interleave, the
--                          throttler, random_name, append_string and remove_newline
--
-- A C function that changes a structure returns the new structure. An access outside a block, which
-- C leaves undefined, is the outcome `none`. Memory comes from an `Allocator`, whose blocks have the
-- length asked for and any contents; where `malloc` fails the program ends in `oom`. Bytes are
-- native numbers, and conversions to narrower types are written out as `% 2 ^ w`.
--
-- A handler is a function on the state of the broker: the tables, the lock, the blocks, the events that
-- epoll is armed for, the descriptors closed, and the world of the sockets and the clock (`Net`). It
-- returns, or does what C leaves undefined (reads a freed or unwritten place), or waits for ever on a lock.
-- One handler runs at a time: what two workers do to one client or one topic at once is not modelled. A
-- reply is read where reply_handler reads it, also where its field `retained` was never written. A call of
-- recv_packet in request_handler is given its fuel from outside. The number of bytes that publish_message
-- returns is not cut to an `int`: no caller uses it but for its sign.
--
-- The `int total` of sendall, recvbytes and recvall overflows at 2^31, which C leaves undefined: the run
-- is then `none`, and `undefined` in a handler. So what is proved of them is for fewer bytes than that.
--
-- An event of epoll is its flags and what `data` holds: the descriptor of the eventfd, or a pointer to a
-- client, whose address is a parameter. `armed` is what the epoll descriptor of the workers is armed for.
-- The events of the workers and the rounds of keepalive come in any order, one at a time, each with any
-- fuel.
--
-- Not modelled: the clean-up at the end of start_server (destroy_topics, destroy_clients,
-- destroy_queue_data, destroy_topic, hashmap_release), ringbuf_free and logging; the creation and
-- joining of threads and sigint_handler, which are system calls; parse_int of src/util.c, which
-- nothing calls; and the clients src/sizigysub.c and
-- src/sizigypub.c, which no longer fit src/protocol.h.
pub mod Base
pub mod Ring
pub mod Buffer
pub mod Packet
pub mod Queue
pub mod Main
pub mod Hashmap
pub mod Network
pub mod Server
pub mod Sizigy
pub mod LinkedList
pub mod Util
