-- ===== src/Server.antt =====
-- src/server.c: how the broker cuts packets out of the bytes of a connection, and what its handlers do
-- with them.
pub mod Receive
pub mod Dispatch
pub mod Reply
pub mod Delivery
pub mod Handlers
pub mod Steps
pub mod Cycle
pub mod Publishing
pub mod Turn
pub mod Stalls
pub mod Events
pub mod Accepting
pub mod Upkeep
pub mod Course
pub mod Subscribing
pub mod Greeting
pub mod Joining
pub mod Retaining
pub mod Remembering
pub mod Hazards
pub mod Keepalive
pub mod Loops
pub mod Freeing
pub mod Framing
pub mod Stuck
mod Tests
