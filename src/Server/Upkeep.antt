-- ===== src/Server/Upkeep.antt =====
-- The handlers of src/server.c leave the broker sound.
pub mod Topics
pub mod Retain
pub mod Handlers
pub mod Turns
pub mod Loop
pub mod Rounds
