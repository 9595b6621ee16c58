-- ===== src/Server.antt =====
-- apps/server: the sync server.
pub mod Config
pub mod Dispatch
pub mod Errors
pub mod PubSub
pub mod RoomManager
pub mod Seq
pub mod Presence
pub mod Persistence
pub mod Room
