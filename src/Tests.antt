-- ===== src/Tests.antt =====
-- The theorems at concrete documents, rooms and deltas.
mod Browser
mod Crdt
mod Manager
mod Protocol
mod Redis
mod Server
mod Stores
mod Together
mod Web
