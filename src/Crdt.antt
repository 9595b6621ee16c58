-- ===== src/Crdt.antt =====
-- packages/crdt: the sequence CRDT.
pub mod OpId
pub mod Node
pub mod Op
pub mod Rga
pub mod View
pub mod Editing
pub mod Snapshot
