-- ===== src/Protocol.antt =====
-- packages/protocol/src/messages.ts: the messages between server and client.
pub mod Json
pub mod Zod
pub mod Schemas
pub mod Limits
use ysync.Common.{ℕ, List, Option}
use ysync.Common.Texts.{Text}
use ysync.Crdt.OpId.{OpId}
use ysync.Crdt.Op.{Op}
use ysync.Crdt.Snapshot.{RgaSnapshotNode}

pub record Selection : Type 0 where
  pub anchor : ℕ
  pub head : ℕ

-- `awarenessFields`: a field that is absent or null is `none`.
pub record Awareness : Type 0 where
  pub cursor : Option ℕ
  pub selection : Option Selection
  pub name : Option Text
  pub color : Option Text

pub data ClientMessage : Type 0 where
  join : Text → Text → ℕ → ClientMessage
  op : Text → List Op → ClientMessage
  presence : Text → Awareness → ClientMessage
  leave : Text → ClientMessage

pub data ServerMessage : Type 0 where
  snapshot : Text → ℕ → List RgaSnapshotNode → ServerMessage
  sync : Text → ℕ → List Op → ServerMessage
  ack : Text → ℕ → List OpId → ServerMessage
  broadcast_op : Text → ℕ → List Op → ServerMessage
  presence_update : Text → Text → Awareness → ServerMessage
  presence_leave : Text → Text → ServerMessage
  error : Text → Text → ServerMessage
