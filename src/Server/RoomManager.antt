-- ===== src/Server/RoomManager.antt =====
-- apps/server/src/roomManager.ts: the rooms of one process, the stores that they share with other
-- processes, and what goes out. A call runs to its end; which of the stores fail meanwhile is told
-- by `Faults`. A call that throws returns `none`.
pub mod Handlers
pub mod Timer
pub mod Durability
pub mod Fanout
pub mod Isolation
pub mod Eviction
use ysync.Common.{
  ℕ, ◌+◌, ◌-◌, Bool, true, false, not, ◌&&◌, List, [], ◌∷◌, ◌++◌, map, Option, none, some, length,
  ltb, leb, ◌==◌, if◌then◌else◌,
}
use ysync.Common.Texts.{Text, text_eq}
use ysync.Common.Maps
use ysync.Common.Maps.{Map}
use ysync.Crdt.Op.{Op, op_id_of}
use ysync.Crdt.Snapshot.{RgaSnapshotNode}
use ysync.Protocol.{
  Awareness, ServerMessage, ack, broadcast_op, presence_update, presence_leave, error,
}
use ysync.Server.Seq as Seq
use ysync.Server.Presence as Presence
use ysync.Server.Presence.{PresenceEntry, PresenceStore}
use ysync.Server.Persistence as Persistence
use ysync.Server.Persistence.{PersistenceStore}
use ysync.Server.PubSub as PubSub
use ysync.Server.PubSub.{PubSubBus}
use ysync.Server.Room as Room
use ysync.Server.Room.{Room, Socket, Sent}

-- `emptySince` is the time in milliseconds. The sweep timer runs while the entry is there.
pub record RoomEntry : Type 0 where
  pub room : Room
  pub empty_since : Option ℕ

pub data FanoutPayload : Type 0 where
  ops_fanout : Text → ℕ → List Op → FanoutPayload
  update_fanout : Text → PresenceEntry → FanoutPayload
  leave_fanout : Text → Text → FanoutPayload

-- Without the sweep interval, which only says when `tick` is called.
pub record Options : Type 0 where
  pub presence_ttl_ms : ℕ
  pub idle_timeout_ms : ℕ
  pub snapshot_op_threshold : ℕ

unfoldable pub default_options : Options
default_options = record {
  presence_ttl_ms = 30000;
  idle_timeout_ms = 300000;
  snapshot_op_threshold = 50;
}

-- `doc:${docId}`
unfoldable pub doc_channel : Text → Text
doc_channel doc_id = b'd' ∷ b'o' ∷ b'c' ∷ b':' ∷ doc_id

-- `presence:${docId}`
unfoldable pub presence_channel : Text → Text
presence_channel doc_id = b'p' ∷ b'r' ∷ b'e' ∷ b's' ∷ b'e' ∷ b'n' ∷ b'c' ∷ b'e' ∷ b':' ∷ doc_id

-- The calls that fail.
pub record Faults : Type 0 where
  pub load_fails : Bool
  pub subscribe_fails : Text → Bool
  pub unsubscribe_fails : Text → Bool
  pub next_fails : Bool
  pub publish_fails : FanoutPayload → Bool
  pub append_fails : Bool
  pub write_fails : Bool
  pub set_fails : Bool
  pub remove_fails : Bool
  pub sweep_fails : Bool

-- The manager with the stores. `handler_count` numbers the closures that it subscribes; `sent`,
-- `published` and `closed` are what went out, in order.
pub record RoomManager : Type 0 where
  pub rooms : Map RoomEntry
  pub process_id : Text
  pub options : Options
  pub counters : Map ℕ
  pub presence : PresenceStore
  pub stored : PersistenceStore
  pub bus : PubSubBus
  pub handler_count : ℕ
  pub sent : List Sent
  pub published : List (Text × FanoutPayload)
  pub closed : List Socket

unfoldable pub say : List Sent → RoomManager → RoomManager
say messages m = record m { sent = m.sent ++ messages }

-- `pubSubBus.publish` where it does not fail.
unfoldable pub put_out : Text → FanoutPayload → RoomManager → RoomManager
put_out channel payload m = record m { published = m.published ++ (channel, payload) ∷ [] }

-- A publish whose failure is logged and no more.
unfoldable pub publish : Faults → Text → FanoutPayload → RoomManager → RoomManager
unfolding put_out
publish faults channel payload m =
    if faults.publish_fails payload then m else put_out channel payload m

-- A write to the room of an entry.
unfoldable pub write_room : Text → Room → RoomManager → RoomManager
unfolding Maps.get Maps.put
write_room doc_id room m = elim (Maps.get doc_id m.rooms) [
  | none ↦ m
  | some entry ↦ record m { rooms = Maps.put doc_id (record entry { room = room }) m.rooms }
]

unfoldable pub write_empty_since : Text → Option ℕ → RoomManager → RoomManager
unfolding Maps.get Maps.put
write_empty_since doc_id empty_since m = elim (Maps.get doc_id m.rooms) [
  | none ↦ m
  | some entry ↦ record m {
    rooms = Maps.put doc_id (record entry { empty_since = empty_since }) m.rooms;
  }
]

unfoldable pub delete_room : Text → RoomManager → RoomManager
unfolding Maps.remove
delete_room doc_id m = record m { rooms = Maps.remove doc_id m.rooms }

-- `getOrCreateRoom` from the answer of the load to the first subscription: the entry is set.
unfoldable pub install_room : Text → Persistence.LoadedDocument → RoomManager → RoomManager × Room
unfolding Room.hydrate Maps.put
install_room doc_id loaded m =
    let room =
      Room.hydrate doc_id loaded.snapshot loaded.snapshot_seq loaded.ops loaded.latest_seq in
    (
      record m { rooms = Maps.put doc_id (record { room = room; empty_since = none }) m.rooms },
      room,
    )

unfoldable pub subscribe : Text → RoomManager → RoomManager
unfolding PubSub.subscribe
subscribe channel m = record m {
  bus = PubSub.subscribe channel m.handler_count m.bus;
  handler_count = m.handler_count + 1;
}

-- The two subscriptions; where one fails the entry is dropped.
unfoldable pub subscribe_room : Faults → Text → Room → RoomManager → RoomManager × Option Room
unfolding subscribe delete_room doc_channel presence_channel
subscribe_room faults doc_id room m =
    let m' = subscribe (doc_channel doc_id) m in
    if faults.subscribe_fails (doc_channel doc_id)
    then (delete_room doc_id m, none)
    else if faults.subscribe_fails (presence_channel doc_id)
    then (delete_room doc_id m', none)
    else (subscribe (presence_channel doc_id) m', some room)

unfoldable pub get_or_create_room : Faults → Text → RoomManager → RoomManager × Option Room
unfolding install_room subscribe_room Persistence.load Maps.get
get_or_create_room faults doc_id m = elim (Maps.get doc_id m.rooms) [
  | some existing ↦ (m, some existing.room)
  | none ↦
      if faults.load_fails
      then (m, none)
      else let (m', room) = install_room doc_id (Persistence.load doc_id m.stored) m in
        subscribe_room faults doc_id room m'
]
