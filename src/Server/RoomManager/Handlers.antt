-- ===== src/Server/RoomManager/Handlers.antt =====
-- The calls of apps/server/src/roomManager.ts that clients and other processes cause. `now` is what
-- `Date.now()` returns during the call.
use ysync.Common.{
  ℕ, Bool, not, ◌&&◌, List, [], ◌∷◌, ◌++◌, map, Option, none, some, ◌==◌, if◌then◌else◌,
}
use ysync.Common.Texts.{Text, text_eq}
use ysync.Common.Maps
use ysync.Crdt.Op.{Op, op_id_of}
use ysync.Crdt.Snapshot.{RgaSnapshotNode}
use ysync.Protocol.{Awareness, ServerMessage, ack, broadcast_op, presence_update, presence_leave}
use ysync.Server.Errors.{seq_alloc_failed, persist_failed}
use ysync.Server.Seq
use ysync.Server.Presence
use ysync.Server.Presence.{PresenceEntry}
use ysync.Server.Persistence
use ysync.Server.Room
use ysync.Server.Room.{Room, Socket}
use ysync.Server.RoomManager.{
  RoomManager, FanoutPayload, ops_fanout, update_fanout, leave_fanout, Faults, doc_channel,
  presence_channel, say, publish, write_room, write_empty_since, get_or_create_room,
}

-- What `join` returns: `sync` with the ops that the client misses, or the whole state.
pub data CatchUp : Type 0 where
  sync : ℕ → List Op → CatchUp
  snapshot : ℕ → List RgaSnapshotNode → CatchUp

unfoldable pub catch_up : ℕ → Room → CatchUp
unfolding Room.get_ops_since Room.snapshot
catch_up since_seq room = elim (Room.get_ops_since since_seq room) [
  | some incremental ↦ sync room.seq incremental
  | none ↦ snapshot room.seq (Room.snapshot room)
]

module _ (is_open : Socket → Bool) where
  -- The socket that was there under the same replica is closed, unless it is the new one.
  unfoldable pub close_previous : Option Socket → Socket → RoomManager → RoomManager
  close_previous none socket m = m
  close_previous (some previous) socket m =
      if not (previous == socket) && is_open previous
      then record m { closed = m.closed ++ previous ∷ [] }
      else m

  unfoldable pub join :
      Faults → Text → Text → Socket → ℕ → RoomManager → RoomManager × Option CatchUp
  unfolding get_or_create_room Room.join close_previous write_room write_empty_since catch_up
  join faults doc_id replica_id socket since_seq m =
      let (m', found) = get_or_create_room faults doc_id m in
      elim found [
        | none ↦ (m', none)
        | some room ↦
            let (joined, previous) = Room.join replica_id socket room in
            (
              write_empty_since doc_id none
                  (close_previous previous socket (write_room doc_id joined m')),
              some (catch_up since_seq joined),
            )
      ]

  -- `this.rooms.get(docId)?.room.broadcast(...)`
  unfoldable pub tell_room : Text → ServerMessage → Option Text → RoomManager → RoomManager
  unfolding say Room.broadcast Maps.get
  tell_room doc_id message except m = elim (Maps.get doc_id m.rooms) [
    | none ↦ m
    | some entry ↦ say (Room.broadcast is_open message except entry.room) m
  ]

  unfoldable pub remove_presence : Faults → Text → Text → RoomManager → RoomManager
  unfolding tell_room publish Presence.remove presence_channel
  remove_presence faults doc_id replica_id m =
      let removed =
        if faults.remove_fails
        then m
        else record m { presence = Presence.remove doc_id replica_id m.presence } in
      publish faults (presence_channel doc_id) (leave_fanout m.process_id replica_id)
        (tell_room doc_id (presence_leave doc_id replica_id) (some replica_id) removed)

  -- The room's part of `leave`.
  unfoldable pub leave_room : Text → Text → Option Socket → ℕ → RoomManager → RoomManager
  unfolding write_room write_empty_since Room.leave Room.is_empty Maps.get
  leave_room doc_id replica_id socket now m = elim (Maps.get doc_id m.rooms) [
    | none ↦ m
    | some entry ↦
        let left = Room.leave replica_id socket entry.room in
        let m' = write_room doc_id left m in
        if Room.is_empty left then write_empty_since doc_id (some now) m' else m'
  ]

  unfoldable pub leave : Faults → Text → Text → Option Socket → ℕ → RoomManager → RoomManager
  unfolding leave_room remove_presence
  leave faults doc_id replica_id socket now m =
      remove_presence faults doc_id replica_id (leave_room doc_id replica_id socket now m)

  -- The end of `applyClientOp`: persist, then ack.
  unfoldable pub persist : Faults → Text → Text → ℕ → List Op → Room → RoomManager → RoomManager
  unfolding say Room.send_to Persistence.append_ops op_id_of
  persist faults doc_id sender seq ops room m =
      if faults.append_fails
      then say (Room.send_to is_open sender persist_failed room) m
      else say (Room.send_to is_open sender (ack doc_id seq (map op_id_of ops)) room)
          (record m { stored = Persistence.append_ops doc_id seq ops m.stored })

  -- What `applyClientOp` does with the number that it was given.
  unfoldable pub apply_numbered :
      Faults → Text → Text → ℕ → List Op → Room → RoomManager → RoomManager
  unfolding write_room say publish persist Room.apply_ops Room.broadcast doc_channel
  apply_numbered faults doc_id sender seq ops room m =
      let applied = Room.apply_ops ops seq room in
      persist faults doc_id sender seq ops applied (
        publish faults (doc_channel doc_id) (ops_fanout m.process_id seq ops) (
          say (Room.broadcast is_open (broadcast_op doc_id seq ops) (some sender) applied)
            (write_room doc_id applied m)))

  -- `applyClientOp` behind `getOrCreateRoom`.
  unfoldable pub apply_found :
      Faults → Text → Text → List Op → RoomManager → Option Room → RoomManager × Option (Unit {0})
  unfolding apply_numbered say Room.send_to Seq.next
  apply_found faults doc_id sender ops m none = (m, none)
  apply_found faults doc_id sender ops m (some room) =
      let (counters, seq) = Seq.next doc_id m.counters in
      if faults.next_fails
      then (say (Room.send_to is_open sender seq_alloc_failed room) m, some tt)
      else (
        apply_numbered faults doc_id sender seq ops room (record m { counters = counters }),
        some tt,
      )

  unfoldable pub apply_client_op :
      Faults → Text → Text → List Op → RoomManager → RoomManager × Option (Unit {0})
  unfolding get_or_create_room apply_found
  apply_client_op faults doc_id sender ops m =
      let (m', found) = get_or_create_room faults doc_id m in
      apply_found faults doc_id sender ops m' found

  unfoldable pub update_presence :
      Faults → Text → Text → Awareness → ℕ → RoomManager → RoomManager × Option (Unit {0})
  unfolding get_or_create_room say publish Room.broadcast Presence.set presence_channel
  update_presence faults doc_id sender awareness now m =
      let (m', found) = get_or_create_room faults doc_id m in
      elim found [
        | none ↦ (m', none)
        | some room ↦
            let entry : PresenceEntry = record { replica_id = sender; awareness = awareness } in
            if faults.set_fails then (m', some tt) else (
              publish faults (presence_channel doc_id) (update_fanout m'.process_id entry) (
                  say
                    (Room.broadcast is_open (presence_update doc_id sender awareness) (some sender)
                      room)
                    (record m' {
                      presence =
                          Presence.set doc_id entry m'.options.presence_ttl_ms now m'.presence;
                    })),
              some tt,
            )
      ]

  -- A message of the document's channel; other kinds never come on it.
  unfoldable pub handle_remote_op : Faults → Text → FanoutPayload → RoomManager → RoomManager
  unfolding write_room say Room.apply_ops Room.broadcast Persistence.append_ops text_eq Maps.get
  handle_remote_op faults doc_id (ops_fanout origin_id seq ops) m =
      if text_eq origin_id m.process_id then m else elim (Maps.get doc_id m.rooms) [
        | none ↦ m
        | some entry ↦
            let applied = Room.apply_ops ops seq entry.room in
            let told =
              say (Room.broadcast is_open (broadcast_op doc_id seq ops) none applied)
                (write_room doc_id applied m) in
            if faults.append_fails
            then told
            else record told { stored = Persistence.append_ops doc_id seq ops told.stored }
      ]
  handle_remote_op faults doc_id (update_fanout origin_id entry) m = m
  handle_remote_op faults doc_id (leave_fanout origin_id replica_id) m = m

  unfoldable pub handle_remote_presence : Text → FanoutPayload → RoomManager → RoomManager
  unfolding tell_room text_eq
  handle_remote_presence doc_id (ops_fanout origin_id seq ops) m = m
  handle_remote_presence doc_id (update_fanout origin_id entry) m =
      if text_eq origin_id m.process_id
      then m
      else tell_room doc_id (presence_update doc_id entry.replica_id entry.awareness) none m
  handle_remote_presence doc_id (leave_fanout origin_id replica_id) m =
      if text_eq origin_id m.process_id
      then m
      else tell_room doc_id (presence_leave doc_id replica_id) none m

unfoldable pub close : RoomManager → RoomManager
close m = record m { rooms = [] }
