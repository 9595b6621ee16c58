-- ===== src/Server/RoomManager/Timer.antt =====
-- The sweep timer of apps/server/src/roomManager.ts: `tick` and what it calls.
use ysync.Common.{ℕ, ◌-◌, Bool, false, List, [], ◌∷◌, Option, none, some, leb, if◌then◌else◌}
use ysync.Common.Texts.{Text}
use ysync.Common.Maps
use ysync.Protocol.{presence_leave}
use ysync.Server.Presence
use ysync.Server.Persistence
use ysync.Server.PubSub
use ysync.Server.Room
use ysync.Server.Room.{Room, Socket}
use ysync.Server.RoomManager.{
  RoomManager, leave_fanout, Faults, doc_channel, presence_channel, put_out, write_room,
  write_empty_since, delete_room,
}
use ysync.Server.RoomManager.Handlers.{tell_room}

module _ (is_open : Socket → Bool) where
  -- May throw: the compaction stays.
  unfoldable pub snapshot_room : Faults → Text → RoomManager → RoomManager × Option (Unit {0})
  unfolding write_room Room.compact_tombstones Room.snapshot Room.advance_coverage_floor
      Persistence.write_snapshot Maps.get
  snapshot_room faults doc_id m = elim (Maps.get doc_id m.rooms) [
    | none ↦ (m, some tt)
    | some entry ↦
        let compacted = Room.compact_tombstones entry.room in
        let m' = write_room doc_id compacted m in
        if faults.write_fails then (m', none) else (
          write_room doc_id (Room.advance_coverage_floor compacted.seq compacted) (record m' {
            stored =
                Persistence.write_snapshot doc_id compacted.seq (Room.snapshot compacted) m'.stored;
          }),
          some tt,
        )
  ]

  -- The loop of `tick` over the expired replicas left.
  unfoldable pub expel : Faults → Text → List Text → RoomManager → RoomManager × Option (Unit {0})
  unfolding tell_room put_out presence_channel
  expel faults doc_id [] m = (m, some tt)
  expel faults doc_id (replica_id ∷ expired) m =
      let told = tell_room is_open doc_id (presence_leave doc_id replica_id) none m in
      let payload = leave_fanout m.process_id replica_id in
      let rest = expel faults doc_id expired (put_out (presence_channel doc_id) payload told) in
      if faults.publish_fails payload then (told, none) else rest

  -- `entry.emptySince ??= Date.now()`
  unfoldable pub empty_since_or : Option ℕ → ℕ → ℕ
  empty_since_or none now = now
  empty_since_or (some since) now = since

  -- The end of `tick`: a room that has been empty for long is dropped once both channels are
  -- unsubscribed.
  unfoldable pub evict : Faults → Text → RoomManager → RoomManager
  unfolding delete_room doc_channel presence_channel PubSub.unsubscribe
  evict faults doc_id m =
      let once = record m { bus = PubSub.unsubscribe (doc_channel doc_id) m.bus } in
      let twice = record once { bus = PubSub.unsubscribe (presence_channel doc_id) once.bus } in
      if faults.unsubscribe_fails (doc_channel doc_id)
      then m
      else if faults.unsubscribe_fails (presence_channel doc_id)
      then once
      else delete_room doc_id twice

  unfoldable pub settle_room : Faults → Text → ℕ → RoomManager → RoomManager
  unfolding write_empty_since evict empty_since_or Room.is_empty Maps.get
  settle_room faults doc_id now m = elim (Maps.get doc_id m.rooms) [
    | none ↦ m
    | some entry ↦
        let since = empty_since_or entry.empty_since now in
        let waited = write_empty_since doc_id (some since) m in
        if Room.is_empty entry.room
        then (if leb m.options.idle_timeout_ms (now - since)
            then evict faults doc_id waited
            else waited)
        else write_empty_since doc_id none m
  ]

  -- The room is past the threshold.
  unfoldable pub is_due : Text → RoomManager → Bool
  unfolding Maps.get
  is_due doc_id m = elim (Maps.get doc_id m.rooms) [
    | none ↦ false
    | some entry ↦ leb m.options.snapshot_op_threshold entry.room.ops_since_snapshot
  ]

  unfoldable pub snapshot_if_due : Faults → Text → RoomManager → RoomManager × Option (Unit {0})
  unfolding is_due snapshot_room
  snapshot_if_due faults doc_id m =
      if is_due doc_id m then snapshot_room faults doc_id m else (m, some tt)

  -- `tick` behind the sweep: a throw ends it.
  unfoldable pub after_sweep : Faults → Text → ℕ → List Text → RoomManager → RoomManager
  unfolding expel snapshot_if_due settle_room
  after_sweep faults doc_id now expired m =
      let (expelled, went) = expel faults doc_id expired m in
      elim went [
        | none ↦ expelled
        | some _ ↦
            let (snapped, wrote) = snapshot_if_due faults doc_id expelled in
            elim wrote [ none ↦ snapped | some _ ↦ settle_room faults doc_id now snapped ]
      ]

  unfoldable pub tick : Faults → Text → ℕ → RoomManager → RoomManager
  unfolding after_sweep Presence.sweep Maps.get
  tick faults doc_id now m = elim (Maps.get doc_id m.rooms) [
    | none ↦ m
    | some entry ↦
        if faults.sweep_fails
        then m
        else let (presence, expired) = Presence.sweep doc_id now m.presence in
          after_sweep faults doc_id now expired (record m { presence = presence })
  ]
