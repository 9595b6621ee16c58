-- ===== src/Server/RoomManager/Eviction.antt =====
-- The timer of apps/server/src/roomManager.ts and the rooms that have clients.
use ysync.Common.{
  ℕ, length, ◌==◌, ◌≡◌, inl, inr, Bool, false, List, [], ◌∷◌, Option, none, some, Bool-cases,
  Option-cases,
}
use ysync.Common.Texts.{Text}
use ysync.Common.Maps
use ysync.Common.Maps.{get-put_self}
use ysync.Protocol.{ServerMessage, presence_leave}
use ysync.Server.Presence
use ysync.Server.Room
use ysync.Server.Room.{Room, Socket}
use ysync.Server.RoomManager.{
  RoomManager, RoomEntry, Faults, leave_fanout, say, put_out, write_room, write_empty_since,
}
use ysync.Server.RoomManager.Handlers.{tell_room}
use ysync.Server.RoomManager.Timer.{
  expel, is_due, snapshot_room, snapshot_if_due, settle_room, after_sweep, tick,
}

-- The document has a room with these sockets.
abbrev pub HasRoom : Text → Maps.Map Socket → RoomManager → Type 0
HasRoom doc_id sockets m =
    (entry : RoomEntry) × (Maps.get doc_id m.rooms ≡ some entry) × (entry.room.sockets ≡ sockets)

module _ (is_open : Socket → Bool) (faults : Faults) (doc_id : Text)
    (sockets : Maps.Map Socket) where
  HasRoom-write_room :
      (room : Room) (m : RoomManager)
      → room.sockets ≡ sockets
      → HasRoom doc_id sockets m
      → HasRoom doc_id sockets (write_room doc_id room m)
  unfolding write_room
  HasRoom-write_room room m same (entry, e, s) = (
    record entry { room = room },
    rw (e, write_room) (get-put_self doc_id (record entry { room = room }) m.rooms),
    same,
  )

  HasRoom-write_empty_since :
      (since : Option ℕ) (m : RoomManager)
      → HasRoom doc_id sockets m
      → HasRoom doc_id sockets (write_empty_since doc_id since m)
  unfolding write_empty_since
  HasRoom-write_empty_since since m (entry, e, s) = (
    record entry { empty_since = since },
    rw (e, write_empty_since) (get-put_self doc_id (record entry { empty_since = since }) m.rooms),
    s,
  )

  HasRoom-tell_room :
      (message : ServerMessage) (except : Option Text) (m : RoomManager)
      → HasRoom doc_id sockets m
      → HasRoom doc_id sockets (tell_room is_open doc_id message except m)
  unfolding tell_room say
  HasRoom-tell_room message except m (entry, e, s) = (entry, rw (e, tell_room) e, s)

  HasRoom-expel :
      (expired : List Text) (m : RoomManager)
      → HasRoom doc_id sockets m
      → HasRoom doc_id sockets (expel is_open faults doc_id expired m).0
  unfolding expel put_out
  HasRoom-expel [] m h = h
  HasRoom-expel (r ∷ expired) m h =
      let told = HasRoom-tell_room (presence_leave doc_id r) none m h in
      elim (Bool-cases (faults.publish_fails (leave_fanout m.process_id r))) [
        | inl fails ↦ rw fails told
        | inr out ↦ rw out (HasRoom-expel expired _ told)
      ]

  HasRoom-snapshot_room :
      (m : RoomManager)
      → HasRoom doc_id sockets m
      → HasRoom doc_id sockets (snapshot_room is_open faults doc_id m).0
  unfolding snapshot_room Room.compact_tombstones Room.advance_coverage_floor
  HasRoom-snapshot_room m (entry, e, s) =
      let compacted = Room.compact_tombstones entry.room in
      let first = HasRoom-write_room compacted m s (entry, e, s) in
      elim (Bool-cases faults.write_fails) [
        | inl fails ↦ rw (e, snapshot_room, fails) first
        | inr wrote ↦
            rw (e, snapshot_room, wrote)
              (HasRoom-write_room (Room.advance_coverage_floor compacted.seq compacted) _ s first)
      ]

  HasRoom-snapshot_if_due :
      (m : RoomManager)
      → HasRoom doc_id sockets m
      → HasRoom doc_id sockets (snapshot_if_due is_open faults doc_id m).0
  unfolding snapshot_if_due
  HasRoom-snapshot_if_due m h = elim (Bool-cases (is_due is_open doc_id m)) [
    | inl due ↦ rw due (HasRoom-snapshot_room m h)
    | inr early ↦ rw early h
  ]

  HasRoom-settle_room :
      (now : ℕ) (m : RoomManager)
      → (length sockets == 0) ≡ false
      → HasRoom doc_id sockets m
      → HasRoom doc_id sockets (settle_room is_open faults doc_id now m)
  unfolding settle_room Room.is_empty
  HasRoom-settle_room now m busy (entry, e, s) =
      let full : Room.is_empty entry.room ≡ false = rw s busy in
      rw (e, settle_room, full) (HasRoom-write_empty_since none m (entry, e, s))

  HasRoom-after_sweep :
      (now : ℕ) (expired : List Text) (m : RoomManager)
      → (length sockets == 0) ≡ false
      → HasRoom doc_id sockets m
      → HasRoom doc_id sockets (after_sweep is_open faults doc_id now expired m)
  unfolding after_sweep
  HasRoom-after_sweep now expired m busy h =
      let kept = HasRoom-expel expired m h in
      let expelled = (expel is_open faults doc_id expired m).0 in
      elim (Option-cases (expel is_open faults doc_id expired m).1) [
        | inl threw ↦ rw (threw, after_sweep) kept
        | inr (_, went) ↦
            let taken = HasRoom-snapshot_if_due expelled kept in
            elim (Option-cases (snapshot_if_due is_open faults doc_id expelled).1) [
              | inl failed ↦ rw (went, after_sweep, failed) taken
              | inr (_, wrote) ↦
                  rw (went, after_sweep, wrote) (HasRoom-settle_room now _ busy taken)
            ]
      ]

  -- A tick keeps a room that has clients, with its clients, whatever fails and however late it is.
  pub tick-HasRoom :
      (now : ℕ) (m : RoomManager)
      → (length sockets == 0) ≡ false
      → HasRoom doc_id sockets m
      → HasRoom doc_id sockets (tick is_open faults doc_id now m)
  unfolding tick
  tick-HasRoom now m busy (entry, e, s) = elim (Bool-cases faults.sweep_fails) [
    | inl fails ↦ rw (e, tick, fails) (entry, e, s)
    | inr swept ↦
        rw (e, tick, swept)
          (HasRoom-after_sweep now (Presence.sweep doc_id now m.presence).1 _ busy (entry, e, s))
  ]
