-- ===== src/Server/RoomManager/Isolation.antt =====
-- The rooms that the calls of apps/server/src/roomManager.ts touch.
use ysync.Common.{
  ℕ, ◌≡◌, refl, ◌∙◌, inl, inr, Bool, false, List, Option, none, some, Bool-cases, Option-cases,
  arith,
}
use ysync.Common.Texts.{Text, text_eq}
use ysync.Common.Maps
use ysync.Common.Maps.{get-put, get-remove}
use ysync.Crdt.Op.{Op}
use ysync.Protocol.{Awareness, ServerMessage, presence_leave}
use ysync.Server.Persistence.{LoadedDocument, load}
use ysync.Server.Room
use ysync.Server.Room.{Room, Socket}
use ysync.Server.RoomManager.{
  RoomManager, Faults, FanoutPayload, say, publish, put_out, write_room, write_empty_since,
  delete_room, install_room, subscribe, subscribe_room, get_or_create_room,
}
use ysync.Server.RoomManager.Handlers.{
  close_previous, join, tell_room, remove_presence, leave_room, leave, persist, apply_numbered,
  apply_found, apply_client_op, update_presence,
}

-- The room of the other document is as it was.
abbrev pub IsKept : Text → RoomManager → RoomManager → Type 0
IsKept other m m' = Maps.get other m'.rooms ≡ Maps.get other m.rooms

module _ (is_open : Socket → Bool) (faults : Faults) (doc_id other : Text)
    (apart : text_eq doc_id other ≡ false) where
  write_room-IsKept : (room : Room) (m : RoomManager) → IsKept other m (write_room doc_id room m)
  unfolding write_room
  write_room-IsKept room m = elim (Option-cases (Maps.get doc_id m.rooms)) [
    | inl e ↦ rw (e, write_room) refl
    | inr (entry, e) ↦
        rw (e, write_room)
          (ground (arith, get-put doc_id other (record entry { room = room }) m.rooms))
  ]

  write_empty_since-IsKept :
      (since : Option ℕ) (m : RoomManager) → IsKept other m (write_empty_since doc_id since m)
  unfolding write_empty_since
  write_empty_since-IsKept since m = elim (Option-cases (Maps.get doc_id m.rooms)) [
    | inl e ↦ rw (e, write_empty_since) refl
    | inr (entry, e) ↦
        rw (e, write_empty_since)
          (ground (arith, get-put doc_id other (record entry { empty_since = since }) m.rooms))
  ]

  install_room-IsKept :
      (loaded : LoadedDocument) (m : RoomManager) → IsKept other m (install_room doc_id loaded m).0
  unfolding install_room
  install_room-IsKept loaded m = ground (
    arith,
    get-put doc_id other (record { room = (install_room doc_id loaded m).1; empty_since = none })
        m.rooms,
  )

  subscribe_room-IsKept :
      (room : Room) (m : RoomManager) → IsKept other m (subscribe_room faults doc_id room m).0
  unfolding subscribe_room subscribe delete_room
  subscribe_room-IsKept room m = ground (arith, get-remove doc_id other m.rooms)

  get_or_create_room-IsKept :
      (m : RoomManager) → IsKept other m (get_or_create_room faults doc_id m).0
  unfolding get_or_create_room
  get_or_create_room-IsKept m = elim (Option-cases (Maps.get doc_id m.rooms)) [
    | inr (entry, e) ↦ rw (e, get_or_create_room) refl
    | inl e ↦ elim (Bool-cases faults.load_fails) [
      | inl fails ↦ rw (e, get_or_create_room, fails) refl
      | inr loads ↦
          rw (e, get_or_create_room, loads)
            (subscribe_room-IsKept (install_room doc_id (load doc_id m.stored) m).1
                (install_room doc_id (load doc_id m.stored) m).0
              ∙ install_room-IsKept (load doc_id m.stored) m)
    ]
  ]

  publish-IsKept :
      (channel : Text) (payload : FanoutPayload) (m : RoomManager)
      → IsKept other m (publish faults channel payload m)
  unfolding publish put_out
  publish-IsKept channel payload m = ground arith

  tell_room-IsKept :
      (message : ServerMessage) (except : Option Text) (m : RoomManager)
      → IsKept other m (tell_room is_open doc_id message except m)
  unfolding tell_room say
  tell_room-IsKept message except m = ground arith

  close_previous-IsKept :
      (previous : Option Socket) (socket : Socket) (m : RoomManager)
      → IsKept other m (close_previous is_open previous socket m)
  unfolding close_previous
  close_previous-IsKept none socket m = refl
  close_previous-IsKept (some p) socket m = ground arith

  persist-IsKept :
      (sender : Text) (seq : ℕ) (ops : List Op) (room : Room) (m : RoomManager)
      → IsKept other m (persist is_open faults doc_id sender seq ops room m)
  unfolding persist say
  persist-IsKept sender seq ops room m = ground arith

  join-IsKept :
      (replica_id : Text) (socket : Socket) (since_seq : ℕ) (m : RoomManager)
      → IsKept other m (join is_open faults doc_id replica_id socket since_seq m).0
  unfolding join
  join-IsKept replica_id socket since_seq m =
      elim (Option-cases (get_or_create_room faults doc_id m).1) [
        | inl e ↦ rw (e, join) (get_or_create_room-IsKept m)
        | inr (room, e) ↦
            rw (e, join)
              (write_empty_since-IsKept none _
                ∙ close_previous-IsKept (Room.join replica_id socket room).1 socket _
                ∙ write_room-IsKept (Room.join replica_id socket room).0 _
                ∙ get_or_create_room-IsKept m)
      ]

  remove_presence-IsKept :
      (replica_id : Text) (m : RoomManager)
      → IsKept other m (remove_presence is_open faults doc_id replica_id m)
  unfolding remove_presence
  remove_presence-IsKept replica_id m =
      publish-IsKept _ _ _
      ∙ tell_room-IsKept (presence_leave doc_id replica_id) (some replica_id) _
      ∙ (elim (Bool-cases faults.remove_fails) [
        | inl fails ↦ rw fails refl
        | inr removed ↦ rw removed refl
      ])

  leave_room-IsKept :
      (replica_id : Text) (socket : Option Socket) (now : ℕ) (m : RoomManager)
      → IsKept other m (leave_room is_open doc_id replica_id socket now m)
  unfolding leave_room
  leave_room-IsKept replica_id socket now m = elim (Option-cases (Maps.get doc_id m.rooms)) [
    | inl e ↦ rw (e, leave_room) refl
    | inr (entry, e) ↦
        let left = Room.leave replica_id socket entry.room in
        elim (Bool-cases (Room.is_empty left)) [
          | inl empty ↦
              rw (e, leave_room, empty)
                (write_empty_since-IsKept (some now) (write_room doc_id left m)
                  ∙ write_room-IsKept left m)
          | inr more ↦ rw (e, leave_room, more) (write_room-IsKept left m)
        ]
  ]

  pub leave-IsKept :
      (replica_id : Text) (socket : Option Socket) (now : ℕ) (m : RoomManager)
      → IsKept other m (leave is_open faults doc_id replica_id socket now m)
  unfolding leave
  leave-IsKept replica_id socket now m =
      remove_presence-IsKept replica_id (leave_room is_open doc_id replica_id socket now m)
      ∙ leave_room-IsKept replica_id socket now m

  apply_numbered-IsKept :
      (sender : Text) (seq : ℕ) (ops : List Op) (room : Room) (m : RoomManager)
      → IsKept other m (apply_numbered is_open faults doc_id sender seq ops room m)
  unfolding apply_numbered say
  apply_numbered-IsKept sender seq ops room m =
      persist-IsKept sender seq ops (Room.apply_ops ops seq room) _
      ∙ publish-IsKept _ _ _
      ∙ write_room-IsKept (Room.apply_ops ops seq room) m

  apply_found-IsKept :
      (sender : Text) (ops : List Op) (m : RoomManager) (found : Option Room)
      → IsKept other m (apply_found is_open faults doc_id sender ops m found).0
  unfolding apply_found say
  apply_found-IsKept sender ops m none = refl
  apply_found-IsKept sender ops m (some room) = elim (Bool-cases faults.next_fails) [
    | inl fails ↦ rw fails refl
    | inr given ↦ rw given (apply_numbered-IsKept sender _ ops room _)
  ]

  pub apply_client_op-IsKept :
      (sender : Text) (ops : List Op) (m : RoomManager)
      → IsKept other m (apply_client_op is_open faults doc_id sender ops m).0
  unfolding apply_client_op
  apply_client_op-IsKept sender ops m =
      apply_found-IsKept sender ops (get_or_create_room faults doc_id m).0
        (get_or_create_room faults doc_id m).1
      ∙ get_or_create_room-IsKept m

  pub update_presence-IsKept :
      (sender : Text) (awareness : Awareness) (now : ℕ) (m : RoomManager)
      → IsKept other m (update_presence is_open faults doc_id sender awareness now m).0
  unfolding update_presence say
  update_presence-IsKept sender awareness now m =
      elim (Option-cases (get_or_create_room faults doc_id m).1) [
        | inl e ↦ rw (e, update_presence) (get_or_create_room-IsKept m)
        | inr (room, e) ↦ elim (Bool-cases faults.set_fails) [
          | inl fails ↦ rw (e, update_presence, fails) (get_or_create_room-IsKept m)
          | inr stored ↦
              rw (e, update_presence, stored) (publish-IsKept _ _ _ ∙ get_or_create_room-IsKept m)
        ]
      ]
