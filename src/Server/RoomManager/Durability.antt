-- ===== src/Server/RoomManager/Durability.antt =====
-- Acks and the store in apps/server/src/roomManager.ts.
use ysync.Common.{
  ℕ, suc, ◌+◌, ◌≡◌, ◌⊎◌, inl, inr, refl, sym, ap, ap₂, ◌∙◌, subst, Bool, List, ◌++◌, map, some, In,
  In-append, Bool-cases, Option-cases, arith,
}
use ysync.Common.Texts.{Text}
use ysync.Common.Maps
use ysync.Crdt.OpId.{OpId}
use ysync.Crdt.Op.{Op, op_id_of}
use ysync.Protocol.{ServerMessage, ack, broadcast_op}
use ysync.Server.Errors.{seq_alloc_failed, persist_failed}
use ysync.Server.Seq
use ysync.Server.Persistence
use ysync.Server.Room
use ysync.Server.Room.{Room, Socket, Sent}
use ysync.Server.Room.Broadcast.{In-broadcast}
use ysync.Server.RoomManager.{
  RoomManager, Faults, FanoutPayload, ops_fanout, doc_channel, put_out, publish, say, write_room,
  delete_room, subscribe, install_room, subscribe_room, get_or_create_room,
}
use ysync.Server.RoomManager.Handlers.{persist, apply_numbered, apply_found, apply_client_op}

-- `getOrCreateRoom` sends nothing, stores nothing and counts nothing.
get_or_create_room-quiet :
    (faults : Faults) (doc_id : Text) (m : RoomManager)
    → ((get_or_create_room faults doc_id m).0.sent ≡ m.sent)
      × ((get_or_create_room faults doc_id m).0.stored ≡ m.stored)
      × ((get_or_create_room faults doc_id m).0.counters ≡ m.counters)
      × ((get_or_create_room faults doc_id m).0.process_id ≡ m.process_id)
unfolding get_or_create_room install_room subscribe_room delete_room subscribe
get_or_create_room-quiet faults doc_id m = ground arith

write_room-quiet :
    (doc_id : Text) (room : Room) (m : RoomManager)
    → ((write_room doc_id room m).sent ≡ m.sent) × ((write_room doc_id room m).stored ≡ m.stored)
unfolding write_room
write_room-quiet doc_id room m = ground arith

publish-quiet :
    (faults : Faults) (channel : Text) (payload : FanoutPayload) (m : RoomManager)
    → ((publish faults channel payload m).sent ≡ m.sent)
      × ((publish faults channel payload m).stored ≡ m.stored)
unfolding publish put_out
publish-quiet faults channel payload m = ground arith

module _ (is_open : Socket → Bool) where
  In-send_to :
      (replica_id : Text) (message : ServerMessage) (room : Room) (socket : Socket)
      (other : ServerMessage)
      → In (socket, other) (Room.send_to is_open replica_id message room)
      → other ≡ message
  unfolding Room.send_to
  In-send_to replica_id message room socket other h =
      elim (Option-cases (Maps.get replica_id room.sockets)) [
        | inl e ↦ absurd (rw (e, Room.send_to) at h)
        | inr (s, e) ↦ elim (Bool-cases (is_open s)) [
          | inl there ↦ elim (rw (e, Room.send_to, there) at h) [
            | inl first ↦ ap (λ (p : Sent). p.1) first
            | inr rest ↦ absurd rest
          ]
          | inr gone ↦ absurd (rw (e, Room.send_to, gone) at h)
        ]
      ]

  -- An ack that `persist` adds is the one of its ops, and they are stored.
  persist_ack :
      (faults : Faults) (doc_id sender : Text) (seq : ℕ) (ops : List Op) (room : Room)
      (m : RoomManager) (socket : Socket) (n : ℕ) (ids : List OpId)
      → In (socket, ack doc_id n ids) (persist is_open faults doc_id sender seq ops room m).sent
      → In (socket, ack doc_id n ids) m.sent
        ⊎ ((n ≡ seq)
            × (ids ≡ map op_id_of ops)
            × ((persist is_open faults doc_id sender seq ops room m).stored
                ≡ Persistence.append_ops doc_id seq ops m.stored))
  unfolding persist say
  persist_ack faults doc_id sender seq ops room m socket n ids h =
      elim (Bool-cases faults.append_fails) [
        | inl fails ↦ elim (In-append (socket, ack doc_id n ids) m.sent _ (rw fails at h)) [
          | inl before ↦ inl before
          | inr new ↦ absurd (cc (In-send_to sender persist_failed room socket _ new))
        ]
        | inr stored ↦ elim (In-append (socket, ack doc_id n ids) m.sent _ (rw stored at h)) [
          | inl before ↦ inl before
          | inr new ↦
              let e = In-send_to sender (ack doc_id seq (map op_id_of ops)) room socket _ new in
              inr (cc e, cc e, rw stored refl)
        ]
      ]

  -- What `applyClientOp` has done when it persists.
  abbrev spread : Faults → Text → Text → ℕ → List Op → Room → RoomManager → RoomManager
  spread faults doc_id sender seq ops room m =
      publish faults (doc_channel doc_id) (ops_fanout m.process_id seq ops) (
        say
          (Room.broadcast is_open (broadcast_op doc_id seq ops) (some sender)
            (Room.apply_ops ops seq room))
          (write_room doc_id (Room.apply_ops ops seq room) m))

  spread-stored :
      (faults : Faults) (doc_id sender : Text) (seq : ℕ) (ops : List Op) (room : Room)
      (m : RoomManager)
      → (spread faults doc_id sender seq ops room m).stored ≡ m.stored
  unfolding say
  spread-stored faults doc_id sender seq ops room m =
      (publish-quiet faults (doc_channel doc_id) (ops_fanout m.process_id seq ops) _).1
      ∙ (write_room-quiet doc_id (Room.apply_ops ops seq room) m).1

  spread-ack :
      (faults : Faults) (doc_id sender : Text) (seq : ℕ) (ops : List Op) (room : Room)
      (m : RoomManager) (socket : Socket) (n : ℕ) (ids : List OpId)
      → In (socket, ack doc_id n ids) (spread faults doc_id sender seq ops room m).sent
      → In (socket, ack doc_id n ids) m.sent
  unfolding say
  spread-ack faults doc_id sender seq ops room m socket n ids h =
      let told : In (socket, ack doc_id n ids)
          ((write_room doc_id (Room.apply_ops ops seq room) m).sent
            ++ Room.broadcast is_open (broadcast_op doc_id seq ops) (some sender)
                (Room.apply_ops ops seq room)) =
        subst (In (socket, ack doc_id n ids))
          (publish-quiet faults (doc_channel doc_id) (ops_fanout m.process_id seq ops) _).0 h in
      elim (In-append (socket, ack doc_id n ids)
        (write_room doc_id (Room.apply_ops ops seq room) m).sent
        (Room.broadcast is_open (broadcast_op doc_id seq ops) (some sender)
          (Room.apply_ops ops seq room))
        told) [
          | inl before ↦
              subst (In (socket, ack doc_id n ids))
                (write_room-quiet doc_id (Room.apply_ops ops seq room) m).0 before
          | inr new ↦ absurd (
              cc
                ((In-broadcast is_open (broadcast_op doc_id seq ops) (some sender)
                    (Room.apply_ops ops seq room) socket (ack doc_id n ids)).0
                  new).0)
        ]

  numbered_ack :
      (faults : Faults) (doc_id sender : Text) (seq : ℕ) (ops : List Op) (room : Room)
      (m : RoomManager) (socket : Socket) (n : ℕ) (ids : List OpId)
      → In
          (socket, ack doc_id n ids)
          (apply_numbered is_open faults doc_id sender seq ops room m).sent
      → In (socket, ack doc_id n ids) m.sent
        ⊎ ((n ≡ seq)
            × (ids ≡ map op_id_of ops)
            × ((apply_numbered is_open faults doc_id sender seq ops room m).stored
                ≡ Persistence.append_ops doc_id seq ops m.stored))
  unfolding apply_numbered
  numbered_ack faults doc_id sender seq ops room m socket n ids h =
      elim (persist_ack faults doc_id sender seq ops (Room.apply_ops ops seq room)
        (spread faults doc_id sender seq ops room m) socket n ids h) [
          | inl before ↦ inl (spread-ack faults doc_id sender seq ops room m socket n ids before)
          | inr (e, i, stored) ↦ inr (
            e,
            i,
            stored
                ∙ ap (Persistence.append_ops doc_id seq ops)
                    (spread-stored faults doc_id sender seq ops room m),
          )
        ]

  -- An ack that `applyClientOp` sends, whichever calls fail, names the ops of the edit and the next
  -- number of the document, and is sent only where the ops are appended to the store under it.
  pub apply_client_op-ack :
      (faults : Faults) (doc_id sender : Text) (ops : List Op) (m : RoomManager) (socket : Socket)
      (n : ℕ) (ids : List OpId)
      → In (socket, ack doc_id n ids) (apply_client_op is_open faults doc_id sender ops m).0.sent
      → In (socket, ack doc_id n ids) m.sent
        ⊎ ((n ≡ suc (Seq.current doc_id m.counters))
            × (ids ≡ map op_id_of ops)
            × ((apply_client_op is_open faults doc_id sender ops m).0.stored
                ≡ Persistence.append_ops doc_id n ops m.stored))
  unfolding apply_client_op apply_found say Seq.next
  apply_client_op-ack faults doc_id sender ops m socket n ids h =
      let quiet = get_or_create_room-quiet faults doc_id m in
      elim (Option-cases (get_or_create_room faults doc_id m).1) [
        | inl e ↦ inl (subst (In (socket, ack doc_id n ids)) quiet.0 (rw (e, apply_client_op) at h))
        | inr (room, e) ↦ elim (Bool-cases faults.next_fails) [
          | inl fails ↦
              elim (In-append (socket, ack doc_id n ids) (get_or_create_room faults doc_id m).0.sent
                (Room.send_to is_open sender seq_alloc_failed room)
                (rw (e, apply_client_op, fails) at h)) [
                  | inl before ↦ inl (subst (In (socket, ack doc_id n ids)) quiet.0 before)
                  | inr new ↦
                      absurd
                        (cc (In-send_to sender seq_alloc_failed room socket (ack doc_id n ids) new))
                ]
          | inr given ↦
              let m' = (get_or_create_room faults doc_id m).0 in
              let seq = Seq.current doc_id m'.counters + 1 in
              let counted : RoomManager = record m' {
                counters = Maps.put doc_id seq m'.counters;
              } in
              elim (numbered_ack faults doc_id sender seq ops room counted socket n ids
                (rw (e, apply_client_op, given) at h)) [
                  | inl before ↦ inl (subst (In (socket, ack doc_id n ids)) quiet.0 before)
                  | inr (same, i, stored) ↦ inr (
                    omega (arith, same, ap (λ c. Seq.current doc_id c) quiet.2),
                    i,
                    rw (e, apply_client_op, given)
                        (stored
                          ∙ ap₂ (λ k d. Persistence.append_ops doc_id k ops d) (sym same) quiet.1),
                  )
                ]
        ]
      ]
