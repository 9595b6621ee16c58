-- ===== src/Web/DocumentClient/Settling.antt =====
-- One round of client and server: apps/web/src/lib/documentClient.ts flushes its outbox,
-- apps/server/src/roomManager.ts applies the batch and acks it, and the client handles the ack.
use ysync.Common.{
  ℕ, ◌+◌, ◌≡◌, refl, sym, subst, Bool, true, false, inl, List, [], ◌∷◌, map, some, In,
  In-append_right, All, if◌then◌else◌,
}
use ysync.Common.Texts.{Text}
use ysync.Common.Maps
use ysync.Common.Maps.{Map}
use ysync.Crdt.OpId.{OpId}
use ysync.Crdt.Op.{Op, op_id_of, op_id_key_of}
use ysync.Protocol.{ClientMessage, ServerMessage, ack}
use ysync.Protocol.Zod.{Zod}
use ysync.Protocol.Schemas.{ParseResult, success, failure}
use ysync.Server.Seq
use ysync.Server.Room
use ysync.Server.Room.{Room, Socket}
use ysync.Server.Dispatch.{Incoming, refused, accepted}
use ysync.Server.RoomManager.{RoomManager, Faults, get_or_create_room, say}
use ysync.Server.RoomManager.Handlers.{apply_client_op, apply_found, apply_numbered, persist}
use ysync.Web.DocumentClient.{DocumentClient}
use ysync.Web.DocumentClient.Edits.Outbox.{names_key}

-- Every record is under the key of its op.
abbrev pub IsKeyed : Map Op → Type 0
IsKeyed = All (λ e. e.0 ≡ op_id_key_of e.1)

-- The ids name every key of the outbox.
abbrev AllNamed : List OpId → Map Op → Type 0
AllNamed ids = All (λ e. names_key e.0 ids ≡ true)

-- What the server takes a message for that the parser gives this result on.
abbrev pub incoming_of : ParseResult → ClientMessage → Incoming
incoming_of (success value) message = accepted message
incoming_of (failure reason) message = refused reason

module _ (is_open : Socket → Bool) where
  send_to_open :
      (sender : Text) (message : ServerMessage) (room : Room) (socket : Socket)
      → Maps.get sender room.sockets ≡ some socket
      → is_open socket ≡ true
      → Room.send_to is_open sender message room ≡ (socket, message) ∷ []
  unfolding Room.send_to
  send_to_open sender message room socket there opened = rw (there, Room.send_to, opened) refl

  ack-persist :
      (faults : Faults) (doc_id sender : Text) (seq : ℕ) (ops : List Op) (room : Room)
      (m : RoomManager) (socket : Socket)
      → faults.append_fails ≡ false
      → Maps.get sender room.sockets ≡ some socket
      → is_open socket ≡ true
      → In
          (socket, ack doc_id seq (map op_id_of ops))
          (persist is_open faults doc_id sender seq ops room m).sent
  unfolding persist say
  ack-persist faults doc_id sender seq ops room m socket works there opened =
      let out = send_to_open sender (ack doc_id seq (map op_id_of ops)) room socket there opened in
      rw (works, if◌then◌else◌)
        (In-append_right (socket, ack doc_id seq (map op_id_of ops)) m.sent _
          (subst (In (socket, ack doc_id seq (map op_id_of ops))) (sym out) (inl refl)))

  -- Where no call fails and the sender's socket is open, `applyClientOp` acks the batch.
  pub acked :
      (faults : Faults) (doc_id sender : Text) (ops : List Op) (m : RoomManager) (room : Room)
      (socket : Socket)
      → (get_or_create_room faults doc_id m).1 ≡ some room
      → faults.next_fails ≡ false
      → faults.append_fails ≡ false
      → Maps.get sender room.sockets ≡ some socket
      → is_open socket ≡ true
      → In
          (
            socket,
            ack doc_id
                (Seq.current doc_id (get_or_create_room faults doc_id m).0.counters + 1)
                (map op_id_of ops),
          )
          (apply_client_op is_open faults doc_id sender ops m).0.sent
  unfolding apply_client_op apply_found apply_numbered Seq.next Room.apply_ops
  acked faults doc_id sender ops m room socket found numbered works there opened =
      let m' = (get_or_create_room faults doc_id m).0 in
      let seq = Seq.current doc_id m'.counters + 1 in
      rw (found, apply_client_op, numbered, if◌then◌else◌)
        (ack-persist faults doc_id sender seq ops (Room.apply_ops ops seq room) _ socket works there
          opened)
