-- ===== src/Server/Dispatch/Scope.antt =====
-- The documents that the messages of a socket touch, in apps/server/src/server.ts.
use ysync.Common.{ℕ, ◌≡◌, inl, inr, refl, ◌∙◌, Bool, false, some, Bool-cases, arith}
use ysync.Common.Texts.{Text, text_eq}
use ysync.Protocol.{ClientMessage, ServerMessage}
use ysync.Server.Errors.{wrong_doc, internal_error, already_joined}
use ysync.Server.Room.{Socket}
use ysync.Server.RoomManager.{Faults, say}
use ysync.Server.RoomManager.Isolation.{
  IsKept, leave-IsKept, apply_client_op-IsKept, update_presence-IsKept,
}
use ysync.Server.Dispatch.{
  YSyncServer, SocketState, Incoming, not_json, refused, accepted, get_state, send_error,
  handle_join, route, guard_route, dispatch_message, handle_message,
}

module _ (is_open : Socket → Bool) (faults : Faults) (now : ℕ) (socket : Socket)
    (state : SocketState) where
  -- The room of the other document is kept.
  abbrev pub IsScoped : Text → YSyncServer → YSyncServer → Type 0
  IsScoped other s s' = IsKept other s.room_manager s'.room_manager

  send_error-IsScoped :
      (other : Text) (s : Socket) (message : ServerMessage) (server : YSyncServer)
      → IsScoped other server (send_error is_open s message server)
  unfolding send_error say
  send_error-IsScoped other s message server = ground arith

  route-IsScoped :
      (other : Text) (message : ClientMessage) (server : YSyncServer)
      → text_eq state.doc_id other ≡ false
      → IsScoped other server (route is_open faults now socket message state server).0
  unfolding route
  route-IsScoped other (ClientMessage.join d r n) server apart = refl
  route-IsScoped other (ClientMessage.op d ops) server apart =
      apply_client_op-IsKept is_open faults state.doc_id other apart state.replica_id ops
        server.room_manager
  route-IsScoped other (ClientMessage.presence d a) server apart =
      update_presence-IsKept is_open faults state.doc_id other apart state.replica_id a now
        server.room_manager
  route-IsScoped other (ClientMessage.leave d) server apart =
      leave-IsKept is_open faults state.doc_id other apart state.replica_id (some socket) now
        server.room_manager

  guard-IsScoped :
      (other doc_id : Text) (message : ClientMessage) (server : YSyncServer)
      → text_eq state.doc_id other ≡ false
      → IsScoped other server
          (guard_route is_open faults now socket doc_id message (some state) server).0
  unfolding guard_route
  guard-IsScoped other doc_id message server apart =
      elim (Bool-cases (text_eq doc_id state.doc_id)) [
        | inl same ↦ rw same (route-IsScoped other message server apart)
        | inr wrong ↦ rw wrong (send_error-IsScoped other socket wrong_doc server)
      ]

  dispatch-IsScoped :
      (other : Text) (incoming : Incoming) (server : YSyncServer)
      → get_state socket server.socket_states ≡ some state
      → text_eq state.doc_id other ≡ false
      → IsScoped other server (dispatch_message is_open faults now socket incoming server).0
  unfolding dispatch_message handle_join
  dispatch-IsScoped other not_json server e apart = send_error-IsScoped other socket _ server
  dispatch-IsScoped other (refused reason) server e apart =
      send_error-IsScoped other socket _ server
  dispatch-IsScoped other (accepted (ClientMessage.join d r n)) server e apart =
      rw e (send_error-IsScoped other socket already_joined server)
  dispatch-IsScoped other (accepted (ClientMessage.op d ops)) server e apart =
      rw e (guard-IsScoped other d (ClientMessage.op d ops) server apart)
  dispatch-IsScoped other (accepted (ClientMessage.presence d a)) server e apart =
      rw e (guard-IsScoped other d (ClientMessage.presence d a) server apart)
  dispatch-IsScoped other (accepted (ClientMessage.leave d)) server e apart =
      rw e (guard-IsScoped other d (ClientMessage.leave d) server apart)

  -- Whatever a socket sends that has joined a document, and whichever calls fail meanwhile, the rooms
  -- of all other documents stay as they were.
  pub handle_message-IsScoped :
      (other : Text) (incoming : Incoming) (server : YSyncServer)
      → get_state socket server.socket_states ≡ some state
      → text_eq state.doc_id other ≡ false
      → IsScoped other server (handle_message is_open faults now socket incoming server)
  unfolding handle_message
  handle_message-IsScoped other incoming server e apart =
      let (server', done) = dispatch_message is_open faults now socket incoming server in
      elim (Bool-cases done) [
        | inl returned ↦ rw returned (dispatch-IsScoped other incoming server e apart)
        | inr threw ↦ rw threw (
            send_error-IsScoped other socket internal_error server'
            ∙ dispatch-IsScoped other incoming server e apart)
      ]
