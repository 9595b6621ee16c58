-- ===== src/Server/Dispatch.antt =====
-- apps/server/src/server.ts: the messages of the sockets of one process. Parsing is not under this
-- code: an incoming text is what the parsers make of it.
pub mod Scope
use ysync.Common.{ℕ, Bool, true, false, List, [], ◌∷◌, Option, none, some, ◌==◌, if◌then◌else◌}
use ysync.Common.Texts.{Text, text_eq}
use ysync.Protocol.{Awareness, ClientMessage, ServerMessage}
use ysync.Crdt.Op.{Op}
use ysync.Server.Errors.{
  invalid_json, invalid_message, already_joined, not_joined, wrong_doc, internal_error,
}
use ysync.Server.Room.{Socket, Sent}
use ysync.Server.RoomManager.{RoomManager, Faults, say}
use ysync.Server.RoomManager.Handlers as Handlers
use ysync.Server.RoomManager.Handlers.{CatchUp}

-- JSON that does not parse, a message that `parseClientMessage` refuses, or one that it accepts.
pub data Incoming : Type 0 where
  not_json : Incoming
  refused : Text → Incoming
  accepted : ClientMessage → Incoming

pub record SocketState : Type 0 where
  pub doc_id : Text
  pub replica_id : Text

pub record YSyncServer : Type 0 where
  pub room_manager : RoomManager
  pub socket_states : List (Socket × SocketState)

-- `socketState.get(socket)`
unfoldable pub get_state : Socket → List (Socket × SocketState) → Option SocketState
get_state socket [] = none
get_state socket ((s, state) ∷ states) = if s == socket then some state else get_state socket states

-- `socketState.delete(socket)`
unfoldable pub delete_state : Socket → List (Socket × SocketState) → List (Socket × SocketState)
delete_state socket [] = []
delete_state socket ((s, state) ∷ states) =
    let rest = delete_state socket states in if s == socket then rest else (s, state) ∷ rest

-- `socketState.set(socket, state)`
unfoldable pub set_state :
    Socket → SocketState → List (Socket × SocketState) → List (Socket × SocketState)
unfolding delete_state
set_state socket state states = (socket, state) ∷ delete_state socket states

unfoldable pub reply_of : Text → CatchUp → ServerMessage
reply_of doc_id (Handlers.sync seq ops) = ServerMessage.sync doc_id seq ops
reply_of doc_id (Handlers.snapshot seq state) = ServerMessage.snapshot doc_id seq state

-- `allowedOrigins?.length`: with no list or an empty one every origin is let in.
unfoldable pub has_text : Text → List Text → Bool
unfolding text_eq
has_text t [] = false
has_text t (u ∷ us) = if text_eq u t then true else has_text t us

unfoldable pub verify_client : List Text → Option Text → Bool
unfolding has_text
verify_client [] origin = true
verify_client (a ∷ allowed) none = false
verify_client (a ∷ allowed) (some []) = false
verify_client (a ∷ allowed) (some (c ∷ origin)) = has_text (c ∷ origin) (a ∷ allowed)

module _ (is_open : Socket → Bool) where
  unfoldable pub send_error : Socket → ServerMessage → YSyncServer → YSyncServer
  unfolding say
  send_error socket message server =
      if is_open socket
      then record server { room_manager = say ((socket, message) ∷ []) server.room_manager }
      else server

  -- The `join` branch; the second result of each handler is whether it returns.
  unfoldable pub handle_join :
      Faults → Socket → Text → Text → ℕ → Option SocketState → YSyncServer → YSyncServer × Bool
  unfolding send_error set_state reply_of say Handlers.join
  handle_join faults socket doc_id replica_id since_seq (some state) server =
      (send_error socket already_joined server, true)
  handle_join faults socket doc_id replica_id since_seq none server =
      let (m, caught_up) =
        Handlers.join is_open faults doc_id replica_id socket since_seq server.room_manager in
      elim caught_up [
        | none ↦ (record server { room_manager = m }, false)
        | some catch_up ↦ (
          record {
            room_manager = say ((socket, reply_of doc_id catch_up) ∷ []) m;
            socket_states =
                set_state socket (record { doc_id = doc_id; replica_id = replica_id })
                  server.socket_states;
          },
          true,
        )
      ]

  unfoldable pub returns : Option (Unit {0}) → Bool
  returns none = false
  returns (some _) = true

  -- A message other than `join` on the document of the socket.
  unfoldable pub route :
      Faults → ℕ → Socket → ClientMessage → SocketState → YSyncServer → YSyncServer × Bool
  unfolding delete_state returns Handlers.apply_client_op Handlers.update_presence Handlers.leave
  route faults now socket (ClientMessage.join doc_id replica_id since_seq) state server =
      (server, true)
  route faults now socket (ClientMessage.op doc_id ops) state server =
      let (m, done) =
        Handlers.apply_client_op is_open faults state.doc_id state.replica_id ops
          server.room_manager in
      (record server { room_manager = m }, returns done)
  route faults now socket (ClientMessage.presence doc_id awareness) state server =
      let (m, done) =
        Handlers.update_presence is_open faults state.doc_id state.replica_id awareness now
          server.room_manager in
      (record server { room_manager = m }, returns done)
  route faults now socket (ClientMessage.leave doc_id) state server = (
    record {
      room_manager =
          Handlers.leave is_open faults state.doc_id state.replica_id (some socket) now
            server.room_manager;
      socket_states = delete_state socket server.socket_states;
    },
    true,
  )

  -- The two checks before it.
  unfoldable pub guard_route :
      Faults
      → ℕ
      → Socket
      → Text
      → ClientMessage
      → Option SocketState
      → YSyncServer
      → YSyncServer × Bool
  unfolding route send_error text_eq
  guard_route faults now socket doc_id message none server =
      (send_error socket not_joined server, true)
  guard_route faults now socket doc_id message (some state) server =
      if text_eq doc_id state.doc_id
      then route faults now socket message state server
      else (send_error socket wrong_doc server, true)

  unfoldable pub dispatch_message :
      Faults → ℕ → Socket → Incoming → YSyncServer → YSyncServer × Bool
  unfolding send_error handle_join guard_route get_state
  dispatch_message faults now socket not_json server = (send_error socket invalid_json server, true)
  dispatch_message faults now socket (refused reason) server =
      (send_error socket (invalid_message reason) server, true)
  dispatch_message faults now socket (accepted (ClientMessage.join doc_id replica_id since_seq))
        server =
      handle_join faults socket doc_id replica_id since_seq (get_state socket server.socket_states)
        server
  dispatch_message faults now socket (accepted (ClientMessage.op doc_id ops)) server =
      guard_route faults now socket doc_id (ClientMessage.op doc_id ops)
        (get_state socket server.socket_states) server
  dispatch_message faults now socket (accepted (ClientMessage.presence doc_id awareness)) server =
      guard_route faults now socket doc_id (ClientMessage.presence doc_id awareness)
        (get_state socket server.socket_states) server
  dispatch_message faults now socket (accepted (ClientMessage.leave doc_id)) server =
      guard_route faults now socket doc_id (ClientMessage.leave doc_id)
        (get_state socket server.socket_states) server

  unfoldable pub handle_message : Faults → ℕ → Socket → Incoming → YSyncServer → YSyncServer
  unfolding dispatch_message send_error
  handle_message faults now socket incoming server =
      let (server', done) = dispatch_message faults now socket incoming server in
      if done then server' else send_error socket internal_error server'

  -- The socket's `close` event.
  unfoldable pub on_close : Faults → ℕ → Socket → YSyncServer → YSyncServer
  unfolding get_state Handlers.leave
  on_close faults now socket server = elim (get_state socket server.socket_states) [
    | none ↦ server
    | some state ↦ record server {
      room_manager =
          Handlers.leave is_open faults state.doc_id state.replica_id (some socket) now
            server.room_manager;
    }
  ]
