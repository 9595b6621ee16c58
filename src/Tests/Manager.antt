-- ===== src/Tests/Manager.antt =====
-- The theorems on the room manager and the dispatch of apps/server at concrete processes.
use ysync.Common.{
  suc, ◌≡◌, ◌⊎◌, inl, refl, ap, Bool, true, false, List, [], ◌∷◌, ◌++◌, map, none, some, In, length,
  arith,
}
use ysync.Common.Texts.{Text, text_eq}
use ysync.Common.Maps
use ysync.Common.Maps.{Map}
use ysync.Crdt.Op.{Op, insert, op_id_of}
use ysync.Crdt.Rga.{new_rga, apply_all}
use ysync.Protocol.{ClientMessage, ack, presence_leave}
use ysync.Server.Seq
use ysync.Server.Persistence
use ysync.Server.PubSub.{PubSubBus, publish, subscribe, unsubscribe, has_handler}
use ysync.Server.PubSub.Unsubscribe.{unsubscribe-subscribe_twice}
use ysync.Server.Room
use ysync.Server.Room.{Room, Socket, Sent}
use ysync.Server.Room.Reload.{hydrate-write_snapshot}
use ysync.Server.RoomManager.{
  RoomManager, RoomEntry, Faults, ops_fanout, default_options, doc_channel, install_room,
}
use ysync.Server.RoomManager.Handlers.{apply_client_op, handle_remote_op, tell_room}
use ysync.Server.RoomManager.Timer.{tick}
use ysync.Server.RoomManager.Durability.{apply_client_op-ack}
use ysync.Server.RoomManager.Fanout.{
  room_of, install_room_forgets, apply_client_op-handle_remote_op,
}
use ysync.Server.RoomManager.Eviction.{HasRoom, tick-HasRoom}
use ysync.Server.Dispatch.{YSyncServer, accepted, get_state, handle_message}
use ysync.Web.DocumentClient.{DocumentClient, new_client}
use ysync.Web.DocumentClient.Edits.{add_all}
use ysync.Server.Dispatch.Scope.{IsScoped, handle_message-IsScoped}

abbrev notes : Text
notes = b'n' ∷ []

abbrev other_notes : Text
other_notes = b'o' ∷ []

abbrev alice : Text
alice = b'a' ∷ []

abbrev elsewhere : Text
elsewhere = b'p' ∷ b'2' ∷ []

abbrev all_open : Socket → Bool
all_open socket = true

-- Nothing fails.
abbrev fine : Faults
fine = record {
  load_fails = false;
  subscribe_fails = λ c. false;
  unsubscribe_fails = λ c. false;
  next_fails = false;
  publish_fails = λ p. false;
  append_fails = false;
  write_fails = false;
  set_fails = false;
  remove_fails = false;
  sweep_fails = false;
}

abbrev edit : List Op
edit =
    insert (record {
      id = record { counter = 1; replica_id = alice };
      origin_id = none;
      value = b'x' ∷ [];
      attrs = none;
    })
    ∷ []

-- A room that alice has joined on socket 7.
abbrev joined : Room
joined = record (Room.new_room notes (new_rga notes)) { sockets = (alice, 7) ∷ [] }

abbrev joined_entry : RoomEntry
joined_entry = record { room = joined; empty_since = none }

abbrev process : Text → RoomManager
process process_id = record {
  rooms = (notes, joined_entry) ∷ [];
  process_id = process_id;
  options = default_options;
  counters = [];
  presence = [];
  stored = [];
  bus = record { broker = []; handlers = [] };
  handler_count = 0;
  sent = [];
  published = [];
  closed = [];
}

-- The edit of alice on the process is acked on her socket.
acked :
    In
      (7, ack notes 1 (map op_id_of edit))
      (apply_client_op all_open fine notes alice edit (process alice)).0.sent
unfolding apply_client_op Maps.get Room.new_room
acked = inl refl

apply_client_op-ack_example :
    In {A = Sent} (7, ack notes 1 (map op_id_of edit)) []
    ⊎ ((1 ≡ suc (Seq.current notes []))
        × (map op_id_of edit ≡ map op_id_of edit)
        × ((apply_client_op all_open fine notes alice edit (process alice)).0.stored
            ≡ Persistence.append_ops notes 1 edit []))
apply_client_op-ack_example =
    apply_client_op-ack all_open fine notes alice edit (process alice) 7 1 (map op_id_of edit) acked

install_room_forgets_example :
    let loaded : Persistence.LoadedDocument = record {
      snapshot = [];
      snapshot_seq = 0;
      ops = [];
      latest_seq = 0;
    } in
    (tell_room all_open notes
      (presence_leave notes alice)
      none
      (install_room notes loaded (process alice)).0).sent
    ≡ []
install_room_forgets_example =
    install_room_forgets all_open notes
      (record { snapshot = []; snapshot_seq = 0; ops = []; latest_seq = 0 }) (process alice)
      (presence_leave notes alice) none

apply_client_op-handle_remote_op_example :
    let p' = (apply_client_op all_open fine notes alice edit (process alice)).0 in
    let seq = (Seq.next notes []).1 in
    let payload = ops_fanout alice seq edit in
    (room_of notes p' ≡ some (Room.apply_ops edit seq joined))
    × (p'.published ≡ [] ++ (doc_channel notes, payload) ∷ [])
    × (room_of notes (handle_remote_op all_open fine notes payload (process elsewhere))
        ≡ some (Room.apply_ops edit seq joined))
    × (handle_remote_op all_open fine notes payload p' ≡ p')
unfolding Maps.get
apply_client_op-handle_remote_op_example =
    apply_client_op-handle_remote_op all_open fine fine notes alice edit (process alice)
      (process elsewhere) joined_entry joined_entry refl refl
      (λ e. absurd (omega (arith, ap length e))) refl refl

tick-HasRoom_example :
    HasRoom notes ((alice, 7) ∷ []) (tick all_open fine notes 1000000 (process alice))
unfolding Maps.get Room.new_room
tick-HasRoom_example =
    tick-HasRoom all_open fine notes ((alice, 7) ∷ []) 1000000 (process alice) refl
      (joined_entry, refl, refl)

abbrev served : YSyncServer
served = record {
  room_manager = process alice;
  socket_states = (7, record { doc_id = other_notes; replica_id = alice }) ∷ [];
}

handle_message-IsScoped_example :
    IsScoped all_open fine 5 7
      (record { doc_id = other_notes; replica_id = alice })
      notes
      served
      (handle_message all_open fine 5 7 (accepted (ClientMessage.op other_notes edit)) served)
unfolding get_state text_eq
handle_message-IsScoped_example =
    handle_message-IsScoped all_open fine 5 7 (record { doc_id = other_notes; replica_id = alice })
      notes (accepted (ClientMessage.op other_notes edit)) served refl refl

abbrev quiet_bus : PubSubBus
quiet_bus = record { broker = []; handlers = [] }

unsubscribe-subscribe_twice_example :
    publish notes (unsubscribe notes (subscribe notes 4 (subscribe notes 3 quiet_bus)))
    ≡ publish notes quiet_bus ++ 3 ∷ []
unfolding has_handler publish Maps.get
unsubscribe-subscribe_twice_example = unsubscribe-subscribe_twice notes 3 4 quiet_bus refl refl

-- The room with the edit under number 3, and the store, which holds the edit since number 1.
abbrev edited_room : Room
edited_room = Room.apply_ops edit 3 joined

abbrev edited_store : Persistence.PersistenceStore
edited_store = Persistence.append_ops notes 1 edit []

edited_room_nodes : length edited_room.rga.nodes ≡ 1
unfolding Room.apply_ops Room.new_room apply_all new_rga
edited_room_nodes = refl

edited_store_ops : length (Persistence.get_or_create notes edited_store).ops ≡ 1
unfolding Persistence.append_ops Persistence.get_or_create Persistence.empty_doc Maps.get Maps.put
edited_store_ops = refl

hydrate-write_snapshot_example :
    let docs = Persistence.write_snapshot notes 3 (Room.snapshot edited_room) edited_store in
    let loaded = Persistence.load notes docs in
    let again =
      Room.hydrate notes loaded.snapshot loaded.snapshot_seq loaded.ops loaded.latest_seq in
    (again.rga.nodes ≡ edited_room.rga.nodes)
    × (again.seq ≡ 3)
    × (again.coverage_floor ≡ 3)
    × (again.op_log ≡ [])
unfolding Persistence.append_ops Persistence.get_or_create Persistence.empty_doc Maps.get Maps.put
    Room.apply_ops
hydrate-write_snapshot_example =
    hydrate-write_snapshot notes edited_room edited_store (omega arith, tt) (omega arith)

-- Alice's client on an open socket, with the edit in its outbox, and the server she has joined.
abbrev editing : DocumentClient
editing = record (new_client notes) {
  ws = some true;
  outbox = add_all edit [];
  saved_outbox = add_all edit [];
}

abbrev joined_server : YSyncServer
joined_server = record {
  room_manager = process alice;
  socket_states = (7, record { doc_id = notes; replica_id = alice }) ∷ [];
}
