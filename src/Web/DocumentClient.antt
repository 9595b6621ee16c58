-- ===== src/Web/DocumentClient.antt =====
-- apps/web/src/lib/documentClient.ts: the client of one document: its replica, its socket, its timers
-- and its outbox. `sent` is what was handed to the socket, in order. A call of `notify` has no effect
-- on this state: the snapshot that listeners read is `compute_snapshot` of it.
pub mod Edits
pub mod Messages
pub mod CatchUp
pub mod Batches
pub mod Connection
pub mod Convergence
pub mod Histories
pub mod Settling
use ysync.Common.{
  ℕ, zero, suc, ◌+◌, ◌*◌, ◌^◌, min, Bool, true, false, not, ◌&&◌, ◌||◌, List, [], ◌∷◌, ◌++◌, Option,
  none, some, if◌then◌else◌,
}
use ysync.Common.Texts.{Text}
use ysync.Common.Maps
use ysync.Common.Maps.{Map, values}
use ysync.Crdt.Op.{Op, op_id_key_of}
use ysync.Crdt.Rga.{Rga, new_rga, apply, apply_all}
use ysync.Crdt.Snapshot.{RgaSnapshotNode, to_snapshot, from_snapshot}
use ysync.Crdt.View.{read}
use ysync.Protocol.{Selection, Awareness, ClientMessage, join, op, presence}

pub data ConnectionState : Type 0 where
  connecting : ConnectionState
  opened : ConnectionState
  closed : ConnectionState

pub record RemotePresence : Type 0 where
  pub replica_id : Text
  pub awareness : Awareness

-- `DocumentRecord` of apps/web/src/lib/db.ts, without the document's id.
pub record DocumentRecord : Type 0 where
  pub last_acked_seq : ℕ
  pub snapshot_state : List RgaSnapshotNode

-- `ReplicaRecord` of apps/web/src/lib/db.ts, without the document's id.
pub record ReplicaRecord : Type 0 where
  pub replica_id : Text
  pub name : Text
  pub color : Text

-- `ws` is whether the socket that the client holds is open, if it holds one. An outbox record is its
-- op under its key. `saved` and `saved_outbox` are what IndexedDB holds once
-- the writes are done.
pub record DocumentClient : Type 0 where
  pub doc_id : Text
  pub rga : Rga
  pub replica : ReplicaRecord
  pub ws : Option Bool
  pub connection_state : ConnectionState
  pub last_acked_seq : ℕ
  pub outbox : Map Op
  pub presence : Map RemotePresence
  pub last_error : Option Text
  pub reconnect_attempt : ℕ
  pub reconnect_timer : Option ℕ
  pub heartbeat_timer : Bool
  pub last_cursor : Option ℕ
  pub last_selection : Option Selection
  pub closed_by_user : Bool
  pub simulated_offline : Bool
  pub sent : List ClientMessage
  pub saved : Option DocumentRecord
  pub saved_outbox : Map Op

-- The client that the constructor makes.
unfoldable pub new_client : Text → DocumentClient
unfolding new_rga
new_client doc_id = record {
  doc_id = doc_id;
  rga = new_rga [];
  replica = record { replica_id = []; name = []; color = [] };
  ws = none;
  connection_state = connecting;
  last_acked_seq = 0;
  outbox = [];
  presence = [];
  last_error = none;
  reconnect_attempt = 0;
  reconnect_timer = none;
  heartbeat_timer = false;
  last_cursor = none;
  last_selection = none;
  closed_by_user = false;
  simulated_offline = false;
  sent = [];
  saved = none;
  saved_outbox = [];
}

-- `state.length > 0 ? Rga.fromSnapshot(state, replicaId) : new Rga(replicaId)`
unfoldable pub rga_of : List RgaSnapshotNode → Text → Rga
unfolding from_snapshot new_rga
rga_of [] replica_id = new_rga replica_id
rga_of (n ∷ state) replica_id = from_snapshot (n ∷ state) replica_id

-- A closed or missing socket drops the message.
unfoldable pub send : ClientMessage → DocumentClient → DocumentClient
send message c = elim c.ws [
  | some is_open ↦ if is_open then record c { sent = c.sent ++ message ∷ [] } else c
  | none ↦ c
]

-- A new socket is not open yet.
unfoldable pub connect : DocumentClient → DocumentClient
connect c =
    if c.closed_by_user || c.simulated_offline
    then c
    else record c { connection_state = connecting; ws = some false }

-- `Math.min(500 * 2 ** attempt, MAX_RECONNECT_DELAY_MS)`
unfoldable pub reconnect_delay : ℕ → ℕ
reconnect_delay attempt = min (500 * 2 ^ attempt) 10000

unfoldable pub schedule_reconnect : DocumentClient → DocumentClient
unfolding reconnect_delay
schedule_reconnect c = elim c.reconnect_timer [
  | some _ ↦ c
  | none ↦ record c {
    reconnect_attempt = c.reconnect_attempt + 1;
    reconnect_timer = some (reconnect_delay c.reconnect_attempt);
  }
]

-- The callback of the timer.
unfoldable pub reconnect : DocumentClient → DocumentClient
unfolding connect
reconnect c = connect (record c { reconnect_timer = none })

-- `replicaId` is empty until `init` has run.
unfoldable pub send_presence : DocumentClient → DocumentClient
unfolding send
send_presence c = elim c.replica.replica_id [
  | [] ↦ c
  | ◌∷◌ x xs ↦
      send
        (presence c.doc_id (record {
          cursor = c.last_cursor;
          selection = c.last_selection;
          name = some c.replica.name;
          color = some c.replica.color;
        }))
        c
]

-- The socket's `open` event.
unfoldable pub on_open : DocumentClient → DocumentClient
unfolding send
on_open c =
    let ready : DocumentClient = record c {
      ws = some true;
      reconnect_attempt = 0;
      connection_state = opened;
    } in
    record (send (join c.doc_id c.replica.replica_id c.last_acked_seq) ready) {
      heartbeat_timer = true;
    }

-- `socket.close()`, and the end of a connection.
unfoldable pub shut : Option Bool → Option Bool
shut none = none
shut (some _) = some false

-- The `close` event of a socket: the one that the client holds, or one that it held before.
unfoldable pub on_close : Bool → DocumentClient → DocumentClient
unfolding schedule_reconnect shut
on_close is_current c =
    let ended : DocumentClient = record c {
      ws = if is_current then shut c.ws else c.ws;
      connection_state = closed;
      heartbeat_timer = false;
    } in
    if not c.closed_by_user && not c.simulated_offline then schedule_reconnect ended else ended

unfoldable pub set_simulated_offline : Bool → DocumentClient → DocumentClient
unfolding connect
set_simulated_offline true c = if c.simulated_offline then c else record c {
  simulated_offline = true;
  reconnect_timer = none;
  heartbeat_timer = false;
  ws = none;
  connection_state = closed;
}
set_simulated_offline false c =
    if c.simulated_offline
    then connect (record c { simulated_offline = false; reconnect_attempt = 0 })
    else c

unfoldable pub update_presence : Option ℕ → Option Selection → DocumentClient → DocumentClient
unfolding send_presence
update_presence cursor selection c =
    send_presence (record c { last_cursor = cursor; last_selection = selection })

-- No timeout is pending afterwards; the handle that the code keeps is not asked for again.
unfoldable pub dispose : DocumentClient → DocumentClient
unfolding shut
dispose c = record c {
  closed_by_user = true;
  reconnect_timer = none;
  heartbeat_timer = false;
  ws = shut c.ws;
}
