-- ===== src/Server/Room.antt =====
-- apps/server/src/room.ts: the in-memory state of one document. A socket is an object with an
-- identity; whether it is open is asked of the environment, and what is sent is returned.
pub mod Broadcast
pub mod CatchUp
pub mod Reload
use ysync.Common.{
  ℕ, ◌+◌, Bool, true, false, not, ◌&&◌, List, [], ◌∷◌, ◌++◌, map, Option, none, some, length, ltb,
  leb, ◌==◌, if◌then◌else◌,
}
use ysync.Common.Texts.{Text, text_eq}
use ysync.Common.Maps
use ysync.Common.Maps.{Map}
use ysync.Crdt.Op.{Op}
use ysync.Crdt.Rga.{Rga, new_rga, apply_all}
use ysync.Crdt.Snapshot.{
  RgaSnapshotNode, to_snapshot, from_snapshot, compact_tombstones as compact_rga,
}
use ysync.Protocol.{ServerMessage}
use ysync.Server.Persistence.{OpBatch}

abbrev pub Socket : Type 0
Socket = ℕ

pub record Room : Type 0 where
  pub doc_id : Text
  pub rga : Rga
  pub sockets : Map Socket
  pub seq : ℕ
  pub ops_since_snapshot : ℕ
  pub op_log : List OpBatch
  pub coverage_floor : ℕ

-- `server:${docId}`
unfoldable pub server_replica : Text → Text
server_replica doc_id = b's' ∷ b'e' ∷ b'r' ∷ b'v' ∷ b'e' ∷ b'r' ∷ b':' ∷ doc_id

unfoldable pub new_room : Text → Rga → Room
new_room doc_id rga = record {
  doc_id = doc_id;
  rga = rga;
  sockets = [];
  seq = 0;
  ops_since_snapshot = 0;
  op_log = [];
  coverage_floor = 0;
}

-- `batches.flatMap((batch) => batch.ops)`
unfoldable pub flat_ops : List OpBatch → List Op
flat_ops [] = []
flat_ops (batch ∷ batches) = batch.ops ++ flat_ops batches

-- The replica of a document with this snapshot.
unfoldable pub initial_rga : Text → List RgaSnapshotNode → Rga
unfolding from_snapshot new_rga server_replica
initial_rga doc_id [] = new_rga (server_replica doc_id)
initial_rga doc_id (n ∷ snapshot) = from_snapshot (n ∷ snapshot) (server_replica doc_id)

unfoldable pub hydrate : Text → List RgaSnapshotNode → ℕ → List OpBatch → ℕ → Room
unfolding initial_rga new_room flat_ops apply_all
hydrate doc_id snapshot snapshot_seq trailing latest_seq =
    let rga = initial_rga doc_id snapshot in
    record (new_room doc_id rga) {
      rga = apply_all (flat_ops trailing) rga;
      seq = latest_seq;
      ops_since_snapshot = length (flat_ops trailing);
      op_log = trailing;
      coverage_floor = snapshot_seq;
    }

-- The ops of the batches after `sinceSeq`.
unfoldable pub ops_after : ℕ → List OpBatch → List Op
ops_after since_seq [] = []
ops_after since_seq (batch ∷ log) =
    let rest = ops_after since_seq log in
    if ltb since_seq batch.seq then batch.ops ++ rest else rest

unfoldable pub get_ops_since : ℕ → Room → Option (List Op)
unfolding ops_after
get_ops_since since_seq room =
    if leb room.seq since_seq
    then some []
    else if ltb since_seq room.coverage_floor
    then none
    else some (ops_after since_seq room.op_log)

-- The room, and the socket that was registered before.
unfoldable pub join : Text → Socket → Room → Room × Option Socket
join replica_id socket room = (
  record room { sockets = Maps.put replica_id socket room.sockets },
  Maps.get replica_id room.sockets,
)

-- `sockets.get(replicaId) !== socket`
unfoldable pub other_socket : Option Socket → Socket → Bool
other_socket none socket = true
other_socket (some s) socket = not (s == socket)

unfoldable pub leave : Text → Option Socket → Room → Room
unfolding other_socket
leave replica_id none room = record room { sockets = Maps.remove replica_id room.sockets }
leave replica_id (some socket) room =
    if other_socket (Maps.get replica_id room.sockets) socket
    then room
    else record room { sockets = Maps.remove replica_id room.sockets }

unfoldable pub has_socket : Text → Room → Bool
has_socket replica_id room = elim (Maps.get replica_id room.sockets) [
  | some _ ↦ true
  | none ↦ false
]

unfoldable pub is_empty : Room → Bool
is_empty room = length room.sockets == 0

unfoldable pub snapshot : Room → List RgaSnapshotNode
unfolding to_snapshot
snapshot room = to_snapshot room.rga

unfoldable pub apply_ops : List Op → ℕ → Room → Room
unfolding apply_all
apply_ops ops seq room = record room {
  rga = apply_all ops room.rga;
  seq = seq;
  ops_since_snapshot = room.ops_since_snapshot + length ops;
  op_log = room.op_log ++ record { seq = seq; ops = ops } ∷ [];
}

-- `opLog.filter((batch) => batch.seq > atSeq)`
unfoldable pub batches_after : ℕ → List OpBatch → List OpBatch
batches_after at_seq [] = []
batches_after at_seq (batch ∷ log) =
    let rest = batches_after at_seq log in if ltb at_seq batch.seq then batch ∷ rest else rest

unfoldable pub advance_coverage_floor : ℕ → Room → Room
unfolding batches_after
advance_coverage_floor at_seq room = record room {
  coverage_floor = at_seq;
  op_log = batches_after at_seq room.op_log;
  ops_since_snapshot = 0;
}

unfoldable pub compact_tombstones : Room → Room
unfolding compact_rga
compact_tombstones room = record room { rga = compact_rga room.rga }

-- A message on its way to a socket.
abbrev pub Sent : Type 0
Sent = Socket × ServerMessage

module _ (is_open : Socket → Bool) where
  unfoldable pub send_to : Text → ServerMessage → Room → List Sent
  send_to replica_id message room = elim (Maps.get replica_id room.sockets) [
    | none ↦ []
    | some socket ↦ if is_open socket then (socket, message) ∷ [] else []
  ]

  -- `replicaId === exceptReplicaId`
  unfoldable pub is_excepted : Text → Option Text → Bool
  unfolding text_eq
  is_excepted replica_id none = false
  is_excepted replica_id (some except) = text_eq replica_id except

  -- The loop of `broadcast` over the sockets left.
  unfoldable pub broadcast_to : ServerMessage → Option Text → Map Socket → List Sent
  unfolding is_excepted
  broadcast_to message except [] = []
  broadcast_to message except ((replica_id, socket) ∷ sockets) =
      let rest = broadcast_to message except sockets in
      if is_excepted replica_id except
      then rest
      else if is_open socket
      then (socket, message) ∷ rest
      else rest

  unfoldable pub broadcast : ServerMessage → Option Text → Room → List Sent
  unfolding broadcast_to
  broadcast message except room = broadcast_to message except room.sockets
