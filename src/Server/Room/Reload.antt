-- ===== src/Server/Room/Reload.antt =====
-- A room of apps/server/src/room.ts that is written as a snapshot and loaded again.
use ysync.Common.{ℕ, ◌≡◌, ◌≤◌, refl, List, [], ◌∷◌, map, All, arith}
use ysync.Common.Texts.{Text}
use ysync.Common.Maps.{get-put_self}
use ysync.Crdt.Node.{Node}
use ysync.Crdt.Rga.{Rga, apply_all}
use ysync.Crdt.Snapshot.{RgaSnapshotNode, to_snapshot_node, to_snapshot}
use ysync.Crdt.Snapshot.Roundtrip.{from_snapshot-to_snapshot}
use ysync.Server.Persistence.{
  StoredOp, PersistenceStore, load, load_doc, get_or_create, rows_after, snapshot_doc,
  write_snapshot, group_by_seq, group_rows,
}
use ysync.Server.Room.{Room, hydrate, initial_rga, new_room, snapshot, flat_ops, server_replica}

rows_after_none :
    (n : ℕ) (rows : List StoredOp) → All (λ row. row.seq ≤ n) rows → rows_after n rows ≡ []
unfolding rows_after
rows_after_none n [] h = refl
rows_after_none n (row ∷ rows) h = ground (arith, rows_after_none n rows h.1)

initial_nodes : (doc_id : Text) (s : Rga) → (initial_rga doc_id (to_snapshot s)).nodes ≡ s.nodes
unfolding initial_rga to_snapshot
initial_nodes doc_id s = nodes_of s.nodes
  where
    nodes_of : (l : List Node) → (initial_rga doc_id (map to_snapshot_node l)).nodes ≡ l
    nodes_of [] = refl
    nodes_of (n ∷ l) =
        (from_snapshot-to_snapshot (record s { nodes = n ∷ l }) (server_replica doc_id)).0

load-write_snapshot :
    (doc_id : Text) (n : ℕ) (state : List RgaSnapshotNode) (docs : PersistenceStore)
    → load doc_id (write_snapshot doc_id n state docs)
      ≡ load_doc (snapshot_doc n state (get_or_create doc_id docs))
unfolding load write_snapshot
load-write_snapshot doc_id n state docs =
    rw (get-put_self doc_id (snapshot_doc n state (get_or_create doc_id docs)) docs, load) refl

-- A room that is written as a snapshot under its number, to a store that holds nothing newer, is
-- loaded again with the same nodes, the same number, and a floor that covers it.
pub hydrate-write_snapshot :
    (doc_id : Text) (room : Room) (docs : PersistenceStore)
    → All (λ row. row.seq ≤ room.seq) (get_or_create doc_id docs).ops
    → (get_or_create doc_id docs).latest_seq ≤ room.seq
    → let loaded = load doc_id (write_snapshot doc_id room.seq (snapshot room) docs) in
      let again = hydrate doc_id loaded.snapshot loaded.snapshot_seq loaded.ops loaded.latest_seq in
      (again.rga.nodes ≡ room.rga.nodes)
      × (again.seq ≡ room.seq)
      × (again.coverage_floor ≡ room.seq)
      × (again.op_log ≡ [])
unfolding hydrate load_doc snapshot_doc snapshot group_by_seq group_rows flat_ops apply_all new_room
hydrate-write_snapshot doc_id room docs below latest =
    rw
      (
        load-write_snapshot doc_id room.seq (snapshot room) docs,
        rows_after_none room.seq (get_or_create doc_id docs).ops below,
      )
      (initial_nodes doc_id room.rga, omega arith, refl, refl)
