-- ===== src/Web/DocumentClient/CatchUp.antt =====
-- A client of apps/web/src/lib/documentClient.ts that is sent the state of a room of
-- apps/server/src/room.ts.
use ysync.Common.{◌≡◌, refl, ap, List, [], ◌∷◌, ◌++◌, map, none}
use ysync.Common.Texts.{Text}
use ysync.Crdt.Node.{Node}
use ysync.Crdt.Rga.{Rga, new_rga, apply_all}
use ysync.Crdt.Snapshot.{to_snapshot, to_snapshot_node}
use ysync.Crdt.Snapshot.Roundtrip.{from_snapshot-to_snapshot}
use ysync.Crdt.View.{read, read_nodes, get_contents_for_editor, collect_runs}
use ysync.Protocol.{snapshot}
use ysync.Server.Room
use ysync.Server.Room.{Room}
use ysync.Web.DocumentClient.{DocumentClient, rga_of}
use ysync.Web.DocumentClient.Messages.{handle_server_message, flush_outbox, persist_document_state}

rga_of-to_snapshot :
    (s : Rga) (replica_id : Text) → (rga_of (to_snapshot s) replica_id).nodes ≡ s.nodes
unfolding rga_of to_snapshot new_rga
rga_of-to_snapshot s replica_id = nodes_of s.nodes
  where
    nodes_of : (l : List Node) → (rga_of (map to_snapshot_node l) replica_id).nodes ≡ l
    nodes_of [] = refl
    nodes_of (n ∷ l) = (from_snapshot-to_snapshot (record s { nodes = n ∷ l }) replica_id).0

-- A client without unacked edits that is sent a room's snapshot shows the room's text with its marks,
-- and resends nothing.
pub handle_server_message-snapshot :
    (room : Room) (c : DocumentClient)
    → c.outbox ≡ []
    → let c' = handle_server_message (snapshot room.doc_id room.seq (Room.snapshot room)) c in
      (read c'.rga ≡ read room.rga)
      × (get_contents_for_editor c'.rga ≡ get_contents_for_editor room.rga)
      × (c'.last_acked_seq ≡ room.seq)
      × (c'.sent ≡ c.sent)
unfolding handle_server_message flush_outbox persist_document_state Room.snapshot apply_all read
    get_contents_for_editor
handle_server_message-snapshot room c e =
    let same = rga_of-to_snapshot room.rga c.replica.replica_id in
    rw (e, handle_server_message)
      (
        ap read_nodes same,
        ap
            (λ (l : List Node).
              collect_runs l [] [] none ++ record { insert = b'\n' ∷ []; attributes = none } ∷ [])
            same,
        refl,
        refl,
      )
