-- ===== src/Web/DocumentClient/Convergence.antt =====
-- A client of apps/web/src/lib/documentClient.ts and a room of apps/server/src/room.ts that take the
-- same ops.
use ysync.Common.{◌≡◌, refl, sym, ap, subst, ◌∙◌, List, [], ◌∷◌, ◌++◌, none}
use ysync.Common.Texts.{Text}
use ysync.Common.Maps.{Map, values}
use ysync.Crdt.Op.{Op}
use ysync.Crdt.Rga.Sequences.{apply_all-append}
use ysync.Crdt.Rga.{new_rga, apply_all}
use ysync.Crdt.Rga.Delivery.{AllCausal}
use ysync.Crdt.Rga.Convergence.{UniqueIds, SameOps, read_converges}
use ysync.Crdt.Rga.WellFormed.{IsWellFormed, IsWellFormed-new_rga, IsWellFormed-apply_all}
use ysync.Crdt.View.{read}
use ysync.Server.Persistence.{OpBatch}
use ysync.Server.Room.{Room, new_room, flat_ops, apply_ops, server_replica}
use ysync.Server.Room.CatchUp.{apply_batches}
use ysync.Web.DocumentClient.{DocumentClient, ReplicaRecord, rga_of}
use ysync.Web.DocumentClient.Messages.{restored, reapply, init, compute_snapshot}
use ysync.Web.DocumentClient.Histories.{
  Happening, happen_all, all_ops, AreHeard, rga-connect, rga-happen_all,
}

rga-reapply :
    (records : Map Op) (c : DocumentClient)
    → (reapply records c).rga ≡ apply_all (values records) c.rga
unfolding reapply apply_all
rga-reapply [] c = refl
rga-reapply ((key, o) ∷ records) c = rga-reapply records _

rga-init :
    (replica : ReplicaRecord) (records : Map Op) (c : DocumentClient)
    → (init replica none records c).rga ≡ apply_all (values records) (new_rga replica.replica_id)
unfolding init restored rga_of
rga-init replica records c =
    let restored_client : DocumentClient = record c {
      replica = replica;
      rga = new_rga replica.replica_id;
      last_acked_seq = 0;
      saved = none;
      saved_outbox = records;
    } in
    rga-connect (reapply records restored_client) ∙ rga-reapply records restored_client

rga-apply_batches :
    (batches : List OpBatch) (room : Room)
    → (apply_batches batches room).rga ≡ apply_all (flat_ops batches) room.rga
unfolding apply_ops flat_ops apply_all
rga-apply_batches [] room = refl
rga-apply_batches (b ∷ batches) room =
    rga-apply_batches batches (apply_ops b.ops b.seq room)
    ∙ sym (apply_all-append b.ops (flat_ops batches) room.rga)

-- A client opens a document with what its outbox holds of earlier edits and no stored record. Then
-- its user edits, and it gets messages other than snapshots, in any order and again, through any
-- number of connections; no call with edits throws, and none comes while an op waits for an id that
-- the client has still to give. Then the client shows the text of the room, when its outbox, its
-- edits and the messages together hold the ops that the room applied, every insert is newer than
-- its origin and no two inserts have one id.
pub client_shows_room :
    (replica : ReplicaRecord) (records : Map Op) (c : DocumentClient) (happenings : List Happening)
    (batches : List OpBatch) (doc_id : Text)
    → AreHeard happenings (init replica none records c)
    → AllCausal (values records ++ all_ops happenings (init replica none records c))
    → UniqueIds (values records ++ all_ops happenings (init replica none records c))
    → SameOps
        (values records ++ all_ops happenings (init replica none records c))
        (flat_ops batches)
    → (compute_snapshot (happen_all happenings (init replica none records c))).text
      ≡ read (apply_batches batches (new_room doc_id (new_rga (server_replica doc_id)))).rga
unfolding compute_snapshot new_room
client_shows_room replica records c happenings batches doc_id heard causal unique same =
    let start = init replica none records c in
    let brought = all_ops happenings start in
    let ops = values records ++ brought in
    let opening = rga-init replica records c in
    let v : IsWellFormed start.rga = subst IsWellFormed (sym opening) (
      IsWellFormed-apply_all (values records) (new_rga replica.replica_id)
        (IsWellFormed-new_rga replica.replica_id)) in
    let client : (happen_all happenings start).rga ≡ apply_all ops (new_rga replica.replica_id) =
      rga-happen_all happenings start v heard
      ∙ ap (apply_all brought) opening
      ∙ sym (apply_all-append (values records) brought (new_rga replica.replica_id)) in
    ap read client
    ∙ read_converges replica.replica_id (server_replica doc_id) ops (flat_ops batches) causal unique
        same
    ∙ ap read (sym (rga-apply_batches batches (new_room doc_id (new_rga (server_replica doc_id)))))
