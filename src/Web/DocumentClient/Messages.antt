-- ===== src/Web/DocumentClient/Messages.antt =====
-- What apps/web/src/lib/documentClient.ts does with its stores and with the messages of the server.
use ysync.Common.{ℕ, Bool, List, [], ◌∷◌, Option, none, some}
use ysync.Common.Texts.{Text}
use ysync.Common.Maps
use ysync.Common.Maps.{Map, values}
use ysync.Crdt.OpId.{OpId, op_id_to_string}
use ysync.Crdt.Op.{Op}
use ysync.Crdt.Rga.{Rga, apply, apply_all}
use ysync.Crdt.Snapshot.{to_snapshot}
use ysync.Crdt.View.{read}
use ysync.Protocol.{
  op, ServerMessage, snapshot, sync, ack, broadcast_op, presence_update, presence_leave, error,
}
use ysync.Web.DocumentClient.{
  DocumentClient, DocumentRecord, ReplicaRecord, RemotePresence, ConnectionState, rga_of, send,
  connect,
}

unfoldable pub persist_document_state : DocumentClient → DocumentClient
unfolding to_snapshot
persist_document_state c = record c {
  saved = some (record { last_acked_seq = c.last_acked_seq; snapshot_state = to_snapshot c.rga });
}

unfoldable pub flush_outbox : DocumentClient → DocumentClient
unfolding send
flush_outbox c = elim c.outbox [ [] ↦ c | ◌∷◌ x xs ↦ send (op c.doc_id (values c.outbox)) c ]

-- The ack's loop over the ids left.
unfoldable pub forget : List OpId → Map Op → Map Op
unfolding Maps.remove op_id_to_string
forget [] outbox = outbox
forget (id ∷ ids) outbox = forget ids (Maps.remove (op_id_to_string id) outbox)

-- `documentRecord?.lastAckedSeq ?? 0`, and the replica of its snapshot.
unfoldable pub restored : Option DocumentRecord → Text → ℕ × Rga
unfolding rga_of
restored none replica_id = (0, rga_of [] replica_id)
restored (some record_) replica_id =
    (record_.last_acked_seq, rga_of record_.snapshot_state replica_id)

-- The loop of `init` over the outbox records left.
unfoldable pub reapply : Map Op → DocumentClient → DocumentClient
unfolding apply Maps.put
reapply [] c = c
reapply ((key, o) ∷ records) c =
    reapply records (record c { outbox = Maps.put key o c.outbox; rga = apply o c.rga })

-- With what IndexedDB holds of the document.
unfoldable pub init :
    ReplicaRecord → Option DocumentRecord → Map Op → DocumentClient → DocumentClient
unfolding restored reapply connect
init replica document_record outbox_records c =
    let (seq, rga) = restored document_record replica.replica_id in
    let restored_client : DocumentClient = record c {
      replica = replica;
      rga = rga;
      last_acked_seq = seq;
      saved = document_record;
      saved_outbox = outbox_records;
    } in
    connect (reapply outbox_records restored_client)

-- A message of the server that the parser accepts.
unfoldable pub handle_server_message : ServerMessage → DocumentClient → DocumentClient
unfolding rga_of apply_all persist_document_state flush_outbox forget Maps.put Maps.remove
handle_server_message (snapshot doc_id seq state) c =
    let rebuilt = apply_all (values c.outbox) (rga_of state c.replica.replica_id) in
    flush_outbox (persist_document_state (record c { rga = rebuilt; last_acked_seq = seq }))
handle_server_message (sync doc_id seq ops) c =
    flush_outbox
      (persist_document_state (record c { rga = apply_all ops c.rga; last_acked_seq = seq }))
handle_server_message (broadcast_op doc_id seq ops) c = record c { rga = apply_all ops c.rga }
handle_server_message (ack doc_id seq op_ids) c = persist_document_state (record c {
  outbox = forget op_ids c.outbox;
  saved_outbox = forget op_ids c.saved_outbox;
  last_acked_seq = seq;
})
handle_server_message (presence_update doc_id replica_id awareness) c = record c {
  presence =
      Maps.put replica_id (record { replica_id = replica_id; awareness = awareness }) c.presence;
}
handle_server_message (presence_leave doc_id replica_id) c = record c {
  presence = Maps.remove replica_id c.presence;
}
handle_server_message (error code message) c = record c { last_error = some message }

-- `DocumentClientSnapshot`
pub record DocumentClientSnapshot : Type 0 where
  pub connection_state : ConnectionState
  pub text : Text
  pub presence : List RemotePresence
  pub replica_id : Text
  pub name : Text
  pub color : Text
  pub last_error : Option Text
  pub simulated_offline : Bool

unfoldable pub compute_snapshot : DocumentClient → DocumentClientSnapshot
unfolding read
compute_snapshot c = record {
  connection_state = c.connection_state;
  text = read c.rga;
  presence = values c.presence;
  replica_id = c.replica.replica_id;
  name = c.replica.name;
  color = c.replica.color;
  last_error = c.last_error;
  simulated_offline = c.simulated_offline;
}
