-- ===== src/Tests/Together.antt =====
-- A client of apps/web and a room of apps/server at a concrete history.
use ysync.Common.{
  ◌≡◌, refl, sym, ap, ◌∙◌, true, ◌==◌, if◌then◌else◌, inl, inr, In, List, [], ◌∷◌, Option, none,
  some, All, All-In,
}
use ysync.Common.Texts.{Text}
use ysync.Common.Maps
use ysync.Common.Maps.{Map}
use ysync.Crdt.Op.{Op, InsertOp, insert, delete, format, op_id_key_of}
use ysync.Crdt.Rga.{Rga, new_rga, apply, drain, deliver, apply_all}
use ysync.Crdt.Rga.Canonical.{Causal}
use ysync.Crdt.Rga.Delivery.{AllCausal}
use ysync.Crdt.Rga.Convergence.{UniqueIds, SameOps}
use ysync.Crdt.Editing.{local_insert, local_delete, local_format}
use ysync.Crdt.Editing.Echo.{NoneAhead}
use ysync.Crdt.Rga.WellFormed.{IsWellFormed, IsWellFormed-new_rga}
use ysync.Web.DeltaToEdits.{Edit}
use ysync.Web.DocumentClient.Edits.{apply_edit, apply_local_edits, collect_edits}
use ysync.Web.DocumentClient.Edits.Shown.{collect_edits_echo}
use ysync.Crdt.OpId.{OpId, newer}
use ysync.Web.DocumentClient.{
  ReplicaRecord, new_client, rga_of, connect, on_open, send, on_close, reconnect,
}
use ysync.Web.DocumentClient.Messages.{
  handle_server_message, persist_document_state, flush_outbox, forget, init, compute_snapshot,
  reapply, restored,
}
use ysync.Web.DocumentClient.Connection
use ysync.Crdt.View.{read}
use ysync.Protocol.{sync, ack, broadcast_op}
use ysync.Server.Persistence.{OpBatch}
use ysync.Server.Room.{new_room, server_replica, flat_ops}
use ysync.Server.Room.CatchUp.{apply_batches}
use ysync.Web.DocumentClient.Connection.{ended, timer, received}
use ysync.Web.DocumentClient.Histories.{Happening, opened, event, happen_all}
use ysync.Web.DocumentClient.Convergence.{client_shows_room}

abbrev notes : Text
notes = b'n' ∷ []

abbrev alice : ReplicaRecord
alice = record { replica_id = b'a' ∷ []; name = []; color = [] }

abbrev letter : InsertOp
letter = record {
  id = record { counter = 1; replica_id = b'a' ∷ [] };
  origin_id = none;
  value = b'x' ∷ [];
  attrs = none;
}

abbrev dropped : Op
dropped = delete (record { target_id = letter.id })

-- What is typed behind it.
abbrev second : InsertOp
second = record {
  id = record { counter = 2; replica_id = b'a' ∷ [] };
  origin_id = some letter.id;
  value = b'y' ∷ [];
  attrs = none;
}

-- What was typed before a reload.
abbrev typed : Map Op
typed = (op_id_key_of (insert letter), insert letter) ∷ []

-- A second letter, and the other client's delete, which comes a second time after a new connection.
abbrev happenings : List Happening
happenings =
    opened
    ∷ event (received (sync notes 0 []))
    ∷ event (Connection.edited (Edit.insert 1 (b'y' ∷ []) none ∷ []))
    ∷ event (received (ack notes 1 (letter.id ∷ [])))
    ∷ event (received (broadcast_op notes 2 (dropped ∷ [])))
    ∷ event (ended true)
    ∷ event timer
    ∷ opened
    ∷ event (received (sync notes 2 (dropped ∷ [])))
    ∷ []

abbrev batches : List OpBatch
batches =
    record { seq = 1; ops = insert letter ∷ [] }
    ∷ record { seq = 2; ops = dropped ∷ [] }
    ∷ record { seq = 3; ops = insert second ∷ [] }
    ∷ []

abbrev ops : List Op
ops = insert letter ∷ insert second ∷ dropped ∷ dropped ∷ []

abbrev CausalOp : Op → Type 0
CausalOp (insert op) = Causal op.id op.origin_id
CausalOp (delete op) = Unit {0}
CausalOp (format op) = Unit {0}

abbrev letter_of : OpId → InsertOp
letter_of id = if id.counter == 1 then letter else second

abbrev IsLetter : Op → Type 0
IsLetter (insert op) = op ≡ letter_of op.id
IsLetter (delete op) = Unit {0}
IsLetter (format op) = Unit {0}

ops-AllCausal : AllCausal ops
unfolding newer
ops-AllCausal = λ op m. All-In CausalOp ops (tt, (refl, (tt, (tt, tt)))) (insert op) m

ops-IsLetter : All IsLetter ops
ops-IsLetter = (refl, (refl, (tt, (tt, tt))))

ops-UniqueIds : UniqueIds ops
ops-UniqueIds = λ a b ma mb e.
    All-In IsLetter ops ops-IsLetter (insert a) ma
    ∙ ap letter_of e
    ∙ sym (All-In IsLetter ops ops-IsLetter (insert b) mb)

ops-SameOps : SameOps ops (flat_ops batches)
unfolding flat_ops
ops-SameOps = λ op. (
  All-In (λ x. In x (flat_ops batches)) ops
      (inl refl, (inr (inr (inl refl)), (inr (inl refl), (inr (inl refl), tt)))) op,
  All-In (λ x. In x ops) (flat_ops batches) (inl refl, (inr (inr (inl refl)), (inr (inl refl), tt)))
      op,
)

client_shows_room_example :
    (compute_snapshot (happen_all happenings (init alice none typed (new_client notes)))).text
    ≡ read (apply_batches batches (new_room notes (new_rga (server_replica notes)))).rga
unfolding init reapply restored rga_of new_client connect on_open send handle_server_message
    persist_document_state flush_outbox forget on_close reconnect apply_local_edits collect_edits
    apply_edit local_insert apply_all apply drain deliver new_rga Maps.get
client_shows_room_example =
    client_shows_room alice typed (new_client notes) happenings batches notes
      (tt, (refl, ((λ c l. refl, refl), (refl, (refl, (tt, (tt, (tt, (refl, tt)))))))))
      ops-AllCausal ops-UniqueIds ops-SameOps

abbrev edits : List Edit
edits =
    Edit.insert 0 (b'x' ∷ []) none
    ∷ Edit.insert 1 (b'y' ∷ []) none
    ∷ Edit.delete 0
    ∷ Edit.format 0 1 ((b'b' ∷ [], true) ∷ [])
    ∷ []

abbrev empty : Rga
empty = new_rga (b'a' ∷ [])

abbrev edited : Rga × Option (List Op)
edited = collect_edits edits [] empty

abbrev edited_ops : List Op
edited_ops = elim edited.1 [ none ↦ [] | some os ↦ os ]

empty-NoneAhead : NoneAhead empty
unfolding new_rga Maps.get
empty-NoneAhead = λ c l. refl

collect_edits_echo_example :
    (edited.0 ≡ apply_all edited_ops empty) × (IsWellFormed edited.0 × NoneAhead edited.0)
unfolding collect_edits apply_edit local_insert local_delete local_format new_rga
collect_edits_echo_example =
    collect_edits_echo edits empty edited.0 edited_ops (IsWellFormed-new_rga (b'a' ∷ []))
      empty-NoneAhead refl
