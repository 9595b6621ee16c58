-- ===== src/Web/DocumentClient/Edits.antt =====
-- Local edits in apps/web/src/lib/documentClient.ts.
pub mod Outbox
pub mod Shown
use ysync.Common.{ℕ, Bool, true, false, List, [], ◌∷◌, ◌++◌, Option, none, some, map}
use ysync.Common.Texts.{Text}
use ysync.Common.Maps
use ysync.Common.Maps.{Map}
use ysync.Crdt.Op.{Op, insert, delete, format, FormatOp, op_id_key_of}
use ysync.Crdt.Rga.{Rga}
use ysync.Crdt.Editing.{local_insert, local_delete, local_format}
use ysync.Protocol.{ClientMessage, op}
use ysync.Web.DeltaToEdits.{Edit}
use ysync.Web.DocumentClient.{DocumentClient, send}

-- One edit on the replica, and its ops; `none` where it throws.
unfoldable pub apply_edit : Edit → Rga → Option (Rga × List Op)
unfolding local_insert local_delete local_format
apply_edit (Edit.insert index value attrs) rga =
    let (rga', o) = local_insert rga index value attrs in some (rga', insert o ∷ [])
apply_edit (Edit.delete index) rga = elim (local_delete rga index) [
  | none ↦ none
  | some (rga', o) ↦ some (rga', delete o ∷ [])
]
apply_edit (Edit.format index length attrs) rga =
    let (rga', os) = local_format length rga index attrs in some (rga', map format os)

-- The loop over the edits: the replica, and the ops unless an edit throws. What was edited before
-- stays in the replica.
unfoldable pub collect_edits : List Edit → List Op → Rga → Rga × Option (List Op)
unfolding apply_edit
collect_edits [] ops rga = (rga, some ops)
collect_edits (edit ∷ edits) ops rga = elim (apply_edit edit rga) [
  | none ↦ (rga, none)
  | some (rga', os) ↦ collect_edits edits (ops ++ os) rga'
]

-- `this.outbox.set(opId, record)` for each op.
unfoldable pub add_all : List Op → Map Op → Map Op
unfolding op_id_key_of Maps.put
add_all [] outbox = outbox
add_all (o ∷ ops) outbox = add_all ops (Maps.put (op_id_key_of o) o outbox)

-- The second result is whether the call returns.
unfoldable pub apply_local_edits : List Edit → DocumentClient → DocumentClient × Bool
unfolding collect_edits add_all send
apply_local_edits [] c = (c, true)
apply_local_edits (edit ∷ edits) c =
    let (rga, collected) = collect_edits (edit ∷ edits) [] c.rga in
    elim collected [
      | none ↦ (record c { rga = rga }, false)
      | some ops ↦ (
        send (op c.doc_id ops) (record c {
          rga = rga;
          outbox = add_all ops c.outbox;
          saved_outbox = add_all ops c.saved_outbox;
        }),
        true,
      )
    ]
