-- ===== src/Web/DocumentClient/Histories.antt =====
-- What happens to a client of apps/web/src/lib/documentClient.ts, and the ops that it brings.
use ysync.Common.{
  ◌≡◌, refl, sym, ap, subst, ◌∙◌, inl, inr, Bool, true, false, List, [], ◌∷◌, ◌++◌, Option, none,
  some, Option-cases, arith,
}
use ysync.Crdt.Op.{Op}
use ysync.Crdt.Rga.Sequences.{apply_all-append}
use ysync.Crdt.Rga.{apply_all}
use ysync.Crdt.Rga.WellFormed.{IsWellFormed, IsWellFormed-apply_all}
use ysync.Crdt.Editing.Echo.{NoneAhead}
use ysync.Web.DeltaToEdits.{Edit}
use ysync.Web.DocumentClient.Edits.{collect_edits, apply_local_edits}
use ysync.Web.DocumentClient.Edits.Shown.{collect_edits_echo}
use ysync.Protocol.{
  ClientMessage, op, ServerMessage, snapshot, sync, ack, broadcast_op, presence_update,
  presence_leave, error,
}
use ysync.Web.DocumentClient.{
  DocumentClient, send, connect, on_open, reconnect, on_close, shut, send_presence, update_presence,
}
use ysync.Web.DocumentClient.Messages.{handle_server_message, persist_document_state, flush_outbox}
use ysync.Web.DocumentClient.Connection.{
  Event, edited, moved, heartbeat, timer, ended, received, step,
}

-- The ops of a message other than a snapshot.
abbrev pub message_ops : ServerMessage → List Op
message_ops (snapshot doc_id seq state) = []
message_ops (sync doc_id seq ops) = ops
message_ops (broadcast_op doc_id seq ops) = ops
message_ops (ack doc_id seq op_ids) = []
message_ops (presence_update doc_id replica_id awareness) = []
message_ops (presence_leave doc_id replica_id) = []
message_ops (error code message) = []

-- The socket opens, or another event.
pub data Happening : Type 0 where
  opened : Happening
  event : Event → Happening

abbrev pub happen : Happening → DocumentClient → DocumentClient
happen opened c = on_open c
happen (event e) c = step e c

abbrev pub happen_all : List Happening → DocumentClient → DocumentClient
happen_all [] c = c
happen_all (h ∷ hs) c = happen_all hs (happen h c)

-- The ops that edits returned, none where an edit threw.
abbrev edit_ops : Option (List Op) → List Op
edit_ops none = []
edit_ops (some ops) = ops

-- The ops that it brings, from the server or from the user.
abbrev ops_of : Happening → DocumentClient → List Op
ops_of opened c = []
ops_of (event (received message)) c = message_ops message
ops_of (event (edited edits)) c = edit_ops (collect_edits edits [] c.rga).1
ops_of (event (moved cursor selection)) c = []
ops_of (event heartbeat) c = []
ops_of (event timer) c = []
ops_of (event (ended is_current)) c = []

abbrev pub all_ops : List Happening → DocumentClient → List Op
all_ops [] c = []
all_ops (h ∷ hs) c = ops_of h c ++ all_ops hs (happen h c)

abbrev is_snapshot : ServerMessage → Bool
is_snapshot (snapshot doc_id seq state) = true
is_snapshot (sync doc_id seq ops) = false
is_snapshot (broadcast_op doc_id seq ops) = false
is_snapshot (ack doc_id seq op_ids) = false
is_snapshot (presence_update doc_id replica_id awareness) = false
is_snapshot (presence_leave doc_id replica_id) = false
is_snapshot (error code message) = false

-- A message is no snapshot; a call with edits returns, at a time when no op waits for an id that the
-- client has still to give.
abbrev IsHeard : Happening → DocumentClient → Type 0
IsHeard opened c = Unit {0}
IsHeard (event (received message)) c = is_snapshot message ≡ false
IsHeard (event (edited edits)) c = NoneAhead c.rga × ((apply_local_edits edits c).1 ≡ true)
IsHeard (event (moved cursor selection)) c = Unit {0}
IsHeard (event heartbeat) c = Unit {0}
IsHeard (event timer) c = Unit {0}
IsHeard (event (ended is_current)) c = Unit {0}

abbrev pub AreHeard : List Happening → DocumentClient → Type 0
AreHeard [] c = Unit {0}
AreHeard (h ∷ hs) c = IsHeard h c × AreHeard hs (happen h c)

rga-send : (message : ClientMessage) (c : DocumentClient) → (send message c).rga ≡ c.rga
unfolding send
rga-send message c = ground arith

rga-flush_outbox : (c : DocumentClient) → (flush_outbox c).rga ≡ c.rga
unfolding flush_outbox send
rga-flush_outbox c = ground arith

pub rga-connect : (c : DocumentClient) → (connect c).rga ≡ c.rga
unfolding connect
rga-connect c = ground arith

rga-on_open : (c : DocumentClient) → (on_open c).rga ≡ c.rga
unfolding on_open send_presence send
rga-on_open c = ground arith

rga-on_close : (is_current : Bool) (c : DocumentClient) → (on_close is_current c).rga ≡ c.rga
unfolding on_close shut
rga-on_close is_current c = ground arith

rga-send_presence : (c : DocumentClient) → (send_presence c).rga ≡ c.rga
unfolding send_presence send
rga-send_presence c = ground arith

rga-handle_server_message :
    (message : ServerMessage) (c : DocumentClient)
    → is_snapshot message ≡ false
    → (handle_server_message message c).rga ≡ apply_all (message_ops message) c.rga
unfolding handle_server_message persist_document_state apply_all
rga-handle_server_message (snapshot doc_id seq state) c h = absurd (ground (arith, h))
rga-handle_server_message (sync doc_id seq ops) c h = rga-flush_outbox _
rga-handle_server_message (broadcast_op doc_id seq ops) c h = refl
rga-handle_server_message (ack doc_id seq op_ids) c h = refl
rga-handle_server_message (presence_update doc_id replica_id awareness) c h = refl
rga-handle_server_message (presence_leave doc_id replica_id) c h = refl
rga-handle_server_message (error code message) c h = refl

rga-apply_local_edits :
    (edits : List Edit) (c : DocumentClient)
    → IsWellFormed c.rga
    → NoneAhead c.rga
    → (apply_local_edits edits c).1 ≡ true
    → (apply_local_edits edits c).0.rga
      ≡ apply_all (edit_ops (collect_edits edits [] c.rga).1) c.rga
unfolding apply_local_edits apply_all collect_edits
rga-apply_local_edits [] c v ahead e = refl
rga-apply_local_edits (edit ∷ edits) c v ahead e =
    let t = (collect_edits (edit ∷ edits) [] c.rga).0 in
    elim (Option-cases (collect_edits (edit ∷ edits) [] c.rga).1) [
      | inl throws ↦
          let failed : false ≡ true = rw (throws, apply_local_edits) at e in
          absurd (ground (arith, failed))
      | inr (ops, returned) ↦
          rw (returned, apply_local_edits)
            (rga-send (op c.doc_id ops) _
              ∙ (collect_edits_echo (edit ∷ edits) c.rga t ops v ahead (λ i. (t, returned i))).0)
    ]

rga-happen :
    (h : Happening) (c : DocumentClient)
    → IsWellFormed c.rga
    → IsHeard h c
    → (happen h c).rga ≡ apply_all (ops_of h c) c.rga
unfolding apply_all update_presence reconnect
rga-happen opened c v r = rga-on_open c
rga-happen (event (received message)) c v r = rga-handle_server_message message c r
rga-happen (event (edited edits)) c v r = rga-apply_local_edits edits c v r.0 r.1
rga-happen (event (moved cursor selection)) c v r = rga-send_presence _
rga-happen (event heartbeat) c v r = rga-send_presence c
rga-happen (event timer) c v r = rga-connect (record c { reconnect_timer = none })
rga-happen (event (ended is_current)) c v r = rga-on_close is_current c

pub rga-happen_all :
    (hs : List Happening) (c : DocumentClient)
    → IsWellFormed c.rga
    → AreHeard hs c
    → (happen_all hs c).rga ≡ apply_all (all_ops hs c) c.rga
unfolding apply_all
rga-happen_all [] c v r = refl
rga-happen_all (h ∷ hs) c v r =
    let first = rga-happen h c v r.0 in
    let v' : IsWellFormed (happen h c).rga =
      subst IsWellFormed (sym first) (IsWellFormed-apply_all (ops_of h c) c.rga v) in
    rga-happen_all hs (happen h c) v' r.1
    ∙ ap (apply_all (all_ops hs (happen h c))) first
    ∙ sym (apply_all-append (ops_of h c) (all_ops hs (happen h c)) c.rga)
