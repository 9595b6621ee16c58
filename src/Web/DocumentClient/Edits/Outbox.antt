-- ===== src/Web/DocumentClient/Edits/Outbox.antt =====
-- The outbox of apps/web/src/lib/documentClient.ts under acks and deletes.
use ysync.Common.{
  ℕ, suc, ◌≡◌, refl, ap, ◌∙◌, Bool, false, ◌||◌, List, [], ◌∷◌, Option, none, if◌then◌else◌, arith,
}
use ysync.Common.Texts.{Text, text_eq, text_eq_refl}
use ysync.Common.Maps
use ysync.Common.Maps.{Map, values, get-remove, get-put}
use ysync.Crdt.OpId.{OpId, op_id_to_string}
use ysync.Crdt.Op.{Op, InsertOp, insert, delete, op_id_of, op_id_key_of}
use ysync.Crdt.Rga.{Rga, apply, apply_all, find_node, drain, deliver, buffer_on, pending_count}
use ysync.Web.DocumentClient.Edits.{add_all}
use ysync.Web.DocumentClient.Messages.{forget}

-- Some id of the list has the key.
abbrev pub names_key : Text → List OpId → Bool
names_key key [] = false
names_key key (id ∷ ids) = text_eq (op_id_to_string id) key || names_key key ids

-- An ack takes out of the outbox exactly the records of the ids that it names.
pub get-forget :
    (key : Text) (ids : List OpId) (outbox : Map Op)
    → Maps.get key (forget ids outbox) ≡ (if names_key key ids then none else Maps.get key outbox)
unfolding forget
get-forget key [] outbox = refl
get-forget key (id ∷ ids) outbox = ground (
  arith,
  get-forget key ids (Maps.remove (op_id_to_string id) outbox),
  get-remove (op_id_to_string id) key outbox,
)

drain_waits :
    (fuel : ℕ) (o : Op) (s t : Rga)
    → deliver o s ≡ (t, none)
    → drain (suc fuel) (o ∷ []) s ≡ (t, [])
unfolding drain
drain_waits fuel o s t e = rw (e, drain) (ap (λ (r : Rga × Option (List Op)). (r.0, [])) e)

buffer_on-nodes : (key : Text) (o : Op) (s : Rga) → (buffer_on key o s).nodes ≡ s.nodes
unfolding buffer_on
buffer_on-nodes key o s = ground arith

-- An op that waits for a node that is not there changes no node.
delete_waits :
    (id : OpId) (s : Rga)
    → find_node (op_id_to_string id) s.nodes ≡ none
    → (apply (delete (record { target_id = id })) s).nodes ≡ s.nodes
unfolding apply
delete_waits id s e =
    let key = op_id_to_string id in
    let o : Op = delete (record { target_id = id }) in
    let waits : deliver o s ≡ (buffer_on key o s, none) = rw (e, deliver) refl in
    ap (λ (r : Rga × List Op). r.0.nodes)
      (drain_waits (pending_count s.pending) o s (buffer_on key o s) waits)
    ∙ buffer_on-nodes key o s

-- Of a character that is written and deleted with nothing else in the outbox, the outbox holds the
-- delete alone, and a replica that never had the insert changes no node for that.
pub add_all-insert_delete :
    (o : InsertOp) (s : Rga)
    → find_node (op_id_to_string o.id) s.nodes ≡ none
    → (values (add_all (insert o ∷ delete (record { target_id = o.id }) ∷ []) [])
        ≡ delete (record { target_id = o.id }) ∷ [])
      × ((apply_all
            (values (add_all (insert o ∷ delete (record { target_id = o.id }) ∷ []) []))
            s).nodes
          ≡ s.nodes)
unfolding add_all op_id_key_of op_id_of apply_all Maps.put
add_all-insert_delete o s e = rw (text_eq_refl (op_id_to_string o.id)) (refl, delete_waits o.id s e)
