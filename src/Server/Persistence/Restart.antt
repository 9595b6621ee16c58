-- ===== src/Server/Persistence/Restart.antt =====
-- What survives a restart: `appendOps` and `load` of
-- apps/server/src/persistence/InMemoryPersistenceStore.ts under `Room.hydrate` of
-- apps/server/src/room.ts.
use mathlib.Core.List.{append-nil, append_assoc}
use ysync.Common.{
  ℕ, ◌+◌, ◌<◌, max, ◌≡◌, refl, sym, ap, subst, ◌∙◌, false, List, [], ◌∷◌, ◌++◌, map, none, length,
  length-append, arith,
}
use ysync.Common.Texts.{Text}
use ysync.Common.Maps
use ysync.Common.Maps.{get-put_self}
use ysync.Crdt.Op.{Op, op_id_key_of}
use ysync.Crdt.Rga.{apply_all, new_rga}
use ysync.Crdt.Rga.Sequences.{apply_all-append}
use ysync.Server.Persistence.{
  PersistenceStore, DocState, StoredOp, OpBatch, LoadedDocument, load, load_doc, empty_doc, has_key,
  store_op, store_ops, append_to_doc, append_ops, get_or_create,
}
use ysync.Server.Persistence.Dedup.{get_or_create-append_ops}
use ysync.Server.Room.{Room, flat_ops, hydrate, new_room, initial_rga, server_replica, apply_ops}
use ysync.Server.Room.CatchUp.{Increasing, apply_batches}
use ysync.Server.Persistence.Grouping.{row, rows_of, NonEmpty, group_rows-rows_of}

-- Appends of one batch after another.
abbrev pub append_batches : Text → List OpBatch → PersistenceStore → PersistenceStore
append_batches doc_id [] docs = docs
append_batches doc_id (b ∷ bs) docs = append_batches doc_id bs (append_ops doc_id b.seq b.ops docs)

append_docs : List OpBatch → DocState → DocState
append_docs [] doc = doc
append_docs (b ∷ bs) doc = append_docs bs (append_to_doc b.seq b.ops doc)

-- No op has the key of one seen, or of an earlier one.
abbrev pub Unseen : List Op → List Text → Type 0
Unseen [] seen = Unit {0}
Unseen (op ∷ ops) seen =
    (has_key (op_id_key_of op) seen ≡ false) × Unseen ops (seen ++ op_id_key_of op ∷ [])

store_op_unseen :
    (seq : ℕ) (op : Op) (doc : DocState)
    → has_key (op_id_key_of op) doc.seen_op_ids ≡ false
    → store_op seq op doc ≡ record doc {
      ops = doc.ops ++ row seq op ∷ [];
      seen_op_ids = doc.seen_op_ids ++ op_id_key_of op ∷ [];
    }
unfolding store_op row
store_op_unseen seq op doc h = rw (h, store_op)

store_ops-Unseen :
    (seq : ℕ) (ops : List Op) (doc : DocState)
    → Unseen ops doc.seen_op_ids
    → store_ops seq ops doc ≡ record doc {
      ops = doc.ops ++ map (row seq) ops;
      seen_op_ids = doc.seen_op_ids ++ map op_id_key_of ops;
    }
unfolding store_ops store_op row
store_ops-Unseen seq [] doc h = λ i. record doc {
  ops = sym (append-nil doc.ops) i;
  seen_op_ids = sym (append-nil doc.seen_op_ids) i;
}
store_ops-Unseen seq (op ∷ ops) doc h =
    ap (store_ops seq ops) (store_op_unseen seq op doc h.0)
    ∙ store_ops-Unseen seq ops
        (record doc {
          ops = doc.ops ++ row seq op ∷ [];
          seen_op_ids = doc.seen_op_ids ++ op_id_key_of op ∷ [];
        })
        h.1
    ∙ λ i. record doc {
      ops = append_assoc doc.ops (row seq op ∷ []) (map (row seq) ops) i;
      seen_op_ids = append_assoc doc.seen_op_ids (op_id_key_of op ∷ []) (map op_id_key_of ops) i;
    }

-- The number of the last batch.
abbrev pub last_seq : ℕ → List OpBatch → ℕ
last_seq n [] = n
last_seq n (b ∷ bs) = last_seq b.seq bs

Unseen-left : (xs ys : List Op) (seen : List Text) → Unseen (xs ++ ys) seen → Unseen xs seen
Unseen-left [] ys seen h = tt
Unseen-left (x ∷ xs) ys seen h = (h.0, Unseen-left xs ys (seen ++ op_id_key_of x ∷ []) h.1)

Unseen-right :
    (xs ys : List Op) (seen : List Text)
    → Unseen (xs ++ ys) seen
    → Unseen ys (seen ++ map op_id_key_of xs)
Unseen-right [] ys seen h = subst (Unseen ys) (sym (append-nil seen)) h
Unseen-right (x ∷ xs) ys seen h =
    subst (Unseen ys) (append_assoc seen (op_id_key_of x ∷ []) (map op_id_key_of xs))
      (Unseen-right xs ys (seen ++ op_id_key_of x ∷ []) h.1)

append_to_doc-Unseen :
    (b : OpBatch) (doc : DocState)
    → Unseen b.ops doc.seen_op_ids
    → doc.latest_seq < b.seq
    → append_to_doc b.seq b.ops doc ≡ record doc {
      latest_seq = b.seq;
      ops = doc.ops ++ map (row b.seq) b.ops;
      seen_op_ids = doc.seen_op_ids ++ map op_id_key_of b.ops;
    }
unfolding append_to_doc
append_to_doc-Unseen b doc h l =
    let top : max doc.latest_seq b.seq ≡ b.seq = omega arith in
    rw top (store_ops-Unseen b.seq b.ops (record doc { latest_seq = b.seq }) h)

append_docs-Unseen :
    (bs : List OpBatch) (doc : DocState)
    → Unseen (flat_ops bs) doc.seen_op_ids
    → Increasing doc.latest_seq bs
    → load_doc (append_docs bs doc)
      ≡ load_doc
          (record doc { latest_seq = last_seq doc.latest_seq bs; ops = doc.ops ++ rows_of bs })
unfolding append_docs rows_of flat_ops load_doc
append_docs-Unseen [] doc h i =
    ap (λ (l : List StoredOp). load_doc (record doc { ops = l })) (sym (append-nil doc.ops))
append_docs-Unseen (b ∷ bs) doc h i =
    let doc' : DocState = record doc {
      latest_seq = b.seq;
      ops = doc.ops ++ map (row b.seq) b.ops;
      seen_op_ids = doc.seen_op_ids ++ map op_id_key_of b.ops;
    } in
    ap (λ (d : DocState). load_doc (append_docs bs d))
      (append_to_doc-Unseen b doc (Unseen-left b.ops (flat_ops bs) doc.seen_op_ids h) i.0)
    ∙ append_docs-Unseen bs doc' (Unseen-right b.ops (flat_ops bs) doc.seen_op_ids h) i.1
    ∙ ap (λ (l : List StoredOp). load_doc (record doc { latest_seq = last_seq b.seq bs; ops = l }))
        (append_assoc doc.ops (map (row b.seq) b.ops) (rows_of bs))

get_or_create-append_batches :
    (doc_id : Text) (bs : List OpBatch) (docs : PersistenceStore)
    → get_or_create doc_id (append_batches doc_id bs docs)
      ≡ append_docs bs (get_or_create doc_id docs)
unfolding append_docs
get_or_create-append_batches doc_id [] docs = refl
get_or_create-append_batches doc_id (b ∷ bs) docs =
    get_or_create-append_batches doc_id bs (append_ops doc_id b.seq b.ops docs)
    ∙ ap (append_docs bs) (get_or_create-append_ops doc_id b.seq b.ops docs)

-- A document that is not there loads as an empty one.
pub load-get_or_create :
    (doc_id : Text) (docs : PersistenceStore)
    → load doc_id docs ≡ load_doc (get_or_create doc_id docs)
unfolding load get_or_create load_doc empty_doc
load-get_or_create doc_id docs = ground arith

-- A run of batches in closed form.
apply_batches_lem :
    (bs : List OpBatch) (room : Room)
    → apply_batches bs room ≡ record room {
      rga = apply_all (flat_ops bs) room.rga;
      seq = last_seq room.seq bs;
      ops_since_snapshot = room.ops_since_snapshot + length (flat_ops bs);
      op_log = room.op_log ++ bs;
    }
unfolding apply_ops flat_ops
apply_batches_lem [] room =
    let total : room.ops_since_snapshot ≡ room.ops_since_snapshot + 0 = omega arith in
    λ i. record room { ops_since_snapshot = total i; op_log = sym (append-nil room.op_log) i }
apply_batches_lem (b ∷ bs) room =
    let total : room.ops_since_snapshot + length b.ops + length (flat_ops bs)
        ≡ room.ops_since_snapshot + length (b.ops ++ flat_ops bs) =
      omega (arith, length-append b.ops (flat_ops bs)) in
    apply_batches_lem bs (apply_ops b.ops b.seq room) ∙ λ i. record room {
      rga = sym (apply_all-append b.ops (flat_ops bs) room.rga) i;
      seq = last_seq b.seq bs;
      ops_since_snapshot = total i;
      op_log = append_assoc room.op_log (b ∷ []) bs i;
    }

module _ (doc_id : Text) (docs : PersistenceStore) (bs : List OpBatch)
    (absent : Maps.get doc_id docs ≡ none) (increasing : Increasing 0 bs) (ne : NonEmpty bs)
    (unseen : Unseen (flat_ops bs) []) where
  -- Batches that each hold an op, appended to a new document with growing numbers and no op key
  -- twice, are loaded as they were appended.
  pub load-append_batches :
      load doc_id (append_batches doc_id bs docs)
      ≡ record { snapshot = []; snapshot_seq = 0; ops = bs; latest_seq = last_seq 0 bs }
  unfolding load_doc empty_doc get_or_create
  load-append_batches =
      load-get_or_create doc_id (append_batches doc_id bs docs)
      ∙ ap load_doc (get_or_create-append_batches doc_id bs docs ∙ ap (append_docs bs) fresh)
      ∙ append_docs-Unseen bs empty_doc unseen increasing
      ∙ λ i. record {
        snapshot = [];
        snapshot_seq = 0;
        ops = group_rows-rows_of 0 bs [] tt increasing ne i;
        latest_seq = last_seq 0 bs;
      }
    where
      fresh : get_or_create doc_id docs ≡ empty_doc
      fresh = rw (absent, get_or_create)

  -- A process that loads a new document, to which batches that each hold an op were appended with
  -- growing numbers and no op key twice, holds the room of the process that applied the batches.
  pub hydrate-load :
      let loaded = load doc_id (append_batches doc_id bs docs) in
      hydrate doc_id loaded.snapshot loaded.snapshot_seq loaded.ops loaded.latest_seq
      ≡ apply_batches bs (new_room doc_id (new_rga (server_replica doc_id)))
  unfolding hydrate initial_rga new_room
  hydrate-load =
      let room = hydrate doc_id [] 0 bs (last_seq 0 bs) in
      let total : length (flat_ops bs) ≡ 0 + length (flat_ops bs) = omega arith in
      ap (λ (l : LoadedDocument). hydrate doc_id l.snapshot l.snapshot_seq l.ops l.latest_seq)
        load-append_batches
      ∙ (λ i. record room { ops_since_snapshot = total i })
      ∙ sym (apply_batches_lem bs (new_room doc_id (new_rga (server_replica doc_id))))
