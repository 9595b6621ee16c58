-- ===== src/Server/Persistence/Dedup.antt =====
-- Duplicate ops in apps/server/src/persistence/InMemoryPersistenceStore.ts: `appendOps` goes by
-- `opIdKeyOf`, under which a delete has the key of its target's insert.
use ysync.Common.{ℕ, max, ◌≡◌, refl, sym, ap, ◌∙◌, true, ◌||◌, List, [], ◌∷◌, ◌++◌, arith}
use ysync.Common.Texts.{Text, text_eq_refl}
use ysync.Common.Maps
use ysync.Common.Maps.{get-put_self}
use ysync.Crdt.Op.{Op, InsertOp, insert, delete, op_id_key_of}
use ysync.Server.Persistence.{
  PersistenceStore, DocState, LoadedDocument, load, load_doc, append_to_doc, get_or_create,
  group_by_seq, has_key, store_op, store_ops, append_ops,
}

pub has_key-append :
    (k : Text) (xs ys : List Text) → has_key k (xs ++ ys) ≡ (has_key k xs || has_key k ys)
unfolding has_key
has_key-append k [] ys = refl
has_key-append k (x ∷ xs) ys = ground (arith, has_key-append k xs ys)

pub has_key_one : (k : Text) → has_key k (k ∷ []) ≡ true
unfolding has_key
has_key_one k = ground (arith, text_eq_refl k)

has_key-store_op_self :
    (seq : ℕ) (op : Op) (doc : DocState)
    → has_key (op_id_key_of op) (store_op seq op doc).seen_op_ids ≡ true
unfolding store_op
has_key-store_op_self seq op doc = ground (
  arith,
  has_key-append (op_id_key_of op) doc.seen_op_ids (op_id_key_of op ∷ []),
  has_key_one (op_id_key_of op),
)

has_key-store_op :
    (k : Text) (seq : ℕ) (op : Op) (doc : DocState)
    → has_key k doc.seen_op_ids ≡ true
    → has_key k (store_op seq op doc).seen_op_ids ≡ true
unfolding store_op
has_key-store_op k seq op doc h =
    ground (arith, has_key-append k doc.seen_op_ids (op_id_key_of op ∷ []))

has_key-store_ops :
    (k : Text) (seq : ℕ) (ops : List Op) (doc : DocState)
    → has_key k doc.seen_op_ids ≡ true
    → has_key k (store_ops seq ops doc).seen_op_ids ≡ true
unfolding store_ops
has_key-store_ops k seq [] doc h = h
has_key-store_ops k seq (op ∷ ops) doc h =
    has_key-store_ops k seq ops (store_op seq op doc) (has_key-store_op k seq op doc h)

-- Every op has its key among those seen.
abbrev pub AllSeen : List Op → List Text → Type 0
AllSeen [] seen = Unit {0}
AllSeen (op ∷ ops) seen = (has_key (op_id_key_of op) seen ≡ true) × AllSeen ops seen

AllSeen-store_ops :
    (seq : ℕ) (ops : List Op) (doc : DocState) → AllSeen ops (store_ops seq ops doc).seen_op_ids
unfolding store_ops
AllSeen-store_ops seq [] doc = tt
AllSeen-store_ops seq (op ∷ ops) doc = (
  has_key-store_ops (op_id_key_of op) seq ops (store_op seq op doc)
      (has_key-store_op_self seq op doc),
  AllSeen-store_ops seq ops (store_op seq op doc),
)

-- Ops whose keys were seen are not stored.
pub store_ops_seen :
    (seq : ℕ) (ops : List Op) (doc : DocState)
    → AllSeen ops doc.seen_op_ids
    → store_ops seq ops doc ≡ doc
unfolding store_ops store_op
store_ops_seen seq [] doc h = refl
store_ops_seen seq (op ∷ ops) doc h = rw (h.0, store_ops_seen seq ops doc h.1)

pub load-put :
    (doc_id : Text) (doc : DocState) (docs : PersistenceStore)
    → load doc_id (Maps.put doc_id doc docs) ≡ load_doc doc
unfolding load
load-put doc_id doc docs = rw (get-put_self doc_id doc docs, load)

pub get_or_create-put :
    (doc_id : Text) (doc : DocState) (docs : PersistenceStore)
    → get_or_create doc_id (Maps.put doc_id doc docs) ≡ doc
unfolding get_or_create
get_or_create-put doc_id doc docs = rw (get-put_self doc_id doc docs, get_or_create)

-- What `load` finds after `appendOps`.
pub load-append_ops :
    (doc_id : Text) (seq : ℕ) (ops : List Op) (docs : PersistenceStore)
    → load doc_id (append_ops doc_id seq ops docs)
      ≡ load_doc (append_to_doc seq ops (get_or_create doc_id docs))
unfolding append_ops
load-append_ops doc_id seq ops docs = load-put doc_id _ docs

pub get_or_create-append_ops :
    (doc_id : Text) (seq : ℕ) (ops : List Op) (docs : PersistenceStore)
    → get_or_create doc_id (append_ops doc_id seq ops docs)
      ≡ append_to_doc seq ops (get_or_create doc_id docs)
unfolding append_ops
get_or_create-append_ops doc_id seq ops docs = get_or_create-put doc_id _ docs

-- An append whose keys were all seen changes no row.
append_ops_seen :
    (doc_id : Text) (seq : ℕ) (ops : List Op) (docs : PersistenceStore)
    → AllSeen ops (get_or_create doc_id docs).seen_op_ids
    → (load doc_id (append_ops doc_id seq ops docs)).ops
      ≡ group_by_seq (get_or_create doc_id docs).ops
unfolding append_to_doc load_doc
append_ops_seen doc_id seq ops docs h = rw (load-append_ops doc_id seq ops docs) (
    ap (λ (d : DocState). group_by_seq d.ops)
      (store_ops_seen seq ops
        (record (get_or_create doc_id docs) {
          latest_seq = max (get_or_create doc_id docs).latest_seq seq;
        })
        h))

-- After one append, an append whose keys are among those seen is invisible to `load`.
repeat_invisible :
    (doc_id : Text) (seq again : ℕ) (ops more : List Op) (docs : PersistenceStore)
    → AllSeen more (append_to_doc seq ops (get_or_create doc_id docs)).seen_op_ids
    → (load doc_id (append_ops doc_id again more (append_ops doc_id seq ops docs))).ops
      ≡ (load doc_id (append_ops doc_id seq ops docs)).ops
unfolding load_doc
repeat_invisible doc_id seq again ops more docs h =
    let first = append_ops doc_id seq ops docs in
    let same = get_or_create-append_ops doc_id seq ops docs in
    append_ops_seen doc_id again more first (rw same h)
    ∙ ap (λ (d : DocState). group_by_seq d.ops) same
    ∙ sym (ap (λ (l : LoadedDocument). l.ops) (load-append_ops doc_id seq ops docs))

-- An append that repeats ops of an earlier one leaves the ops that a reload finds as they were.
pub append_ops_twice :
    (doc_id : Text) (seq again : ℕ) (ops : List Op) (docs : PersistenceStore)
    → (load doc_id (append_ops doc_id again ops (append_ops doc_id seq ops docs))).ops
      ≡ (load doc_id (append_ops doc_id seq ops docs)).ops
unfolding append_to_doc
append_ops_twice doc_id seq again ops docs =
    repeat_invisible doc_id seq again ops ops docs (AllSeen-store_ops seq ops _)

-- A delete that follows its insert is never stored: a reload finds what it found before the
-- delete, whatever the store held.
pub delete_not_stored :
    (doc_id : Text) (seq later : ℕ) (op : InsertOp) (docs : PersistenceStore)
    → let stored = append_ops doc_id seq (insert op ∷ []) docs in
      (load doc_id
        (append_ops doc_id later (delete (record { target_id = op.id }) ∷ []) stored)).ops
      ≡ (load doc_id stored).ops
unfolding append_to_doc op_id_key_of
delete_not_stored doc_id seq later op docs =
    repeat_invisible doc_id seq later (insert op ∷ []) (delete (record { target_id = op.id }) ∷ [])
      docs (AllSeen-store_ops seq (insert op ∷ []) _)
