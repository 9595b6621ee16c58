-- ===== src/Server/Persistence/Prisma/Agreement.antt =====
-- apps/server/src/persistence/PrismaPersistenceStore.ts and
-- apps/server/src/persistence/InMemoryPersistenceStore.ts under the same calls.
use ysync.Common.{
  ℕ, ◌≤◌, ◌<◌, ◌≡◌, ◌≢◌, refl, sym, ap, subst, ◌∙◌, List, [], ◌∷◌, ◌++◌, Option, none, some, All,
}
use ysync.Common.Texts.{Text}
use ysync.Common.Maps
use ysync.Crdt.Op.{Op}
use ysync.Crdt.Snapshot.{RgaSnapshotNode}
use ysync.Server.Persistence.{
  PersistenceStore, DocState, snapshot_seq, empty_doc, append_to_doc, snapshot_doc, load_doc,
  get_or_create,
}
use ysync.Server.Persistence
use ysync.Server.Persistence.Dedup.{get_or_create-append_ops, get_or_create-put}
use ysync.Server.Persistence.Restart.{load-get_or_create}
use ysync.Server.Persistence.Rows.{IsReadable}
use ysync.Server.Persistence.Prisma.{Database, append_ops, write_snapshot, load}
use ysync.Server.Persistence.Prisma.Tables.{IsLawful, empty_table}
use ysync.Server.Persistence.Prisma.Represents.{Represents, empty-Represents}
use ysync.Server.Persistence.Prisma.Appends.{Remembered}
use ysync.Server.Persistence.Prisma.Refines.{
  keys_upto, run_statements-append, run_statements-snapshot, Represents-appended,
  Represents-snapshotted,
}
use ysync.Server.Persistence.Prisma.History.{Answers, load-Represents}

-- The calls of the interface that write.
pub data Call : Type 0 where
  append : ℕ → List Op → Call
  compact : ℕ → List RgaSnapshotNode → Call

-- What a call does to a document of the in-memory store.
abbrev pub call_doc : Call → DocState → DocState
call_doc (append seq ops) doc = append_to_doc seq ops doc
call_doc (compact at_seq state) doc = snapshot_doc at_seq state doc

abbrev pub call_memory : Text → Call → PersistenceStore → PersistenceStore
call_memory doc_id (append seq ops) docs = Persistence.append_ops doc_id seq ops docs
call_memory doc_id (compact at_seq state) docs = Persistence.write_snapshot doc_id at_seq state docs

abbrev pub run_memory : Text → List Call → PersistenceStore → PersistenceStore
run_memory doc_id [] docs = docs
run_memory doc_id (c ∷ calls) docs = run_memory doc_id calls (call_memory doc_id c docs)

-- The keys whose rows a call deletes.
abbrev pub forgets : Call → DocState → List Text
forgets (append _ _) doc = []
forgets (compact at_seq _) doc = keys_upto at_seq doc.ops

-- A call as the room manager makes it: batches have ops and growing numbers, and hold no op whose
-- row a snapshot deleted; a snapshot is newer than the last one, and not ahead of the document.
abbrev pub IsOrderlyCall : List Text → Call → DocState → Type 0
IsOrderlyCall forgotten (append seq ops) doc =
    (ops ≢ []) × (doc.latest_seq < seq) × All IsReadable ops × Remembered forgotten ops
IsOrderlyCall forgotten (compact at_seq state) doc =
    (snapshot_seq doc.snapshot < at_seq) × (at_seq ≤ doc.latest_seq)

abbrev pub IsOrderly : List Text → List Call → DocState → Type 0
IsOrderly forgotten [] doc = Unit {0}
IsOrderly forgotten (c ∷ calls) doc =
    IsOrderlyCall forgotten c doc × IsOrderly (forgets c doc ++ forgotten) calls (call_doc c doc)

get_or_create-call_memory :
    (doc_id : Text) (c : Call) (docs : PersistenceStore)
    → get_or_create doc_id (call_memory doc_id c docs) ≡ call_doc c (get_or_create doc_id docs)
unfolding Persistence.write_snapshot
get_or_create-call_memory doc_id (append seq ops) docs =
    get_or_create-append_ops doc_id seq ops docs
get_or_create-call_memory doc_id (compact at_seq state) docs = get_or_create-put doc_id _ docs

module _ (D : Database) where
  abbrev pub call_database : Text → Call → D.State → Option D.State
  call_database doc_id (append seq ops) db = append_ops D doc_id seq ops db
  call_database doc_id (compact at_seq state) db = write_snapshot D doc_id at_seq state db

  -- The states from one to another by calls that all succeed.
  abbrev pub Runs : Text → List Call → D.State → D.State → Type 0
  Runs doc_id [] db after = db ≡ after
  Runs doc_id (c ∷ calls) db after =
      (next : D.State) × (call_database doc_id c db ≡ some next) × Runs doc_id calls next after

  module _ (L : IsLawful D) (doc_id : Text) where
    call-Represents :
        (c : Call) (doc : DocState) (forgotten : List Text) (db next : D.State)
        → Represents (L.table db doc_id) doc forgotten
        → IsOrderlyCall forgotten c doc
        → call_database doc_id c db ≡ some next
        → Represents (L.table next doc_id) (call_doc c doc) (forgets c doc ++ forgotten)
    unfolding append_ops write_snapshot
    call-Represents (append seq []) doc forgotten db next r o e = absurd (o.0 refl)
    call-Represents (append seq (op ∷ ops)) doc forgotten db next r (ne, later, readable, known) e =
        subst (λ T. Represents T (append_to_doc seq (op ∷ ops) doc) forgotten)
          (sym (
            L.committed db next _ e doc_id
            ∙ run_statements-append doc_id seq (op ∷ ops) (L.table db doc_id)))
          (Represents-appended (L.table db doc_id) doc forgotten seq (op ∷ ops) r later readable
            known)
    call-Represents (compact at_seq state) doc forgotten db next r (newer, behind) e =
        subst
          (λ T.
            Represents T (snapshot_doc at_seq state doc) (keys_upto at_seq doc.ops ++ forgotten))
          (sym (
            L.committed db next _ e doc_id
            ∙ run_statements-snapshot doc_id at_seq state (L.table db doc_id)))
          (Represents-snapshotted (L.table db doc_id) doc forgotten at_seq state r newer behind)

    load-Runs :
        (calls : List Call) (docs : PersistenceStore) (forgotten : List Text) (db after : D.State)
        → Represents (L.table db doc_id) (get_or_create doc_id docs) forgotten
        → IsOrderly forgotten calls (get_or_create doc_id docs)
        → Runs doc_id calls db after
        → Answers D after doc_id
        → load D doc_id after ≡ some (Persistence.load doc_id (run_memory doc_id calls docs))
    load-Runs [] docs forgotten db after r o e answers =
        load-Represents D L after doc_id (get_or_create doc_id docs) forgotten
          (subst (λ s. Represents (L.table s doc_id) (get_or_create doc_id docs) forgotten) e r)
          answers
        ∙ ap some (sym (load-get_or_create doc_id docs))
    load-Runs (c ∷ calls) docs forgotten db after r (o, os) (next, e, run) answers =
        let same = sym (get_or_create-call_memory doc_id c docs) in
        load-Runs calls (call_memory doc_id c docs)
          (forgets c (get_or_create doc_id docs) ++ forgotten) next after
          (subst
            (λ d.
              Represents (L.table next doc_id) d
                (forgets c (get_or_create doc_id docs) ++ forgotten))
            same (call-Represents c (get_or_create doc_id docs) forgotten db next r o e))
          (subst (IsOrderly (forgets c (get_or_create doc_id docs) ++ forgotten) calls) same os) run
          answers

    -- On a document that is new to both stores, after orderly calls (batches with ops, readable
    -- ids, growing numbers and no op whose row a snapshot deleted; snapshots newer than the last,
    -- and not ahead of the document) that the database all commits, when no query fails, `load`
    -- from the database returns what `load` from the in-memory store returns after the same calls.
    pub load-run_memory :
        (calls : List Call) (docs : PersistenceStore) (db after : D.State)
        → Maps.get doc_id docs ≡ none
        → L.table db doc_id ≡ empty_table
        → IsOrderly [] calls empty_doc
        → Runs doc_id calls db after
        → Answers D after doc_id
        → load D doc_id after ≡ some (Persistence.load doc_id (run_memory doc_id calls docs))
    unfolding get_or_create
    load-run_memory calls docs db after absent fresh o run answers =
        let new : get_or_create doc_id docs ≡ empty_doc = rw (absent, get_or_create) refl in
        load-Runs calls docs [] db after
          (subst (λ T. Represents T (get_or_create doc_id docs) []) (sym fresh)
            (subst (λ d. Represents empty_table d []) (sym new) empty-Represents))
          (subst (IsOrderly [] calls) (sym new) o) run answers
