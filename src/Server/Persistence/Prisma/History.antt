-- ===== src/Server/Persistence/Prisma/History.antt =====
-- Histories of calls of apps/server/src/persistence/PrismaPersistenceStore.ts, side by side with
-- apps/server/src/persistence/InMemoryPersistenceStore.ts.
use ysync.Common.{
  ℕ, suc, ◌≤◌, ◌<◌, ◌≡◌, ◌≢◌, refl, sym, ap, subst, ◌∙◌, inl, inr, List, [], ◌∷◌, ◌++◌, map, Option,
  none, some, In, In-append, In-append_right, All, All-In, arith,
}
use ysync.Common.Texts.{Text}
use ysync.Server.Persistence.{
  DocState, StoredOp, StoredSnapshot, snapshot_seq, snapshot_state, empty_doc, load_doc,
  group_by_seq,
}
use ysync.Server.Persistence.Rows.{OperationRow, IsReadable}
use ysync.Server.Persistence.Prisma.{Database, load, load_document, load_operations, loaded}
use ysync.Server.Persistence.Prisma.Tables.{Table, IsLawful, IsLatest, rows_above, order_by_seq}
use ysync.Server.Persistence.Prisma.Represents.{
  Represents, IsNewest, stored_row, rows_above-stored_row, rows_after-Ascending,
  order_by_seq-Ascending, group_operations-stored_row,
}

pub newest :
    (answer latest : Option StoredSnapshot) (snapshots : List StoredSnapshot)
    → IsLatest answer snapshots
    → IsNewest latest snapshots
    → answer ≡ latest
newest none none snapshots a n = refl
newest none (some s) snapshots a (older, e, lower) = absurd (no_rows older (sym e ∙ a))
  where
    no_rows : (older : List StoredSnapshot) → older ++ s ∷ [] ≢ []
    no_rows [] p = ground (arith, p)
    no_rows (o ∷ older) p = ground (arith, p)
newest (some t) none snapshots (i, most) n = absurd (subst (In t) n i)
newest (some t) (some s) snapshots (i, most) (older, e, lower) =
    ap some (elim (In-append t older (s ∷ []) (subst (In t) e i)) [
      | inl old ↦
          let below : t.at_seq < s.at_seq = All-In _ older lower t old in
          let above : s.at_seq ≤ t.at_seq =
            All-In _ snapshots most s
              (subst (In s) (sym e) (In-append_right s older (s ∷ []) (inl refl))) in
          absurd (omega (arith, below, above))
      | inr (inl same) ↦ same
      | inr (inr none_left) ↦ absurd none_left
    ])

module _ (D : Database) where
  -- No query about the document fails.
  abbrev pub Answers : D.State → Text → Type 0
  Answers db doc_id =
      ((answer : Option ℕ) × (D.find_document db doc_id ≡ some answer))
      × ((answer : Option StoredSnapshot) × (D.find_latest_snapshot db doc_id ≡ some answer))
      × ((at_seq : ℕ)
          → (answer : List OperationRow) × (D.find_operations_after db doc_id at_seq ≡ some answer))

  load_operations-loaded :
      (db : D.State) (doc_id : Text) (latest_seq : ℕ) (snapshot : Option StoredSnapshot)
      (rows : List OperationRow)
      → D.find_operations_after db doc_id (snapshot_seq snapshot) ≡ some rows
      → load_operations D doc_id latest_seq snapshot db ≡ loaded latest_seq snapshot rows
  unfolding load_operations
  load_operations-loaded db doc_id latest_seq snapshot rows r = rw (r, load_operations) refl

  load_document-operations :
      (db : D.State) (doc_id : Text) (latest_seq : ℕ) (snapshot : Option StoredSnapshot)
      → D.find_latest_snapshot db doc_id ≡ some snapshot
      → load_document D doc_id latest_seq db ≡ load_operations D doc_id latest_seq snapshot db
  unfolding load_document
  load_document-operations db doc_id latest_seq snapshot s = rw (s, load_document) refl

  loaded-stored_row :
      (doc : DocState)
      → All (λ (s : StoredOp). IsReadable s.op) doc.ops
      → loaded doc.latest_seq doc.snapshot (map stored_row doc.ops) ≡ some (load_doc doc)
  unfolding loaded load_doc group_by_seq
  loaded-stored_row doc r = rw (group_operations-stored_row [] doc.ops r, loaded) refl

  module _ (L : IsLawful D) (db : D.State) (doc_id : Text) where
    -- `load` of a document that is in the table, in closed form.
    pub load_there :
        (latest_seq : ℕ) (latest : Option StoredSnapshot)
        → (L.table db doc_id).document ≡ some latest_seq
        → IsNewest latest (L.table db doc_id).snapshots
        → Answers db doc_id
        → load D doc_id db
          ≡ loaded latest_seq latest
              (order_by_seq (rows_above (snapshot_seq latest) (L.table db doc_id).operations))
    unfolding load
    load_there latest_seq latest e n ((answer, f), (snapshot, s), rows) =
        let there : D.find_document db doc_id ≡ some (some latest_seq) =
          f ∙ ap some (L.document_found db doc_id answer f ∙ e) in
        let same : snapshot ≡ latest =
          newest snapshot latest (L.table db doc_id).snapshots
            (L.snapshot_found db doc_id snapshot s) n in
        let (found, q) = rows (snapshot_seq latest) in
        rw (there, load)
          (load_document-operations db doc_id latest_seq latest (s ∙ ap some same)
            ∙ load_operations-loaded db doc_id latest_seq latest found q
            ∙ ap (loaded latest_seq latest)
                (L.operations_found db doc_id (snapshot_seq latest) found q))

    module _ (doc : DocState) (forgotten : List Text)
        (r : Represents (L.table db doc_id) doc forgotten) where
      rows_found :
          order_by_seq (rows_above (snapshot_seq doc.snapshot) (L.table db doc_id).operations)
          ≡ map stored_row doc.ops
      rows_found =
          let low = snapshot_seq doc.snapshot in
          let base : low < suc low = omega arith in
          ap (λ (l : List OperationRow). order_by_seq (rows_above low l)) r.operations
          ∙ ap order_by_seq (
              rows_above-stored_row low doc.ops
              ∙ ap (map stored_row)
                  (rows_after-Ascending low (suc low) doc.latest_seq doc.ops base r.ascending))
          ∙ order_by_seq-Ascending (suc low) doc.latest_seq doc.ops r.ascending

      -- What the tables represent is loaded.
      pub load-Represents : Answers db doc_id → load D doc_id db ≡ some (load_doc doc)
      unfolding load load_doc empty_doc snapshot_state snapshot_seq group_by_seq
      load-Represents answers = elim r.document [
        | inl e ↦
            load_there doc.latest_seq doc.snapshot e r.snapshots answers
            ∙ ap (loaded doc.latest_seq doc.snapshot) rows_found
            ∙ loaded-stored_row doc r.readable
        | inr (t, d) ↦
            rw
              (
                answers.0.1
                    ∙ ap some (
                        L.document_found db doc_id answers.0.0 answers.0.1
                        ∙ ap (λ (T : Table). T.document) t),
                load,
                d,
              )
              refl
      ]
