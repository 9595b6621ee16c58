-- ===== src/Server/Persistence/Prisma.antt =====
-- apps/server/src/persistence/PrismaPersistenceStore.ts over a database that is a parameter: the
-- queries and transactions that the class sends, and what it makes of the answers. A call that
-- throws is `none`; the class logs the error and throws it on.
pub mod Agreement
pub mod Appends
pub mod CommitOrder
pub mod Deletes
pub mod History
pub mod Refines
pub mod Represents
pub mod RowOrder
pub mod Tables
use ysync.Common.{ℕ, List, [], ◌∷◌, map, Option, none, some}
use ysync.Common.Texts.{Text}
use ysync.Crdt.Op.{Op}
use ysync.Crdt.Snapshot.{RgaSnapshotNode}
use ysync.Server.Persistence.{
  OpBatch, LoadedDocument, StoredSnapshot, push_row, snapshot_state, snapshot_seq,
}
use ysync.Server.Persistence.Rows.{OperationRow, to_row, from_row}

-- What the transactions are made of.
pub data Statement : Type 0 where
  -- INSERT INTO "Document" ... ON CONFLICT ... GREATEST
  upsert_document : Text → ℕ → Statement
  -- operation.createMany({ data, skipDuplicates: true })
  create_operations : Text → List OperationRow → Statement
  -- snapshot.create({ data })
  create_snapshot : Text → StoredSnapshot → Statement
  -- operation.deleteMany({ where: { docId, seq: { lte } } })
  delete_operations : Text → ℕ → Statement

-- The client of the database. A document row is its `latestSeq`.
pub record Database : Type 1 where
  pub State : Type 0
  pub find_document : State → Text → Option (Option ℕ)
  pub find_latest_snapshot : State → Text → Option (Option StoredSnapshot)
  pub find_operations_after : State → Text → ℕ → Option (List OperationRow)
  pub transaction : State → List Statement → Option State

-- `groupBySeq`; `none` stands for a row whose id does not read back.
unfoldable pub group_operations : List OpBatch → List OperationRow → Option (List OpBatch)
unfolding from_row push_row
group_operations batches [] = some batches
group_operations batches (row ∷ rows) = elim (from_row row) [
  | none ↦ none
  | some op ↦ group_operations (push_row batches (record { seq = row.seq; op = op })) rows
]

-- The answer of `load` once the rows are there.
unfoldable pub loaded : ℕ → Option StoredSnapshot → List OperationRow → Option LoadedDocument
unfolding group_operations snapshot_state snapshot_seq
loaded latest_seq snapshot rows = elim (group_operations [] rows) [
  | none ↦ none
  | some ops ↦ some (record {
    snapshot = snapshot_state snapshot;
    snapshot_seq = snapshot_seq snapshot;
    ops = ops;
    latest_seq = latest_seq;
  })
]

module _ (D : Database) where
  -- The second query of the second `try` of `load`.
  unfoldable pub load_operations :
      Text → ℕ → Option StoredSnapshot → D.State → Option LoadedDocument
  unfolding loaded
  load_operations doc_id latest_seq snapshot db =
      elim (D.find_operations_after db doc_id (snapshot_seq snapshot)) [
        | none ↦ none
        | some rows ↦ loaded latest_seq snapshot rows
      ]

  unfoldable pub load_document : Text → ℕ → D.State → Option LoadedDocument
  unfolding load_operations
  load_document doc_id latest_seq db = elim (D.find_latest_snapshot db doc_id) [
    | none ↦ none
    | some snapshot ↦ load_operations doc_id latest_seq snapshot db
  ]

  unfoldable pub load : Text → D.State → Option LoadedDocument
  unfolding load_document
  load doc_id db = elim (D.find_document db doc_id) [
    | none ↦ none
    | some none ↦ some (record { snapshot = []; snapshot_seq = 0; ops = []; latest_seq = 0 })
    | some (some latest_seq) ↦ load_document doc_id latest_seq db
  ]

  unfoldable pub append_ops : Text → ℕ → List Op → D.State → Option D.State
  unfolding to_row
  append_ops doc_id seq [] db = some db
  append_ops doc_id seq (op ∷ ops) db =
      D.transaction db
        (upsert_document doc_id seq ∷ create_operations doc_id (map (to_row seq) (op ∷ ops)) ∷ [])

  unfoldable pub write_snapshot : Text → ℕ → List RgaSnapshotNode → D.State → Option D.State
  write_snapshot doc_id at_seq state db = D.transaction db (
      create_snapshot doc_id (record { at_seq = at_seq; state = state })
      ∷ delete_operations doc_id at_seq
      ∷ [])
