-- ===== src/Server/Persistence/Prisma/Tables.antt =====
-- What apps/server/src/persistence/PrismaPersistenceStore.ts relies on from the database: what the
-- tables of packages/database/prisma/schema.prisma hold of a document, what a statement does to
-- them, and what a query answers.
use ysync.Common.{
  ℕ, max, ◌≤◌, ◌≡◌, List, [], ◌∷◌, ◌++◌, map, Option, none, some, In, All, ltb, leb, if◌then◌else◌,
}
use ysync.Common.Texts.{Text, text_eq}
use ysync.Server.Persistence.{StoredSnapshot, has_key}
use ysync.Server.Persistence.Rows.{OperationRow}
use ysync.Server.Persistence.Prisma.{
  Database, Statement, upsert_document, create_operations, create_snapshot, delete_operations,
}

-- The rows of one document; those of `Operation` and `Snapshot` in the order of their insertion,
-- which is that of the autoincremented `id`.
pub record Table : Type 0 where
  pub document : Option ℕ
  pub operations : List OperationRow
  pub snapshots : List StoredSnapshot

abbrev pub empty_table : Table
empty_table = record { document = none; operations = []; snapshots = [] }

abbrev pub op_ids : List OperationRow → List Text
op_ids = map (λ row. row.op_id)

-- GREATEST of the column and the number
unfoldable pub greatest : Option ℕ → ℕ → ℕ
greatest none seq = seq
greatest (some latest_seq) seq = max latest_seq seq

-- A row whose (docId, opId) is there is skipped.
unfoldable pub insert_rows : List OperationRow → List OperationRow → List OperationRow
unfolding has_key
insert_rows [] table = table
insert_rows (row ∷ rows) table =
    if has_key row.op_id (op_ids table)
    then insert_rows rows table
    else insert_rows rows (table ++ row ∷ [])

-- `seq > atSeq`: the rows that `deleteMany` leaves, and those that `findMany` selects.
unfoldable pub rows_above : ℕ → List OperationRow → List OperationRow
rows_above at_seq [] = []
rows_above at_seq (row ∷ rows) =
    let rest = rows_above at_seq rows in if ltb at_seq row.seq then row ∷ rest else rest

-- ORDER BY seq, id, for rows that are in the order of their ids
unfoldable pub insert_sorted : OperationRow → List OperationRow → List OperationRow
insert_sorted row [] = row ∷ []
insert_sorted row (r ∷ rows) =
    let rest = insert_sorted row rows in if leb row.seq r.seq then row ∷ r ∷ rows else r ∷ rest

unfoldable pub order_by_seq : List OperationRow → List OperationRow
unfolding insert_sorted
order_by_seq [] = []
order_by_seq (row ∷ rows) = insert_sorted row (order_by_seq rows)

-- A statement's effect on a document of its own.
unfoldable pub run_own : Statement → Table → Table
unfolding greatest insert_rows rows_above
run_own (upsert_document _ seq) table = record table {
  document = some (greatest table.document seq);
}
run_own (create_operations _ rows) table = record table {
  operations = insert_rows rows table.operations;
}
run_own (create_snapshot _ snapshot) table = record table {
  snapshots = table.snapshots ++ snapshot ∷ [];
}
run_own (delete_operations _ at_seq) table = record table {
  operations = rows_above at_seq table.operations;
}

unfoldable pub document_of : Statement → Text
document_of (upsert_document doc_id _) = doc_id
document_of (create_operations doc_id _) = doc_id
document_of (create_snapshot doc_id _) = doc_id
document_of (delete_operations doc_id _) = doc_id

unfoldable pub run_statement : Text → Statement → Table → Table
unfolding run_own document_of
run_statement doc_id statement table =
    if text_eq (document_of statement) doc_id then run_own statement table else table

unfoldable pub run_statements : Text → List Statement → Table → Table
unfolding run_statement
run_statements doc_id [] table = table
run_statements doc_id (s ∷ ss) table = run_statements doc_id ss (run_statement doc_id s table)

-- `orderBy: { atSeq: "desc" }`, the first
abbrev pub IsLatest : Option StoredSnapshot → List StoredSnapshot → Type 0
IsLatest none snapshots = snapshots ≡ []
IsLatest (some s) snapshots =
    In s snapshots × All (λ (t : StoredSnapshot). t.at_seq ≤ s.at_seq) snapshots

-- The documented behaviour of the calls that succeed. Any call may fail; a transaction that fails
-- has no effect.
pub record IsLawful (D : Database) : Type 0 where
  pub table : D.State → Text → Table
  pub document_found :
      (db : D.State) (doc_id : Text) (answer : Option ℕ)
      → D.find_document db doc_id ≡ some answer
      → answer ≡ (table db doc_id).document
  pub snapshot_found :
      (db : D.State) (doc_id : Text) (answer : Option StoredSnapshot)
      → D.find_latest_snapshot db doc_id ≡ some answer
      → IsLatest answer (table db doc_id).snapshots
  pub operations_found :
      (db : D.State) (doc_id : Text) (at_seq : ℕ) (answer : List OperationRow)
      → D.find_operations_after db doc_id at_seq ≡ some answer
      → answer ≡ order_by_seq (rows_above at_seq (table db doc_id).operations)
  pub committed :
      (db after : D.State) (statements : List Statement)
      → D.transaction db statements ≡ some after
      → (doc_id : Text) → table after doc_id ≡ run_statements doc_id statements (table db doc_id)
