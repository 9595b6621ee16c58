-- ===== src/Server/Persistence/Prisma/Deletes.antt =====
-- Deletes in `appendOps` of apps/server/src/persistence/PrismaPersistenceStore.ts: the unique key
-- (docId, opId) of the table and `skipDuplicates`.
use ysync.Common.{
  ℕ, ◌≡◌, refl, sym, ap, ◌∙◌, inl, inr, true, Bool-cases, List, [], ◌∷◌, some, arith,
}
use ysync.Common.Texts.{Text}
use ysync.Crdt.Op.{InsertOp, insert, delete, op_id_key_of}
use ysync.Server.Persistence.{has_key}
use ysync.Server.Persistence.Dedup.{has_key-append, has_key_one}
use ysync.Server.Persistence.Rows.{OperationRow, to_row}
use ysync.Server.Persistence.Prisma.{Database, append_ops}
use ysync.Server.Persistence.Prisma.Tables.{
  Table, IsLawful, op_ids, insert_rows, order_by_seq, rows_above,
}
use ysync.Server.Persistence.Prisma.Appends.{insert_rows_known, insert_rows_new}
use ysync.Server.Persistence.Prisma.RowOrder.{op_ids-append}
use ysync.Server.Persistence.Prisma.CommitOrder.{table-append_ops}

has_key-insert_rows :
    (r : OperationRow) (table : List OperationRow)
    → has_key r.op_id (op_ids (insert_rows (r ∷ []) table)) ≡ true
unfolding insert_rows
has_key-insert_rows r table = elim (Bool-cases (has_key r.op_id (op_ids table))) [
  | inl t ↦ rw (insert_rows_known r [] table t) t
  | inr f ↦
      rw (insert_rows_new r [] table f, op_ids-append, has_key-append)
        (ground (arith, has_key_one r.op_id))
]

same_op_id :
    (n m : ℕ) (op : InsertOp)
    → (to_row m (delete (record { target_id = op.id }))).op_id ≡ (to_row n (insert op)).op_id
unfolding to_row op_id_key_of
same_op_id n m op = refl

module _ (D : Database) (L : IsLawful D) (doc_id : Text) where
  -- A delete that is committed after the insert of its target adds no row: `findMany` answers what
  -- it answered before the delete.
  pub deleted_still_found :
      (n m at_seq : ℕ) (op : InsertOp) (db stored after : D.State) (rows rows' : List OperationRow)
      → append_ops D doc_id n (insert op ∷ []) db ≡ some stored
      → append_ops D doc_id m (delete (record { target_id = op.id }) ∷ []) stored ≡ some after
      → D.find_operations_after stored doc_id at_seq ≡ some rows
      → D.find_operations_after after doc_id at_seq ≡ some rows'
      → rows' ≡ rows
  unfolding insert_rows
  deleted_still_found n m at_seq op db stored after rows rows' e e' q q' =
      let old = (L.table db doc_id).operations in
      let r = to_row n (insert op) in
      let d = to_row m (delete (record { target_id = op.id })) in
      let is : (L.table stored doc_id).operations ≡ insert_rows (r ∷ []) old =
        ap (λ (t : Table). t.operations)
          (table-append_ops D L doc_id n (insert op ∷ []) db stored (λ p. ground (arith, p)) e) in
      let key : has_key d.op_id (op_ids (L.table stored doc_id).operations) ≡ true =
        ap (has_key d.op_id) (ap op_ids is)
        ∙ ap (λ k. has_key k (op_ids (insert_rows (r ∷ []) old))) (same_op_id n m op)
        ∙ has_key-insert_rows r old in
      let same : (L.table after doc_id).operations ≡ (L.table stored doc_id).operations =
        ap (λ (t : Table). t.operations)
          (table-append_ops D L doc_id m (delete (record { target_id = op.id }) ∷ []) stored after
            (λ p. ground (arith, p)) e')
        ∙ insert_rows_known d [] (L.table stored doc_id).operations key in
      L.operations_found after doc_id at_seq rows' q'
      ∙ ap (λ (l : List OperationRow). order_by_seq (rows_above at_seq l)) same
      ∙ sym (L.operations_found stored doc_id at_seq rows q)
