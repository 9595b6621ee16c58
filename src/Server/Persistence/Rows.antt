-- ===== src/Server/Persistence/Rows.antt =====
-- The rows of apps/server/src/persistence/PrismaPersistenceStore.ts: ops as they are written to the
-- table and read from it.
use ysync.Common.{ℕ, ◌≡◌, refl, Bool, false, [], ◌∷◌, ◌++◌, Option, none, some}
use ysync.Common.Texts.{Text}
use ysync.Crdt.OpId.{OpId, to_decimal, op_id_to_string, op_id_from_string}
use ysync.Crdt.OpId.Keys.{has_at, op_id_from_string-op_id_to_string}
use ysync.Crdt.Node.{FormatMark}
use ysync.Crdt.Op.{Op, insert, delete, format, op_id_key_of, op_id_of}

-- The `type` column. A row is its columns without the document's id.
pub data RowType : Type 0 where
  insert_row : RowType
  delete_row : RowType
  format_row : RowType

pub record OperationRow : Type 0 where
  pub seq : ℕ
  pub op_id : Text
  pub row_type : RowType
  pub origin_id : Option Text
  pub value : Option Text
  pub attrs : Option FormatMark
  pub target_id : Option Text
  pub mark : Option Text
  pub format_value : Option Bool

-- `op.originId ? opIdToString(op.originId) : null`
unfoldable pub origin_column : Option OpId → Option Text
unfolding op_id_to_string
origin_column none = none
origin_column (some id) = some (op_id_to_string id)

unfoldable pub to_row : ℕ → Op → OperationRow
unfolding op_id_key_of origin_column op_id_to_string
to_row seq (insert op) = record {
  seq = seq;
  op_id = op_id_key_of (insert op);
  row_type = insert_row;
  origin_id = origin_column op.origin_id;
  value = some op.value;
  attrs = op.attrs;
  target_id = none;
  mark = none;
  format_value = none;
}
to_row seq (format op) = record {
  seq = seq;
  op_id = op_id_key_of (format op);
  row_type = format_row;
  origin_id = none;
  value = none;
  attrs = none;
  target_id = some (op_id_to_string op.target_id);
  mark = some op.mark;
  format_value = some op.value;
}
to_row seq (delete op) = record {
  seq = seq;
  op_id = op_id_key_of (delete op);
  row_type = delete_row;
  origin_id = none;
  value = none;
  attrs = none;
  target_id = none;
  mark = none;
  format_value = none;
}

-- `row.originId ? opIdFromString(row.originId) : null`; the outer `none` is an id whose counter is
-- NaN.
unfoldable pub origin_of : Option Text → Option (Option OpId)
unfolding op_id_from_string
origin_of none = some none
origin_of (some []) = some none
origin_of (some (c ∷ s)) = elim (op_id_from_string (c ∷ s)) [
  | none ↦ none
  | some id ↦ some (some id)
]

-- A column that the type promises, and the default that stands in where the cast is wrong.
unfoldable pub column : {A : Type 0} → A → Option A → A
column default none = default
column default (some a) = a

-- The op of a row whose id was read.
unfoldable pub row_op : OperationRow → RowType → OpId → Option Op
unfolding origin_of op_id_from_string column
row_op row insert_row id = elim (origin_of row.origin_id) [
  | none ↦ none
  | some origin ↦ some (
      insert
        (record { id = id; origin_id = origin; value = column [] row.value; attrs = row.attrs }))
]
row_op row format_row id = elim (op_id_from_string (column [] row.target_id)) [
  | none ↦ none
  | some target ↦ some (
      format (record {
        id = id;
        target_id = target;
        mark = column [] row.mark;
        value = column false row.format_value;
      }))
]
row_op row delete_row id = some (delete (record { target_id = id }))

-- `none` stands for an op that holds an id whose counter is NaN.
unfoldable pub from_row : OperationRow → Option Op
unfolding row_op op_id_from_string
from_row row = elim (op_id_from_string row.op_id) [
  | none ↦ none
  | some id ↦ row_op row row.row_type id
]

-- No replica id of the op holds an "@".
abbrev IsReadableOrigin : Option OpId → Type 0
IsReadableOrigin none = Unit {0}
IsReadableOrigin (some id) = has_at id.replica_id ≡ false

abbrev pub IsReadable : Op → Type 0
IsReadable (insert op) = (has_at op.id.replica_id ≡ false) × IsReadableOrigin op.origin_id
IsReadable (delete op) = has_at op.target_id.replica_id ≡ false
IsReadable (format op) =
    (has_at op.id.replica_id ≡ false) × (has_at op.target_id.replica_id ≡ false)

reads_back :
    (id : OpId) → has_at id.replica_id ≡ false → op_id_from_string (op_id_to_string id) ≡ some id
reads_back id clean = (op_id_from_string-op_id_to_string id).1 clean

-- A key is never the empty text.
origin_of-append :
    (front : Text) (c : ℕ) (tail : Text) (id : OpId)
    → op_id_from_string (front ++ c ∷ tail) ≡ some id
    → origin_of (some (front ++ c ∷ tail)) ≡ some (some id)
unfolding origin_of
origin_of-append [] c tail id e = rw (e, origin_of) refl
origin_of-append (d ∷ front) c tail id e = rw (e, origin_of) refl

origin_of-origin_column :
    (o : Option OpId) → IsReadableOrigin o → origin_of (origin_column o) ≡ some o
unfolding origin_of origin_column op_id_to_string
origin_of-origin_column none h = refl
origin_of-origin_column (some id) h =
    origin_of-append (to_decimal id.counter) b'@' id.replica_id id (reads_back id h)

row_op-insert :
    (row : OperationRow) (id : OpId) (o : Option OpId)
    → origin_of row.origin_id ≡ some o
    → row_op row insert_row id
      ≡ some (
          insert
            (record { id = id; origin_id = o; value = column [] row.value; attrs = row.attrs }))
unfolding row_op
row_op-insert row id o e = rw (e, row_op) refl

row_op-format :
    (row : OperationRow) (id target : OpId)
    → op_id_from_string (column [] row.target_id) ≡ some target
    → row_op row format_row id
      ≡ some (
          format (record {
            id = id;
            target_id = target;
            mark = column [] row.mark;
            value = column false row.format_value;
          }))
unfolding row_op
row_op-format row id target e = rw (e, row_op) refl

-- An op whose replica ids hold no "@" is read back from its row as it was.
pub from_row-to_row : (seq : ℕ) (op : Op) → IsReadable op → from_row (to_row seq op) ≡ some op
unfolding from_row to_row row_op op_id_key_of op_id_of column
from_row-to_row seq (insert op) h =
    rw (reads_back op.id h.0, from_row)
      (row_op-insert (to_row seq (insert op)) op.id op.origin_id
        (origin_of-origin_column op.origin_id h.1))
from_row-to_row seq (delete op) h = rw (reads_back op.target_id h, from_row) refl
from_row-to_row seq (format op) h =
    rw (reads_back op.id h.0, from_row)
      (row_op-format (to_row seq (format op)) op.id op.target_id (reads_back op.target_id h.1))
