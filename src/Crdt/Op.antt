-- ===== src/Crdt/Op.antt =====
-- packages/crdt/src/op.ts: the operations that replicas exchange.
use ysync.Common.{Bool, Option}
use ysync.Common.Texts.{Text}
use ysync.Crdt.OpId.{OpId, op_id_to_string}
use ysync.Crdt.Node.{FormatMark}

pub record InsertOp : Type 0 where
  pub id : OpId
  pub origin_id : Option OpId
  pub value : Text
  pub attrs : Option FormatMark

pub record DeleteOp : Type 0 where
  pub target_id : OpId

-- `value` is true to add the mark, and false (`null` in the source) to clear it.
pub record FormatOp : Type 0 where
  pub id : OpId
  pub target_id : OpId
  pub mark : Text
  pub value : Bool

pub data Op : Type 0 where
  insert : InsertOp → Op
  delete : DeleteOp → Op
  format : FormatOp → Op

unfoldable pub op_id_of : Op → OpId
op_id_of (insert op) = op.id
op_id_of (delete op) = op.target_id
op_id_of (format op) = op.id

unfoldable pub op_id_key_of : Op → Text
unfolding op_id_of op_id_to_string
op_id_key_of op = op_id_to_string (op_id_of op)
