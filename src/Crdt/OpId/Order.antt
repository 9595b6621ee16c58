-- ===== src/Crdt/OpId/Order.antt =====
-- The order of operation ids in packages/crdt/src/opId.ts.
use ysync.Common.{◌≡◌, ◌↔◌, true, false, arith}
use ysync.Common.Texts.{text_eq_iff, text_lt_irrefl, text_lt_trans, text_lt_total, text_eq_refl}
use ysync.Crdt.OpId.{OpId, newer, same_op_id}

pub same_op_id_iff : (a b : OpId) → (same_op_id a b ≡ true) ↔ (a ≡ b)
unfolding same_op_id
same_op_id_iff a b = (
  λ h. ground (arith, text_eq_iff a.replica_id b.replica_id),
  λ e. ground (arith, text_eq_iff a.replica_id b.replica_id),
)

pub newer_irrefl : (a : OpId) → newer a a ≡ false
unfolding newer
newer_irrefl a = ground (arith, text_eq_refl a.replica_id)

pub newer_trans : (a b c : OpId) → newer a b ≡ true → newer b c ≡ true → newer a c ≡ true
unfolding newer
newer_trans a b c h k = ground (
  arith,
  text_eq_iff a.replica_id b.replica_id,
  text_eq_iff b.replica_id c.replica_id,
  text_eq_iff a.replica_id c.replica_id,
  text_lt_irrefl a.replica_id,
  text_lt_trans c.replica_id b.replica_id a.replica_id,
  text_lt_total a.replica_id b.replica_id,
  text_lt_total b.replica_id c.replica_id,
  text_lt_total a.replica_id c.replica_id,
  text_lt_trans a.replica_id c.replica_id b.replica_id,
  text_lt_trans b.replica_id a.replica_id c.replica_id,
)

pub newer_total : (a b : OpId) → newer a b ≡ false → newer b a ≡ false → a ≡ b
unfolding newer
newer_total a b h k = ground (
  arith,
  text_eq_iff a.replica_id b.replica_id,
  text_eq_iff b.replica_id a.replica_id,
  text_lt_irrefl a.replica_id,
  text_lt_trans a.replica_id b.replica_id a.replica_id,
)
