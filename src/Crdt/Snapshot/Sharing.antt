-- ===== src/Crdt/Snapshot/Sharing.antt =====
-- The clock that a node of packages/crdt/src/rga.ts shares with the snapshots that were taken of it,
-- or that it was built from. `toSnapshot` and `fromSnapshot` hand on the object `formatClock` itself
-- and `applyFormatOp` writes into it, so a snapshot that is held in memory, as
-- InMemoryPersistenceStore does, has the clock that the node has later; `attrs` is replaced and not
-- written into.
use ysync.Common.{
  ◌≡◌, refl, ap, ◌∙◌, inl, inr, true, none, some, Option-cases, Bool-cases, if◌then◌else◌, arith,
}
use ysync.Common.Texts.{text_lt_irrefl}
use ysync.Common.Maps
use ysync.Common.Maps.{get-put_self}
use ysync.Crdt.OpId.{OpId, at_least, compare_op_id, sub_ℕ, is_nonneg}
use ysync.Crdt.Node.{Node, FormatClock, or_empty}
use ysync.Crdt.Op.{FormatOp}
use ysync.Crdt.Rga.{apply_format_op}
use ysync.Crdt.Snapshot.{RgaSnapshotNode, to_snapshot_node, from_snapshot_node}

unfoldable decide : FormatOp → FormatClock → FormatClock
unfolding at_least Maps.get Maps.put
decide op clock = elim (Maps.get op.mark clock) [
  | some decided_by ↦ if at_least decided_by op.id then clock else Maps.put op.mark op.id clock
  | none ↦ Maps.put op.mark op.id clock
]

-- A held snapshot of a node after the node took a format op. A clock that the node makes only then
-- is not shared.
unfoldable see_format : FormatOp → RgaSnapshotNode → RgaSnapshotNode
unfolding decide
see_format op s = elim s.format_clock [
  | none ↦ s
  | some clock ↦ record s { format_clock = some (decide op clock) }
]

-- What the snapshot holds is the clock of the node.
format_clock-see_format :
    (op : FormatOp) (n : Node) (clock : FormatClock)
    → n.format_clock ≡ some clock
    → (see_format op (to_snapshot_node n)).format_clock ≡ (apply_format_op op n).format_clock
unfolding see_format decide apply_format_op to_snapshot_node or_empty
format_clock-see_format op n clock e = rw (e, or_empty) (ground arith)

at_least_refl : (a : OpId) → at_least a a ≡ true
unfolding at_least compare_op_id sub_ℕ is_nonneg
at_least_refl a = ground (arith, text_lt_irrefl a.replica_id)

decided :
    (op : FormatOp) (clock : FormatClock)
    → (d : OpId) × (Maps.get op.mark (decide op clock) ≡ some d) × (at_least d op.id ≡ true)
unfolding decide
decided op clock =
    let put : Maps.get op.mark (Maps.put op.mark op.id clock) ≡ some op.id =
      get-put_self op.mark op.id clock in
    elim (Option-cases (Maps.get op.mark clock)) [
      | inl none_yet ↦ rw (none_yet, decide) (op.id, put, at_least_refl op.id)
      | inr (d, there) ↦ elim (Bool-cases (at_least d op.id)) [
        | inl later ↦ rw (there, decide, later, if◌then◌else◌) (d, there, later)
        | inr older ↦ rw (there, decide, older, if◌then◌else◌) (op.id, put, at_least_refl op.id)
      ]
    ]

apply_format_op_decided :
    (op : FormatOp) (m : Node) (d : OpId)
    → Maps.get op.mark (or_empty m.format_clock) ≡ some d
    → at_least d op.id ≡ true
    → (apply_format_op op m).attrs ≡ m.attrs
unfolding apply_format_op
apply_format_op_decided op m d there later = rw (there, apply_format_op, later, if◌then◌else◌) refl

-- A node that is rebuilt from a held snapshot, whose clock was there when the snapshot was taken,
-- ignores a format op that came after the snapshot: it keeps the marks of the snapshot.
attrs-see_format :
    (op : FormatOp) (n : Node) (clock : FormatClock)
    → n.format_clock ≡ some clock
    → (apply_format_op op (from_snapshot_node (see_format op (to_snapshot_node n)))).attrs ≡ n.attrs
unfolding see_format apply_format_op to_snapshot_node from_snapshot_node or_empty
attrs-see_format op n clock e =
    let (d, there, later) = decided op clock in
    let held : see_format op (to_snapshot_node n)
        ≡ record (to_snapshot_node n) { format_clock = some (decide op clock) } =
      rw (e, see_format) refl in
    ap (λ s. (apply_format_op op (from_snapshot_node s)).attrs) held
    ∙ apply_format_op_decided op
        (from_snapshot_node (record (to_snapshot_node n) { format_clock = some (decide op clock) }))
        d there later
