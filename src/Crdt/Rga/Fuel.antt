-- ===== src/Crdt/Rga/Fuel.antt =====
-- How long the loop of `apply` in packages/crdt/src/rga.ts runs.
use ysync.Common.{
  ℕ, zero, suc, ◌+◌, ◌≤◌, ◌≡◌, refl, inl, inr, List, [], ◌∷◌, ◌++◌, Option, none, some, length,
  length-append, Option-cases, arith,
}
use ysync.Crdt.OpId.{OpId, op_id_to_string}
use ysync.Crdt.Op.{Op, InsertOp, insert, delete, format}
use ysync.Crdt.Rga.{
  Rga, find_node, land, integrate, buffer_on, place_insert, deliver, deliver_insert, drain,
  pending_count,
}
use ysync.Crdt.Rga.Pending.{count-buffer_on, count-take_buffered-le}

abbrev waiting : Rga → ℕ
waiting s = pending_count s.pending

-- A round adds at most its own op to the buffer, or moves ops from there into the queue.
abbrev Bound : Rga → Rga → Option (List Op) → Type 0
Bound s t none = waiting t ≤ suc (waiting s)
Bound s t (some released) = waiting t + length released ≤ waiting s

abbrev Cost : Rga → Rga × Option (List Op) → Type 0
Cost s r = Bound s r.0 r.1

Cost-land : (op : InsertOp) (s : Rga) → Cost s (land op s)
unfolding land integrate
Cost-land op s = count-take_buffered-le (op_id_to_string op.id) _

Cost-buffer_on : (op : Op) (key : _) (s : Rga) → Cost s (buffer_on key op s, none)
Cost-buffer_on op key s = omega (arith, count-buffer_on key op s)

Cost-place_insert : (o : Option OpId) (op : InsertOp) (s : Rga) → Cost s (place_insert o op s)
unfolding place_insert
Cost-place_insert none op s = Cost-land op s
Cost-place_insert (some o) op s = elim (Option-cases (find_node (op_id_to_string o) s.nodes)) [
  | inl e ↦ rw (e, place_insert) (Cost-buffer_on (insert op) (op_id_to_string o) s)
  | inr (n, e) ↦ rw (e, place_insert) (Cost-land op s)
]

Cost-deliver : (op : Op) (s : Rga) → Cost s (deliver op s)
unfolding deliver deliver_insert
Cost-deliver (insert op) s = elim (Option-cases (find_node (op_id_to_string op.id) s.nodes)) [
  | inl e ↦ rw (e, deliver_insert) (Cost-place_insert op.origin_id op s)
  | inr (n, e) ↦ rw (e, deliver_insert) (omega arith)
]
Cost-deliver (delete op) s =
    elim (Option-cases (find_node (op_id_to_string op.target_id) s.nodes)) [
      | inl e ↦ rw (e, deliver) (Cost-buffer_on (delete op) (op_id_to_string op.target_id) s)
      | inr (n, e) ↦ rw (e, deliver) (omega arith)
    ]
Cost-deliver (format op) s =
    elim (Option-cases (find_node (op_id_to_string op.target_id) s.nodes)) [
      | inl e ↦ rw (e, deliver) (Cost-buffer_on (format op) (op_id_to_string op.target_id) s)
      | inr (n, e) ↦ rw (e, deliver) (omega arith)
    ]

-- With fuel for every op that is queued or buffered, the loop stops at an empty queue, whatever
-- the ops are and wherever they are buffered.
pub drain_done :
    (fuel : ℕ) (queue : List Op) (s : Rga)
    → length queue + pending_count s.pending ≤ fuel
    → (drain fuel queue s).1 ≡ []
unfolding drain
drain_done fuel [] s h = refl
drain_done zero (op ∷ queue) s h = absurd (omega arith)
drain_done (suc fuel) (op ∷ queue) s h =
    let cost : Bound s (deliver op s).0 (deliver op s).1 = Cost-deliver op s in
    elim (Option-cases (deliver op s).1) [
      | inl e ↦
          let bound : Bound s (deliver op s).0 none = rw e at cost in
          rw (e, drain) (drain_done (suc fuel) queue (deliver op s).0 (omega arith))
      | inr (released, e) ↦
          let bound : Bound s (deliver op s).0 (some released) = rw e at cost in
          rw (e, drain)
            (drain_done fuel (queue ++ released) (deliver op s).0
              (omega (arith, length-append queue released)))
    ]

-- The fuel of `apply` is enough.
pub apply_done : (op : Op) (s : Rga) → (drain (suc (pending_count s.pending)) (op ∷ []) s).1 ≡ []
apply_done op s = drain_done (suc (pending_count s.pending)) (op ∷ []) s (omega arith)
