-- ===== src/Crdt/Rga/Replay.antt =====
-- The delivery invariant from one op to the next, for `apply` in packages/crdt/src/rga.ts.
use ysync.Common.{
  ℕ, zero, suc, ◌≡◌, refl, sym, ◌∙◌, subst, inl, inr, ◌⊎◌, true, false, ◌||◌, List, [], ◌∷◌, ◌++◌,
  map, Option, none, some, Option-cases, arith,
}
use ysync.Crdt.OpId.{OpId, op_id_to_string, same_op_id}
use ysync.Crdt.OpId.Order.{same_op_id_iff}
use ysync.Crdt.Node.{Node}
use ysync.Crdt.Op.{Op, InsertOp, DeleteOp, FormatOp, insert, delete, format}
use ysync.Crdt.Rga.{
  Rga, find_node, update_node, bury, apply_format_op, land, deliver, deliver_insert, place_insert,
  drain,
}
use ysync.Crdt.Rga.Canonical.{has_id, Rooted}
use ysync.Crdt.Rga.Shapes.{shape, find_node-some, find_node-none, update_node-shape, has_id_same}
use ysync.Crdt.Rga.Tombstones.{is_buried, is_buried-bury, is_buried-update_node_same}
use ysync.Crdt.Rga.Pending.{buffered}
use ysync.Crdt.Rga.Delivery.{AllCausal, Inv, Inv-update}
use ysync.Crdt.Rga.Arrival.{Inv-buffer_on}
use ysync.Crdt.Rga.Landing.{Inv-land, land-released}

-- The queue after a round.
abbrev pub after : Option (List Op) → List Op → List Op
after none queue = queue
after (some released) queue = queue ++ released

-- A format op leaves the shape and the tombstone of its target.
pub apply_format_op-shape :
    (op : FormatOp) (n : Node)
    → (shape (apply_format_op op n) ≡ shape n)
      × ((apply_format_op op n).tombstone ≡ n.tombstone)
      × ((apply_format_op op n).id ≡ n.id)
unfolding apply_format_op shape
apply_format_op-shape op n = (ground arith, ground arith, ground arith)

bury-shape : (n : Node) → shape (bury n) ≡ shape n
unfolding shape bury
bury-shape n = refl

module _ (delivered : List Op) (causal : AllCausal delivered) (s : Rga) (queue : List Op) where
  Inv-land_released :
      (op : InsertOp)
      → Inv delivered s (insert op ∷ queue)
      → has_id op.id s.nodes ≡ false
      → Rooted op.origin_id s.nodes
      → Inv delivered (land op s).0 (after (land op s).1 queue)
  Inv-land_released op v new rooted =
      rw (land-released op s) (Inv-land delivered op s queue v new rooted causal)

  Inv-place_insert :
      (op : InsertOp) (o : Option OpId)
      → Inv delivered s (insert op ∷ queue)
      → has_id op.id s.nodes ≡ false
      → op.origin_id ≡ o
      → Inv delivered (place_insert o op s).0 (after (place_insert o op s).1 queue)
  unfolding place_insert
  Inv-place_insert op none v new e =
      Inv-land_released op v new (subst (λ (x : Option OpId). Rooted x s.nodes) (sym e) tt)
  Inv-place_insert op (some o) v new e =
      elim (Option-cases (find_node (op_id_to_string o) s.nodes)) [
        | inl missing ↦
            rw (missing, place_insert)
              (Inv-buffer_on delivered (insert op) o s queue v e (find_node-none o s.nodes missing))
        | inr (n, found) ↦
            rw (found, place_insert)
              (Inv-land_released op v new (
                subst (λ (x : Option OpId). Rooted x s.nodes) (sym e)
                  (find_node-some o s.nodes n found).0))
      ]

  Inv-deliver_insert :
      (op : InsertOp)
      → Inv delivered s (insert op ∷ queue)
      → Inv delivered (deliver_insert op s).0 (after (deliver_insert op s).1 queue)
  unfolding deliver_insert
  Inv-deliver_insert op v = elim (Option-cases (find_node (op_id_to_string op.id) s.nodes)) [
    | inl new ↦
        rw (new, deliver_insert)
          (Inv-place_insert op op.origin_id v (find_node-none op.id s.nodes new) refl)
    | inr (n, found) ↦
        rw (found, deliver_insert)
          (Inv-update delivered (insert op) s s queue v refl (λ k. refl) (λ d h. h) (λ d h. inl h)
            (find_node-some op.id s.nodes n found).0)
  ]

  Inv-bury :
      (op : DeleteOp)
      → Inv delivered s (delete op ∷ queue)
      → has_id op.target_id s.nodes ≡ true
      → Inv delivered (record s { nodes = update_node op.target_id bury s.nodes }) queue
  unfolding buffered
  Inv-bury op v there =
      let buried = λ (x : OpId). is_buried-bury x op.target_id s.nodes there in
      Inv-update delivered (delete op) s
        (record s { nodes = update_node op.target_id bury s.nodes }) queue v
        (update_node-shape op.target_id bury s.nodes bury-shape) (λ k. refl)
        (λ d h. ground (arith, buried d)) (λ d h. by_op d (sym (buried d.target_id) ∙ h))
        (ground (arith, buried op.target_id, same_op_id_iff op.target_id op.target_id))
    where
      by_op :
          (d : DeleteOp)
          → (same_op_id op.target_id d.target_id || is_buried d.target_id s.nodes) ≡ true
          → (is_buried d.target_id s.nodes ≡ true) ⊎ (delete d ≡ delete op)
      by_op d h = ground (arith, same_op_id_iff op.target_id d.target_id)

  Inv-format :
      (op : FormatOp) (t : Rga)
      → Inv delivered s (format op ∷ queue)
      → has_id op.target_id s.nodes ≡ true
      → t.nodes ≡ update_node op.target_id (apply_format_op op) s.nodes
      → t.pending ≡ s.pending
      → Inv delivered t queue
  unfolding buffered
  Inv-format op t v there e pend =
      let shapes : map shape t.nodes ≡ map shape s.nodes = rw e (
        update_node-shape op.target_id (apply_format_op op) s.nodes
          (λ n. (apply_format_op-shape op n).0)) in
      let buried : (x : OpId) → is_buried x t.nodes ≡ is_buried x s.nodes = λ x. rw e (
        is_buried-update_node_same x op.target_id (apply_format_op op) s.nodes
          (λ n. (apply_format_op-shape op n).2) (λ n. (apply_format_op-shape op n).1)) in
      Inv-update delivered (format op) s t queue v shapes (λ k. rw pend) (λ d h. buried d ∙ h)
        (λ d h. inl (sym (buried d.target_id) ∙ h))
        (has_id_same op.target_id t.nodes s.nodes shapes ∙ there)

  -- One round keeps the invariant.
  Inv-deliver :
      (op : Op)
      → Inv delivered s (op ∷ queue)
      → Inv delivered (deliver op s).0 (after (deliver op s).1 queue)
  unfolding deliver
  Inv-deliver (insert op) v = Inv-deliver_insert op v
  Inv-deliver (delete op) v =
      elim (Option-cases (find_node (op_id_to_string op.target_id) s.nodes)) [
        | inl missing ↦
            rw (missing, deliver)
              (Inv-buffer_on delivered (delete op) op.target_id s queue v refl
                (find_node-none op.target_id s.nodes missing))
        | inr (n, found) ↦
            let (there, at) = find_node-some op.target_id s.nodes n found in
            rw (found, deliver, at) (Inv-bury op v there)
      ]
  Inv-deliver (format op) v =
      elim (Option-cases (find_node (op_id_to_string op.target_id) s.nodes)) [
        | inl missing ↦
            rw (missing, deliver)
              (Inv-buffer_on delivered (format op) op.target_id s queue v refl
                (find_node-none op.target_id s.nodes missing))
        | inr (n, found) ↦
            let (there, at) = find_node-some op.target_id s.nodes n found in
            rw (found, deliver, at) (Inv-format op _ v there refl refl)
      ]

-- The loop keeps the invariant, wherever it stops.
pub Inv-drain :
    (delivered : List Op) (fuel : ℕ) (queue : List Op) (s : Rga)
    → AllCausal delivered
    → Inv delivered s queue
    → Inv delivered (drain fuel queue s).0 (drain fuel queue s).1
unfolding drain
Inv-drain delivered fuel [] s causal v = v
Inv-drain delivered zero (op ∷ queue) s causal v =
    let step = Inv-deliver delivered causal s queue op v in
    elim (Option-cases (deliver op s).1) [
      | inl e ↦
          rw (e, drain) (Inv-drain delivered zero queue (deliver op s).0 causal (rw e at step))
      | inr (released, e) ↦ rw (e, drain) (rw e at step)
    ]
Inv-drain delivered (suc fuel) (op ∷ queue) s causal v =
    let step = Inv-deliver delivered causal s queue op v in
    elim (Option-cases (deliver op s).1) [
      | inl e ↦
          rw (e, drain)
            (Inv-drain delivered (suc fuel) queue (deliver op s).0 causal (rw e at step))
      | inr (released, e) ↦
          rw (e, drain)
            (Inv-drain delivered fuel (queue ++ released) (deliver op s).0 causal (rw e at step))
    ]
