-- ===== src/Crdt/Rga/WellFormed.antt =====
-- Ids and the counter under delivery in packages/crdt/src/rga.ts.
use ysync.Common.{
  ℕ, zero, suc, ◌≤◌, max, ◌≡◌, refl, sym, ◌∙◌, subst, inl, inr, false, List, [], ◌∷◌, ◌++◌, map,
  Option, none, some, All, Option-cases, arith,
}
use ysync.Common.Texts.{Text}
use ysync.Crdt.OpId.{OpId, op_id_to_string}
use ysync.Crdt.Node.{Node}
use ysync.Crdt.Op.{Op, InsertOp, FormatOp, insert, delete, format}
use ysync.Crdt.Rga.{
  Rga, new_rga, node_of, find_node, skip_newer, link_after, link_node, update_node, bury,
  apply_format_op, buffer_on, take_buffered, integrate, land, place_insert, deliver_insert, deliver,
  drain, apply, apply_all, pending_count,
}
use ysync.Crdt.Rga.Canonical.{has_id, Rooted}
use ysync.Crdt.Rga.Shapes.{
  shape, has_id-shape, Distinct, Distinct-shape, Distinct-link_node, update_node-shape,
  find_node-some, find_node-none,
}
use ysync.Crdt.Rga.Replay.{apply_format_op-shape}

-- No id stands twice, and the counter is at least that of every node.
pub record IsWellFormed (s : Rga) : Type 0 where
  pub distinct : Distinct s.nodes
  pub counted : All (λ m. m.id.counter ≤ s.counter) s.nodes

All-skip_newer :
    (P : Node → Type 0) (n : Node) (l : List Node) → P n → All P l → All P (skip_newer n l)
unfolding skip_newer
All-skip_newer P n [] p a = (p, tt)
All-skip_newer P n (m ∷ l) p a = ground (arith, All-skip_newer P n l p a.1)

All-link_after :
    (P : Node → Type 0) (o : OpId) (n : Node) (l : List Node)
    → P n
    → All P l
    → All P (link_after o n l)
unfolding link_after
All-link_after P o n [] p a = tt
All-link_after P o n (m ∷ l) p a =
    ground (arith, All-link_after P o n l p a.1, All-skip_newer P n l p a.1)

pub All-link_node :
    (P : Node → Type 0) (o : Option OpId) (n : Node) (l : List Node)
    → P n
    → All P l
    → All P (link_node o n l)
unfolding link_node
All-link_node P none n l p a = All-skip_newer P n l p a
All-link_node P (some o) n l p a = All-link_after P o n l p a

counted_more :
    (c d : ℕ) (l : List Node)
    → c ≤ d
    → All (λ m. m.id.counter ≤ c) l
    → All (λ m. m.id.counter ≤ d) l
counted_more c d [] h a = tt
counted_more c d (m ∷ l) h a = (omega arith, counted_more c d l h a.1)

counted-update_node :
    (c : ℕ) (id : OpId) (f : Node → Node) (l : List Node)
    → ((n : Node) → (f n).id ≡ n.id)
    → All (λ m. m.id.counter ≤ c) l
    → All (λ m. m.id.counter ≤ c) (update_node id f l)
unfolding update_node
counted-update_node c id f [] h a = tt
counted-update_node c id f (m ∷ l) h a = ground (arith, h m, counted-update_node c id f l h a.1)

shape-Distinct : (l : List Node) → Distinct l → Distinct (map shape l)
unfolding shape
shape-Distinct [] d = tt
shape-Distinct (n ∷ l) d = (has_id-shape n.id l ∙ d.0, shape-Distinct l d.1)

-- A write that keeps shapes keeps ids distinct.
pub Distinct-update_node :
    (id : OpId) (f : Node → Node) (l : List Node)
    → ((n : Node) → shape (f n) ≡ shape n)
    → Distinct l
    → Distinct (update_node id f l)
Distinct-update_node id f l h d =
    Distinct-shape (update_node id f l)
      (subst Distinct (sym (update_node-shape id f l h)) (shape-Distinct l d))

-- The same with the nodes and the counter named.
IsWellFormed-same :
    (s t : Rga) → t.nodes ≡ s.nodes → s.counter ≤ t.counter → IsWellFormed s → IsWellFormed t
IsWellFormed-same s t e c v = record {
  distinct = rw e v.distinct;
  counted = rw e (counted_more s.counter t.counter s.nodes c v.counted);
}

IsWellFormed-buffer_on :
    (key : Text) (op : Op) (s : Rga) → IsWellFormed s → IsWellFormed (buffer_on key op s)
unfolding buffer_on
IsWellFormed-buffer_on key op s v =
    IsWellFormed-same s (buffer_on key op s) (ground arith) (ground arith) v

IsWellFormed-take_buffered :
    (key : Text) (s : Rga) → IsWellFormed s → IsWellFormed (take_buffered key s).0
unfolding take_buffered
IsWellFormed-take_buffered key s v =
    IsWellFormed-same s (take_buffered key s).0 (ground arith) (ground arith) v

IsWellFormed-land :
    (op : InsertOp) (s : Rga)
    → Rooted op.origin_id s.nodes
    → has_id op.id s.nodes ≡ false
    → IsWellFormed s
    → IsWellFormed (land op s).0
unfolding land integrate node_of
IsWellFormed-land op s r f v =
    IsWellFormed-take_buffered (op_id_to_string op.id)
      (record (integrate op.origin_id op s) { counter = max s.counter op.id.counter })
      (record {
        distinct = Distinct-link_node op.origin_id (node_of op) s.nodes r f v.distinct;
        counted =
            All-link_node (λ m. m.id.counter ≤ max s.counter op.id.counter) op.origin_id
              (node_of op) s.nodes (omega arith)
              (counted_more s.counter (max s.counter op.id.counter) s.nodes (omega arith)
                v.counted);
      })

IsWellFormed-place_insert :
    (op : InsertOp) (o : Option OpId) (s : Rga)
    → op.origin_id ≡ o
    → has_id op.id s.nodes ≡ false
    → IsWellFormed s
    → IsWellFormed (place_insert o op s).0
unfolding place_insert
IsWellFormed-place_insert op none s e f v =
    IsWellFormed-land op s (subst (λ (x : Option OpId). Rooted x s.nodes) (sym e) tt) f v
IsWellFormed-place_insert op (some o) s e f v =
    elim (Option-cases (find_node (op_id_to_string o) s.nodes)) [
      | inl missing ↦
          rw (missing, place_insert) (IsWellFormed-buffer_on (op_id_to_string o) (insert op) s v)
      | inr (n, found) ↦
          rw (found, place_insert)
            (IsWellFormed-land op s
              (subst (λ (x : Option OpId). Rooted x s.nodes) (sym e)
                (find_node-some o s.nodes n found).0)
              f v)
    ]

IsWellFormed-update :
    (id : OpId) (f : Node → Node) (s t : Rga)
    → ((n : Node) → shape (f n) ≡ shape n)
    → ((n : Node) → (f n).id ≡ n.id)
    → t.nodes ≡ update_node id f s.nodes
    → s.counter ≤ t.counter
    → IsWellFormed s
    → IsWellFormed t
IsWellFormed-update id f s t h k e c v = record {
  distinct = rw e (Distinct-update_node id f s.nodes h v.distinct);
  counted = rw e (
      counted-update_node t.counter id f s.nodes k
        (counted_more s.counter t.counter s.nodes c v.counted));
}

pub IsWellFormed-bury :
    (id : OpId) (s : Rga)
    → IsWellFormed s
    → IsWellFormed (record s { nodes = update_node id bury s.nodes })
unfolding shape bury
IsWellFormed-bury id s v =
    IsWellFormed-update id bury s _ (λ n. refl) (λ n. refl) refl (omega arith) v

pub IsWellFormed-format :
    (id : OpId) (op : FormatOp) (s t : Rga)
    → t.nodes ≡ update_node id (apply_format_op op) s.nodes
    → s.counter ≤ t.counter
    → IsWellFormed s
    → IsWellFormed t
IsWellFormed-format id op s t e c v =
    IsWellFormed-update id (apply_format_op op) s t (λ n. (apply_format_op-shape op n).0)
      (λ n. (apply_format_op-shape op n).2) e c v

IsWellFormed-deliver : (op : Op) (s : Rga) → IsWellFormed s → IsWellFormed (deliver op s).0
unfolding deliver deliver_insert
IsWellFormed-deliver (insert op) s v =
    elim (Option-cases (find_node (op_id_to_string op.id) s.nodes)) [
      | inl new ↦
          rw (new, deliver_insert)
            (IsWellFormed-place_insert op op.origin_id s refl (find_node-none op.id s.nodes new) v)
      | inr (n, found) ↦ rw (found, deliver_insert) v
    ]
IsWellFormed-deliver (delete op) s v =
    elim (Option-cases (find_node (op_id_to_string op.target_id) s.nodes)) [
      | inl missing ↦
          rw (missing, deliver)
            (IsWellFormed-buffer_on (op_id_to_string op.target_id) (delete op) s v)
      | inr (n, found) ↦ rw (found, deliver) (IsWellFormed-bury n.id s v)
    ]
IsWellFormed-deliver (format op) s v =
    elim (Option-cases (find_node (op_id_to_string op.target_id) s.nodes)) [
      | inl missing ↦
          rw (missing, deliver)
            (IsWellFormed-buffer_on (op_id_to_string op.target_id) (format op) s v)
      | inr (n, found) ↦ rw (found, deliver) (IsWellFormed-format n.id op s _ refl (omega arith) v)
    ]

IsWellFormed-drain :
    (fuel : ℕ) (queue : List Op) (s : Rga) → IsWellFormed s → IsWellFormed (drain fuel queue s).0
unfolding drain
IsWellFormed-drain fuel [] s v = v
IsWellFormed-drain zero (op ∷ queue) s v = elim (Option-cases (deliver op s).1) [
  | inl e ↦
      rw (e, drain) (IsWellFormed-drain zero queue (deliver op s).0 (IsWellFormed-deliver op s v))
  | inr (released, e) ↦ rw (e, drain) (IsWellFormed-deliver op s v)
]
IsWellFormed-drain (suc fuel) (op ∷ queue) s v = elim (Option-cases (deliver op s).1) [
  | inl e ↦
      rw (e, drain)
        (IsWellFormed-drain (suc fuel) queue (deliver op s).0 (IsWellFormed-deliver op s v))
  | inr (released, e) ↦
      rw (e, drain)
        (IsWellFormed-drain fuel (queue ++ released) (deliver op s).0 (IsWellFormed-deliver op s v))
]

pub IsWellFormed-new_rga : (r : Text) → IsWellFormed (new_rga r)
unfolding new_rga
IsWellFormed-new_rga r = record { distinct = tt; counted = tt }

pub IsWellFormed-apply : (op : Op) (s : Rga) → IsWellFormed s → IsWellFormed (apply op s)
unfolding apply
IsWellFormed-apply op s v = IsWellFormed-drain (suc (pending_count s.pending)) (op ∷ []) s v

-- Whatever ops a well-formed replica applies, in whatever order, its ids stay distinct and its
-- counter at least that of every node.
pub IsWellFormed-apply_all :
    (ops : List Op) (s : Rga) → IsWellFormed s → IsWellFormed (apply_all ops s)
unfolding apply_all
IsWellFormed-apply_all [] s v = v
IsWellFormed-apply_all (op ∷ ops) s v =
    IsWellFormed-apply_all ops (apply op s) (IsWellFormed-apply op s v)
