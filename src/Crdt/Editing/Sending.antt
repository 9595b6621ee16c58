-- ===== src/Crdt/Editing/Sending.antt =====
-- The ops that local edits of packages/crdt/src/rga.ts produce, and what they do elsewhere.
use ysync.Common.{
  ℕ, zero, suc, ◌+◌, ◌≤◌, ◌<◌, max, ◌≡◌, refl, sym, ap, ◌∙◌, subst, inl, inr, true, false, List, [],
  ◌∷◌, Option, none, some, All, Option-cases, arith,
}
use ysync.Common.Texts.{Text}
use ysync.Common.Maps
use ysync.Crdt.OpId.{OpId, op_id_to_string, same_op_id, newer}
use ysync.Crdt.OpId.Order.{same_op_id_iff}
use ysync.Crdt.Node.{Node, FormatMark}
use ysync.Crdt.Op.{Op, InsertOp, insert}
use ysync.Crdt.Rga.{
  Rga, node_of, link_node, integrate, take_buffered, find_node, land, place_insert, deliver_insert,
  deliver, drain, apply,
}
use ysync.Crdt.Rga.Canonical.{has_id, Rooted, Causal}
use ysync.Crdt.Rga.Shapes.{Distinct-link_node, find_node-some, find_node-none}
use ysync.Crdt.Rga.WellFormed.{IsWellFormed, All-link_node}
use ysync.Crdt.Editing.{find_anchor, id_of, local_insert}
use ysync.Crdt.Editing.Positions.{live, get_elem?, find_node_at_position-live, has_id-live}

-- The anchor is a node of the document.
pub anchor-Rooted : (index : ℕ) (l : List Node) → Rooted (id_of (find_anchor index l)) l
unfolding find_anchor id_of
anchor-Rooted zero l = tt
anchor-Rooted (suc p) l = elim (Option-cases (get_elem? (live l) p)) [
  | inl e ↦ rw (find_node_at_position-live p l, e) tt
  | inr (a, e) ↦ rw (find_node_at_position-live p l, e) (has_id-live p a l e)
]

-- An id with a counter above all is in no node.
pub absent_id :
    (r : Text) (c : ℕ) (l : List Node)
    → All (λ m. m.id.counter ≤ c) l
    → has_id (record { counter = c + 1; replica_id = r }) l ≡ false
unfolding has_id same_op_id
absent_id r c [] h = refl
absent_id r c (m ∷ l) h = ground (arith, absent_id r c l h.1)

newer_counter : (a b : OpId) → b.counter < a.counter → newer a b ≡ true
unfolding newer
newer_counter a b h = ground arith

counter_of_id :
    (o : OpId) (c : ℕ) (l : List Node)
    → All (λ m. m.id.counter ≤ c) l
    → has_id o l ≡ true
    → o.counter ≤ c
unfolding has_id
counter_of_id o c [] a h = cc
counter_of_id o c (m ∷ l) a h = ground (arith, same_op_id_iff m.id o, counter_of_id o c l a.1)

Causal-next :
    (r : Text) (c : ℕ) (o : Option OpId) (l : List Node)
    → All (λ m. m.id.counter ≤ c) l
    → Rooted o l
    → Causal (record { counter = c + 1; replica_id = r }) o
Causal-next r c none l a h = tt
Causal-next r c (some o) l a h =
    newer_counter (record { counter = c + 1; replica_id = r }) o
      (omega (arith, counter_of_id o c l a h))

counted_suc :
    (c : ℕ) (l : List Node) → All (λ m. m.id.counter ≤ c) l → All (λ m. m.id.counter ≤ c + 1) l
counted_suc c [] a = tt
counted_suc c (m ∷ l) a = (omega arith, counted_suc c l a.1)

drain_one :
    (fuel : ℕ) (op : Op) (t t' : Rga)
    → deliver op t ≡ (t', some [])
    → drain (suc fuel) (op ∷ []) t ≡ (t', [])
unfolding drain
drain_one zero op t t' e =
    let outcome : (deliver op t).1 ≡ some [] = ap (λ (r : Rga × Option (List Op)). r.1) e in
    let state : (deliver op t).0 ≡ t' = ap (λ (r : Rga × Option (List Op)). r.0) e in
    rw (outcome, drain) (ap {B = Rga × List Op} (λ x. (x, [])) state)
drain_one (suc fuel) op t t' e =
    let outcome : (deliver op t).1 ≡ some [] = ap (λ (r : Rga × Option (List Op)). r.1) e in
    let state : (deliver op t).0 ≡ t' = ap (λ (r : Rga × Option (List Op)). r.0) e in
    rw (outcome, drain) (ap {B = Rga × List Op} (λ x. (x, [])) state)

-- An insert as it is integrated when nothing waits for it.
abbrev pub inserted : InsertOp → Rga → Rga
inserted op t = record t {
  nodes = link_node op.origin_id (node_of op) t.nodes;
  counter = max t.counter op.id.counter;
}

module _ (op : InsertOp) (t : Rga) (fresh : has_id op.id t.nodes ≡ false)
    (rooted : Rooted op.origin_id t.nodes)
    (idle : Maps.get (op_id_to_string op.id) t.pending ≡ none) where
  land_idle : land op t ≡ (inserted op t, some [])
  unfolding land integrate take_buffered
  land_idle = rw (idle, land, take_buffered)

  place_insert_idle : (o : Option OpId) → op.origin_id ≡ o → place_insert o op t ≡ land op t
  unfolding place_insert
  place_insert_idle none e = refl
  place_insert_idle (some o) e = elim (Option-cases (find_node (op_id_to_string o) t.nodes)) [
    | inl missing ↦
        let there : has_id o t.nodes ≡ true =
          subst (λ (x : Option OpId). Rooted x t.nodes) e rooted in
        cc (there, find_node-none o t.nodes missing)
    | inr (n, found) ↦ rw (found, place_insert)
  ]

  deliver_idle : deliver (insert op) t ≡ (inserted op t, some [])
  unfolding deliver deliver_insert
  deliver_idle = elim (Option-cases (find_node (op_id_to_string op.id) t.nodes)) [
    | inl new ↦ rw (new, deliver_insert) (place_insert_idle op.origin_id refl ∙ land_idle)
    | inr (n, found) ↦ cc (fresh, (find_node-some op.id t.nodes n found).0)
  ]

  pub apply_idle : apply (insert op) t ≡ inserted op t
  unfolding apply
  apply_idle =
      ap (λ (r : Rga × List Op). r.0) (drain_one _ (insert op) t (inserted op t) deliver_idle)

module _ (s : Rga) (v : IsWellFormed s) (index : ℕ) (value : Text) (attrs : Option FormatMark) where
  pub IsWellFormed-local_insert : IsWellFormed (local_insert s index value attrs).0
  unfolding local_insert integrate node_of
  IsWellFormed-local_insert = record {
    distinct =
        Distinct-link_node (id_of (find_anchor index s.nodes)) _ s.nodes
          (anchor-Rooted index s.nodes) (absent_id s.replica_id s.counter s.nodes v.counted)
          v.distinct;
    counted =
        All-link_node (λ m. m.id.counter ≤ s.counter + 1) (id_of (find_anchor index s.nodes)) _
          s.nodes (omega arith) (counted_suc s.counter s.nodes v.counted);
  }

  -- On a well-formed replica, the op that a local insert sends is newer than its origin.
  Causal-local_insert :
      Causal (local_insert s index value attrs).1.id (local_insert s index value attrs).1.origin_id
  unfolding local_insert
  Causal-local_insert =
      Causal-next s.replica_id s.counter _ s.nodes v.counted (anchor-Rooted index s.nodes)

  -- Delivered to any replica that holds the nodes that a well-formed replica held before its local
  -- insert, and where nothing waits for the new id, the op of that insert has the effect on the
  -- nodes that it had on its own replica.
  pub apply-local_insert :
      (t : Rga)
      → t.nodes ≡ s.nodes
      → Maps.get (op_id_to_string (local_insert s index value attrs).1.id) t.pending ≡ none
      → (apply (insert (local_insert s index value attrs).1) t).nodes
        ≡ (local_insert s index value attrs).0.nodes
  unfolding local_insert integrate
  apply-local_insert t e idle =
      ap (λ (r : Rga). r.nodes)
        (apply_idle (local_insert s index value attrs).1 t
          (rw e (absent_id s.replica_id s.counter s.nodes v.counted))
          (subst (λ (l : List Node). Rooted (id_of (find_anchor index s.nodes)) l) (sym e)
            (anchor-Rooted index s.nodes))
          idle)
      ∙ rw e
