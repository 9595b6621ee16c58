-- ===== src/Crdt/Rga/Landing.antt =====
-- The delivery invariant where an insert is integrated, for packages/crdt/src/rga.ts.
use ysync.Common.{
  ◌≡◌, refl, sym, ◌∙◌, ap, subst, inl, inr, ◌⊎◌, true, false, ◌||◌, List, [], ◌∷◌, ◌++◌, map,
  Option, none, some, In, In-append, In-append_left, In-append_right, if◌then◌else◌, Bool-cases,
  arith,
}
use ysync.Common.Texts.{Text, text_eq}
use ysync.Crdt.OpId.{OpId, op_id_to_string, same_op_id}
use ysync.Crdt.OpId.Order.{same_op_id_iff}
use ysync.Crdt.Node.{Node}
use ysync.Crdt.Op.{Op, InsertOp, insert, delete, format}
use ysync.Crdt.Rga.{Rga, node_of, land, link_node, integrate}
use ysync.Crdt.Rga.Canonical.{
  has_id, Rooted, History, build, add, History-add, build-add, has_id-link_node,
}
use ysync.Crdt.Rga.Shapes.{
  shape, has_id-shape, has_id-build, link_node-shape, text_eq-key, Rooted-same,
}
use ysync.Crdt.Rga.Tombstones.{is_buried, is_buried-link_node}
use ysync.Crdt.Rga.Pending.{
  buffered, take_buffered-nodes, take_buffered-ops, buffered-take_buffered,
}
use ysync.Crdt.Rga.Delivery.{
  Applied, Waits, Settled, Settled-step, Ready, first, next, AllCausal, Inv,
}

land-nodes :
    (op : InsertOp) (s : Rga) → (land op s).0.nodes ≡ link_node op.origin_id (node_of op) s.nodes
unfolding land integrate
land-nodes op s = take_buffered-nodes (op_id_to_string op.id) _

land-buffered :
    (k : Text) (op : InsertOp) (s : Rga)
    → buffered k (land op s).0 ≡ (if text_eq (op_id_to_string op.id) k then [] else buffered k s)
unfolding land integrate buffered
land-buffered k op s = buffered-take_buffered k (op_id_to_string op.id) _

-- The ops that waited for the insert.
pub land-released :
    (op : InsertOp) (s : Rga) → (land op s).1 ≡ some (buffered (op_id_to_string op.id) s)
unfolding land integrate buffered
land-released op s = ap some (take_buffered-ops (op_id_to_string op.id) _)

In-add : (x n : Node) (l : List Node) → In x (add n l) → (x ≡ n) ⊎ In x l
unfolding add
In-add x n [] m = m
In-add x n (k ∷ l) m = ground (arith, In-add x n l)

pub node_with_id : (o : OpId) (l : List Node) → has_id o l ≡ true → (n : Node) × In n l × (n.id ≡ o)
unfolding has_id
node_with_id o [] h = cc
node_with_id o (n ∷ l) h = elim (Bool-cases (same_op_id n.id o)) [
  | inl hit ↦ (n, inl refl, (same_op_id_iff n.id o).0 hit)
  | inr miss ↦ let (k, m, e) = node_with_id o l (ground arith) in (k, inr m, e)
]

module _ (delivered : List Op) (op : InsertOp) (s : Rga) (queue : List Op)
    (v : Inv delivered s (insert op ∷ queue)) (new : has_id op.id s.nodes ≡ false)
    (rooted : Rooted op.origin_id s.nodes) (causal : AllCausal delivered) where
  abbrev pub key : Text
  key = op_id_to_string op.id

  abbrev pub t : Rga
  t = (land op s).0

  abbrev pub rest : List Op
  rest = queue ++ buffered key s

  has_id-history : (x : OpId) → has_id x v.history ≡ has_id x s.nodes
  has_id-history x =
      sym (has_id-build x v.history v.ordered)
      ∙ ap (has_id x) (sym v.built)
      ∙ has_id-shape x s.nodes

  has_id-t : (x : OpId) → has_id x t.nodes ≡ (same_op_id op.id x || has_id x s.nodes)
  unfolding node_of
  has_id-t x = rw (land-nodes op s) (has_id-link_node x op.origin_id (node_of op) s.nodes rooted)

  is_buried-t : (x : OpId) → is_buried x t.nodes ≡ is_buried x s.nodes
  unfolding node_of
  is_buried-t x =
      rw (land-nodes op s) (is_buried-link_node x op.origin_id (node_of op) s.nodes new refl)

  Rooted-history : Rooted op.origin_id v.history
  Rooted-history = Rooted-same op.origin_id s.nodes v.history (λ x. sym (has_id-history x)) rooted

  built-t : map shape t.nodes ≡ build (add (shape (node_of op)) v.history)
  unfolding node_of shape
  built-t = rw (land-nodes op s) (
      link_node-shape op.origin_id (node_of op) s.nodes
      ∙ ap (link_node op.origin_id (shape (node_of op))) v.built
      ∙ sym (
          build-add (shape (node_of op)) v.history v.ordered (has_id-history op.id ∙ new)
            Rooted-history (causal op (v.queued (insert op) (inl refl)))))

  ready-t : Ready delivered op.id
  ready-t = origin op.origin_id refl Rooted-history
    where
      origin : (o : Option OpId) → op.origin_id ≡ o → Rooted o v.history → Ready delivered op.id
      origin none e r = first op (v.queued (insert op) (inl refl)) e refl
      origin (some o) e r =
          let (n, m, at) = node_with_id o v.history r in
          let (_, _, _, ready) = v.known n m in
          next op o (v.queued (insert op) (inl refl)) e (subst (Ready delivered) at ready) refl

  Applied-t : (x : Op) → Applied x s.nodes → Applied x t.nodes
  Applied-t (insert x) a = ground (arith, has_id-t x.id)
  Applied-t (delete x) a = is_buried-t x.target_id ∙ a
  Applied-t (format x) a = ground (arith, has_id-t x.target_id)

  Waits-t : (x : Op) → Waits x s → Settled x t rest
  Waits-t x (d, e, f, m) = elim (Bool-cases (same_op_id op.id d)) [
    | inl hit ↦
        let at = (same_op_id_iff op.id d).0 hit in
        inr (inr (In-append_right x queue (buffered key s) (rw at m)))
    | inr miss ↦ inr (
        inl (
          d,
          e,
          has_id-t d ∙ ground arith,
          rw (land-buffered (op_id_to_string d) op s, text_eq-key op.id d, miss) m,
        ))
  ]

  buffered-t : (k : Text) (x : Op) → In x (buffered k t) → In x (buffered k s)
  buffered-t k x m = elim (Bool-cases (text_eq (op_id_to_string op.id) k)) [
    | inl hit ↦ absurd (rw (land-buffered k op s, hit) at m)
    | inr miss ↦ rw (land-buffered k op s, miss) at m
  ]

  pub Inv-land : Inv delivered t rest
  unfolding shape node_of
  Inv-land = record {
    history = add (shape (node_of op)) v.history;
    ordered = ordered;
    built = built-t;
    known = λ n m. elim (In-add n (shape (node_of op)) v.history m) [
      | inl e ↦ (op, v.queued (insert op) (inl refl), e, rw e ready)
      | inr old ↦ v.known n old
    ];
    graves = λ d h. v.graves d (sym (is_buried-t d.target_id) ∙ h);
    settled = λ x m.
        Settled-step (insert op) x s t queue rest (Applied-t x) (Waits-t x) (λ e. inl (rw e (here)))
          (λ q. In-append_left x queue (buffered key s) q) (v.settled x m);
    queued = λ x m. elim (In-append x queue (buffered key s) m) [
      | inl q ↦ v.queued x (inr q)
      | inr w ↦ v.waiting key x w
    ];
    waiting = λ k x m. v.waiting k x (buffered-t k x m);
  }
    where
      ordered : History (add (shape (node_of op)) v.history)
      ordered =
          History-add (shape (node_of op)) v.history v.ordered (has_id-history op.id ∙ new)
            Rooted-history (causal op (v.queued (insert op) (inl refl)))

      ready : Ready delivered (shape (node_of op)).id
      ready = ready-t

      here : has_id op.id t.nodes ≡ true
      here = ground (arith, has_id-t op.id, same_op_id_iff op.id op.id)
