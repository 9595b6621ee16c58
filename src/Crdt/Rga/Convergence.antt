-- ===== src/Crdt/Rga/Convergence.antt =====
-- Replicas that are handed the same ops by `apply` of packages/crdt/src/rga.ts.
use ysync.Common.{
  suc, ◌≡◌, refl, sym, ◌∙◌, ap, subst, inl, inr, ◌⊎◌, ◌↔◌, Bool, true, false, List, [], ◌∷◌, map,
  Option, none, some, In,
}
use ysync.Common.Texts.{Text}
use ysync.Common.Maps
use ysync.Crdt.OpId.{OpId}
use ysync.Crdt.Node.{Node}
use ysync.Crdt.Op.{Op, InsertOp, insert, delete}
use ysync.Crdt.Rga.{Rga, new_rga, node_of, apply, apply_all, pending_count}
use ysync.Crdt.View.{read, read_nodes, read_nodes-core}
use ysync.Crdt.Rga.Canonical.{has_id, build, History-unique}
use ysync.Crdt.Rga.Shapes.{
  shape, core, has_id-shape, has_id-build, Distinct, Distinct-shape, Distinct-build,
}
use ysync.Crdt.Rga.Tombstones.{is_buried, core_of_shape, has_id_of_buried}
use ysync.Crdt.Rga.Pending.{buffered}
use ysync.Crdt.Rga.Delivery.{Ready, first, next, AllCausal, Inv}
use ysync.Crdt.Rga.Landing.{node_with_id}
use ysync.Crdt.Rga.Replay.{Inv-drain}
use ysync.Crdt.Rga.Fuel.{apply_done}

Ready-more : {ops : List Op} {id : OpId} (op : Op) → Ready ops id → Ready (op ∷ ops) id
Ready-more op (first x m e i) = first x (inr m) e i
Ready-more op (next x o m e r i) = next x o (inr m) e (Ready-more op r) i

Inv-empty : (r : Text) → Inv [] (new_rga r) []
unfolding new_rga build is_buried buffered Maps.get
Inv-empty r = record {
  history = [];
  ordered = tt;
  built = refl;
  known = λ n m. absurd m;
  graves = λ d h. cc;
  settled = λ op m. absurd m;
  queued = λ op m. absurd m;
  waiting = λ k op m. absurd m;
}

-- A new op joins the queue.
Inv-enqueue : (ops : List Op) (op : Op) (s : Rga) → Inv ops s [] → Inv (op ∷ ops) s (op ∷ [])
Inv-enqueue ops op s v = record {
  history = v.history;
  ordered = v.ordered;
  built = v.built;
  known = λ n m. let (x, i, e, r) = v.known n m in (x, inr i, e, Ready-more op r);
  graves = λ d h. inr (v.graves d h);
  settled = λ x m. elim m [
    | inl e ↦ inr (inr (inl e))
    | inr old ↦ elim (v.settled x old) [
      | inl a ↦ inl a
      | inr (inl w) ↦ inr (inl w)
      | inr (inr q) ↦ absurd q
    ]
  ];
  queued = λ x m. elim m [ inl e ↦ inl e | inr q ↦ absurd q ];
  waiting = λ k x m. inr (v.waiting k x m);
}

Inv-apply :
    (ops : List Op) (op : Op) (s : Rga)
    → AllCausal (op ∷ ops)
    → Inv ops s []
    → Inv (op ∷ ops) (apply op s) []
unfolding apply
Inv-apply ops op s causal v = rw (apply_done op s) at (
    Inv-drain (op ∷ ops) (suc (pending_count s.pending)) (op ∷ []) s causal
      (Inv-enqueue ops op s v))

-- The ops delivered after `ops`, on top of `seen`.
abbrev gather : List Op → List Op → List Op
gather seen [] = seen
gather seen (op ∷ ops) = gather (op ∷ seen) ops

In-gather : (x : Op) (seen ops : List Op) → In x (gather seen ops) ↔ (In x seen ⊎ In x ops)
In-gather x seen [] = (inl, λ m. elim m [ inl a ↦ a | inr b ↦ absurd b ])
In-gather x seen (op ∷ ops) = (
  λ m. elim ((In-gather x (op ∷ seen) ops).0 m) [
    | inl (inl e) ↦ inr (inl e)
    | inl (inr old) ↦ inl old
    | inr later ↦ inr (inr later)
  ],
  λ m. (In-gather x (op ∷ seen) ops).1 (elim m [
    | inl old ↦ inl (inr old)
    | inr (inl e) ↦ inl (inl e)
    | inr (inr later) ↦ inr later
  ]),
)

Inv-apply_all :
    (seen ops : List Op) (s : Rga)
    → AllCausal (gather seen ops)
    → Inv seen s []
    → Inv (gather seen ops) (apply_all ops s) []
unfolding apply_all
Inv-apply_all seen [] s causal v = v
Inv-apply_all seen (op ∷ ops) s causal v =
    Inv-apply_all (op ∷ seen) ops (apply op s) causal
      (Inv-apply seen op s (λ x m. causal x ((In-gather (insert x) (op ∷ seen) ops).1 (inl m))) v)

-- An id names one insert.
abbrev pub UniqueIds : List Op → Type 0
UniqueIds ops = (a b : InsertOp) → In (insert a) ops → In (insert b) ops → a.id ≡ b.id → a ≡ b

abbrev pub SameOps : List Op → List Op → Type 0
SameOps ops ops' = (op : Op) → In op ops ↔ In op ops'

ids :
    (a b : InsertOp) (n k : Node)
    → n ≡ shape (node_of a)
    → k ≡ shape (node_of b)
    → k.id ≡ n.id
    → a.id ≡ b.id
unfolding shape node_of
ids a b n k ea eb at = sym (ap (λ (x : Node). x.id) ea) ∙ sym at ∙ ap (λ (x : Node). x.id) eb

abbrev in_document : List Node → Option OpId → Bool
in_document l none = true
in_document l (some x) = has_id x l

-- Two states that have seen the same ops.
module _ {ops ops' : List Op} {s t : Rga} (v : Inv ops s []) (w : Inv ops' t [])
    (incl : (op : Op) → In op ops → In op ops') where
  ready_there : {id : OpId} → Ready ops id → has_id id t.nodes ≡ true
  ready_there {id} (first op m e i) = elim (w.settled (insert op) (incl (insert op) m)) [
    | inl a ↦ rw i a
    | inr (inl (d, dep, _, _)) ↦ cc (e, dep)
    | inr (inr q) ↦ absurd q
  ]
  ready_there {id} (next op o m e r i) = elim (w.settled (insert op) (incl (insert op) m)) [
    | inl a ↦ rw i a
    | inr (inl (d, dep, missing, _)) ↦
        let at : has_id d t.nodes ≡ has_id o t.nodes = ap (in_document t.nodes) (sym dep ∙ e) in
        cc (missing, ready_there r, at)
    | inr (inr q) ↦ absurd q
  ]

  has_id_there : (x : OpId) → has_id x s.nodes ≡ true → has_id x t.nodes ≡ true
  has_id_there x h =
      let (n, m, at) = node_with_id x v.history (
        sym (has_id-build x v.history v.ordered)
        ∙ ap (has_id x) (sym v.built)
        ∙ has_id-shape x s.nodes
        ∙ h) in
      let (_, _, _, r) = v.known n m in rw at at (ready_there r)

  history_incl :
      UniqueIds ops
      → ((op : Op) → In op ops' → In op ops)
      → (n : Node) → In n v.history
      → In n w.history
  history_incl unique back n m =
      let (a, ma, ea, r) = v.known n m in
      let there : has_id n.id w.history ≡ true =
        sym (has_id-build n.id w.history w.ordered)
        ∙ ap (has_id n.id) (sym w.built)
        ∙ has_id-shape n.id t.nodes
        ∙ ready_there r in
      let (k, mk, at) = node_with_id n.id w.history there in
      let (b, mb, eb, _) = w.known k mk in
      subst (λ (x : Node). In x w.history)
        (sym (same_node a b n k ea eb at (unique a b ma (back (insert b) mb)))) mk
    where
      same_node :
          (a b : InsertOp) (n k : Node)
          → n ≡ shape (node_of a)
          → k ≡ shape (node_of b)
          → k.id ≡ n.id
          → (a.id ≡ b.id → a ≡ b)
          → n ≡ k
      same_node a b n k ea eb at u =
          ea ∙ ap (λ (x : InsertOp). shape (node_of x)) (u (ids a b n k ea eb at)) ∙ sym eb

  buried_there : (x : OpId) → is_buried x s.nodes ≡ true → is_buried x t.nodes ≡ true
  buried_there x h =
      elim (w.settled (delete (record { target_id = x }))
        (incl _ (v.graves (record { target_id = x }) h))) [
          | inl a ↦ a
          | inr (inl (d, dep, missing, _)) ↦
              let at : has_id x t.nodes ≡ has_id d t.nodes = ap (in_document t.nodes) dep in
              cc (missing, has_id_there x (has_id_of_buried x s.nodes h), at)
          | inr (inr q) ↦ absurd q
        ]

Bool_of_iff : (a b : Bool) → (a ≡ true → b ≡ true) → (b ≡ true → a ≡ true) → a ≡ b
Bool_of_iff true b f g = sym (f refl)
Bool_of_iff false true f g = g refl
Bool_of_iff false false f g = refl

module _ {ops ops' : List Op} {s t : Rga} (v : Inv ops s []) (w : Inv ops' t [])
    (same : SameOps ops ops') (unique : UniqueIds ops) where
  incl : (op : Op) → In op ops → In op ops'
  incl op = (same op).0

  back : (op : Op) → In op ops' → In op ops
  back op = (same op).1

  unique' : UniqueIds ops'
  unique' a b ma mb = unique a b (back (insert a) ma) (back (insert b) mb)

  histories : v.history ≡ w.history
  histories =
      History-unique v.history w.history v.ordered w.ordered (history_incl v w incl unique back)
        (history_incl w v back unique' incl)

  pub same_core : map core s.nodes ≡ map core t.nodes
  same_core =
      core_of_shape s.nodes t.nodes (v.built ∙ ap build histories ∙ sym w.built)
        (Distinct-shape s.nodes (subst Distinct (sym v.built) (Distinct-build v.history v.ordered)))
        (λ x. Bool_of_iff _ _ (buried_there v w incl x) (buried_there w v back x))

In-delivered : (op : Op) (ops : List Op) → In op (gather [] ops) ↔ In op ops
In-delivered op ops = (
  λ m. elim ((In-gather op [] ops).0 m) [ inl nowhere ↦ absurd nowhere | inr here ↦ here ],
  λ m. (In-gather op [] ops).1 (inr m),
)

-- The state after a list of ops satisfies the delivery invariant for those ops.
pub Inv-replay :
    (r : Text) (ops : List Op) → AllCausal ops → Inv (gather [] ops) (apply_all ops (new_rga r)) []
Inv-replay r ops causal =
    Inv-apply_all [] ops (new_rga r) (λ x m. causal x ((In-delivered (insert x) ops).0 m))
      (Inv-empty r)

module _ (r r' : Text) (ops ops' : List Op) (causal : AllCausal ops) (unique : UniqueIds ops)
    (same : SameOps ops ops') where
  -- Two replicas that apply the same ops, each in its own order and as often as it likes, hold the
  -- same nodes in the same order, with the same values and tombstones, where every insert is newer
  -- than its origin and no two inserts have one id.
  pub apply_all_converges :
      map core (apply_all ops (new_rga r)).nodes ≡ map core (apply_all ops' (new_rga r')).nodes
  apply_all_converges =
      same_core (Inv-replay r ops causal)
        (Inv-replay r' ops' (λ x m. causal x ((same (insert x)).1 m)))
        (λ op. (
          λ m. (In-delivered op ops').1 ((same op).0 ((In-delivered op ops).0 m)),
          λ m. (In-delivered op ops).1 ((same op).1 ((In-delivered op ops').0 m)),
        ))
        (λ a b ma mb.
          unique a b ((In-delivered (insert a) ops).0 ma) ((In-delivered (insert b) ops).0 mb))

  -- Two replicas that apply the same ops, each in its own order and as often as it likes, read the
  -- same text, where every insert is newer than its origin and no two inserts have one id.
  pub read_converges : read (apply_all ops (new_rga r)) ≡ read (apply_all ops' (new_rga r'))
  unfolding read
  read_converges = sym (read_nodes-core _) ∙ ap read_nodes apply_all_converges ∙ read_nodes-core _
