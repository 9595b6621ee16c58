-- ===== src/Crdt/Rga/Delivery.antt =====
-- The invariant of the loop of `apply` in packages/crdt/src/rga.ts: every op delivered so far has
-- taken effect, waits for a dependency that is missing, or is still queued.
use ysync.Common.{
  ◌≡◌, refl, sym, ◌∙◌, subst, inl, inr, ◌⊎◌, true, false, List, ◌∷◌, map, Option, none, some, In,
}
use ysync.Common.Texts.{Text}
use ysync.Crdt.OpId.{OpId, op_id_to_string}
use ysync.Crdt.Node.{Node}
use ysync.Crdt.Op.{Op, InsertOp, DeleteOp, insert, delete, format}
use ysync.Crdt.Rga.{Rga, node_of}
use ysync.Crdt.Rga.Canonical.{has_id, Causal, History, build}
use ysync.Crdt.Rga.Shapes.{shape, has_id_same}
use ysync.Crdt.Rga.Tombstones.{is_buried}
use ysync.Crdt.Rga.Pending.{buffered}

-- What an op needs to find.
abbrev pub dependency : Op → Option OpId
dependency (insert op) = op.origin_id
dependency (delete op) = some op.target_id
dependency (format op) = some op.target_id

-- The op has taken effect on the document. (For a format op: its target is there.)
abbrev pub Applied : Op → List Node → Type 0
Applied (insert op) l = has_id op.id l ≡ true
Applied (delete op) l = is_buried op.target_id l ≡ true
Applied (format op) l = has_id op.target_id l ≡ true

-- The op is in the buffer, and what it needs is missing.
abbrev pub Waits : Op → Rga → Type 0
Waits op s =
    (d : OpId) × (dependency op ≡ some d)
    × (has_id d s.nodes ≡ false)
    × In op (buffered (op_id_to_string d) s)

abbrev pub Settled : Op → Rga → List Op → Type 0
Settled op s queue = Applied op s.nodes ⊎ Waits op s ⊎ In op queue

-- An insert with this id was delivered, and so were those of its origin, its origin's, and on.
pub data Ready (delivered : List Op) : OpId → Type 0 where
  first :
      {id : OpId} (op : InsertOp)
      → In (insert op) delivered
      → op.origin_id ≡ none
      → id ≡ op.id
      → Ready delivered id
  next :
      {id : OpId} (op : InsertOp) (o : OpId)
      → In (insert op) delivered
      → op.origin_id ≡ some o
      → Ready delivered o
      → id ≡ op.id
      → Ready delivered id

-- The node is as a delivered insert made it.
abbrev pub Known : List Op → Node → Type 0
Known delivered n =
    (op : InsertOp) × In (insert op) delivered × (n ≡ shape (node_of op)) × Ready delivered n.id

-- Every insert among the ops is newer than its origin.
abbrev pub AllCausal : List Op → Type 0
AllCausal ops = (op : InsertOp) → In (insert op) ops → Causal op.id op.origin_id

pub record Inv (delivered : List Op) (s : Rga) (queue : List Op) : Type 0 where
  pub history : List Node
  pub ordered : History history
  pub built : map shape s.nodes ≡ build history
  pub known : (n : Node) → In n history → Known delivered n
  pub graves : (d : DeleteOp) → is_buried d.target_id s.nodes ≡ true → In (delete d) delivered
  pub settled : (op : Op) → In op delivered → Settled op s queue
  pub queued : (op : Op) → In op queue → In op delivered
  pub waiting : (k : Text) (op : Op) → In op (buffered k s) → In op delivered

-- A settled op stays settled, if its effect stays, its wait goes on or ends in the queue, and the
-- op just delivered is settled.
pub Settled-step :
    (op x : Op) (s t : Rga) (queue rest : List Op)
    → (Applied x s.nodes → Applied x t.nodes)
    → (Waits x s → Settled x t rest)
    → (x ≡ op → Settled x t rest)
    → (In x queue → In x rest)
    → Settled x s (op ∷ queue)
    → Settled x t rest
Settled-step op x s t queue rest keep wait now stay (inl a) = inl (keep a)
Settled-step op x s t queue rest keep wait now stay (inr (inl w)) = wait w
Settled-step op x s t queue rest keep wait now stay (inr (inr (inl e))) = now e
Settled-step op x s t queue rest keep wait now stay (inr (inr (inr m))) = inr (inr (stay m))

-- Where the document and the buffer are as before, so is a wait.
pub Waits-same :
    (x : Op) (s t : Rga)
    → ((d : OpId) → has_id d t.nodes ≡ has_id d s.nodes)
    → ((k : Text) → buffered k t ≡ buffered k s)
    → Waits x s
    → Waits x t
Waits-same x s t h b (d, e, f, m) = (d, e, h d ∙ f, subst (In x) (sym (b (op_id_to_string d))) m)

Applied-same :
    (x : Op) (l m : List Node)
    → ((d : OpId) → has_id d m ≡ has_id d l)
    → ((d : OpId) → is_buried d l ≡ true → is_buried d m ≡ true)
    → Applied x l
    → Applied x m
Applied-same (insert op) l m h b a = h op.id ∙ a
Applied-same (delete op) l m h b a = b op.target_id a
Applied-same (format op) l m h b a = h op.target_id ∙ a

-- A write that keeps the shapes, buries no node without its delete op, and settles the op.
pub Inv-update :
    (delivered : List Op) (op : Op) (s t : Rga) (queue : List Op)
    → Inv delivered s (op ∷ queue)
    → map shape t.nodes ≡ map shape s.nodes
    → ((k : Text) → buffered k t ≡ buffered k s)
    → ((d : OpId) → is_buried d s.nodes ≡ true → is_buried d t.nodes ≡ true)
    → ((d : DeleteOp)
        → is_buried d.target_id t.nodes ≡ true
        → (is_buried d.target_id s.nodes ≡ true) ⊎ (delete d ≡ op))
    → Applied op t.nodes
    → Inv delivered t queue
Inv-update delivered op s t queue v shapes pend grow graves done = record {
  history = v.history;
  ordered = v.ordered;
  built = shapes ∙ v.built;
  known = v.known;
  graves = λ d h. elim (graves d h) [
    | inl old ↦ v.graves d old
    | inr now ↦ rw now (v.queued op (inl refl))
  ];
  settled = λ x m.
      Settled-step op x s t queue queue (Applied-same x s.nodes t.nodes same grow)
        (λ w. inr (inl (Waits-same x s t same pend w))) (λ e. inl (rw e done)) (λ q. q)
        (v.settled x m);
  queued = λ x m. v.queued x (inr m);
  waiting = λ k x m. v.waiting k x (subst (In x) (pend k) m);
}
  where
    same : (d : OpId) → has_id d t.nodes ≡ has_id d s.nodes
    same d = has_id_same d t.nodes s.nodes shapes
