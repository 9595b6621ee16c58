-- ===== src/Crdt/Rga/Shapes.antt =====
-- What the operations of packages/crdt/src/rga.ts leave of a node: its shape is what its insert
-- gave it, its core adds the tombstone.
use ysync.Common.{
  ◌≡◌, refl, sym, ◌∙◌, ap, inl, inr, true, false, List, [], ◌∷◌, map, Option, none, some,
  Bool-cases, arith,
}
use ysync.Common.Texts.{text_eq, text_eq_iff, text_eq_refl}
use ysync.Crdt.OpId.{OpId, same_op_id, op_id_to_string}
use ysync.Crdt.OpId.Order.{same_op_id_iff}
use ysync.Crdt.OpId.Keys.{op_id_to_string_injective}
use ysync.Crdt.Node.{Node}
use ysync.Crdt.Rga.{skip_newer, link_after, link_node, find_node, update_node}
use ysync.Crdt.Rga.Canonical.{
  has_id, Rooted, History, build, has_id-skip_newer, has_id-link_after, has_id-link_node,
  has_id_above,
}

unfoldable pub shape : Node → Node
shape n = record n { tombstone = false; attrs = none; format_clock = none }

unfoldable pub core : Node → Node
core n = record n { attrs = none; format_clock = none }

skip_newer-shape :
    (n : Node) (l : List Node) → map shape (skip_newer n l) ≡ skip_newer (shape n) (map shape l)
unfolding skip_newer shape
skip_newer-shape n [] = refl
skip_newer-shape n (r ∷ l) = ground (arith, skip_newer-shape n l)

link_after-shape :
    (o : OpId) (n : Node) (l : List Node)
    → map shape (link_after o n l) ≡ link_after o (shape n) (map shape l)
unfolding link_after shape
link_after-shape o n [] = refl
link_after-shape o n (r ∷ l) = ground (arith, link_after-shape o n l, skip_newer-shape n l)

pub link_node-shape :
    (o : Option OpId) (n : Node) (l : List Node)
    → map shape (link_node o n l) ≡ link_node o (shape n) (map shape l)
unfolding link_node
link_node-shape none n l = skip_newer-shape n l
link_node-shape (some o) n l = link_after-shape o n l

pub has_id-shape : (x : OpId) (l : List Node) → has_id x (map shape l) ≡ has_id x l
unfolding has_id shape
has_id-shape x [] = refl
has_id-shape x (n ∷ l) = rw (has_id-shape x l)

-- A write that leaves the shape of the node leaves the document.
pub update_node-shape :
    (id : OpId) (f : Node → Node) (l : List Node)
    → ((n : Node) → shape (f n) ≡ shape n)
    → map shape (update_node id f l) ≡ map shape l
unfolding update_node
update_node-shape id f [] h = refl
update_node-shape id f (n ∷ l) h = ground (arith, h n, update_node-shape id f l h)

pub Rooted-same :
    (o : Option OpId) (l m : List Node)
    → ((x : OpId) → has_id x l ≡ has_id x m)
    → Rooted o l
    → Rooted o m
Rooted-same none l m h r = tt
Rooted-same (some o) l m h r = sym (h o) ∙ r

pub has_id-build : (x : OpId) (s : List Node) → History s → has_id x (build s) ≡ has_id x s
unfolding has_id build
has_id-build x [] h = refl
has_id-build x (n ∷ s) h =
    let below = λ (y : OpId). has_id-build y s h.2 in
    let rooted = Rooted-same n.origin_id s (build s) (λ y. sym (below y)) h.1 in
    rw (has_id-link_node x n.origin_id n (build s) rooted, below x)

-- Two ids are one exactly when their keys are.
pub text_eq-key : (a b : OpId) → text_eq (op_id_to_string a) (op_id_to_string b) ≡ same_op_id a b
text_eq-key a b = elim (Bool-cases (same_op_id a b)) [
  | inl same ↦ rw (same, (same_op_id_iff a b).0 same) (text_eq_refl (op_id_to_string b))
  | inr other ↦ elim (Bool-cases (text_eq (op_id_to_string a) (op_id_to_string b))) [
    | inl hit ↦
        cc ((same_op_id_iff a b).1 (op_id_to_string_injective a b ((text_eq_iff _ _).0 hit)))
    | inr miss ↦ rw (other, miss)
  ]
]

-- The map lookup by the string of an id is the search by the id.
pub find_node-some :
    (id : OpId) (l : List Node) (n : Node)
    → find_node (op_id_to_string id) l ≡ some n
    → (has_id id l ≡ true) × (n.id ≡ id)
unfolding find_node has_id
find_node-some id [] n e = cc
find_node-some id (m ∷ l) n e =
    ground (arith, text_eq-key m.id id, same_op_id_iff m.id id, find_node-some id l n)

pub find_node-none :
    (id : OpId) (l : List Node) → find_node (op_id_to_string id) l ≡ none → has_id id l ≡ false
unfolding find_node has_id
find_node-none id [] e = refl
find_node-none id (m ∷ l) e = ground (arith, find_node-none id l, text_eq-key m.id id)

-- No id stands twice.
abbrev pub Distinct : List Node → Type 0
Distinct [] = Unit {0}
Distinct (n ∷ l) = (has_id n.id l ≡ false) × Distinct l

Distinct-skip_newer :
    (n : Node) (l : List Node) → has_id n.id l ≡ false → Distinct l → Distinct (skip_newer n l)
unfolding skip_newer has_id
Distinct-skip_newer n [] f d = (refl, tt)
Distinct-skip_newer n (r ∷ l) f d = ground (
  arith,
  Distinct-skip_newer n l (ground arith) d.1,
  has_id-skip_newer r.id n l,
  same_op_id_iff n.id r.id,
  same_op_id_iff r.id n.id,
)

Distinct-link_after :
    (o : OpId) (n : Node) (l : List Node)
    → has_id o l ≡ true
    → has_id n.id l ≡ false
    → Distinct l
    → Distinct (link_after o n l)
unfolding link_after has_id
Distinct-link_after o n [] p f d = tt
Distinct-link_after o n (r ∷ l) p f d = ground (
  arith,
  Distinct-skip_newer n l (ground arith) d.1,
  has_id-skip_newer r.id n l,
  has_id-link_after r.id o n l,
  Distinct-link_after o n l,
  same_op_id_iff n.id r.id,
  same_op_id_iff r.id n.id,
)

pub Distinct-link_node :
    (o : Option OpId) (n : Node) (l : List Node)
    → Rooted o l
    → has_id n.id l ≡ false
    → Distinct l
    → Distinct (link_node o n l)
unfolding link_node
Distinct-link_node none n l r f d = Distinct-skip_newer n l f d
Distinct-link_node (some o) n l r f d = Distinct-link_after o n l r f d

pub Distinct-shape : (l : List Node) → Distinct (map shape l) → Distinct l
unfolding shape
Distinct-shape [] d = tt
Distinct-shape (n ∷ l) d = (sym (has_id-shape n.id l) ∙ d.0, Distinct-shape l d.1)

pub has_id_same : (x : OpId) (l m : List Node) → map shape l ≡ map shape m → has_id x l ≡ has_id x m
has_id_same x l m e = cc (has_id-shape x l, has_id-shape x m, ap (has_id x) e)

-- A canonical document holds no id twice.
pub Distinct-build : (s : List Node) → History s → Distinct (build s)
unfolding build
Distinct-build [] h = tt
Distinct-build (n ∷ s) h =
    let ids = λ (x : OpId). has_id-build x s h.2 in
    Distinct-link_node n.origin_id n (build s)
      (Rooted-same n.origin_id s (build s) (λ x. sym (ids x)) h.1)
      (ids n.id ∙ has_id_above n.id s h.0) (Distinct-build s h.2)
