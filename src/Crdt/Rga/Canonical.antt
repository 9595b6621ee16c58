-- ===== src/Crdt/Rga/Canonical.antt =====
-- The document order of packages/crdt/src/rga.ts as a function of the set of inserts: integrate
-- them by ascending id.
use ysync.Common.{
  ◌≡◌, refl, sym, ◌∙◌, ap, ap₂, ◌≢◌, inl, inr, Bool, true, false, ◌||◌, List, [], ◌∷◌, Option, none,
  some, In, All, if◌then◌else◌, Bool-cases, arith,
}
use ysync.Crdt.OpId.{OpId, newer, same_op_id}
use ysync.Crdt.OpId.Order.{same_op_id_iff, newer_irrefl, newer_trans, newer_total}
use ysync.Crdt.Node.{Node}
use ysync.Crdt.Rga.{skip_newer, link_after, link_node}
use ysync.Crdt.Rga.Integrate.{link_node_comm}

-- Some node of the list has the id.
unfoldable pub has_id : OpId → List Node → Bool
has_id id [] = false
has_id id (n ∷ l) = same_op_id n.id id || has_id id l

-- An origin that is there, or the start of the document.
abbrev pub Rooted : Option OpId → List Node → Type 0
Rooted none l = Unit {0}
Rooted (some o) l = has_id o l ≡ true

-- An id is newer than its origin.
abbrev pub Causal : OpId → Option OpId → Type 0
Causal id none = Unit {0}
Causal id (some o) = newer id o ≡ true

-- Inserts by descending id, each after its origin.
abbrev pub History : List Node → Type 0
History [] = Unit {0}
History (n ∷ s) = All (λ m. newer n.id m.id ≡ true) s × Rooted n.origin_id s × History s

unfoldable pub build : List Node → List Node
build [] = []
build (n ∷ s) = link_node n.origin_id n (build s)

unfoldable pub add : Node → List Node → List Node
add n [] = n ∷ []
add n (m ∷ s) = if newer n.id m.id then n ∷ m ∷ s else m ∷ add n s

-- What is newer than every id of a list is not in it.
pub has_id_above :
    (id : OpId) (s : List Node) → All (λ m. newer id m.id ≡ true) s → has_id id s ≡ false
unfolding has_id
has_id_above id [] h = refl
has_id_above id (m ∷ s) h =
    ground (arith, has_id_above id s h.1, same_op_id_iff m.id id, newer_irrefl id)

pub has_id-skip_newer :
    (x : OpId) (n : Node) (l : List Node)
    → has_id x (skip_newer n l) ≡ (same_op_id n.id x || has_id x l)
unfolding has_id skip_newer
has_id-skip_newer x n [] = refl
has_id-skip_newer x n (r ∷ l) = ground (arith, has_id-skip_newer x n l)

pub has_id-link_after :
    (x anchor : OpId) (n : Node) (l : List Node)
    → has_id anchor l ≡ true
    → has_id x (link_after anchor n l) ≡ (same_op_id n.id x || has_id x l)
unfolding has_id link_after
has_id-link_after x anchor n [] h = cc
has_id-link_after x anchor n (r ∷ l) h =
    ground (arith, has_id-link_after x anchor n l, has_id-skip_newer x n l)

-- Integration adds one id.
pub has_id-link_node :
    (x : OpId) (o : Option OpId) (n : Node) (l : List Node)
    → Rooted o l
    → has_id x (link_node o n l) ≡ (same_op_id n.id x || has_id x l)
unfolding link_node
has_id-link_node x none n l h = has_id-skip_newer x n l
has_id-link_node x (some o) n l h = has_id-link_after x o n l h

pub has_id-add :
    (x : OpId) (n : Node) (s : List Node) → has_id x (add n s) ≡ (same_op_id n.id x || has_id x s)
unfolding has_id add
has_id-add x n [] = refl
has_id-add x n (m ∷ s) = ground (arith, has_id-add x n s)

Rooted-add : (o : Option OpId) (n : Node) (s : List Node) → Rooted o s → Rooted o (add n s)
Rooted-add none n s h = tt
Rooted-add (some o) n s h = ground (arith, has_id-add o n s)

All-add : (P : Node → Type 0) (n : Node) (s : List Node) → P n → All P s → All P (add n s)
unfolding add
All-add P n [] p h = (p, tt)
All-add P n (m ∷ s) p h = ground (arith, All-add P n s p h.1)

mutual_order :
    (n m : Node) → newer n.id m.id ≡ false → same_op_id m.id n.id ≡ false → newer m.id n.id ≡ true
mutual_order n m h k = ground (arith, newer_total n.id m.id h, same_op_id_iff m.id n.id)

newer-All :
    (n m : Node) (s : List Node)
    → newer n.id m.id ≡ true
    → All (λ x. newer m.id x.id ≡ true) s
    → All (λ x. newer n.id x.id ≡ true) s
newer-All n m [] h a = tt
newer-All n m (x ∷ s) h a = (newer_trans n.id m.id x.id h a.0, newer-All n m s h a.1)

-- The origin of an insert is older, so it is not the newer node `m`.
Rooted-below :
    (n m : Node) (s : List Node)
    → newer m.id n.id ≡ true
    → Causal n.id n.origin_id
    → Rooted n.origin_id (m ∷ s)
    → Rooted n.origin_id s
unfolding has_id
Rooted-below n m s h c r = go n.origin_id c r
  where
    go : (o : Option OpId) → Causal n.id o → Rooted o (m ∷ s) → Rooted o s
    go none c r = tt
    go (some o) c r = ground (arith, same_op_id_iff m.id o, newer_trans m.id n.id o, newer_irrefl o)

pub History-add :
    (n : Node) (s : List Node)
    → History s
    → has_id n.id s ≡ false
    → Rooted n.origin_id s
    → Causal n.id n.origin_id
    → History (add n s)
unfolding add has_id
History-add n [] h f r c = (tt, r, tt)
History-add n (m ∷ s) h f r c = elim (Bool-cases (newer n.id m.id)) [
  | inl gt ↦ rw gt ((gt, newer-All n m s gt h.0), r, h)
  | inr le ↦
      let below : newer m.id n.id ≡ true = mutual_order n m le (ground arith) in
      rw le (
        All-add (λ x. newer m.id x.id ≡ true) n s below h.0,
        Rooted-add m.origin_id n s h.1,
        History-add n s h.2 (ground arith) (Rooted-below n m s below c r) c,
      )
]

Rooted-ne :
    (o : Option OpId) (x : OpId) (s : List Node) → Rooted o s → has_id x s ≡ false → o ≢ some x
Rooted-ne none x s r f = λ e. cc
Rooted-ne (some o) x s r f = λ e. ground arith

-- To add an insert to a history is to integrate it into the document that the history builds, where
-- its id is new, its origin is there, and it is newer than its origin.
pub build-add :
    (n : Node) (s : List Node)
    → History s
    → has_id n.id s ≡ false
    → Rooted n.origin_id s
    → Causal n.id n.origin_id
    → build (add n s) ≡ link_node n.origin_id n (build s)
unfolding add has_id build
build-add n [] h f r c = refl
build-add n (m ∷ s) h f r c = elim (Bool-cases (newer n.id m.id)) [
  | inl gt ↦ rw gt
  | inr le ↦
      let below : newer m.id n.id ≡ true = mutual_order n m le (ground arith) in
      let rooted : Rooted n.origin_id s = Rooted-below n m s below c r in
      rw (le, build-add n s h.2 (ground arith) rooted c)
        (link_node_comm m n m.origin_id n.origin_id (build s)
          (λ e. ground (arith, newer_irrefl m.id)) (Rooted-ne m.origin_id n.id s h.1 (ground arith))
          (Rooted-ne n.origin_id m.id s rooted (has_id_above m.id s h.0)))
]

newer_of_All :
    (id : OpId) (n : Node) (s : List Node)
    → All (λ m. newer id m.id ≡ true) s
    → In n s
    → newer id n.id ≡ true
newer_of_All id n [] a h = absurd h
newer_of_All id n (m ∷ s) a (inl e) = rw e a.0
newer_of_All id n (m ∷ s) a (inr i) = newer_of_All id n s a.1 i

-- A set of inserts has one history.
pub History-unique :
    (s t : List Node)
    → History s
    → History t
    → ((n : Node) → In n s → In n t)
    → ((n : Node) → In n t → In n s)
    → s ≡ t
History-unique [] [] h k f g = refl
History-unique [] (m ∷ t) h k f g = absurd (g m (inl refl))
History-unique (n ∷ s) [] h k f g = absurd (f n (inl refl))
History-unique (n ∷ s) (m ∷ t) h k f g =
    ap₂ ◌∷◌ heads
      (History-unique s t h.2 k.2 (below n m s t h.0 heads f) (below m n t s k.0 (sym heads) g))
  where
    heads : n ≡ m
    heads = elim (f n (inl refl)) [
      | inl e ↦ e
      | inr i ↦ elim (g m (inl refl)) [
        | inl e ↦ sym e
        | inr j ↦
            let up = newer_of_All m.id n t k.0 i in
            let down = newer_of_All n.id m s h.0 j in
            cc (newer_trans n.id m.id n.id down up, newer_irrefl n.id)
      ]
    ]

    below :
        (a b : Node) (u w : List Node)
        → All (λ x. newer a.id x.id ≡ true) u
        → a ≡ b
        → ((x : Node) → In x (a ∷ u) → In x (b ∷ w))
        → (x : Node) → In x u
        → In x w
    below a b u w all e incl x i = elim (incl x (inr i)) [
      | inl at ↦
          let up = newer_of_All a.id x u all i in
          cc (newer_irrefl a.id, ap (λ (y : Node). newer a.id y.id) (at ∙ sym e), up)
      | inr j ↦ j
    ]
