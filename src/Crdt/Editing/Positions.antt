-- ===== src/Crdt/Editing/Positions.antt =====
-- Local edits of packages/crdt/src/rga.ts on the characters that are visible.
use ysync.Common.{
  ℕ, zero, suc, ◌+◌, ◌≤◌, ◌<◌, ◌≡◌, refl, ap, ◌∙◌, inl, inr, ◌⊎◌, ltb, true, false, List, [], ◌∷◌,
  map, Option, none, some, All, length, if◌then◌else◌, Bool-cases, arith,
}
use ysync.Common.Texts.{Text}
use ysync.Crdt.OpId.{OpId, newer}
use ysync.Crdt.OpId.Order.{same_op_id_iff}
use ysync.Crdt.Node.{Node, FormatMark}
use ysync.Crdt.Op.{DeleteOp}
use ysync.Crdt.Rga.{Rga, node_of, skip_newer, link_after, link_node, integrate, update_node, bury}
use ysync.Crdt.Rga.Canonical.{has_id}
use ysync.Crdt.Rga.Shapes.{Distinct}
use ysync.Crdt.Rga.WellFormed.{IsWellFormed}
use ysync.Crdt.Editing.{
  advance, head_node, find_node_at_position, find_anchor, id_of, local_insert, local_delete,
}

-- The nodes that count as positions.
unfoldable pub live : List Node → List Node
live [] = []
live (n ∷ l) = if n.tombstone then live l else n ∷ live l

-- What the user sees.
unfoldable pub characters : List Node → List (Option Text)
unfolding live
characters l = map (λ n. n.value) (live l)

module _ {A : Type 0} where
  abbrev pub get_elem? : List A → ℕ → Option A
  get_elem? [] i = none
  get_elem? (x ∷ xs) zero = some x
  get_elem? (x ∷ xs) (suc i) = get_elem? xs i

  -- A list with an element put in at an index, or at its end.
  abbrev pub insert_at : ℕ → A → List A → List A
  insert_at zero a xs = a ∷ xs
  insert_at (suc i) a [] = a ∷ []
  insert_at (suc i) a (x ∷ xs) = x ∷ insert_at i a xs

  abbrev pub remove_at : ℕ → List A → List A
  remove_at i [] = []
  remove_at zero (x ∷ xs) = xs
  remove_at (suc i) (x ∷ xs) = x ∷ remove_at i xs

map-insert_at :
    {A B : Type 0} (f : A → B) (i : ℕ) (a : A) (xs : List A)
    → map f (insert_at i a xs) ≡ insert_at i (f a) (map f xs)
map-insert_at f zero a xs = refl
map-insert_at f (suc i) a [] = refl
map-insert_at f (suc i) a (x ∷ xs) = ap (◌∷◌ (f x)) (map-insert_at f i a xs)

map-remove_at :
    {A B : Type 0} (f : A → B) (i : ℕ) (xs : List A)
    → map f (remove_at i xs) ≡ remove_at i (map f xs)
map-remove_at f i [] = refl
map-remove_at f zero (x ∷ xs) = refl
map-remove_at f (suc i) (x ∷ xs) = ap (◌∷◌ (f x)) (map-remove_at f i xs)

-- `findNodeAtPosition` finds the visible character at the position, if there is one.
pub find_node_at_position-live :
    (p : ℕ) (l : List Node) → find_node_at_position p l ≡ get_elem? (live l) p
unfolding find_node_at_position live
find_node_at_position-live p [] = none_there p
  where
    none_there : (p : ℕ) → head_node (advance p []) ≡ none
    none_there zero = refl
    none_there (suc p) = refl
find_node_at_position-live zero (n ∷ l) = ground (arith, find_node_at_position-live zero l)
find_node_at_position-live (suc p) (n ∷ l) =
    ground (arith, find_node_at_position-live (suc p) l, find_node_at_position-live p l)

-- No node of the list is newer than the id.
abbrev pub IsNewest : OpId → List Node → Type 0
IsNewest id l = All (λ m. newer m.id id ≡ false) l

skip_newer_newest : (n : Node) (l : List Node) → IsNewest n.id l → skip_newer n l ≡ n ∷ l
unfolding skip_newer
skip_newer_newest n [] h = refl
skip_newer_newest n (m ∷ l) h = rw h.0

pub has_id-live :
    (p : ℕ) (a : Node) (l : List Node) → get_elem? (live l) p ≡ some a → has_id a.id l ≡ true
unfolding live has_id
has_id-live p a [] e = cc
has_id-live zero a (n ∷ l) e = ground (arith, has_id-live zero a l, same_op_id_iff n.id a.id)
has_id-live (suc p) a (n ∷ l) e = ground (arith, has_id-live (suc p) a l, has_id-live p a l)

-- The newest node lands right behind its anchor.
live-link_after :
    (p : ℕ) (a n : Node) (l : List Node)
    → get_elem? (live l) p ≡ some a
    → Distinct l
    → IsNewest n.id l
    → n.tombstone ≡ false
    → live (link_after a.id n l) ≡ insert_at (suc p) n (live l)
unfolding live link_after
live-link_after p a n [] e d h t = cc
live-link_after zero a n (m ∷ l) e d h t = ground (
  arith,
  live-link_after zero a n l,
  skip_newer_newest n l h.1,
  same_op_id_iff m.id a.id,
  has_id-live zero a l,
)
live-link_after (suc p) a n (m ∷ l) e d h t = ground (
  arith,
  live-link_after (suc p) a n l,
  live-link_after p a n l,
  skip_newer_newest n l h.1,
  same_op_id_iff m.id a.id,
  has_id-live (suc p) a l,
  has_id-live p a l,
)

live-bury :
    (p : ℕ) (a : Node) (l : List Node)
    → get_elem? (live l) p ≡ some a
    → Distinct l
    → live (update_node a.id bury l) ≡ remove_at p (live l)
unfolding live update_node bury
live-bury p a [] e d = cc
live-bury zero a (m ∷ l) e d =
    ground (arith, live-bury zero a l, same_op_id_iff m.id a.id, has_id-live zero a l)
live-bury (suc p) a (m ∷ l) e d = ground (
  arith,
  live-bury (suc p) a l,
  live-bury p a l,
  same_op_id_iff m.id a.id,
  has_id-live (suc p) a l,
  has_id-live p a l,
)

get_elem?_lt :
    {A : Type 0} (xs : List A) (i : ℕ) → i < length xs → (a : A) × (get_elem? xs i ≡ some a)
get_elem?_lt [] i h = elim h [ ]
get_elem?_lt (x ∷ xs) zero h = (x, refl)
get_elem?_lt (x ∷ xs) (suc i) h = get_elem?_lt xs i (omega arith)

get_elem?_ge : {A : Type 0} (xs : List A) (i : ℕ) → length xs ≤ i → get_elem? xs i ≡ none
get_elem?_ge [] i h = refl
get_elem?_ge (x ∷ xs) zero h = elim h [ ]
get_elem?_ge (x ∷ xs) (suc i) h = get_elem?_ge xs i (omega arith)

pub IsNewest-id :
    (r : Text) (c : ℕ) (l : List Node)
    → All (λ m. m.id.counter ≤ c) l
    → IsNewest (record { counter = c + 1; replica_id = r }) l
unfolding newer
IsNewest-id r c [] h = tt
IsNewest-id r c (m ∷ l) h = (ground arith, IsNewest-id r c l h.1)

live_cons : (n : Node) (l : List Node) → n.tombstone ≡ false → live (n ∷ l) ≡ n ∷ live l
unfolding live
live_cons n l t = ground arith

live_insert :
    (index : ℕ) (n : Node) (l : List Node)
    → Distinct l
    → IsNewest n.id l
    → n.tombstone ≡ false
    → index ≤ length (live l)
    → live (link_node (id_of (find_anchor index l)) n l) ≡ insert_at index n (live l)
unfolding find_anchor id_of link_node
live_insert zero n l d h t i = ap live (skip_newer_newest n l h) ∙ live_cons n l t
live_insert (suc p) n l d h t i =
    let (a, e) = get_elem?_lt (live l) p i in
    rw (find_node_at_position-live p l, e) (live-link_after p a n l e d h t)

module _ (s : Rga) (v : IsWellFormed s) where
  -- On a well-formed replica, a local insert at an index up to the number of visible characters
  -- puts its value at the index, and leaves every other character where it was.
  pub characters-local_insert :
      (index : ℕ) (value : Text) (attrs : Option FormatMark)
      → index ≤ length (live s.nodes)
      → characters (local_insert s index value attrs).0.nodes
        ≡ insert_at index (some value) (characters s.nodes)
  unfolding local_insert characters integrate node_of
  characters-local_insert index value attrs h =
      ap (map (λ (n : Node). n.value)) (
        live_insert index _ s.nodes v.distinct
          (IsNewest-id s.replica_id s.counter s.nodes v.counted) refl h)
      ∙ map-insert_at (λ (n : Node). n.value) index _ (live s.nodes)

  -- On a well-formed replica, a local delete takes out the character at the index and no other;
  -- where there is none it throws.
  pub characters-local_delete :
      (index : ℕ)
      → ((index < length (live s.nodes))
          × ((r : Rga × DeleteOp) × (local_delete s index ≡ some r)
              × (characters r.0.nodes ≡ remove_at index (characters s.nodes))))
        ⊎ ((length (live s.nodes) ≤ index) × (local_delete s index ≡ none))
  unfolding local_delete characters
  characters-local_delete index = elim (Bool-cases (ltb index (length (live s.nodes)))) [
    | inl lt ↦
        let (a, e) = get_elem?_lt (live s.nodes) index (ground arith) in
        inl (
          ground arith,
          (
            (record s { nodes = update_node a.id bury s.nodes }, record { target_id = a.id }),
            rw (find_node_at_position-live index s.nodes, local_delete, e),
            ap (map (λ (n : Node). n.value)) (live-bury index a s.nodes e v.distinct)
                ∙ map-remove_at (λ (n : Node). n.value) index (live s.nodes),
          ),
        )
    | inr ge ↦ inr (
      ground arith,
      rw (
        find_node_at_position-live index s.nodes,
        local_delete,
        get_elem?_ge (live s.nodes) index (ground arith),
      ),
    )
  ]
