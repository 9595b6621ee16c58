-- ===== src/Crdt/Editing/Echo.antt =====
-- Local edits of packages/crdt/src/rga.ts against the delivery of the ops that they return.
use ysync.Common.{
  ℕ, zero, suc, ◌+◌, ◌≤◌, ◌<◌, max, ◌≡◌, refl, sym, ap, subst, ◌∙◌, inl, inr, true, List, [], ◌∷◌,
  ◌++◌, map, Option, none, some, some_injective, Option-cases, arith,
}
use ysync.Common.Texts.{Text}
use ysync.Common.Maps
use ysync.Crdt.OpId.{OpId, op_id_to_string}
use ysync.Crdt.Node.{Node, FormatMark, FormatPatch}
use ysync.Crdt.Op.{Op, DeleteOp, FormatOp, insert, delete, format}
use ysync.Crdt.Rga.{
  Rga, integrate, find_node, update_node, bury, apply_format_op, deliver, pending_count, drain,
  apply, apply_all,
}
use ysync.Crdt.Rga.Canonical.{has_id}
use ysync.Crdt.Rga.Sequences.{apply_all-append}
use ysync.Crdt.Rga.Shapes.{find_node-some, find_node-none}
use ysync.Crdt.Rga.WellFormed.{IsWellFormed}
use ysync.Crdt.Editing.{
  find_node_at_position, local_insert, local_delete, format_marks, local_format,
}
use ysync.Crdt.Editing.Positions.{find_node_at_position-live, has_id-live}
use ysync.Crdt.Editing.Sending.{apply_idle, absent_id, anchor-Rooted}

-- No buffered op waits for an id that the replica has still to give.
abbrev pub NoneAhead : Rga → Type 0
NoneAhead s =
    (c : ℕ)
    → s.counter < c
    → Maps.get (op_id_to_string (record { counter = c; replica_id = s.replica_id })) s.pending
      ≡ none

-- Whether the second replica may follow the first by local edits.
abbrev pub IsAfter : Rga → Rga → Type 0
IsAfter s t = (t.pending ≡ s.pending) × ((t.replica_id ≡ s.replica_id) × (s.counter ≤ t.counter))

pub NoneAhead-after : (s t : Rga) → IsAfter s t → NoneAhead s → NoneAhead t
NoneAhead-after s t a h = λ c l. rw (a.0, a.1.0) (h c (omega (arith, a.1.1, l)))

drain-none :
    (fuel : ℕ) (op : Op) (s t : Rga)
    → deliver op s ≡ (t, none)
    → drain (suc fuel) (op ∷ []) s ≡ (t, [])
unfolding drain
drain-none fuel op s t e =
    let outcome : (deliver op s).1 ≡ none = ap (λ (r : Rga × Option (List Op)). r.1) e in
    let state : (deliver op s).0 ≡ t = ap (λ (r : Rga × Option (List Op)). r.0) e in
    rw (outcome, drain) (ap {B = Rga × List Op} (λ x. (x, [])) state)

apply-none : (op : Op) (s t : Rga) → deliver op s ≡ (t, none) → apply op s ≡ t
unfolding apply
apply-none op s t e =
    ap (λ (r : Rga × List Op). r.0) (drain-none (pending_count s.pending) op s t e)

found :
    (o : OpId) (l : List Node)
    → has_id o l ≡ true
    → (n : Node) × (find_node (op_id_to_string o) l ≡ some n) × (n.id ≡ o)
found o l h = elim (Option-cases (find_node (op_id_to_string o) l)) [
  | inl missing ↦ absurd (ground (arith, h, find_node-none o l missing))
  | inr (n, there) ↦ (n, there, (find_node-some o l n there).1)
]

apply-delete :
    (o : OpId) (s : Rga)
    → has_id o s.nodes ≡ true
    → apply (delete (record { target_id = o })) s ≡ record s { nodes = update_node o bury s.nodes }
unfolding deliver
apply-delete o s h =
    let (n, there, same) = found o s.nodes h in
    apply-none (delete (record { target_id = o })) s
      (record s { nodes = update_node o bury s.nodes }) (rw (there, deliver, same) refl)

apply-format :
    (op : FormatOp) (s : Rga)
    → has_id op.target_id s.nodes ≡ true
    → op.id.counter ≡ s.counter + 1
    → apply (format op) s ≡ record s {
      nodes = update_node op.target_id (apply_format_op op) s.nodes;
      counter = s.counter + 1;
    }
unfolding deliver
apply-format op s h e =
    let (n, there, same) = found op.target_id s.nodes h in
    let c : max s.counter op.id.counter ≡ s.counter + 1 = omega (arith, e) in
    apply-none (format op) s
      (record s {
        nodes = update_node op.target_id (apply_format_op op) s.nodes;
        counter = s.counter + 1;
      })
      (rw (there, deliver, same, c) refl)

id-apply_format_op : (op : FormatOp) (n : Node) → (apply_format_op op n).id ≡ n.id
unfolding apply_format_op
id-apply_format_op op n = ground arith

has_id-update_node :
    (o : OpId) (op : FormatOp) (r : OpId) (l : List Node)
    → has_id r (update_node o (apply_format_op op) l) ≡ has_id r l
unfolding has_id update_node
has_id-update_node o op r [] = refl
has_id-update_node o op r (n ∷ l) =
    ground (arith, has_id-update_node o op r l, id-apply_format_op op n)

-- The node at a position is in the document.
has_id-position :
    (index : ℕ) (s : Rga) (n : Node)
    → find_node_at_position index s.nodes ≡ some n
    → has_id n.id s.nodes ≡ true
has_id-position index s n e =
    has_id-live index n s.nodes (sym (find_node_at_position-live index s.nodes) ∙ e)

-- What an edit that gives these ops leaves: the replica that delivering them gives, and no op
-- that waits for an id to come.
abbrev pub Echoes : Rga → List Op → Rga → Type 0
Echoes s ops t = (t ≡ apply_all ops s) × IsAfter s t

pub local_insert-Echoes :
    (s : Rga) (index : ℕ) (value : Text) (attrs : Option FormatMark)
    → IsWellFormed s
    → NoneAhead s
    → Echoes s
        (insert (local_insert s index value attrs).1 ∷ [])
        (local_insert s index value attrs).0
unfolding local_insert integrate apply_all
local_insert-Echoes s index value attrs v ahead =
    let counter : max s.counter (s.counter + 1) ≡ s.counter + 1 = omega arith in
    (
      sym (
          apply_idle (local_insert s index value attrs).1 s
            (absent_id s.replica_id s.counter s.nodes v.counted) (anchor-Rooted index s.nodes)
            (ahead (s.counter + 1) (omega arith))
          ∙ rw counter refl),
      (refl, (refl, omega arith)),
    )

pub local_delete-Echoes :
    (s t : Rga) (index : ℕ) (op : DeleteOp)
    → local_delete s index ≡ some (t, op)
    → Echoes s (delete op ∷ []) t
unfolding local_delete apply_all
local_delete-Echoes s t index op e = elim (Option-cases (find_node_at_position index s.nodes)) [
  | inl missing ↦
      let none_left : none ≡ some (t, op) = rw (missing, local_delete) at e in
      absurd (ground (arith, none_left))
  | inr (n, there) ↦
      subst (λ (r : Rga × DeleteOp). Echoes s (delete r.1 ∷ []) r.0)
        (some_injective
          (record s { nodes = update_node n.id bury s.nodes }, record { target_id = n.id }) (t, op)
          (rw (there, local_delete) at e))
        (sym (apply-delete n.id s (has_id-position index s n there)), (refl, (refl, omega arith)))
]

format_marks-Echoes :
    (target : OpId) (patch : FormatPatch) (s : Rga)
    → has_id target s.nodes ≡ true
    → Echoes s (map format (format_marks target patch s).1) (format_marks target patch s).0
unfolding format_marks apply_all
format_marks-Echoes target [] s h = (refl, (refl, (refl, omega arith)))
format_marks-Echoes target ((mark, raw) ∷ patch) s h =
    let op : FormatOp = record {
      id = record { counter = s.counter + 1; replica_id = s.replica_id };
      target_id = target;
      mark = mark;
      value = raw;
    } in
    let t : Rga = record s {
      counter = s.counter + 1;
      nodes = update_node target (apply_format_op op) s.nodes;
    } in
    let (same, after) =
      format_marks-Echoes target patch t (has_id-update_node target op target s.nodes ∙ h) in
    (
      same
          ∙ ap (apply_all (map format (format_marks target patch t).1))
              (sym (apply-format op s h refl)),
      (after.0, (after.1.0, omega (arith, after.1.1))),
    )

pub Echoes-append :
    (xs ys : List Op) (s t u : Rga) → Echoes s xs t → Echoes t ys u → Echoes s (xs ++ ys) u
Echoes-append xs ys s t u (e, a) (f, b) = (
  f ∙ ap (apply_all ys) e ∙ sym (apply_all-append xs ys s),
  (b.0 ∙ a.0, (b.1.0 ∙ a.1.0, omega (arith, a.1.1, b.1.1))),
)

map-append : (xs ys : List FormatOp) → map format (xs ++ ys) ≡ map format xs ++ map format ys
map-append [] ys = refl
map-append (x ∷ xs) ys = ap (λ l. format x ∷ l) (map-append xs ys)

pub local_format-Echoes :
    (length : ℕ) (s : Rga) (index : ℕ) (patch : FormatPatch)
    → Echoes s
        (map format (local_format length s index patch).1)
        (local_format length s index patch).0
unfolding local_format apply_all
local_format-Echoes zero s index patch = (refl, (refl, (refl, omega arith)))
local_format-Echoes (suc length) s index patch =
    elim (Option-cases (find_node_at_position index s.nodes)) [
      | inl missing ↦ rw (missing, local_format) (refl, (refl, (refl, omega arith)))
      | inr (n, there) ↦
          let t = (format_marks n.id patch s).0 in
          let ops = (format_marks n.id patch s).1 in
          let u = (local_format length t (index + 1) patch).0 in
          let more = (local_format length t (index + 1) patch).1 in
          rw (there, local_format)
            (subst (λ l. Echoes s l u) (sym (map-append ops more))
              (Echoes-append (map format ops) (map format more) s t u
                (format_marks-Echoes n.id patch s (has_id-position index s n there))
                (local_format-Echoes length t (index + 1) patch)))
    ]
