-- ===== src/Tests/Crdt.antt =====
-- The theorems on packages/crdt at concrete documents.
use ysync.Common.{
  ◌≡◌, ◌<◌, ◌≤◌, ◌⊎◌, refl, ◌↔◌, ap, inl, inr, true, false, List, [], ◌∷◌, map, none, some, In, All,
  All-In, length, arith,
}
use ysync.Common.Texts.{Text}
use ysync.Common.Maps
use ysync.Crdt.OpId.{OpId, op_id_to_string, op_id_from_string, newer, at_least}
use ysync.Crdt.OpId.Keys.{op_id_from_string-op_id_to_string, has_at}
use ysync.Crdt.Node.{or_empty}
use ysync.Crdt.Op.{Op, InsertOp, DeleteOp, FormatOp, insert, delete, format}
use ysync.Crdt.Rga.{Rga, new_rga, node_of, apply, apply_all, drain, pending_count}
use ysync.Crdt.Rga.Canonical.{Causal}
use ysync.Crdt.Rga.Shapes.{core}
use ysync.Crdt.Rga.Delivery.{AllCausal}
use ysync.Crdt.Rga.Convergence.{UniqueIds, SameOps, apply_all_converges, read_converges}
use ysync.Crdt.Rga.Marks.{is_marked, apply_formats, is_marked-apply_formats}
use ysync.Crdt.Rga.Fuel.{drain_done}
use ysync.Crdt.Rga.WellFormed.{IsWellFormed, IsWellFormed-new_rga, IsWellFormed-apply_all}
use ysync.Crdt.View.{read, get_contents_for_editor}
use ysync.Crdt.Snapshot.{to_snapshot, from_snapshot, compact_tombstones}
use ysync.Crdt.Snapshot.Roundtrip.{
  ClockBelow, from_snapshot-to_snapshot, compact_tombstones_invisible,
}
use ysync.Crdt.Editing.{local_insert, local_delete}
use ysync.Crdt.Editing.Positions.{
  live, characters, insert_at, remove_at, characters-local_insert, characters-local_delete,
}
use ysync.Crdt.Editing.Sending.{apply-local_insert}

abbrev alice : Text
alice = b'a' ∷ []

abbrev bob : Text
bob = b'b' ∷ []

abbrev first_id : OpId
first_id = record { counter = 1; replica_id = alice }

abbrev second_id : OpId
second_id = record { counter = 2; replica_id = bob }

abbrev first : InsertOp
first = record { id = first_id; origin_id = none; value = b'x' ∷ []; attrs = none }

abbrev second : InsertOp
second = record { id = second_id; origin_id = some first_id; value = b'y' ∷ []; attrs = none }

abbrev dropped : Op
dropped = delete (record { target_id = first_id })

abbrev marked : Op
marked = format (record {
  id = record { counter = 3; replica_id = alice };
  target_id = second_id;
  mark = b'b' ∷ [];
  value = true;
})

-- One order of delivery, and another with everything early and something twice.
abbrev in_order : List Op
in_order = insert first ∷ insert second ∷ dropped ∷ marked ∷ []

abbrev out_of_order : List Op
out_of_order = marked ∷ dropped ∷ insert second ∷ insert first ∷ insert second ∷ []

abbrev CausalOp : Op → Type 0
CausalOp (insert op) = Causal op.id op.origin_id
CausalOp (delete op) = Unit {0}
CausalOp (format op) = Unit {0}

abbrev OneId : Op → Op → Type 0
OneId (insert a) (insert b) = a.id ≡ b.id → a ≡ b
OneId (insert a) (delete b) = Unit {0}
OneId (insert a) (format b) = Unit {0}
OneId (delete a) b = Unit {0}
OneId (format a) b = Unit {0}

in_order-AllCausal : AllCausal in_order
unfolding newer
in_order-AllCausal = λ op m. All-In CausalOp in_order (tt, (refl, (tt, (tt, tt)))) (insert op) m

in_order-UniqueIds : UniqueIds in_order
in_order-UniqueIds = λ a b ma mb.
    All-In (λ y. OneId (insert a) y) in_order
      (All-In (λ x. All (OneId x) in_order) in_order
        (
          (
            (λ e. refl),
            ((λ e. absurd (omega (arith, ap (λ (i : OpId). i.counter) e))), (tt, (tt, tt))),
          ),
          (
            (
              (λ e. absurd (omega (arith, ap (λ (i : OpId). i.counter) e))),
              ((λ e. refl), (tt, (tt, tt))),
            ),
            ((tt, (tt, (tt, (tt, tt)))), ((tt, (tt, (tt, (tt, tt)))), tt)),
          ),
        )
        (insert a) ma)
      (insert b) mb

in_order-SameOps : SameOps in_order out_of_order
in_order-SameOps = λ op. (
  All-In (λ x. In x out_of_order) in_order
      (inr (inr (inr (inl refl))), (inr (inr (inl refl)), (inr (inl refl), (inl refl, tt)))) op,
  All-In (λ x. In x in_order) out_of_order
      (
        inr (inr (inr (inl refl))),
        (inr (inr (inl refl)), (inr (inl refl), (inl refl, (inr (inl refl), tt)))),
      )
      op,
)

read_converges_example :
    read (apply_all in_order (new_rga alice)) ≡ read (apply_all out_of_order (new_rga bob))
read_converges_example =
    read_converges alice bob in_order out_of_order in_order-AllCausal in_order-UniqueIds
      in_order-SameOps

apply_all_converges_example :
    map core (apply_all in_order (new_rga alice)).nodes
    ≡ map core (apply_all out_of_order (new_rga bob)).nodes
apply_all_converges_example =
    apply_all_converges alice bob in_order out_of_order in_order-AllCausal in_order-UniqueIds
      in_order-SameOps

drain_done_example : (drain 5 out_of_order (new_rga alice)).1 ≡ []
unfolding pending_count new_rga
drain_done_example = drain_done 5 out_of_order (new_rga alice) (omega arith)

abbrev document : Rga
document = apply_all in_order (new_rga alice)

document-IsWellFormed : IsWellFormed document
document-IsWellFormed = IsWellFormed-apply_all in_order (new_rga alice) (IsWellFormed-new_rga alice)

IsWellFormed-apply_all_example : IsWellFormed (apply_all out_of_order (new_rga bob))
IsWellFormed-apply_all_example =
    IsWellFormed-apply_all out_of_order (new_rga bob) (IsWellFormed-new_rga bob)

characters-local_insert_example :
    characters (local_insert document 0 (b'z' ∷ []) none).0.nodes
    ≡ insert_at 0 (some (b'z' ∷ [])) (characters document.nodes)
characters-local_insert_example =
    characters-local_insert document document-IsWellFormed 0 (b'z' ∷ []) none (omega arith)

characters-local_delete_example :
    ((0 < length (live document.nodes))
      × ((r : Rga × DeleteOp) × (local_delete document 0 ≡ some r)
          × (characters r.0.nodes ≡ remove_at 0 (characters document.nodes))))
    ⊎ ((length (live document.nodes) ≤ 0) × (local_delete document 0 ≡ none))
characters-local_delete_example = characters-local_delete document document-IsWellFormed 0

nothing_waits :
    Maps.get (op_id_to_string (local_insert document 1 (b'z' ∷ []) none).1.id) document.pending
    ≡ none
unfolding local_insert apply_all op_id_to_string Maps.get new_rga
nothing_waits = refl

apply-local_insert_example :
    (apply (insert (local_insert document 1 (b'z' ∷ []) none).1) document).nodes
    ≡ (local_insert document 1 (b'z' ∷ []) none).0.nodes
apply-local_insert_example =
    apply-local_insert document document-IsWellFormed 1 (b'z' ∷ []) none document refl nothing_waits

op_id_from_string-op_id_to_string_example :
    (op_id_from_string (op_id_to_string first_id) ≡ some first_id) ↔ (has_at alice ≡ false)
op_id_from_string-op_id_to_string_example = op_id_from_string-op_id_to_string first_id

from_snapshot-to_snapshot_example :
    ((from_snapshot (to_snapshot document) bob).nodes ≡ document.nodes)
    × All
        (λ n.
          (n.id.counter ≤ (from_snapshot (to_snapshot document) bob).counter)
          × ClockBelow (from_snapshot (to_snapshot document) bob).counter (or_empty n.format_clock))
        document.nodes
from_snapshot-to_snapshot_example = from_snapshot-to_snapshot document bob

compact_tombstones_invisible_example :
    (read (compact_tombstones document) ≡ read document)
    × (get_contents_for_editor (compact_tombstones document) ≡ get_contents_for_editor document)
compact_tombstones_invisible_example = compact_tombstones_invisible document

abbrev bold : Text
bold = b'b' ∷ []

-- Alice sets the mark and bob clears it, later.
abbrev set_bold : FormatOp
set_bold = record {
  id = record { counter = 3; replica_id = alice };
  target_id = second_id;
  mark = bold;
  value = true;
}

abbrev clear_bold : FormatOp
clear_bold = record {
  id = record { counter = 4; replica_id = bob };
  target_id = second_id;
  mark = bold;
  value = false;
}

is_marked-apply_formats_example :
    is_marked bold (apply_formats (clear_bold ∷ set_bold ∷ clear_bold ∷ []) (node_of second))
    ≡ false
unfolding at_least node_of or_empty Maps.get
is_marked-apply_formats_example =
    is_marked-apply_formats clear_bold (clear_bold ∷ set_bold ∷ clear_bold ∷ []) (node_of second)
      (inl refl)
      (λ op i.
        All-In (λ (o : FormatOp). o.mark ≡ bold → at_least clear_bold.id o.id ≡ true)
          (clear_bold ∷ set_bold ∷ clear_bold ∷ []) ((λ e. refl), ((λ e. refl), ((λ e. refl), tt)))
          op i)
      (λ op i.
        All-In (λ (o : FormatOp). o.id ≡ clear_bold.id → o ≡ clear_bold)
          (clear_bold ∷ set_bold ∷ clear_bold ∷ [])
          (
            (λ e. refl),
            ((λ e. absurd (omega (arith, ap (λ (x : OpId). x.counter) e))), ((λ e. refl), tt)),
          )
          op i)
      refl
