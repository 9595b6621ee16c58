-- ===== src/Crdt/Rga/Integrate.antt =====
-- The integration rule of packages/crdt/src/rga.ts on its own.
use ysync.Common.{
  ◌≡◌, refl, sym, ap, ◌≢◌, inl, inr, true, List, [], ◌∷◌, Option, none, some, Bool-cases, arith,
}
use ysync.Crdt.OpId.{OpId, newer}
use ysync.Crdt.OpId.Order.{same_op_id_iff, newer_irrefl, newer_trans, newer_total}
use ysync.Crdt.Node.{Node}
use ysync.Crdt.Rga.{skip_newer, link_after, link_node}

-- Two scans from one place commute.
skip_newer_lt :
    (a b : Node) (l : List Node)
    → newer a.id b.id ≡ true
    → skip_newer a (skip_newer b l) ≡ skip_newer b (skip_newer a l)
unfolding skip_newer
skip_newer_lt a b [] h = ground (arith, newer_trans a.id b.id a.id, newer_irrefl a.id)
skip_newer_lt a b (r ∷ l) h = ground (
  arith,
  skip_newer_lt a b l h,
  newer_trans a.id b.id a.id,
  newer_irrefl a.id,
  newer_trans r.id a.id b.id,
)

skip_newer_comm :
    (a b : Node) (l : List Node)
    → a.id ≢ b.id
    → skip_newer a (skip_newer b l) ≡ skip_newer b (skip_newer a l)
skip_newer_comm a b l h = elim (Bool-cases (newer a.id b.id)) [
  | inl gt ↦ skip_newer_lt a b l gt
  | inr le ↦ elim (Bool-cases (newer b.id a.id)) [
    | inl gt ↦ sym (skip_newer_lt b a l gt)
    | inr ge ↦ absurd (h (newer_total a.id b.id le ge))
  ]
]

skip_newer-link_after :
    (a b : Node) (anchor : OpId) (l : List Node)
    → a.id ≢ b.id
    → a.id ≢ anchor
    → skip_newer a (link_after anchor b l) ≡ link_after anchor b (skip_newer a l)
unfolding skip_newer link_after
skip_newer-link_after a b anchor [] h k = ground (arith, same_op_id_iff a.id anchor)
skip_newer-link_after a b anchor (r ∷ l) h k = ground (
  arith,
  same_op_id_iff a.id anchor,
  skip_newer_comm a b l h,
  skip_newer-link_after a b anchor l h k,
)

link_after_comm :
    (a b : Node) (oa ob : OpId) (l : List Node)
    → a.id ≢ b.id
    → b.id ≢ oa
    → a.id ≢ ob
    → link_after oa a (link_after ob b l) ≡ link_after ob b (link_after oa a l)
unfolding link_after
link_after_comm a b oa ob [] h k j = refl
link_after_comm a b oa ob (r ∷ l) h k j = ground (
  arith,
  skip_newer_comm a b l h,
  skip_newer-link_after a b ob l h j,
  skip_newer-link_after b a oa l (λ e. h (sym e)) k,
  link_after_comm a b oa ob l h k j,
)

-- Two inserts of different ids, neither the origin of the other, can be integrated in either
-- order.
pub link_node_comm :
    (a b : Node) (oa ob : Option OpId) (l : List Node)
    → a.id ≢ b.id
    → oa ≢ some b.id
    → ob ≢ some a.id
    → link_node oa a (link_node ob b l) ≡ link_node ob b (link_node oa a l)
unfolding link_node
link_node_comm a b none none l h k j = skip_newer_comm a b l h
link_node_comm a b none (some ob) l h k j =
    skip_newer-link_after a b ob l h (λ e. j (ap some (sym e)))
link_node_comm a b (some oa) none l h k j =
    sym (skip_newer-link_after b a oa l (λ e. h (sym e)) (λ e. k (ap some (sym e))))
link_node_comm a b (some oa) (some ob) l h k j =
    link_after_comm a b oa ob l h (λ e. k (ap some (sym e))) (λ e. j (ap some (sym e)))
