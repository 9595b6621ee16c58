-- ===== src/Crdt/Rga/Arrival.antt =====
-- The delivery invariant where an op has to wait, for `apply` in packages/crdt/src/rga.ts.
use ysync.Common.{
  ◌≡◌, refl, inl, inr, ◌⊎◌, false, List, [], ◌∷◌, some, In, In-append, In-append_left,
  In-append_right, Bool-cases,
}
use ysync.Common.Texts.{Text, text_eq, text_eq_refl, text_eq_iff}
use ysync.Crdt.OpId.{OpId, op_id_to_string}
use ysync.Crdt.Op.{Op}
use ysync.Crdt.Rga.{Rga, buffer_on}
use ysync.Crdt.Rga.Canonical.{has_id}
use ysync.Crdt.Rga.Pending.{buffered, buffer_on-nodes, buffered-buffer_on}
use ysync.Crdt.Rga.Delivery.{dependency, Settled-step, Inv}

In-buffer_on :
    (k key : Text) (op x : Op) (s : Rga)
    → In x (buffered k s)
    → In x (buffered k (buffer_on key op s))
In-buffer_on k key op x s m = elim (Bool-cases (text_eq key k)) [
  | inl hit ↦
      let at = (text_eq_iff key k).0 hit in
      rw (buffered-buffer_on k key op s, hit, at) (In-append_left x (buffered k s) (op ∷ []) m)
  | inr miss ↦ rw (buffered-buffer_on k key op s, miss) m
]

In-buffer_on_self : (key : Text) (op : Op) (s : Rga) → In op (buffered key (buffer_on key op s))
In-buffer_on_self key op s =
    rw (buffered-buffer_on key key op s, text_eq_refl key)
      (In-append_right op (buffered key s) (op ∷ []) (inl refl))

buffer_on_In :
    (k key : Text) (op x : Op) (s : Rga)
    → In x (buffered k (buffer_on key op s))
    → In x (buffered key s) ⊎ In x (buffered k s) ⊎ (x ≡ op)
buffer_on_In k key op x s m = elim (Bool-cases (text_eq key k)) [
  | inl hit ↦
      elim (In-append x (buffered key s) (op ∷ []) (rw (buffered-buffer_on k key op s, hit) at m)) [
        | inl old ↦ inl old
        | inr (inl e) ↦ inr (inr e)
        | inr (inr nowhere) ↦ absurd nowhere
      ]
  | inr miss ↦ inr (inl (rw (buffered-buffer_on k key op s, miss) at m))
]

-- An op whose dependency is missing is buffered.
pub Inv-buffer_on :
    (delivered : List Op) (op : Op) (d : OpId) (s : Rga) (queue : List Op)
    → Inv delivered s (op ∷ queue)
    → dependency op ≡ some d
    → has_id d s.nodes ≡ false
    → Inv delivered (buffer_on (op_id_to_string d) op s) queue
Inv-buffer_on delivered op d s queue v dep missing = record {
  history = v.history;
  ordered = v.ordered;
  built = rw nodes v.built;
  known = v.known;
  graves = λ x h. v.graves x (rw nodes at h);
  settled = λ x m.
      Settled-step op x s t queue queue (λ a. rw nodes a)
        (λ (o, e, f, w).
          inr (inl (o, e, rw nodes f, In-buffer_on (op_id_to_string o) key op x s w)))
        (λ e. inr (inl (d, rw e dep, rw nodes missing, rw e (In-buffer_on_self key op s)))) (λ q. q)
        (v.settled x m);
  queued = λ x m. v.queued x (inr m);
  waiting = λ k x m. elim (buffer_on_In k key op x s m) [
    | inl old ↦ v.waiting key x old
    | inr (inl old) ↦ v.waiting k x old
    | inr (inr e) ↦ rw e (v.queued op (inl refl))
  ];
}
  where
    key : Text
    key = op_id_to_string d

    t : Rga
    t = buffer_on key op s

    nodes : t.nodes ≡ s.nodes
    nodes = buffer_on-nodes key op s
