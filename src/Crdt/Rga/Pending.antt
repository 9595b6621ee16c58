-- ===== src/Crdt/Rga/Pending.antt =====
-- The buffer of ops whose dependency has not arrived, of packages/crdt/src/rga.ts.
use ysync.Common.{
  ◌+◌, ◌≤◌, suc, ◌≡◌, inl, inr, List, [], ◌∷◌, ◌++◌, Option, none, some, if◌then◌else◌, length,
  length-append, Option-cases, arith,
}
use ysync.Common.Texts.{Text, text_eq, text_eq_iff}
use ysync.Common.Maps.{Map, get, put, remove, get-put, get-remove}
use ysync.Crdt.Op.{Op}
use ysync.Crdt.Rga.{Rga, buffer_on, take_buffered, pending_count}

or_nil : Option (List Op) → List Op
or_nil none = []
or_nil (some ops) = ops

-- The ops that wait under a key.
unfoldable pub buffered : Text → Rga → List Op
unfolding or_nil
buffered key s = or_nil (get key s.pending)

-- `bufferOn` changes the buffer only.
pub buffer_on-nodes : (key : Text) (op : Op) (s : Rga) → (buffer_on key op s).nodes ≡ s.nodes
unfolding buffer_on
buffer_on-nodes key op s = ground arith

-- and there adds the op behind those that wait under its key.
pub buffered-buffer_on :
    (k key : Text) (op : Op) (s : Rga)
    → buffered k (buffer_on key op s)
      ≡ (if text_eq key k then buffered key s ++ op ∷ [] else buffered k s)
unfolding buffered buffer_on
buffered-buffer_on k key op s = ground (
  arith,
  get-put key k (or_nil (get key s.pending) ++ op ∷ []) s.pending,
  get-put key k (op ∷ []) s.pending,
)

pub take_buffered-nodes : (key : Text) (s : Rga) → (take_buffered key s).0.nodes ≡ s.nodes
unfolding take_buffered
take_buffered-nodes key s = ground arith

pub take_buffered-ops : (key : Text) (s : Rga) → (take_buffered key s).1 ≡ buffered key s
unfolding take_buffered buffered
take_buffered-ops key s = ground arith

-- `takeBuffered` takes all that waits under its key.
pub buffered-take_buffered :
    (k key : Text) (s : Rga)
    → buffered k (take_buffered key s).0 ≡ (if text_eq key k then [] else buffered k s)
unfolding take_buffered buffered
buffered-take_buffered k key s = ground (arith, get-remove key k s.pending, text_eq_iff key k)

count-put :
    (key : Text) (ops : List Op) (m : Map (List Op))
    → pending_count (put key ops m) + length (or_nil (get key m)) ≡ pending_count m + length ops
unfolding pending_count put get or_nil
count-put key ops [] = ground arith
count-put key ops ((k, o) ∷ m) = ground (arith, count-put key ops m)

count-remove-le :
    (key : Text) (m : Map (List Op))
    → pending_count (remove key m) + length (or_nil (get key m)) ≤ pending_count m
unfolding pending_count remove get or_nil
count-remove-le key [] = ground arith
count-remove-le key ((k, o) ∷ m) = ground (arith, count-remove-le key m)

-- Buffering adds one op to those that wait.
pub count-buffer_on :
    (key : Text) (op : Op) (s : Rga)
    → pending_count (buffer_on key op s).pending ≡ suc (pending_count s.pending)
unfolding buffer_on or_nil
count-buffer_on key op s = elim (Option-cases (get key s.pending)) [
  | inl e ↦ rw (e, buffer_on) (ground (arith, count-put key (op ∷ []) s.pending))
  | inr (ops, e) ↦
      rw (e, buffer_on)
        (ground (arith, count-put key (ops ++ op ∷ []) s.pending, length-append ops (op ∷ [])))
]

-- What is taken no longer waits.
pub count-take_buffered-le :
    (key : Text) (s : Rga)
    → pending_count (take_buffered key s).0.pending + length (take_buffered key s).1
      ≤ pending_count s.pending
unfolding take_buffered or_nil
count-take_buffered-le key s = elim (Option-cases (get key s.pending)) [
  | inl e ↦ rw (e, take_buffered) (omega arith)
  | inr (ops, e) ↦ rw (e, take_buffered) (ground (arith, count-remove-le key s.pending))
]
