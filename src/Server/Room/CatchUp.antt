-- ===== src/Server/Room/CatchUp.antt =====
-- Catch-up in apps/server/src/room.ts: what `getOpsSince` covers.
use ysync.Common.{
  ℕ, ◌≤◌, ◌<◌, ◌≡◌, refl, sym, ap, ◌∙◌, inl, List, [], ◌∷◌, ◌++◌, none, some, In, In-append_left,
  In-append_right, All, leb, if◌then◌else◌, arith,
}
use ysync.Crdt.Op.{Op}
use ysync.Server.Persistence.{OpBatch}
use ysync.Server.Room.{
  Room, flat_ops, ops_after, get_ops_since, apply_ops, batches_after, advance_coverage_floor,
}
use mathlib.Core.List.{append-nil, append_assoc}

-- Batches that arrive with growing numbers, all above `n`.
abbrev pub Increasing : ℕ → List OpBatch → Type 0
Increasing n [] = Unit {0}
Increasing n (b ∷ bs) = (n < b.seq) × Increasing b.seq bs

abbrev pub apply_batches : List OpBatch → Room → Room
apply_batches [] room = room
apply_batches (b ∷ bs) room = apply_batches bs (apply_ops b.ops b.seq room)

ops_after-append :
    (n : ℕ) (xs ys : List OpBatch) → ops_after n (xs ++ ys) ≡ ops_after n xs ++ ops_after n ys
unfolding ops_after
ops_after-append n [] ys = refl
ops_after-append n (b ∷ xs) ys =
    ground (arith, ops_after-append n xs ys, append_assoc b.ops (ops_after n xs) (ops_after n ys))

ops_after_above :
    (n m : ℕ) (bs : List OpBatch) → n ≤ m → Increasing m bs → ops_after n bs ≡ flat_ops bs
unfolding ops_after flat_ops
ops_after_above n m [] h i = refl
ops_after_above n m (b ∷ bs) h i = ground (arith, ops_after_above n b.seq bs)

ops_after_below : (n : ℕ) (bs : List OpBatch) → All (λ b. b.seq ≤ n) bs → ops_after n bs ≡ []
unfolding ops_after
ops_after_below n [] h = refl
ops_after_below n (b ∷ bs) h = ground (arith, ops_after_below n bs h.1)

op_log-apply_batches :
    (bs : List OpBatch) (room : Room) → (apply_batches bs room).op_log ≡ room.op_log ++ bs
unfolding apply_ops
op_log-apply_batches [] room = sym (append-nil room.op_log)
op_log-apply_batches (b ∷ bs) room =
    op_log-apply_batches bs (apply_ops b.ops b.seq room) ∙ append_assoc room.op_log (b ∷ []) bs

coverage_floor-apply_batches :
    (bs : List OpBatch) (room : Room) → (apply_batches bs room).coverage_floor ≡ room.coverage_floor
unfolding apply_ops
coverage_floor-apply_batches [] room = refl
coverage_floor-apply_batches (b ∷ bs) room =
    coverage_floor-apply_batches bs (apply_ops b.ops b.seq room)

seq-apply_batches-le :
    (bs : List OpBatch) (room : Room) (n : ℕ)
    → n ≤ room.seq
    → Increasing n bs
    → n ≤ (apply_batches bs room).seq
unfolding apply_ops
seq-apply_batches-le [] room n h i = h
seq-apply_batches-le (b ∷ bs) room n h i =
    omega (arith, seq-apply_batches-le bs (apply_ops b.ops b.seq room) b.seq (omega arith) i.1)

ops_after-batches_after :
    (at_seq since : ℕ) (bs : List OpBatch)
    → at_seq ≤ since
    → ops_after since (batches_after at_seq bs) ≡ ops_after since bs
unfolding ops_after batches_after
ops_after-batches_after at_seq since [] h = refl
ops_after-batches_after at_seq since (b ∷ bs) h =
    ground (arith, ops_after-batches_after at_seq since bs h)

-- The log holds nothing above the room's number, and the room's number covers the floor.
pub record IsLogged (room : Room) : Type 0 where
  pub logged : All (λ b. b.seq ≤ room.seq) room.op_log
  pub covered : room.coverage_floor ≤ room.seq

seq_ahead :
    (b : OpBatch) (bs : List OpBatch) (room : Room)
    → Increasing room.seq (b ∷ bs)
    → room.seq < (apply_batches (b ∷ bs) room).seq
unfolding apply_ops
seq_ahead b bs room i =
    omega (arith, seq-apply_batches-le bs (apply_ops b.ops b.seq room) b.seq (omega arith) i.1)

get_ops_since_behind :
    (n : ℕ) (room : Room)
    → n < room.seq
    → room.coverage_floor ≤ n
    → get_ops_since n room ≡ some (ops_after n room.op_log)
unfolding get_ops_since
get_ops_since_behind n room h k = ground arith

-- A client that is as far as a room whose log holds nothing above its number, and comes back when
-- the room has applied more batches with growing numbers, is handed the ops of exactly those
-- batches, in order.
pub get_ops_since-apply_batches :
    (room : Room) (bs : List OpBatch)
    → IsLogged room
    → Increasing room.seq bs
    → get_ops_since room.seq (apply_batches bs room) ≡ some (flat_ops bs)
unfolding get_ops_since flat_ops
get_ops_since-apply_batches room [] v i = ground arith
get_ops_since-apply_batches room (b ∷ bs) v i =
    let log : (apply_batches (b ∷ bs) room).op_log ≡ room.op_log ++ b ∷ bs =
      op_log-apply_batches (b ∷ bs) room in
    get_ops_since_behind room.seq (apply_batches (b ∷ bs) room) (seq_ahead b bs room i)
      (omega (arith, coverage_floor-apply_batches (b ∷ bs) room))
    ∙ ap some (
        ap (ops_after room.seq) log
        ∙ ops_after-append room.seq room.op_log (b ∷ bs)
        ∙ ap (λ (l : List Op). l ++ ops_after room.seq (b ∷ bs))
            (ops_after_below room.seq room.op_log v.logged)
        ∙ ops_after_above room.seq room.seq (b ∷ bs) (omega arith) i)

-- Raising the floor changes nothing for a client that is at least as far as the new floor; any other
-- client is told that it misses nothing if it is as far as the room, and is sent a snapshot if not.
get_ops_since-advance_coverage_floor :
    (at_seq since : ℕ) (room : Room)
    → room.coverage_floor ≤ at_seq
    → get_ops_since since (advance_coverage_floor at_seq room) ≡ (
        if leb at_seq since
        then get_ops_since since room
        else if leb room.seq since
        then some []
        else none)
unfolding get_ops_since advance_coverage_floor
get_ops_since-advance_coverage_floor at_seq since room f =
    ground (arith, ops_after-batches_after at_seq since room.op_log)

-- A batch that arrives after one with a higher number sets the room's number back, and hides that
-- one: a client that has the late batch is told that it misses nothing, though the log holds the
-- other.
pub late_batch_hides :
    (room : Room) (ops late : List Op) (a b : ℕ)
    → a < b
    → let after = apply_ops late a (apply_ops ops b room) in
      (get_ops_since a after ≡ some []) × In (record { seq = b; ops = ops }) after.op_log
unfolding get_ops_since apply_ops
late_batch_hides room ops late a b h = (
  ground arith,
  In-append_left _ (room.op_log ++ record { seq = b; ops = ops } ∷ []) _
      (In-append_right _ room.op_log _ (inl refl)),
)
