-- ===== src/Crdt/Rga/Sequences.antt =====
-- Ops of packages/crdt/src/rga.ts one after another.
use ysync.Common.{◌≡◌, refl, List, [], ◌∷◌, ◌++◌}
use ysync.Crdt.Op.{Op}
use ysync.Crdt.Rga.{Rga, apply, apply_all}

pub apply_all-append :
    (xs ys : List Op) (s : Rga) → apply_all (xs ++ ys) s ≡ apply_all ys (apply_all xs s)
unfolding apply_all
apply_all-append [] ys s = refl
apply_all-append (x ∷ xs) ys s = apply_all-append xs ys (apply x s)
