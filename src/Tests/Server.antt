-- ===== src/Tests/Server.antt =====
-- The theorems on apps/server at concrete rooms and stores.
use ysync.Common.{ℕ, ◌≡◌, refl, false, List, [], ◌∷◌, none, some, In, map, arith}
use ysync.Common.Texts.{Text}
use ysync.Common.Maps
use ysync.Common.Maps.{Map}
use ysync.Crdt.Op.{InsertOp, insert, op_id_key_of}
use ysync.Crdt.Rga.{new_rga}
use ysync.Server.Config.{is_space, allowed_origins}
use ysync.Server.Config.Origins.{
  Entry, AreEntries, written, origin_of, verify_client-allowed_origins,
}
use ysync.Server.Dispatch.{has_text, verify_client}
use ysync.Server.Presence.{PresenceStore, set}
use ysync.Server.Persistence.{OpBatch, load, has_key}
use ysync.Server.Persistence.Restart.{append_batches, Unseen, hydrate-load}
use ysync.Server.Room.{Room, server_replica, new_room, flat_ops, hydrate, get_ops_since, apply_ops}
use ysync.Server.Room.CatchUp.{apply_batches, get_ops_since-apply_batches, late_batch_hides}

abbrev notes : Text
notes = b'n' ∷ []

abbrev alice : Text
alice = b'a' ∷ []

abbrev letter : ℕ → InsertOp
letter n = record {
  id = record { counter = n; replica_id = alice };
  origin_id = none;
  value = b'x' ∷ [];
  attrs = none;
}

abbrev batches : List OpBatch
batches =
    record { seq = 1; ops = insert (letter 1) ∷ insert (letter 2) ∷ [] }
    ∷ record { seq = 4; ops = insert (letter 3) ∷ [] }
    ∷ []

abbrev counters : Map ℕ
counters = (notes, 4) ∷ []

abbrev present : PresenceStore
present =
    set notes
      (record {
        replica_id = alice;
        awareness = record { cursor = some 3; selection = none; name = none; color = none };
      })
      30 7 []

batches-Unseen : Unseen (flat_ops batches) []
unfolding flat_ops has_key op_id_key_of
batches-Unseen = (refl, (refl, (refl, tt)))

hydrate-load_example :
    let loaded = load notes (append_batches notes batches []) in
    hydrate notes loaded.snapshot loaded.snapshot_seq loaded.ops loaded.latest_seq
    ≡ apply_batches batches (new_room notes (new_rga (server_replica notes)))
unfolding Maps.get
hydrate-load_example =
    hydrate-load notes [] batches refl (omega arith, (omega arith, tt)) ((λ e. cc), ((λ e. cc), tt))
      batches-Unseen

abbrev empty_room : Room
empty_room = new_room notes (new_rga (server_replica notes))

get_ops_since-apply_batches_example :
    get_ops_since 0 (apply_batches batches empty_room) ≡ some (flat_ops batches)
unfolding new_room
get_ops_since-apply_batches_example =
    get_ops_since-apply_batches empty_room batches (record { logged = tt; covered = omega arith })
      (omega arith, (omega arith, tt))

late_batch_hides_example :
    let after =
      apply_ops (insert (letter 1) ∷ []) 1 (apply_ops (insert (letter 2) ∷ []) 2 empty_room) in
    (get_ops_since 1 after ≡ some [])
    × In (record { seq = 2; ops = insert (letter 2) ∷ [] }) after.op_log
late_batch_hides_example =
    late_batch_hides empty_room (insert (letter 2) ∷ []) (insert (letter 1) ∷ []) 1 2 (omega arith)

-- ` a, b ` as it stands in ALLOWED_ORIGINS
abbrev entry_of : ℕ → Entry
entry_of c = record { before = 32 ∷ []; first = c; others = c ∷ []; after = 9 ∷ 32 ∷ [] }

entries-AreEntries : AreEntries (entry_of b'a' ∷ entry_of b'b' ∷ [])
unfolding is_space
entries-AreEntries = ((refl, (refl, refl)), ((refl, (refl, refl)), tt))

verify_client-allowed_origins_example :
    (verify_client
        (allowed_origins (some (written (entry_of b'a') (entry_of b'b' ∷ []))))
        (some (b'b' ∷ b'b' ∷ []))
      ≡ has_text (b'b' ∷ b'b' ∷ []) (map origin_of (entry_of b'a' ∷ entry_of b'b' ∷ [])))
    × ((verify_client
            (allowed_origins (some (written (entry_of b'a') (entry_of b'b' ∷ []))))
            (some [])
          ≡ false)
        × (verify_client
              (allowed_origins (some (written (entry_of b'a') (entry_of b'b' ∷ []))))
              none
            ≡ false))
verify_client-allowed_origins_example =
    verify_client-allowed_origins (entry_of b'a') (entry_of b'b' ∷ []) b'b' (b'b' ∷ [])
      entries-AreEntries
