-- ===== src/Server/Presence.antt =====
-- apps/server/src/presence/InMemoryPresenceStore.ts. Each call takes the time it reads from
-- `Date.now()`.
pub mod Contract
pub mod Expiry
pub mod Memory
pub mod Redis
use ysync.Common.{
  ℕ, ◌+◌, ◌≤◌, Bool, true, false, List, [], ◌∷◌, map, Option, none, some, ltb, leb, if◌then◌else◌,
}
use ysync.Common.Texts.{Text}
use ysync.Common.Maps
use ysync.Common.Maps.{Map}
use ysync.Protocol.{Awareness}

pub record PresenceEntry : Type 0 where
  pub replica_id : Text
  pub awareness : Awareness

pub record StoredEntry : Type 0 where
  pub entry : PresenceEntry
  pub expires_at : ℕ

abbrev pub PresenceStore : Type 0
PresenceStore = Map (Map StoredEntry)

-- `docs.get(docId)`, `[]` for undefined: the code returns as for an empty map.
unfoldable pub by_replica : Text → PresenceStore → Map StoredEntry
by_replica doc_id docs = elim (Maps.get doc_id docs) [ some m ↦ m | none ↦ [] ]

unfoldable pub set : Text → PresenceEntry → ℕ → ℕ → PresenceStore → PresenceStore
unfolding by_replica
set doc_id entry ttl_ms now docs =
    Maps.put doc_id
      (Maps.put entry.replica_id (record { entry = entry; expires_at = now + ttl_ms })
        (by_replica doc_id docs))
      docs

unfoldable pub remove : Text → Text → PresenceStore → PresenceStore
remove doc_id replica_id docs = elim (Maps.get doc_id docs) [
  | some m ↦ Maps.put doc_id (Maps.remove replica_id m) docs
  | none ↦ docs
]

unfoldable pub live_entries : ℕ → Map StoredEntry → List PresenceEntry
live_entries now [] = []
live_entries now ((_, stored) ∷ m) =
    let rest = live_entries now m in if ltb now stored.expires_at then stored.entry ∷ rest else rest

unfoldable pub list : Text → ℕ → PresenceStore → List PresenceEntry
unfolding by_replica live_entries
list doc_id now docs = live_entries now (by_replica doc_id docs)

-- The loop of `sweep`: the entries that stay, and the replicas that expired.
unfoldable pub sweep_entries : ℕ → Map StoredEntry → Map StoredEntry × List Text
sweep_entries now [] = ([], [])
sweep_entries now ((replica_id, stored) ∷ m) =
    let (kept, expired) = sweep_entries now m in
    if leb stored.expires_at now
    then (kept, replica_id ∷ expired)
    else ((replica_id, stored) ∷ kept, expired)

unfoldable pub sweep : Text → ℕ → PresenceStore → PresenceStore × List Text
unfolding sweep_entries
sweep doc_id now docs = elim (Maps.get doc_id docs) [
  | none ↦ (docs, [])
  | some m ↦ let (kept, expired) = sweep_entries now m in (Maps.put doc_id kept docs, expired)
]

unfoldable close : PresenceStore → PresenceStore
close docs = []
