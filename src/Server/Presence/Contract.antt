-- ===== src/Server/Presence/Contract.antt =====
-- apps/server/src/presence/PresenceStore.ts: the interface that both stores implement. Each call
-- takes the time it reads from `Date.now()`; a call that throws is `none`.
use ysync.Common.{
  ℕ, ◌+◌, ◌≤◌, ◌<◌, ◌≡◌, ◌↔◌, Bool, true, false, ◌&&◌, List, Option, none, some, In, leb,
  if◌then◌else◌,
}
use ysync.Common.Texts.{Text, text_eq}
use ysync.Server.Presence.{PresenceEntry, StoredEntry}

pub record PresenceStore : Type 1 where
  pub State : Type 0
  pub set : State → Text → PresenceEntry → ℕ → ℕ → Option State
  pub remove : State → Text → Text → Option State
  pub list : State → Text → ℕ → Option (List PresenceEntry)
  pub sweep : State → Text → ℕ → Option (State × List Text)

-- Whether an entry is there that has expired.
unfoldable pub is_expired : ℕ → Option StoredEntry → Bool
is_expired now none = false
is_expired now (some s) = leb s.expires_at now

-- What the calls that succeed do. An entry that expires at the very time of `list` may be listed or
-- not: the two stores differ there.
pub record IsLawful (P : PresenceStore) : Type 1 where
  pub IsSound : P.State → Type 0
  pub stored : P.State → Text → Text → Option StoredEntry
  pub after_set :
      (s s' : P.State) (doc_id : Text) (entry : PresenceEntry) (ttl_ms now : ℕ)
      → IsSound s
      → P.set s doc_id entry ttl_ms now ≡ some s'
      → IsSound s'
        × ((d r : Text)
            → stored s' d r ≡ (
                if text_eq doc_id d && text_eq entry.replica_id r
                then some (record { entry = entry; expires_at = now + ttl_ms })
                else stored s d r))
  pub after_remove :
      (s s' : P.State) (doc_id replica_id : Text)
      → IsSound s
      → P.remove s doc_id replica_id ≡ some s'
      → IsSound s'
        × ((d r : Text)
            → stored s' d r
              ≡ (if text_eq doc_id d && text_eq replica_id r then none else stored s d r))
  pub listed :
      (s : P.State) (doc_id : Text) (now : ℕ) (entries : List PresenceEntry) (e : PresenceEntry)
      → IsSound s
      → P.list s doc_id now ≡ some entries
      → In e entries
      → (r : Text) × (x : StoredEntry) × (stored s doc_id r ≡ some x)
        × (x.entry ≡ e)
        × (now ≤ x.expires_at)
  pub live_listed :
      (s : P.State) (doc_id : Text) (now : ℕ) (entries : List PresenceEntry) (r : Text)
      (x : StoredEntry)
      → IsSound s
      → P.list s doc_id now ≡ some entries
      → stored s doc_id r ≡ some x
      → now < x.expires_at
      → In x.entry entries
  pub after_sweep :
      (s s' : P.State) (doc_id : Text) (now : ℕ) (expired : List Text)
      → IsSound s
      → P.sweep s doc_id now ≡ some (s', expired)
      → IsSound s'
        × ((d r : Text)
            → stored s' d r
              ≡ (if text_eq doc_id d && is_expired now (stored s d r) then none else stored s d r))
        × ((r : Text) → In r expired ↔ (is_expired now (stored s doc_id r) ≡ true))
