-- ===== src/Server/Presence/Redis/Boundary.antt =====
-- How long apps/server/src/presence/RedisPresenceStore.ts lists an entry.
use ysync.Common.{ℕ, ◌+◌, ◌<◌, ◌≡◌, refl, ap, ◌∙◌, List, some, In, if◌then◌else◌, arith}
use ysync.Common.Texts.{Text, text_eq_refl}
use ysync.Server.Presence.{PresenceEntry, StoredEntry}
use ysync.Server.Presence.Contract.{is_expired}
use ysync.Server.Presence.Redis.{Redis, set, list, sweep}
use ysync.Server.Presence.Redis.Commands.{IsRedis}
use ysync.Server.Presence.Redis.Contract.{redis_set, Sound, stored_in, redis_listed_at, redis_sweep}
use ysync.Server.Presence.Redis.Interleaving.{Sweep, IsClear, Quietly, stored-Quietly}

module _ (R : Redis) (I : IsRedis R) where
  -- A replica that is set is listed until its time is over, whatever requests come between from any
  -- process, also between the two of `list`, when the hash and the sorted set have the same replicas
  -- before, no sweep of the document has found the replica before it is set and has still to drop
  -- it, no request sets or removes it, no sweep of the document looks for expired replicas at that
  -- time or later, and the requests succeed.
  pub redis_listed_until :
      (s s1 s2 s3 : R.State) (ws1 ws2 ws3 : List Sweep) (doc_id : Text) (entry : PresenceEntry)
      (ttl_ms start now : ℕ) (entries : List PresenceEntry)
      → Sound R I s
      → set R s doc_id entry ttl_ms start ≡ some s1
      → IsClear doc_id entry.replica_id ws1
      → Quietly R doc_id entry.replica_id (start + ttl_ms) s1 ws1 s2 ws2
      → Quietly R doc_id entry.replica_id (start + ttl_ms) s2 ws2 s3 ws3
      → now < start + ttl_ms
      → list R s2 s3 doc_id now ≡ some entries
      → In entry entries
  redis_listed_until s s1 s2 s3 ws1 ws2 ws3 doc_id entry ttl_ms start now entries k e clear first
        second l listed =
      let r = entry.replica_id in
      let x : StoredEntry = record { entry = entry; expires_at = start + ttl_ms } in
      let (sound, after) = redis_set R I s s1 doc_id entry ttl_ms start k e in
      let there : stored_in R I s1 doc_id r ≡ some x =
        after doc_id r ∙ rw (text_eq_refl doc_id, text_eq_refl r, if◌then◌else◌) refl in
      let (there2, sound2) =
        stored-Quietly R doc_id r (start + ttl_ms) I x s1 s2 ws1 ws2 sound there refl clear first in
      let (there3, sound3) =
        stored-Quietly R doc_id r (start + ttl_ms) I x s2 s3 ws2 ws3 sound2.0 there2 refl sound2.1
          second in
      redis_listed_at R I s2 s3 doc_id now entries r x listed there2 there3 (omega (arith, l))

  -- At the very time of its expiry an entry is both listed and swept, when the hash and the sorted
  -- set have the same replicas, nothing comes between the requests of the two calls, and they
  -- succeed.
  pub expired_still_listed :
      (s s' : R.State) (doc_id r : Text) (x : StoredEntry) (entries : List PresenceEntry)
      (expired : List Text)
      → Sound R I s
      → stored_in R I s doc_id r ≡ some x
      → list R s s doc_id x.expires_at ≡ some entries
      → sweep R s s doc_id x.expires_at ≡ some (s', expired)
      → In x.entry entries × In r expired
  unfolding is_expired
  expired_still_listed s s' doc_id r x entries expired k e l w = (
    redis_listed_at R I s s doc_id x.expires_at entries r x l e e (omega arith),
    ((redis_sweep R I s s' doc_id x.expires_at expired k w).2 r).1
        (ap (is_expired x.expires_at) e ∙ ground arith),
  )
