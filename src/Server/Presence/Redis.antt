-- ===== src/Server/Presence/Redis.antt =====
-- apps/server/src/presence/RedisPresenceStore.ts over a Redis client that is a parameter. A call
-- that throws is `none`; a value of the hash is the entry whose JSON it is. Other processes write to
-- the same Redis between two calls that are awaited.
pub mod Boundary
pub mod Commands
pub mod Contract
pub mod Interleaving
use ysync.Common.{
  ℕ, ◌+◌, ◌≤◌, ◌<◌, ◌≡◌, refl, sym, ap, subst, ◌∙◌, ◌⊎◌, ◌↔◌, inl, inr, Bool, true, false,
  Bool-cases, Option-cases, ◌&&◌, ◌||◌, List, [], ◌∷◌, ◌++◌, map, Option, none, some,
  some_injective, In, leb, ltb, if◌then◌else◌, arith,
}
use ysync.Common.Texts.{Text, text_eq, text_eq_iff, text_eq-injective}
use ysync.Server.Persistence.{has_key}
use ysync.Server.Presence.{PresenceEntry, StoredEntry}
use ysync.Server.Presence.Contract.{PresenceStore, IsLawful, is_expired}

-- The commands that `multi` queues.
pub data Command : Type 0 where
  hset : Text → Text → PresenceEntry → Command
  hdel : Text → List Text → Command
  zadd : Text → ℕ → Text → Command
  zrem : Text → List Text → Command

-- The calls of ioredis that the class makes. The bounds of a range are inclusive; `none` is
-- infinite.
pub record Redis : Type 1 where
  pub State : Type 0
  pub multi : State → List Command → Option State
  pub zrangebyscore : State → Text → Option ℕ → Option ℕ → Option (List Text)
  pub hmget : State → Text → List Text → Option (List (Option PresenceEntry))

unfoldable pub data_key : Text → Text
data_key doc_id =
    b'p' ∷ b'r' ∷ b'e' ∷ b's' ∷ b'e' ∷ b'n' ∷ b'c' ∷ b'e' ∷ b':' ∷ doc_id
    ++ b':' ∷ b'd' ∷ b'a' ∷ b't' ∷ b'a' ∷ []

unfoldable pub heartbeat_key : Text → Text
heartbeat_key doc_id =
    b'p' ∷ b'r' ∷ b'e' ∷ b's' ∷ b'e' ∷ b'n' ∷ b'c' ∷ b'e' ∷ b':' ∷ doc_id
    ++ b':' ∷ b'h' ∷ b'e' ∷ b'a' ∷ b'r' ∷ b't' ∷ b'b' ∷ b'e' ∷ b'a' ∷ b't' ∷ []

-- `raw.filter((value) => value !== null)`
unfoldable pub not_null : List (Option PresenceEntry) → List PresenceEntry
not_null [] = []
not_null (none ∷ raw) = not_null raw
not_null (some e ∷ raw) = e ∷ not_null raw

module _ (R : Redis) where
  unfoldable pub set : R.State → Text → PresenceEntry → ℕ → ℕ → Option R.State
  unfolding data_key heartbeat_key
  set redis doc_id entry ttl_ms now = R.multi redis (
      hset (data_key doc_id) entry.replica_id entry
      ∷ zadd (heartbeat_key doc_id) (now + ttl_ms) entry.replica_id
      ∷ [])

  unfoldable pub remove : R.State → Text → Text → Option R.State
  unfolding data_key heartbeat_key
  remove redis doc_id replica_id = R.multi redis (
      hdel (data_key doc_id) (replica_id ∷ []) ∷ zrem (heartbeat_key doc_id) (replica_id ∷ []) ∷ [])

  -- `list` once the live ids are there.
  unfoldable pub list_live : R.State → Text → List Text → Option (List PresenceEntry)
  unfolding data_key not_null
  list_live redis doc_id [] = some []
  list_live redis doc_id (r ∷ rs) = elim (R.hmget redis (data_key doc_id) (r ∷ rs)) [
    | none ↦ none
    | some raw ↦ some (not_null raw)
  ]

  -- The live ids are read in `redis`, their entries in what `later` is by then.
  unfoldable pub list : R.State → R.State → Text → ℕ → Option (List PresenceEntry)
  unfolding heartbeat_key list_live
  list redis later doc_id now =
      elim (R.zrangebyscore redis (heartbeat_key doc_id) (some now) none) [
        | none ↦ none
        | some live ↦ list_live later doc_id live
      ]

  -- `sweep` once the expired ids are there.
  unfoldable pub drop_expired : R.State → Text → List Text → Option (R.State × List Text)
  unfolding data_key heartbeat_key
  drop_expired redis doc_id [] = some (redis, [])
  drop_expired redis doc_id (r ∷ rs) =
      elim (R.multi redis
        (zrem (heartbeat_key doc_id) (r ∷ rs) ∷ hdel (data_key doc_id) (r ∷ rs) ∷ [])) [
          | none ↦ none
          | some after ↦ some (after, r ∷ rs)
        ]

  -- The first call of `sweep`.
  unfoldable pub find_expired : R.State → Text → ℕ → Option (List Text)
  unfolding heartbeat_key
  find_expired redis doc_id now = R.zrangebyscore redis (heartbeat_key doc_id) none (some now)

  -- The expired ids are read in `redis`, and dropped from what `later` is by then.
  unfoldable pub sweep : R.State → R.State → Text → ℕ → Option (R.State × List Text)
  unfolding find_expired drop_expired
  sweep redis later doc_id now = elim (find_expired redis doc_id now) [
    | none ↦ none
    | some expired ↦ drop_expired later doc_id expired
  ]

  -- The store as its interface has it, when no other call comes between the two of `list` and of
  -- `sweep`.
  abbrev pub redis_presence : PresenceStore
  redis_presence = record {
    State = R.State;
    set = set;
    remove = remove;
    list = λ redis doc_id now. list redis redis doc_id now;
    sweep = λ redis doc_id now. sweep redis redis doc_id now;
  }
