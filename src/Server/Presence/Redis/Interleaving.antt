-- ===== src/Server/Presence/Redis/Interleaving.antt =====
-- The calls of apps/server/src/presence/RedisPresenceStore.ts from several processes on one Redis,
-- each request of its own.
use ysync.Common.{
  ℕ, ◌<◌, ◌≡◌, refl, sym, ap, ap₂, subst, ◌∙◌, inl, inr, true, false, Bool-cases, ◌&&◌, List, [],
  ◌∷◌, Option, none, some, In, if◌then◌else◌, arith,
}
use ysync.Common.Texts.{Text, text_eq, eq_of_text_eq}
use ysync.Server.Persistence.{has_key}
use ysync.Server.Presence.{PresenceEntry, StoredEntry}
use ysync.Server.Presence.Redis.{
  Redis, heartbeat_key, data_key, set, remove, find_expired, drop_expired,
}
use ysync.Server.Presence.Redis.Commands.{IsRedis, both, is_some, in_range, In-has_key}
use ysync.Server.Presence.Redis.Contract.{
  Sound, stored_in, redis_set, redis_remove, Dropped, drop_expired-Dropped, both_parts,
}

-- A sweep of a document that has found these ids, and has still to drop them or has dropped them.
pub record Sweep : Type 0 where
  pub doc_id : Text
  pub found : List Text

-- No sweep of the document has found the replica.
abbrev pub IsClear : Text → Text → List Sweep → Type 0
IsClear doc_id r [] = Unit {0}
IsClear doc_id r (w ∷ ws) =
    ((text_eq w.doc_id doc_id && has_key r w.found) ≡ false) × IsClear doc_id r ws

IsClear-In :
    (doc_id r : Text) (ws : List Sweep) (w : Sweep)
    → IsClear doc_id r ws
    → In w ws
    → (text_eq w.doc_id doc_id && has_key r w.found) ≡ false
IsClear-In doc_id r [] w c i = absurd i
IsClear-In doc_id r (v ∷ ws) w c (inl same) =
    subst (λ (u : Sweep). (text_eq u.doc_id doc_id && has_key r u.found) ≡ false) (sym same) c.0
IsClear-In doc_id r (v ∷ ws) w c (inr i) = IsClear-In doc_id r ws w c.1 i

young : (now : ℕ) (o : Option ℕ) (x : ℕ) → o ≡ some x → now < x → in_range none (some now) o ≡ false
unfolding in_range
young now o x e l = ap (in_range none (some now)) e ∙ ground (arith, l)

module _ (R : Redis) (doc_id r : Text) (expires_at : ℕ) where
  -- Requests of any processes, one after another, with the sweeps whose first request is done. None
  -- sets or removes the replica of the document, and the first request of a sweep of the document
  -- comes before the time.
  pub data Quietly : R.State → List Sweep → R.State → List Sweep → Type 0 where
    done : {s : R.State} {ws : List Sweep} → Quietly s ws s ws
    sets :
        {s t u : R.State} {ws vs : List Sweep} (d : Text) (entry : PresenceEntry) (ttl_ms now : ℕ)
        → (text_eq d doc_id && text_eq entry.replica_id r) ≡ false
        → set R s d entry ttl_ms now ≡ some t
        → Quietly t ws u vs
        → Quietly s ws u vs
    removes :
        {s t u : R.State} {ws vs : List Sweep} (d q : Text)
        → (text_eq d doc_id && text_eq q r) ≡ false
        → remove R s d q ≡ some t
        → Quietly t ws u vs
        → Quietly s ws u vs
    finds :
        {s u : R.State} {ws vs : List Sweep} (d : Text) (now : ℕ) (found : List Text)
        → (text_eq d doc_id ≡ true → now < expires_at)
        → find_expired R s d now ≡ some found
        → Quietly s (record { doc_id = d; found = found } ∷ ws) u vs
        → Quietly s ws u vs
    drops :
        {s t u : R.State} {ws vs : List Sweep} (w : Sweep) (expired : List Text)
        → In w ws
        → drop_expired R s w.doc_id w.found ≡ some (t, expired)
        → Quietly t ws u vs
        → Quietly s ws u vs

  module _ (I : IsRedis R) where
    Sound-Dropped :
        (d : Text) (found : List Text) (s t : R.State)
        → Sound R I s
        → Dropped R I d found s t
        → Sound R I t
    unfolding is_some
    Sound-Dropped d found s t k gone = λ d' q. ground (arith, (gone d' q).0, (gone d' q).1, k d' q)

    stored_in-Dropped :
        (d : Text) (found : List Text) (s t : R.State)
        → Dropped R I d found s t
        → (text_eq d doc_id && has_key r found) ≡ false
        → stored_in R I t doc_id r ≡ stored_in R I s doc_id r
    stored_in-Dropped d found s t gone clear =
        ap₂ both ((gone doc_id r).0 ∙ rw (clear, if◌then◌else◌) refl)
          ((gone doc_id r).1 ∙ rw (clear, if◌then◌else◌) refl)

    not_found :
        (x : StoredEntry) (s : R.State) (d : Text) (now : ℕ) (found : List Text)
        → stored_in R I s doc_id r ≡ some x
        → x.expires_at ≡ expires_at
        → (text_eq d doc_id ≡ true → now < expires_at)
        → find_expired R s d now ≡ some found
        → (text_eq d doc_id && has_key r found) ≡ false
    unfolding find_expired
    not_found x s d now found e at_time early f = elim (Bool-cases (text_eq d doc_id)) [
      | inr other ↦ ground (arith, other)
      | inl same ↦ elim (Bool-cases (has_key r found)) [
        | inr absent ↦ ground (arith, absent)
        | inl there ↦
            let reached =
              (I.ranged s (heartbeat_key d) none (some now) found f r).0
                ((In-has_key r found).1 there) in
            let scored : I.score s (heartbeat_key d) r ≡ some x.expires_at =
              ap (λ y. I.score s (heartbeat_key y) r) (eq_of_text_eq d doc_id same)
              ∙ (both_parts (I.score s (heartbeat_key doc_id) r) (I.hash s (data_key doc_id) r) x
                  e).0 in
            let unreached =
              young now (I.score s (heartbeat_key d) r) x.expires_at scored
                (omega (arith, early same, at_time)) in
            absurd (ground (arith, reached, unreached))
      ]
    ]

    -- The stored entry stays as it is.
    pub stored-Quietly :
        (x : StoredEntry) (s u : R.State) (ws vs : List Sweep)
        → Sound R I s
        → stored_in R I s doc_id r ≡ some x
        → x.expires_at ≡ expires_at
        → IsClear doc_id r ws
        → Quietly s ws u vs
        → (stored_in R I u doc_id r ≡ some x) × (Sound R I u × IsClear doc_id r vs)
    stored-Quietly x s u ws vs k e at_time c done = (e, (k, c))
    stored-Quietly x s u ws vs k e at_time c (sets {t = m} d entry ttl_ms now other h more) =
        let (sound, after) = redis_set R I s m d entry ttl_ms now k h in
        stored-Quietly x m u ws vs sound (after doc_id r ∙ rw (other, if◌then◌else◌) e) at_time c
          more
    stored-Quietly x s u ws vs k e at_time c (removes {t = m} d q other h more) =
        let (sound, after) = redis_remove R I s m d q k h in
        stored-Quietly x m u ws vs sound (after doc_id r ∙ rw (other, if◌then◌else◌) e) at_time c
          more
    stored-Quietly x s u ws vs k e at_time c (finds d now found early f more) =
        stored-Quietly x s u (record { doc_id = d; found = found } ∷ ws) vs k e at_time
          (not_found x s d now found e at_time early f, c) more
    stored-Quietly x s u ws vs k e at_time c (drops {t = m} w expired i h more) =
        let gone = (drop_expired-Dropped R I s m w.doc_id w.found expired h).1 in
        stored-Quietly x m u ws vs (Sound-Dropped w.doc_id w.found s m k gone)
          (stored_in-Dropped w.doc_id w.found s m gone (IsClear-In doc_id r ws w c i) ∙ e) at_time c
          more
