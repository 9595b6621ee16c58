-- ===== src/Server/Presence/Redis/Contract.antt =====
-- apps/server/src/presence/RedisPresenceStore.ts keeps the contract of
-- apps/server/src/presence/PresenceStore.ts, when Redis does what it documents.
use ysync.Common.{
  ℕ, ◌+◌, ◌≤◌, ◌≡◌, refl, sym, ap, ap₂, subst, ◌∙◌, ◌↔◌, inl, inr, Bool, true, false, Option-cases,
  ◌&&◌, ◌||◌, List, [], ◌∷◌, map, Option, none, some, some_injective, In, if◌then◌else◌, arith,
}
use ysync.Common.Texts.{Text, text_eq, eq_of_text_eq}
use ysync.Server.Persistence.{has_key}
use ysync.Server.Presence.{PresenceEntry, StoredEntry}
use ysync.Server.Presence.Contract.{IsLawful, is_expired}
use ysync.Server.Presence.Redis.{
  Redis, hdel, zrem, data_key, heartbeat_key, not_null, set, remove, list_live, list, drop_expired,
  find_expired, sweep, redis_presence,
}
use ysync.Server.Presence.Redis.Commands.{
  IsRedis, both, is_some, in_range, text_eq-data_key, text_eq-heartbeat_key, In-has_key,
  has_key_single, In-not_null, not_null-In,
}

is_expired-both :
    (now : ℕ) (x : Option ℕ) (h : Option PresenceEntry)
    → is_some x ≡ is_some h
    → is_expired now (both x h) ≡ in_range none (some now) x
unfolding is_expired both in_range is_some
is_expired-both now none h e = refl
is_expired-both now (some x) none e = ground (arith, e)
is_expired-both now (some x) (some h) e = refl

is_some-if :
    {A : Type 0} (b : Bool) (a : A) (o : Option A)
    → is_some (if b then some a else o) ≡ (b || is_some o)
unfolding is_some
is_some-if true a o = refl
is_some-if false a o = refl

same_bool : (a b : Bool) → ((a ≡ true) ↔ (b ≡ true)) → a ≡ b
same_bool true b f = sym (f.0 refl)
same_bool false true f = f.1 refl
same_bool false false f = refl

both-some :
    (x : ℕ) (e : PresenceEntry)
    → both (some x) (some e) ≡ some (record { entry = e; expires_at = x })
unfolding both
both-some x e = refl

pub both_parts :
    (o : Option ℕ) (h : Option PresenceEntry) (x : StoredEntry)
    → both o h ≡ some x
    → (o ≡ some x.expires_at) × (h ≡ some x.entry)
unfolding both
both_parts none h x e = ground (arith, e)
both_parts (some n) none x e = ground (arith, e)
both_parts (some n) (some h) x e =
    let same : record { entry = h; expires_at = n } ≡ x = some_injective _ _ e in
    ((λ i. some (same i).expires_at), (λ i. some (same i).entry))

in_range_from :
    (now : ℕ) (o : Option ℕ)
    → in_range (some now) none o ≡ true
    → (x : ℕ) × (o ≡ some x) × (now ≤ x)
unfolding in_range
in_range_from now none t = absurd (ground (arith, t))
in_range_from now (some x) t = (x, refl, ground (arith, t))

in_range-some : (now x : ℕ) → now ≤ x → in_range (some now) none (some x) ≡ true
unfolding in_range
in_range-some now x l = ground (arith, l)

module _ (R : Redis) (I : IsRedis R) where
  abbrev pub stored_in : R.State → Text → Text → Option StoredEntry
  stored_in s d r = both (I.score s (heartbeat_key d) r) (I.hash s (data_key d) r)

  -- The hash and the sorted set of a document have the same replicas.
  abbrev pub Sound : R.State → Type 0
  Sound s =
      (d r : Text) → is_some (I.score s (heartbeat_key d) r) ≡ is_some (I.hash s (data_key d) r)

  pub redis_set :
      (s s' : R.State) (doc_id : Text) (entry : PresenceEntry) (ttl_ms now : ℕ)
      → Sound s
      → set R s doc_id entry ttl_ms now ≡ some s'
      → Sound s'
        × ((d r : Text)
            → stored_in s' d r ≡ (
                if text_eq doc_id d && text_eq entry.replica_id r
                then some (record { entry = entry; expires_at = now + ttl_ms })
                else stored_in s d r))
  unfolding set both is_some
  redis_set s s' doc_id entry ttl_ms now k e =
      let score : (d r : Text)
          → I.score s' (heartbeat_key d) r ≡ (
              if text_eq doc_id d && text_eq entry.replica_id r
              then some (now + ttl_ms)
              else I.score s (heartbeat_key d) r) =
        (λ d r.
          (I.executed s s' _ e (heartbeat_key d) r).1 ∙ rw (text_eq-heartbeat_key doc_id d) refl) in
      let hash : (d r : Text)
          → I.hash s' (data_key d) r ≡ (
              if text_eq doc_id d && text_eq entry.replica_id r
              then some entry
              else I.hash s (data_key d) r) =
        (λ d r. (I.executed s s' _ e (data_key d) r).0 ∙ rw (text_eq-data_key doc_id d) refl) in
      (
        (λ d r. ground (arith, score d r, hash d r, k d r)),
        (λ d r. ground (arith, score d r, hash d r)),
      )

  pub redis_remove :
      (s s' : R.State) (doc_id replica_id : Text)
      → Sound s
      → remove R s doc_id replica_id ≡ some s'
      → Sound s'
        × ((d r : Text)
            → stored_in s' d r
              ≡ (if text_eq doc_id d && text_eq replica_id r then none else stored_in s d r))
  unfolding remove both is_some
  redis_remove s s' doc_id replica_id k e =
      let score : (d r : Text)
          → I.score s' (heartbeat_key d) r ≡ (
              if text_eq doc_id d && text_eq replica_id r
              then none
              else I.score s (heartbeat_key d) r) =
        (λ d r.
          (I.executed s s' _ e (heartbeat_key d) r).1
          ∙ rw (text_eq-heartbeat_key doc_id d, has_key_single r replica_id) refl) in
      let hash : (d r : Text)
          → I.hash s' (data_key d) r
            ≡ (if text_eq doc_id d && text_eq replica_id r then none else I.hash s (data_key d) r) =
        (λ d r.
          (I.executed s s' _ e (data_key d) r).0
          ∙ rw (text_eq-data_key doc_id d, has_key_single r replica_id) refl) in
      (
        (λ d r. ground (arith, score d r, hash d r, k d r)),
        (λ d r. ground (arith, score d r, hash d r)),
      )

  list_live-not_null :
      (s : R.State) (doc_id : Text) (live : List Text) (entries : List PresenceEntry)
      → list_live R s doc_id live ≡ some entries
      → not_null (map (I.hash s (data_key doc_id)) live) ≡ entries
  unfolding list_live not_null
  list_live-not_null s doc_id [] entries e = some_injective _ _ e
  list_live-not_null s doc_id (r ∷ rs) entries e =
      elim (Option-cases (R.hmget s (data_key doc_id) (r ∷ rs))) [
        | inl failed ↦
            let none_left : none ≡ some entries = rw (failed, list_live) at e in
            ground (arith, none_left)
        | inr (raw, found) ↦
            let got : some (not_null raw) ≡ some entries = rw (found, list_live) at e in
            ap not_null (sym (I.fetched s (data_key doc_id) (r ∷ rs) raw found))
            ∙ some_injective _ _ got
      ]

  -- The ids that `list` fetches are those in range, and what it returns is theirs.
  list-not_null :
      (s later : R.State) (doc_id : Text) (now : ℕ) (entries : List PresenceEntry)
      → list R s later doc_id now ≡ some entries
      → (live : List Text) × ((m : Text)
          → In m live ↔ (in_range (some now) none (I.score s (heartbeat_key doc_id) m) ≡ true))
        × (not_null (map (I.hash later (data_key doc_id)) live) ≡ entries)
  unfolding list
  list-not_null s later doc_id now entries e =
      elim (Option-cases (R.zrangebyscore s (heartbeat_key doc_id) (some now) none)) [
        | inl failed ↦
            let none_left : none ≡ some entries = rw (failed, list) at e in
            absurd (ground (arith, none_left))
        | inr (live, found) ↦ (
          live,
          I.ranged s (heartbeat_key doc_id) (some now) none live found,
          list_live-not_null later doc_id live entries (rw (found, list) at e),
        )
      ]

  pub redis_listed :
      (s : R.State) (doc_id : Text) (now : ℕ) (entries : List PresenceEntry) (e : PresenceEntry)
      → list R s s doc_id now ≡ some entries
      → In e entries
      → (r : Text) × (x : StoredEntry) × (stored_in s doc_id r ≡ some x)
        × (x.entry ≡ e)
        × (now ≤ x.expires_at)
  redis_listed s doc_id now entries e h i =
      let (live, range, same) = list-not_null s s doc_id now entries h in
      let (r, j, f) = In-not_null e (I.hash s (data_key doc_id)) live (subst (In e) (sym same) i) in
      let (x, scored, later) =
        in_range_from now (I.score s (heartbeat_key doc_id) r) ((range r).0 j) in
      (r, record { entry = e; expires_at = x }, ap₂ both scored f ∙ both-some x e, refl, later)

  -- What is stored at both calls of `list`, and has not expired at the first, is listed.
  pub redis_listed_at :
      (s later : R.State) (doc_id : Text) (now : ℕ) (entries : List PresenceEntry) (r : Text)
      (x : StoredEntry)
      → list R s later doc_id now ≡ some entries
      → stored_in s doc_id r ≡ some x
      → stored_in later doc_id r ≡ some x
      → now ≤ x.expires_at
      → In x.entry entries
  redis_listed_at s later doc_id now entries r x h e e' l =
      let (live, range, same) = list-not_null s later doc_id now entries h in
      let scored =
        (both_parts (I.score s (heartbeat_key doc_id) r) (I.hash s (data_key doc_id) r) x e).0 in
      let hashed =
        (both_parts (I.score later (heartbeat_key doc_id) r) (I.hash later (data_key doc_id) r) x
          e').1 in
      subst (In x.entry) same (
        not_null-In x.entry (I.hash later (data_key doc_id)) r live
          ((range r).1 (ap (in_range (some now) none) scored ∙ in_range-some now x.expires_at l))
          hashed)

  -- What is gone after the transaction of `sweep`.
  abbrev pub Dropped : Text → List Text → R.State → R.State → Type 0
  Dropped doc_id found s s' =
      (d r : Text)
      → (I.score s' (heartbeat_key d) r
          ≡ (if text_eq doc_id d && has_key r found then none else I.score s (heartbeat_key d) r))
        × (I.hash s' (data_key d) r
            ≡ (if text_eq doc_id d && has_key r found then none else I.hash s (data_key d) r))

  Dropped-multi :
      (s s' : R.State) (doc_id : Text) (found : List Text)
      → R.multi s (zrem (heartbeat_key doc_id) found ∷ hdel (data_key doc_id) found ∷ []) ≡ some s'
      → Dropped doc_id found s s'
  Dropped-multi s s' doc_id found e d r = (
    (I.executed s s' _ e (heartbeat_key d) r).1 ∙ rw (text_eq-heartbeat_key doc_id d) refl,
    (I.executed s s' _ e (data_key d) r).0 ∙ rw (text_eq-data_key doc_id d) refl,
  )

  Dropped-nil : (s : R.State) (doc_id : Text) → Dropped doc_id [] s s
  unfolding has_key
  Dropped-nil s doc_id d r = (ground arith, ground arith)

  pub drop_expired-Dropped :
      (s s' : R.State) (doc_id : Text) (found expired : List Text)
      → drop_expired R s doc_id found ≡ some (s', expired)
      → (expired ≡ found) × Dropped doc_id found s s'
  unfolding drop_expired
  drop_expired-Dropped s s' doc_id [] expired e =
      subst (λ (p : R.State × List Text). (p.1 ≡ []) × Dropped doc_id [] s p.0)
        (some_injective (s, []) (s', expired) e) (refl, Dropped-nil s doc_id)
  drop_expired-Dropped s s' doc_id (q ∷ rs) expired e =
      elim (Option-cases
        (R.multi s (zrem (heartbeat_key doc_id) (q ∷ rs) ∷ hdel (data_key doc_id) (q ∷ rs) ∷ []))) [
          | inl failed ↦
              let none_left : none ≡ some (s', expired) = rw (failed, drop_expired) at e in
              absurd (ground (arith, none_left))
          | inr (after, done) ↦
              subst (λ (p : R.State × List Text). (p.1 ≡ q ∷ rs) × Dropped doc_id (q ∷ rs) s p.0)
                (some_injective (after, q ∷ rs) (s', expired) (rw (done, drop_expired) at e))
                (refl, Dropped-multi s after doc_id (q ∷ rs) done)
        ]

  swept :
      (s s' : R.State) (doc_id : Text) (now : ℕ) (found expired : List Text)
      → Sound s
      → expired ≡ found
      → ((m : Text)
          → In m found ↔ (in_range none (some now) (I.score s (heartbeat_key doc_id) m) ≡ true))
      → Dropped doc_id found s s'
      → Sound s'
        × ((d r : Text)
            → stored_in s' d r ≡ (
                if text_eq doc_id d && is_expired now (stored_in s d r)
                then none
                else stored_in s d r))
        × ((r : Text) → In r expired ↔ (is_expired now (stored_in s doc_id r) ≡ true))
  unfolding both is_some
  swept s s' doc_id now found expired k same range gone = (
    (λ d r. ground (arith, (gone d r).0, (gone d r).1, k d r)),
    (λ d r. ground (arith, (gone d r).0, (gone d r).1, there d r)),
    (λ r.
        subst (λ l. In r l ↔ (is_expired now (stored_in s doc_id r) ≡ true)) (sym same)
          (reported r)),
  )
    where
      young :
          (d r : Text)
          → is_expired now (stored_in s d r)
            ≡ in_range none (some now) (I.score s (heartbeat_key d) r)
      young d r =
          is_expired-both now (I.score s (heartbeat_key d) r) (I.hash s (data_key d) r) (k d r)

      reported : (r : Text) → In r found ↔ (is_expired now (stored_in s doc_id r) ≡ true)
      reported r = subst (λ b. In r found ↔ (b ≡ true)) (sym (young doc_id r)) (range r)

      here : (r : Text) → has_key r found ≡ is_expired now (stored_in s doc_id r)
      here r = same_bool (has_key r found) (is_expired now (stored_in s doc_id r)) (
        (λ t. (reported r).0 ((In-has_key r found).1 t)),
        (λ t. (In-has_key r found).0 ((reported r).1 t)),
      )

      there :
          (d r : Text)
          → text_eq doc_id d ≡ true
          → has_key r found ≡ is_expired now (stored_in s d r)
      there d r t =
          subst (λ q. has_key r found ≡ is_expired now (stored_in s q r)) (eq_of_text_eq doc_id d t)
            (here r)

  pub redis_sweep :
      (s s' : R.State) (doc_id : Text) (now : ℕ) (expired : List Text)
      → Sound s
      → sweep R s s doc_id now ≡ some (s', expired)
      → Sound s'
        × ((d r : Text)
            → stored_in s' d r ≡ (
                if text_eq doc_id d && is_expired now (stored_in s d r)
                then none
                else stored_in s d r))
        × ((r : Text) → In r expired ↔ (is_expired now (stored_in s doc_id r) ≡ true))
  unfolding sweep find_expired
  redis_sweep s s' doc_id now expired k e = elim (Option-cases (find_expired R s doc_id now)) [
    | inl failed ↦
        let none_left : none ≡ some (s', expired) = rw (failed, sweep) at e in
        absurd (ground (arith, none_left))
    | inr (found, q) ↦
        let (same, gone) = drop_expired-Dropped s s' doc_id found expired (rw (q, sweep) at e) in
        swept s s' doc_id now found expired k same
          (I.ranged s (heartbeat_key doc_id) none (some now) found q) gone
  ]

  -- The Redis store keeps the contract.
  unfoldable pub redis_presence-IsLawful : IsLawful (redis_presence R)
  redis_presence-IsLawful = record {
    IsSound = Sound;
    stored = stored_in;
    after_set = redis_set;
    after_remove = redis_remove;
    listed = λ s doc_id now entries e k. redis_listed s doc_id now entries e;
    live_listed = λ s doc_id now entries r x k h e l.
        redis_listed_at s s doc_id now entries r x h e e (omega (arith, l));
    after_sweep = redis_sweep;
  }
