-- ===== src/Tests/Redis.antt =====
-- The stores of apps/server over a Redis that is a function.
use ysync.Common.{
  ℕ, ◌≤◌, zero, suc, ◌+◌, ◌≡◌, ◌↔◌, ◌⊎◌, refl, sym, ap, subst, ◌∙◌, inl, inr, Bool, true, false,
  Bool-cases, ◌&&◌, List, [], ◌∷◌, Option, none, some, some_injective, In, map, if◌then◌else◌,
  arith,
}
use ysync.Common.Texts.{Text, text_eq, text_eq_iff, eq_of_text_eq}
use ysync.Common.Maps
use ysync.Common.Maps.{Map, get-put, get-remove, keys}
use ysync.Crdt.OpId.{to_decimal}
use ysync.Server.Persistence.{has_key}
use ysync.Server.Seq.Contract.{Taken, Takes, done, take, fail, IsIncreasing, taken_for}
use ysync.Server.Seq.Redis as SeqRedis
use ysync.Server.Seq.Redis.{redis_allocator, seq_key, redis_numbers, next}
use ysync.Server.Presence.{PresenceEntry}
use ysync.Server.Presence.Redis as PresenceRedis
use ysync.Server.Presence.Redis.{
  Command, hset, hdel, zadd, zrem, set, list, sweep, redis_presence, data_key, heartbeat_key,
  list_live, find_expired, drop_expired, not_null,
}
use ysync.Server.Presence.Redis.Commands.{
  IsRedis, hash_after, score_after, hash_after_all, score_after_all, in_range, both, is_some,
}
use ysync.Server.Presence.Redis.Contract.{Sound, redis_set}
use ysync.Server.Presence.Redis.Interleaving.{Quietly, sets, finds, drops}
use ysync.Server.Presence.Redis.Boundary.{redis_listed_until, expired_still_listed}
use ysync.Server.PubSub.Redis.{Connection, IsConnection}

abbrev notes : Text
notes = b'n' ∷ []

abbrev alice : Text
alice = b'a' ∷ []

abbrev bob : Text
bob = b'b' ∷ []

-- Counters, and whether the replies to come are lost.
record Counts : Type 0 where
  counts : Text → ℕ
  losses : List Bool

abbrev counted : Text → (Text → ℕ) → Text → ℕ
counted key s k = if text_eq key k then suc (s key) else s k

abbrev counted_on : Text → Counts → List Bool → Counts
counted_on key s losses = record { counts = counted key s.counts; losses = losses }

abbrev incr_with : Text → Counts → List Bool → Counts × Option ℕ
incr_with key s [] = (counted_on key s [], some (suc (s.counts key)))
incr_with key s (true ∷ losses) = (counted_on key s losses, none)
incr_with key s (false ∷ losses) = (counted_on key s losses, some (suc (s.counts key)))

abbrev decimal_of : ℕ → Option Text
decimal_of zero = none
decimal_of (suc n) = some (to_decimal (suc n))

abbrev counter_redis : SeqRedis.Redis
counter_redis = record {
  State = Counts;
  incr = λ s key. incr_with key s s.losses;
  get = λ s key. some (decimal_of (s.counts key));
}

decimal_of_lem : (n : ℕ) → ((decimal_of n ≡ none) × (n ≡ 0)) ⊎ (decimal_of n ≡ some (to_decimal n))
decimal_of_lem zero = inl (refl, refl)
decimal_of_lem (suc n) = inr refl

counted_up : (key k : Text) (s : Text → ℕ) → s k ≤ counted key s k
counted_up key k s = ground (arith, text_eq_iff key k)

abbrev Replied : Text → Counts → Counts × Option ℕ → Type 0
Replied key s (s', none) = (k : Text) → s.counts k ≤ s'.counts k
Replied key s (s', some n) =
    (n ≡ suc (s.counts key))
    × ((k : Text) → s'.counts k ≡ (if text_eq key k then n else s.counts k))

incr_with-Replied :
    (key : Text) (s : Counts) (losses : List Bool) → Replied key s (incr_with key s losses)
incr_with-Replied key s [] = (refl, λ k. refl)
incr_with-Replied key s (true ∷ losses) = λ k. counted_up key k s.counts
incr_with-Replied key s (false ∷ losses) = (refl, λ k. refl)

counter_redis-IsRedis : SeqRedis.IsRedis counter_redis
counter_redis-IsRedis = record {
  value = λ s key. s.counts key;
  incremented = λ s s' key n e. subst (Replied key s) e (incr_with-Replied key s s.losses);
  failed = λ s s' key e. subst (Replied key s) e (incr_with-Replied key s s.losses);
  got = λ s key answer e.
      subst (λ a. ((a ≡ none) × (s.counts key ≡ 0)) ⊎ (a ≡ some (to_decimal (s.counts key))))
        (some_injective _ _ e) (decimal_of_lem (s.counts key));
}

-- The reply of the third call is lost.
abbrev zero_counts : Counts
zero_counts = record { counts = λ key. 0; losses = false ∷ false ∷ true ∷ [] }

abbrev once : Counts
once = counted_on (seq_key notes) zero_counts (false ∷ true ∷ [])

abbrev twice : Counts
twice = counted_on (seq_key alice) once (true ∷ [])

abbrev lost : Counts
lost = counted_on (seq_key notes) twice []

abbrev taken : List Taken
taken =
    record { doc_id = notes; number = 1 }
    ∷ record { doc_id = alice; number = 1 }
    ∷ record { doc_id = notes; number = 3 }
    ∷ []

taken-Takes :
    Takes (redis_allocator counter_redis) zero_counts taken (counted_on (seq_key notes) lost [])
unfolding next seq_key text_eq
taken-Takes = take {s' = once} refl (
    take {s' = twice} refl (
      fail {s' = lost} {doc_id = notes} refl
        (take {s' = counted_on (seq_key notes) lost []} refl done)))

redis_numbers_example : IsIncreasing 0 (taken_for notes taken)
unfolding counter_redis-IsRedis
redis_numbers_example =
    redis_numbers counter_redis counter_redis-IsRedis notes zero_counts
      (counted_on (seq_key notes) lost []) taken taken-Takes

-- A connection that is the channels it is subscribed to.
abbrev channel_connection : Connection
channel_connection = record {
  State = Text → Bool;
  subscribe = λ s channel. some (λ k. if text_eq channel k then true else s k);
  unsubscribe = λ s channel. some (λ k. if text_eq channel k then false else s k);
}

channel_connection-IsConnection : IsConnection channel_connection
channel_connection-IsConnection = record {
  delivers = λ s k. s k;
  subscribed = λ s s' channel e k. ap (λ (f : Text → Bool). f k) (sym (some_injective _ _ e));
  unsubscribed = λ s s' channel e k. ap (λ (f : Text → Bool). f k) (sym (some_injective _ _ e));
}

-- Hashes as functions, and sorted sets as maps of scores.
record Sets : Type 0 where
  hash : Text → Text → Option PresenceEntry
  scores : Text → Map ℕ

abbrev remove_all : List Text → Map ℕ → Map ℕ
remove_all [] m = m
remove_all (k ∷ ks) m = remove_all ks (Maps.remove k m)

get-remove_all :
    (ks : List Text) (j : Text) (m : Map ℕ)
    → Maps.get j (remove_all ks m) ≡ (if has_key j ks then none else Maps.get j m)
unfolding has_key
get-remove_all [] j m = refl
get-remove_all (k ∷ ks) j m =
    ground (arith, get-remove_all ks j (Maps.remove k m), get-remove k j m)

abbrev scored : Command → (Text → Map ℕ) → Text → Map ℕ
scored (hset _ _ _) scores k = scores k
scored (hdel _ _) scores k = scores k
scored (zadd key score member) scores k =
    if text_eq key k then Maps.put member score (scores k) else scores k
scored (zrem key members) scores k =
    if text_eq key k then remove_all members (scores k) else scores k

abbrev run : List Command → Sets → Sets
run [] s = s
run (c ∷ cs) s =
    run cs
      (record { hash = λ k f. hash_after c k f (s.hash k f); scores = λ k. scored c s.scores k })

get-scored :
    (c : Command) (scores : Text → Map ℕ) (k f : Text)
    → Maps.get f (scored c scores k) ≡ score_after c k f (Maps.get f (scores k))
get-scored (hset _ _ _) scores k f = refl
get-scored (hdel _ _) scores k f = refl
get-scored (zadd key score member) scores k f = ground (arith, get-put member f score (scores k))
get-scored (zrem key members) scores k f = ground (arith, get-remove_all members f (scores k))

run_lem :
    (cs : List Command) (s : Sets) (k f : Text)
    → ((run cs s).hash k f ≡ hash_after_all cs k f (s.hash k f))
      × (Maps.get f ((run cs s).scores k) ≡ score_after_all cs k f (Maps.get f (s.scores k)))
run_lem [] s k f = (refl, refl)
run_lem (c ∷ cs) s k f =
    let rest =
      run_lem cs
        (record { hash = λ k f. hash_after c k f (s.hash k f); scores = λ k. scored c s.scores k })
        k f in
    (rest.0, rest.1 ∙ ap (score_after_all cs k f) (get-scored c s.scores k f))

-- The members whose scores are in the range.
abbrev in_set : Option ℕ → Option ℕ → Map ℕ → Map ℕ → List Text
in_set low high all [] = []
in_set low high all ((k, _) ∷ m) =
    let rest = in_set low high all m in
    if in_range low high (Maps.get k all) then k ∷ rest else rest

in_set-in_range :
    (low high : Option ℕ) (all m : Map ℕ) (r : Text)
    → In r (in_set low high all m)
    → in_range low high (Maps.get r all) ≡ true
in_set-in_range low high all [] r i = absurd i
in_set-in_range low high all ((k, x) ∷ m) r i =
    elim (Bool-cases (in_range low high (Maps.get k all))) [
      | inl t ↦ elim (rw (t, if◌then◌else◌) at i) [
        | inl here ↦ ap (λ q. in_range low high (Maps.get q all)) here ∙ t
        | inr later ↦ in_set-in_range low high all m r later
      ]
      | inr f ↦ in_set-in_range low high all m r (rw (f, if◌then◌else◌) at i)
    ]

in_range-in_set :
    (low high : Option ℕ) (all m : Map ℕ) (r : Text) (x : ℕ)
    → Maps.get r m ≡ some x
    → in_range low high (Maps.get r all) ≡ true
    → In r (in_set low high all m)
unfolding Maps.get
in_range-in_set low high all [] r x g t = ground (arith, g)
in_range-in_set low high all ((k, y) ∷ m) r x g t = elim (Bool-cases (text_eq k r)) [
  | inl here ↦
      let same : r ≡ k = sym (eq_of_text_eq k r here) in
      let inside : in_range low high (Maps.get k all) ≡ true =
        ap (λ q. in_range low high (Maps.get q all)) (sym same) ∙ t in
      rw (inside, if◌then◌else◌) (inl same)
  | inr other ↦
      let later = in_range-in_set low high all m r x (rw (other, if◌then◌else◌) at g) t in
      elim (Bool-cases (in_range low high (Maps.get k all))) [
        | inl u ↦ rw (u, if◌then◌else◌) (inr later)
        | inr v ↦ rw (v, if◌then◌else◌) later
      ]
]

in_range_there :
    (low high : Option ℕ) (o : Option ℕ) → in_range low high o ≡ true → (x : ℕ) × (o ≡ some x)
unfolding in_range
in_range_there low high none t = absurd (ground (arith, t))
in_range_there low high (some x) t = (x, refl)

abbrev set_redis : PresenceRedis.Redis
set_redis = record {
  State = Sets;
  multi = λ s commands. some (run commands s);
  zrangebyscore = λ s key low high. some (in_set low high (s.scores key) (s.scores key));
  hmget = λ s key fields. some (map (s.hash key) fields);
}

set_redis-IsRedis : IsRedis set_redis
set_redis-IsRedis = record {
  hash = λ s k f. s.hash k f;
  score = λ s k m. Maps.get m (s.scores k);
  executed = λ s s' commands e k f.
      subst
        (λ (t : Sets).
          (t.hash k f ≡ hash_after_all commands k f (s.hash k f))
          × (Maps.get f (t.scores k) ≡ score_after_all commands k f (Maps.get f (s.scores k))))
        (some_injective (run commands s) s' e) (run_lem commands s k f);
  ranged = λ s key low high members e m.
      subst (λ l. In m l ↔ (in_range low high (Maps.get m (s.scores key)) ≡ true))
        (some_injective _ _ e)
        (
          in_set-in_range low high (s.scores key) (s.scores key) m,
          λ t.
              let (x, g) = in_range_there low high (Maps.get m (s.scores key)) t in
              in_range-in_set low high (s.scores key) (s.scores key) m x g t,
        );
  fetched = λ s key fields values e. sym (some_injective _ _ e);
}

abbrev no_sets : Sets
no_sets = record { hash = λ k f. none; scores = λ k. [] }

no_sets-Sound : Sound set_redis set_redis-IsRedis no_sets
unfolding set_redis-IsRedis is_some Maps.get
no_sets-Sound d r = refl

abbrev entry_of : Text → PresenceEntry
entry_of r = record {
  replica_id = r;
  awareness = record { cursor = some 3; selection = none; name = none; color = none };
}

abbrev set_at : Text → ℕ → ℕ → Sets → Sets
set_at r ttl_ms now s =
    run (hset (data_key notes) r (entry_of r) ∷ zadd (heartbeat_key notes) (now + ttl_ms) r ∷ []) s

abbrev alice_there : Sets
alice_there = set_at alice 30 10 no_sets

abbrev both_there : Sets
both_there = set_at bob 5 12 alice_there

bob_elsewhere : (text_eq notes notes && text_eq bob alice) ≡ false
unfolding text_eq
bob_elsewhere = refl

-- Between the two requests of `list` another process ends a sweep of the document that found bob.
abbrev bob_gone : Sets
bob_gone =
    run (zrem (heartbeat_key notes) (bob ∷ []) ∷ hdel (data_key notes) (bob ∷ []) ∷ []) both_there

alice_listed : list set_redis both_there bob_gone notes 20 ≡ some (entry_of alice ∷ [])
unfolding list list_live not_null data_key heartbeat_key Maps.get Maps.put in_range text_eq has_key
alice_listed = refl

bob_found : find_expired set_redis both_there notes 20 ≡ some (bob ∷ [])
unfolding find_expired heartbeat_key Maps.get Maps.put in_range text_eq
bob_found = refl

bob_other : (text_eq notes notes && has_key alice (bob ∷ [])) ≡ false
unfolding text_eq has_key
bob_other = refl

redis_listed_until_example : In (entry_of alice) (entry_of alice ∷ [])
unfolding set drop_expired
redis_listed_until_example =
    redis_listed_until set_redis set_redis-IsRedis no_sets alice_there both_there bob_gone []
      (record { doc_id = notes; found = bob ∷ [] } ∷ [])
      (record { doc_id = notes; found = bob ∷ [] } ∷ []) notes (entry_of alice) 30 10 20
      (entry_of alice ∷ []) no_sets-Sound refl tt
      (sets {t = both_there} notes (entry_of bob) 5 12 bob_elsewhere refl
        (finds notes 20 (bob ∷ []) (λ _. omega arith) bob_found Quietly.done))
      (drops {t = bob_gone} (record { doc_id = notes; found = bob ∷ [] }) (bob ∷ []) (inl refl) refl
        Quietly.done)
      (omega arith) alice_listed

alice_there-Sound : Sound set_redis set_redis-IsRedis alice_there
unfolding set
alice_there-Sound =
    (redis_set set_redis set_redis-IsRedis no_sets alice_there notes (entry_of alice) 30 10
      no_sets-Sound refl).0

alice_gone : Sets
alice_gone =
    run (zrem (heartbeat_key notes) (alice ∷ []) ∷ hdel (data_key notes) (alice ∷ []) ∷ [])
      alice_there

expired_still_listed_example : In (entry_of alice) (entry_of alice ∷ []) × In alice (alice ∷ [])
unfolding list list_live find_expired drop_expired sweep not_null data_key heartbeat_key Maps.get
    Maps.put in_range text_eq set_redis-IsRedis both alice_gone
expired_still_listed_example =
    expired_still_listed set_redis set_redis-IsRedis alice_there alice_gone notes alice
      (record { entry = entry_of alice; expires_at = 40 }) (entry_of alice ∷ []) (alice ∷ [])
      alice_there-Sound refl refl refl
