-- ===== src/Server/Presence/Redis/Commands.antt =====
-- What apps/server/src/presence/RedisPresenceStore.ts relies on from Redis: hashes and sorted sets.
use mathlib.Core.List.{append_cancel_left, append_cancel_right}
use ysync.Common.{
  ℕ, ◌≡◌, refl, sym, ap, ◌∙◌, ◌↔◌, inl, inr, Bool, true, false, Bool-cases, Option-cases, ◌&&◌,
  List, [], ◌∷◌, map, Option, none, some, In, leb, if◌then◌else◌, arith,
}
use ysync.Common.Texts.{Text, text_eq, text_eq_iff, text_eq-injective}
use ysync.Server.Persistence.{has_key}
use ysync.Server.Presence.{PresenceEntry, StoredEntry}
use ysync.Server.Presence.Redis.{
  Redis, Command, hset, hdel, zadd, zrem, data_key, heartbeat_key, not_null,
}

-- What a command does to a field of a hash.
abbrev pub hash_after : Command → Text → Text → Option PresenceEntry → Option PresenceEntry
hash_after (hset key field value) k f old =
    if text_eq key k && text_eq field f then some value else old
hash_after (hdel key fields) k f old = if text_eq key k && has_key f fields then none else old
hash_after (zadd _ _ _) k f old = old
hash_after (zrem _ _) k f old = old

-- What it does to a member's score in a sorted set.
abbrev pub score_after : Command → Text → Text → Option ℕ → Option ℕ
score_after (hset _ _ _) k m old = old
score_after (hdel _ _) k m old = old
score_after (zadd key score member) k m old =
    if text_eq key k && text_eq member m then some score else old
score_after (zrem key members) k m old = if text_eq key k && has_key m members then none else old

abbrev pub hash_after_all : List Command → Text → Text → Option PresenceEntry → Option PresenceEntry
hash_after_all [] k f old = old
hash_after_all (c ∷ cs) k f old = hash_after_all cs k f (hash_after c k f old)

abbrev pub score_after_all : List Command → Text → Text → Option ℕ → Option ℕ
score_after_all [] k m old = old
score_after_all (c ∷ cs) k m old = score_after_all cs k m (score_after c k m old)

unfoldable pub in_range : Option ℕ → Option ℕ → Option ℕ → Bool
in_range low high none = false
in_range none none (some x) = true
in_range none (some h) (some x) = leb x h
in_range (some l) none (some x) = leb l x
in_range (some l) (some h) (some x) = leb l x && leb x h

-- The documented behaviour of the calls that succeed.
pub record IsRedis (R : Redis) : Type 0 where
  pub hash : R.State → Text → Text → Option PresenceEntry
  pub score : R.State → Text → Text → Option ℕ
  pub executed :
      (s s' : R.State) (commands : List Command)
      → R.multi s commands ≡ some s'
      → (k f : Text)
      → (hash s' k f ≡ hash_after_all commands k f (hash s k f))
        × (score s' k f ≡ score_after_all commands k f (score s k f))
  pub ranged :
      (s : R.State) (key : Text) (low high : Option ℕ) (members : List Text)
      → R.zrangebyscore s key low high ≡ some members
      → (m : Text) → In m members ↔ (in_range low high (score s key m) ≡ true)
  pub fetched :
      (s : R.State) (key : Text) (fields : List Text) (values : List (Option PresenceEntry))
      → R.hmget s key fields ≡ some values
      → values ≡ map (hash s key) fields

unfoldable pub both : Option ℕ → Option PresenceEntry → Option StoredEntry
both none h = none
both (some x) none = none
both (some x) (some e) = some (record { entry = e; expires_at = x })

unfoldable pub is_some : {A : Type 0} → Option A → Bool
is_some none = false
is_some (some a) = true

pub text_eq-data_key : (a b : Text) → text_eq (data_key a) (data_key b) ≡ text_eq a b
unfolding data_key
text_eq-data_key = text_eq-injective data_key (λ a b e.
    append_cancel_right a b (b':' ∷ b'd' ∷ b'a' ∷ b't' ∷ b'a' ∷ []) (
      append_cancel_left (b'p' ∷ b'r' ∷ b'e' ∷ b's' ∷ b'e' ∷ b'n' ∷ b'c' ∷ b'e' ∷ b':' ∷ []) _ _ e))

pub text_eq-heartbeat_key : (a b : Text) → text_eq (heartbeat_key a) (heartbeat_key b) ≡ text_eq a b
unfolding heartbeat_key
text_eq-heartbeat_key = text_eq-injective heartbeat_key (λ a b e.
    append_cancel_right a b
      (b':' ∷ b'h' ∷ b'e' ∷ b'a' ∷ b'r' ∷ b't' ∷ b'b' ∷ b'e' ∷ b'a' ∷ b't' ∷ [])
      (append_cancel_left (b'p' ∷ b'r' ∷ b'e' ∷ b's' ∷ b'e' ∷ b'n' ∷ b'c' ∷ b'e' ∷ b':' ∷ []) _ _
        e))

pub In-has_key : (m : Text) (members : List Text) → In m members ↔ (has_key m members ≡ true)
unfolding has_key
In-has_key m [] = ((λ i. absurd i), (λ e. ground (arith, e)))
In-has_key m (k ∷ ks) = (
  (λ i. elim i [
    | inl e ↦ ground (arith, text_eq_iff k m, e)
    | inr j ↦ ground (arith, (In-has_key m ks).0 j)
  ]),
  (λ e. elim (Bool-cases (text_eq k m)) [
    | inl t ↦ inl (ground (arith, text_eq_iff k m, t))
    | inr f ↦ inr ((In-has_key m ks).1 (ground (arith, e, f)))
  ]),
)

pub has_key_single : (m r : Text) → has_key m (r ∷ []) ≡ text_eq r m
unfolding has_key
has_key_single m r = ground arith

pub In-not_null :
    (e : PresenceEntry) (h : Text → Option PresenceEntry) (rs : List Text)
    → In e (not_null (map h rs))
    → (r : Text) × In r rs × (h r ≡ some e)
unfolding not_null
In-not_null e h [] i = absurd i
In-not_null e h (r ∷ rs) i = elim (Option-cases (h r)) [
  | inl none_here ↦
      let (q, j, f) = In-not_null e h rs (rw (none_here, not_null) at i) in (q, inr j, f)
  | inr (x, here) ↦ elim (rw (here, not_null) at i) [
    | inl same ↦ (r, inl refl, here ∙ ap some (sym same))
    | inr later ↦ let (q, j, f) = In-not_null e h rs later in (q, inr j, f)
  ]
]

pub not_null-In :
    (e : PresenceEntry) (h : Text → Option PresenceEntry) (r : Text) (rs : List Text)
    → In r rs
    → h r ≡ some e
    → In e (not_null (map h rs))
unfolding not_null
not_null-In e h r [] i f = absurd i
not_null-In e h r (q ∷ rs) (inl same) f = rw (ap h (sym same) ∙ f, not_null) (inl refl)
not_null-In e h r (q ∷ rs) (inr i) f = elim (Option-cases (h q)) [
  | inl none_here ↦ rw (none_here, not_null) (not_null-In e h r rs i f)
  | inr (x, here) ↦ rw (here, not_null) (inr (not_null-In e h r rs i f))
]
