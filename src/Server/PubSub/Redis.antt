-- ===== src/Server/PubSub/Redis.antt =====
-- apps/server/src/pubsub/RedisPubSubBus.ts over the subscriber's connection, which is a parameter.
-- A handler is a closure with an identity; a call that throws leaves `false`.
use ysync.Common.{
  ◌≡◌, refl, ap, ◌∙◌, Bool, true, false, List, [], ◌∷◌, Option, none, some, if◌then◌else◌, arith,
}
use ysync.Common.Texts.{Text, text_eq, text_eq_refl}
use ysync.Common.Maps
use ysync.Common.Maps.{Map, get-put, get-remove}
use ysync.Server.PubSub.{Handler}

-- The calls of ioredis on the subscriber's connection.
pub record Connection : Type 1 where
  pub State : Type 0
  pub subscribe : State → Text → Option State
  pub unsubscribe : State → Text → Option State

-- Their documented behaviour: whether messages on a channel reach the connection.
pub record IsConnection (C : Connection) : Type 0 where
  pub delivers : C.State → Text → Bool
  pub subscribed :
      (s s' : C.State) (channel : Text)
      → C.subscribe s channel ≡ some s'
      → (k : Text) → delivers s' k ≡ (if text_eq channel k then true else delivers s k)
  pub unsubscribed :
      (s s' : C.State) (channel : Text)
      → C.unsubscribe s channel ≡ some s'
      → (k : Text) → delivers s' k ≡ (if text_eq channel k then false else delivers s k)

module _ (C : Connection) where
  pub record RedisPubSubBus : Type 0 where
    pub subscriber : C.State
    pub handlers : Map Handler

  -- The handler of the connection's "message" event.
  unfoldable pub on_message : Text → RedisPubSubBus → List Handler
  unfolding Maps.get
  on_message channel bus = elim (Maps.get channel bus.handlers) [
    | none ↦ []
    | some handler ↦ handler ∷ []
  ]

  -- The bus after a call on the connection, and whether it threw.
  unfoldable pub after_call : Option C.State → RedisPubSubBus → RedisPubSubBus × Bool
  after_call none bus = (bus, false)
  after_call (some s) bus = (record bus { subscriber = s }, true)

  unfoldable pub subscribe : Text → Handler → RedisPubSubBus → RedisPubSubBus × Bool
  unfolding after_call Maps.put
  subscribe channel handler bus =
      after_call (C.subscribe bus.subscriber channel)
        (record bus { handlers = Maps.put channel handler bus.handlers })

  unfoldable pub unsubscribe : Text → RedisPubSubBus → RedisPubSubBus × Bool
  unfolding after_call Maps.remove
  unsubscribe channel bus =
      after_call (C.unsubscribe bus.subscriber channel)
        (record bus { handlers = Maps.remove channel bus.handlers })

  module _ (L : IsConnection C) where
    -- The handlers that a message on the channel calls.
    abbrev called : Text → RedisPubSubBus → List Handler
    called channel bus = if L.delivers bus.subscriber channel then on_message channel bus else []

    subscriber-subscribe :
        (channel : Text) (handler : Handler) (bus : RedisPubSubBus) (s : C.State)
        → C.subscribe bus.subscriber channel ≡ some s
        → (subscribe channel handler bus).0.subscriber ≡ s
    unfolding subscribe after_call
    subscriber-subscribe channel handler bus s e = rw (e, after_call) refl

    called-subscribe :
        (channel k : Text) (handler : Handler) (bus : RedisPubSubBus) (s : C.State)
        → C.subscribe bus.subscriber channel ≡ some s
        → called k (subscribe channel handler bus).0
          ≡ (if text_eq channel k then handler ∷ [] else called k bus)
    unfolding subscribe after_call on_message
    called-subscribe channel k handler bus s e =
        rw (e, after_call)
          (ground (
            arith,
            L.subscribed bus.subscriber s channel e k,
            get-put channel k handler bus.handlers,
          ))

    called-unsubscribe :
        (channel k : Text) (bus : RedisPubSubBus) (s : C.State)
        → C.unsubscribe bus.subscriber channel ≡ some s
        → called k (unsubscribe channel bus).0 ≡ (if text_eq channel k then [] else called k bus)
    unfolding unsubscribe after_call on_message
    called-unsubscribe channel k bus s e =
        rw (e, after_call)
          (ground
            (arith, L.unsubscribed bus.subscriber s channel e k, get-remove channel k bus.handlers))

    -- A handler that is subscribed where another was takes its place: when the two calls succeed, a
    -- message calls the second one only, and after an `unsubscribe` that succeeds none.
    called-subscribe_twice :
        (channel : Text) (first second : Handler) (bus : RedisPubSubBus) (s t u : C.State)
        → C.subscribe bus.subscriber channel ≡ some s
        → C.subscribe s channel ≡ some t
        → C.unsubscribe t channel ≡ some u
        → let twice = (subscribe channel second (subscribe channel first bus).0).0 in
          (called channel twice ≡ second ∷ []) × (called channel (unsubscribe channel twice).0 ≡ [])
    called-subscribe_twice channel first second bus s t u e f' g' =
        let once = (subscribe channel first bus).0 in
        let twice = (subscribe channel second once).0 in
        let f : C.subscribe once.subscriber channel ≡ some t =
          ap (λ x. C.subscribe x channel) (subscriber-subscribe channel first bus s e) ∙ f' in
        let g : C.unsubscribe twice.subscriber channel ≡ some u =
          ap (λ x. C.unsubscribe x channel) (subscriber-subscribe channel second once t f) ∙ g' in
        (
          called-subscribe channel channel second once t f
              ∙ rw (text_eq_refl channel, if◌then◌else◌) refl,
          called-unsubscribe channel channel twice u g
              ∙ rw (text_eq_refl channel, if◌then◌else◌) refl,
        )
