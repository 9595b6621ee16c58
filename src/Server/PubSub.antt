-- ===== src/Server/PubSub.antt =====
-- apps/server/src/pubsub/InMemoryPubSubBus.ts. A handler is a closure with an identity.
pub mod Redis
pub mod Unsubscribe
use ysync.Common.{
  ℕ, Bool, true, false, not, List, [], ◌∷◌, ◌++◌, Option, none, some, ◌||◌, ◌==◌, if◌then◌else◌,
}
use ysync.Common.Texts.{Text}
use ysync.Common.Maps
use ysync.Common.Maps.{Map}

abbrev pub Handler : Type 0
Handler = ℕ

-- `subscribers`: for each channel, its set of handlers in the order of their insertion.
abbrev pub Broker : Type 0
Broker = Map (List Handler)

unfoldable pub has_handler : Handler → List Handler → Bool
has_handler h [] = false
has_handler h (k ∷ ks) = k == h || has_handler h ks

-- `handlers.add(handler)`
unfoldable pub add_handler : Handler → List Handler → List Handler
unfolding has_handler
add_handler h hs = if has_handler h hs then hs else hs ++ h ∷ []

-- `handlers.delete(handler)`
unfoldable pub delete_handler : Handler → List Handler → List Handler
delete_handler h [] = []
delete_handler h (k ∷ ks) = let rest = delete_handler h ks in if k == h then rest else k ∷ rest

-- The handlers that `publish` calls, in order.
unfoldable pub broker_publish : Text → Broker → List Handler
unfolding Maps.get
broker_publish channel broker = elim (Maps.get channel broker) [
  | none ↦ []
  | some handlers ↦ handlers
]

unfoldable pub broker_subscribe : Text → Handler → Broker → Broker
unfolding add_handler Maps.get Maps.put
broker_subscribe channel handler broker = elim (Maps.get channel broker) [
  | none ↦ Maps.put channel (add_handler handler []) broker
  | some handlers ↦ Maps.put channel (add_handler handler handlers) broker
]

unfoldable pub broker_unsubscribe : Text → Handler → Broker → Broker
unfolding delete_handler Maps.get Maps.put
broker_unsubscribe channel handler broker = elim (Maps.get channel broker) [
  | none ↦ broker
  | some handlers ↦ Maps.put channel (delete_handler handler handlers) broker
]

-- One process's end, and the broker that it shares with others.
pub record PubSubBus : Type 0 where
  pub broker : Broker
  pub handlers : Map Handler

unfoldable pub publish : Text → PubSubBus → List Handler
unfolding broker_publish
publish channel bus = broker_publish channel bus.broker

unfoldable pub subscribe : Text → Handler → PubSubBus → PubSubBus
unfolding broker_subscribe Maps.put
subscribe channel handler bus = record {
  broker = broker_subscribe channel handler bus.broker;
  handlers = Maps.put channel handler bus.handlers;
}

unfoldable pub unsubscribe : Text → PubSubBus → PubSubBus
unfolding broker_unsubscribe Maps.get Maps.remove
unsubscribe channel bus = elim (Maps.get channel bus.handlers) [
  | none ↦ bus
  | some handler ↦ record {
    broker = broker_unsubscribe channel handler bus.broker;
    handlers = Maps.remove channel bus.handlers;
  }
]

-- The loop of `close` over the handlers left.
unfoldable pub unsubscribe_all : Map Handler → Broker → Broker
unfolding broker_unsubscribe
unsubscribe_all [] broker = broker
unsubscribe_all ((channel, handler) ∷ handlers) broker =
    unsubscribe_all handlers (broker_unsubscribe channel handler broker)

unfoldable pub close : PubSubBus → PubSubBus
unfolding unsubscribe_all
close bus = record { broker = unsubscribe_all bus.handlers bus.broker; handlers = [] }
