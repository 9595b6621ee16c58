-- ===== src/Server/PubSub/Unsubscribe.antt =====
-- Subscriptions of apps/server/src/pubsub/InMemoryPubSubBus.ts that are ended.
use ysync.Common.{
  ◌≡◌, refl, inl, inr, false, List, [], ◌∷◌, ◌++◌, some, if◌then◌else◌, Option-cases, arith,
}
use ysync.Common.Texts.{Text, text_eq, text_eq_refl, text_eq_iff}
use ysync.Common.Maps
use ysync.Common.Maps.{get-put, get-put_self}
use ysync.Server.PubSub.{
  Handler, Broker, PubSubBus, has_handler, add_handler, delete_handler, broker_publish,
  broker_subscribe, broker_unsubscribe, publish, subscribe, unsubscribe,
}

delete_absent :
    (h : Handler) (hs : List Handler) → has_handler h hs ≡ false → delete_handler h hs ≡ hs
unfolding delete_handler has_handler
delete_absent h [] e = refl
delete_absent h (k ∷ ks) e = ground (arith, delete_absent h ks)

delete_last :
    (h : Handler) (hs : List Handler)
    → has_handler h hs ≡ false
    → delete_handler h (hs ++ h ∷ []) ≡ hs
unfolding delete_handler has_handler
delete_last h [] e = ground arith
delete_last h (k ∷ ks) e = ground (arith, delete_last h ks)

broker_subscribe-publish :
    (channel c : Text) (h : Handler) (broker : Broker)
    → broker_publish c (broker_subscribe channel h broker) ≡ (
        if text_eq channel c
        then add_handler h (broker_publish channel broker)
        else broker_publish c broker)
unfolding broker_publish broker_subscribe
broker_subscribe-publish channel c h broker = elim (Option-cases (Maps.get channel broker)) [
  | inl e ↦ rw (e, broker_subscribe) (ground (arith, get-put channel c (add_handler h []) broker))
  | inr (hs, e) ↦
      rw (e, broker_subscribe) (ground (arith, get-put channel c (add_handler h hs) broker))
]

broker_unsubscribe-publish :
    (channel c : Text) (h : Handler) (broker : Broker)
    → broker_publish c (broker_unsubscribe channel h broker) ≡ (
        if text_eq channel c
        then delete_handler h (broker_publish channel broker)
        else broker_publish c broker)
unfolding broker_publish broker_unsubscribe delete_handler
broker_unsubscribe-publish channel c h broker = elim (Option-cases (Maps.get channel broker)) [
  | inl e ↦ rw (e, broker_unsubscribe) (ground (arith, text_eq_iff channel c))
  | inr (hs, e) ↦
      rw (e, broker_unsubscribe) (ground (arith, get-put channel c (delete_handler h hs) broker))
]

-- The bus ends the subscription that it made last on the channel.
unsubscribe-publish :
    (channel c : Text) (h : Handler) (bus : PubSubBus)
    → Maps.get channel bus.handlers ≡ some h
    → publish c (unsubscribe channel bus)
      ≡ (if text_eq channel c then delete_handler h (publish channel bus) else publish c bus)
unfolding publish unsubscribe
unsubscribe-publish channel c h bus e =
    rw (e, unsubscribe) (broker_unsubscribe-publish channel c h bus.broker)

-- A handler that was not there before is gone when the channel is unsubscribed, and every channel
-- calls again whom it called before.
pub unsubscribe-subscribe :
    (channel c : Text) (h : Handler) (bus : PubSubBus)
    → has_handler h (publish channel bus) ≡ false
    → publish c (unsubscribe channel (subscribe channel h bus)) ≡ publish c bus
unfolding publish subscribe add_handler
unsubscribe-subscribe channel c h bus fresh = ground (
  arith,
  unsubscribe-publish channel c h (subscribe channel h bus) (get-put_self channel h bus.handlers),
  broker_subscribe-publish channel channel h bus.broker,
  broker_subscribe-publish channel c h bus.broker,
  text_eq_refl channel,
  text_eq_iff channel c,
  delete_last h (broker_publish channel bus.broker) fresh,
)

-- Where a channel is subscribed twice, with two handlers that were not there before, and then
-- unsubscribed, the first handler stays, behind those that were there.
pub unsubscribe-subscribe_twice :
    (channel : Text) (h k : Handler) (bus : PubSubBus)
    → has_handler h (publish channel bus) ≡ false
    → has_handler k (publish channel bus ++ h ∷ []) ≡ false
    → publish channel (unsubscribe channel (subscribe channel k (subscribe channel h bus)))
      ≡ publish channel bus ++ h ∷ []
unfolding publish subscribe add_handler
unsubscribe-subscribe_twice channel h k bus f g = ground (
  arith,
  unsubscribe-publish channel channel k (subscribe channel k (subscribe channel h bus))
      (get-put_self channel k (subscribe channel h bus).handlers),
  broker_subscribe-publish channel channel k (subscribe channel h bus).broker,
  broker_subscribe-publish channel channel h bus.broker,
  text_eq_refl channel,
  delete_last k (broker_publish channel bus.broker ++ h ∷ []) g,
)
