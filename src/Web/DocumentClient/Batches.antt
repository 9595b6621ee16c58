-- ===== src/Web/DocumentClient/Batches.antt =====
-- The size of the batches that apps/web/src/lib/documentClient.ts sends, under the schemas of
-- packages/protocol/src/messages.ts.
use ysync.Common.{
  suc, ◌<◌, ◌≡◌, refl, sym, ap, subst, ◌∙◌, true, false, List, [], ◌∷◌, ◌++◌, some, length, arith,
}
use ysync.Common.Texts.{Text}
use ysync.Common.Maps.{Map, values}
use ysync.Crdt.Op.{Op}
use ysync.Protocol.{ClientMessage, op}
use ysync.Protocol.Json.{encode_client_message}
use ysync.Protocol.Zod.{Zod, IsZod}
use ysync.Protocol.Schemas.{parse_client_message}
use ysync.Protocol.Limits.{is_success, is_within_limits, parse_client_message-within}
use ysync.Web.DocumentClient.{DocumentClient, send}
use ysync.Web.DocumentClient.Messages.{flush_outbox}

too_many :
    (doc_id : Text) (ops : List Op) → 2000 < length ops → is_within_limits (op doc_id ops) ≡ false
unfolding is_within_limits
too_many doc_id ops l = ground (arith, l)

pub length-values : (outbox : Map Op) → length (values outbox) ≡ length outbox
length-values [] = refl
length-values (e ∷ outbox) = ap suc (length-values outbox)

pub send_opened :
    (m : ClientMessage) (c : DocumentClient) → c.ws ≡ some true → (send m c).sent ≡ c.sent ++ m ∷ []
unfolding send
send_opened m c e = rw (e, send) refl

pub flush_outbox-send :
    (c : DocumentClient)
    → 0 < length c.outbox
    → flush_outbox c ≡ send (op c.doc_id (values c.outbox)) c
unfolding flush_outbox
flush_outbox-send c l = by_outbox c.outbox l refl
  where
    by_outbox :
        (outbox : Map Op)
        → 0 < length outbox
        → c.outbox ≡ outbox
        → flush_outbox c ≡ send (op c.doc_id (values c.outbox)) c
    by_outbox [] none_left e = absurd (omega (arith, none_left))
    by_outbox (x ∷ xs) l e =
        subst
          (λ (ob : Map Op).
            (elim ob [ [] ↦ c | ◌∷◌ y ys ↦ send (op c.doc_id (values c.outbox)) c ])
            ≡ send (op c.doc_id (values c.outbox)) c)
          (sym e) refl

-- With more than 2000 records in the outbox, a client on an open socket sends them all in one
-- message, which the server's parser rejects.
pub flush_outbox-rejected :
    (Z : Zod) (I : IsZod Z) (c : DocumentClient)
    → c.ws ≡ some true
    → 2000 < length c.outbox
    → let message = op c.doc_id (values c.outbox) in
      ((flush_outbox c).sent ≡ c.sent ++ message ∷ [])
      × (is_success (parse_client_message Z (encode_client_message message)) ≡ false)
flush_outbox-rejected Z I c e l =
    let message = op c.doc_id (values c.outbox) in
    let many : 2000 < length (values c.outbox) = omega (arith, l, length-values c.outbox) in
    (
      ap (λ (d : DocumentClient). d.sent) (flush_outbox-send c (omega (arith, l)))
          ∙ send_opened message c e,
      parse_client_message-within Z I message ∙ too_many c.doc_id (values c.outbox) many,
    )
