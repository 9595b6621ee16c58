-- ===== src/Web/DocumentClient/Connection.antt =====
-- The connection of apps/web/src/lib/documentClient.ts over sequences of events.
use ysync.Common.{
  ℕ, zero, suc, ◌*◌, ◌^◌, ◌≤◌, ◌≡◌, refl, ◌∙◌, Bool, true, false, List, [], ◌∷◌, Option, none, ltb,
  if◌then◌else◌, arith,
}
use ysync.Protocol.{
  Selection, ClientMessage, ServerMessage, snapshot, sync, ack, broadcast_op, presence_update,
  presence_leave, error,
}
use ysync.Web.DeltaToEdits.{Edit}
use ysync.Web.DocumentClient.{
  DocumentClient, send, connect, reconnect, reconnect_delay, shut, on_close, send_presence,
  update_presence, set_simulated_offline,
}
use ysync.Web.DocumentClient.Messages.{handle_server_message, persist_document_state, flush_outbox}
use ysync.Web.DocumentClient.Edits.{apply_local_edits}

pow_pos : (n : ℕ) → 1 ≤ 2 ^ n
pow_pos zero = omega arith
pow_pos (suc n) = omega (arith, pow_pos n)

-- The delays of the reconnects double from half a second on, and are ten seconds from the sixth
-- attempt on; none is shorter than the one before.
pub reconnect_delay_lem :
    (n : ℕ)
    → (reconnect_delay n ≡ (if ltb n 5 then 500 * 2 ^ n else 10000))
      × (reconnect_delay n ≤ reconnect_delay (suc n))
unfolding reconnect_delay
reconnect_delay_lem zero = (refl, omega arith)
reconnect_delay_lem (suc zero) = (refl, omega arith)
reconnect_delay_lem (suc (suc zero)) = (refl, omega arith)
reconnect_delay_lem (suc (suc (suc zero))) = (refl, omega arith)
reconnect_delay_lem (suc (suc (suc (suc zero)))) = (refl, omega arith)
reconnect_delay_lem (suc (suc (suc (suc (suc n))))) = ground (arith, pow_pos n)

-- What may happen to a client: an edit of the user, a moved cursor, a heartbeat, a reconnect timer,
-- the end of a connection, a message that was still on its way.
pub data Event : Type 0 where
  edited : List Edit → Event
  moved : Option ℕ → Option Selection → Event
  heartbeat : Event
  timer : Event
  ended : Bool → Event
  received : ServerMessage → Event

abbrev pub step : Event → DocumentClient → DocumentClient
step (edited edits) c = (apply_local_edits edits c).0
step (moved cursor selection) c = update_presence cursor selection c
step heartbeat c = send_presence c
step timer c = reconnect c
step (ended is_current) c = on_close is_current c
step (received message) c = handle_server_message message c

abbrev pub run : List Event → DocumentClient → DocumentClient
run [] c = c
run (e ∷ es) c = run es (step e c)

-- The client has no socket and will not open one.
abbrev pub IsOffline : DocumentClient → Type 0
IsOffline c = (c.simulated_offline ≡ true) × (c.ws ≡ none)

-- Nothing was sent, and the client is still offline.
abbrev pub IsSilent : DocumentClient → DocumentClient → Type 0
IsSilent c d = (d.sent ≡ c.sent) × (d.simulated_offline ≡ true) × (d.ws ≡ none)

send-IsSilent :
    (message : ClientMessage) (c : DocumentClient) → IsOffline c → IsSilent c (send message c)
unfolding send
send-IsSilent message c o = ground arith

connect-IsSilent : (c : DocumentClient) → IsOffline c → IsSilent c (connect c)
unfolding connect
connect-IsSilent c o = ground arith

on_close-IsSilent :
    (is_current : Bool) (c : DocumentClient) → IsOffline c → IsSilent c (on_close is_current c)
unfolding on_close shut
on_close-IsSilent is_current c o = ground arith

send_presence-IsSilent : (c : DocumentClient) → IsOffline c → IsSilent c (send_presence c)
unfolding send_presence send
send_presence-IsSilent c o = ground arith

flush-IsSilent : (c : DocumentClient) → IsOffline c → IsSilent c (flush_outbox c)
unfolding flush_outbox send
flush-IsSilent c o = ground arith

edits-IsSilent :
    (edits : List Edit) (c : DocumentClient)
    → IsOffline c
    → IsSilent c (apply_local_edits edits c).0
unfolding apply_local_edits send
edits-IsSilent [] c o = (refl, o.0, o.1)
edits-IsSilent (edit ∷ edits) c o = ground arith

received-IsSilent :
    (message : ServerMessage) (c : DocumentClient)
    → IsOffline c
    → IsSilent c (handle_server_message message c)
unfolding handle_server_message persist_document_state
received-IsSilent (snapshot doc_id seq state) c o = flush-IsSilent _ o
received-IsSilent (sync doc_id seq ops) c o = flush-IsSilent _ o
received-IsSilent (ack doc_id seq ids) c o = (refl, o.0, o.1)
received-IsSilent (broadcast_op doc_id seq ops) c o = (refl, o.0, o.1)
received-IsSilent (presence_update doc_id r a) c o = (refl, o.0, o.1)
received-IsSilent (presence_leave doc_id r) c o = (refl, o.0, o.1)
received-IsSilent (error code message) c o = (refl, o.0, o.1)

step-IsSilent : (e : Event) (c : DocumentClient) → IsOffline c → IsSilent c (step e c)
unfolding update_presence reconnect
step-IsSilent (edited edits) c o = edits-IsSilent edits c o
step-IsSilent (moved cursor selection) c o = send_presence-IsSilent _ o
step-IsSilent heartbeat c o = send_presence-IsSilent c o
step-IsSilent timer c o = connect-IsSilent _ o
step-IsSilent (ended is_current) c o = on_close-IsSilent is_current c o
step-IsSilent (received message) c o = received-IsSilent message c o

run-IsSilent : (es : List Event) (c : DocumentClient) → IsOffline c → IsSilent c (run es c)
run-IsSilent [] c o = (refl, o.0, o.1)
run-IsSilent (e ∷ es) c o =
    let first = step-IsSilent e c o in
    let rest = run-IsSilent es (step e c) (first.1, first.2) in (rest.0 ∙ first.0, rest.1, rest.2)

-- From the moment that offline is switched on, nothing is sent and no socket is opened, whatever is
-- edited, whichever timers run, connections end and messages still arrive, until it is switched
-- off.
pub set_simulated_offline-IsSilent :
    (es : List Event) (c : DocumentClient)
    → c.simulated_offline ≡ false
    → IsSilent c (run es (set_simulated_offline true c))
unfolding set_simulated_offline
set_simulated_offline-IsSilent es c e =
    let start : IsSilent c (set_simulated_offline true c) =
      rw (e, set_simulated_offline) (refl, refl, refl) in
    let rest = run-IsSilent es (set_simulated_offline true c) (start.1, start.2) in
    (rest.0 ∙ start.0, rest.1, rest.2)
