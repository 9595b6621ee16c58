-- ===== src/Server/Room/Broadcast.antt =====
-- Whom the messages of apps/server/src/room.ts reach.
use ysync.Common.{
  ◌≡◌, ◌↔◌, ◌⊎◌, inl, inr, sym, ◌∙◌, ap, subst, Bool, true, false, [], ◌∷◌, Option, In, arith,
}
use ysync.Common.Texts.{Text}
use ysync.Common.Maps.{Map}
use ysync.Protocol.{ServerMessage}
use ysync.Server.Room.{Room, Socket, Sent, is_excepted, broadcast_to, broadcast}

module _ (is_open : Socket → Bool) (message : ServerMessage) (except : Option Text) where
  -- The socket is registered for a replica that is not left out, and is open.
  abbrev pub IsReached : Socket → Map Socket → Type 0
  IsReached socket sockets =
      (is_open socket ≡ true)
      × ((replica_id : Text) × (is_excepted is_open replica_id except ≡ false)
          × In (replica_id, socket) sockets)

  widen :
      (r : Text) (s socket : Socket) (sockets : Map Socket)
      → IsReached socket sockets
      → IsReached socket ((r, s) ∷ sockets)
  widen r s socket sockets (o, (x, e, i)) = (o, (x, e, inr i))

  -- What one round of the loop adds.
  round :
      (r : Text) (s : Socket) (sockets : Map Socket)
      → ((is_excepted is_open r except ≡ false)
          × (is_open s ≡ true)
          × (broadcast_to is_open message except ((r, s) ∷ sockets)
              ≡ (s, message) ∷ broadcast_to is_open message except sockets))
        ⊎ (((is_excepted is_open r except ≡ true) ⊎ (is_open s ≡ false))
            × (broadcast_to is_open message except ((r, s) ∷ sockets)
                ≡ broadcast_to is_open message except sockets))
  unfolding broadcast_to
  round r s sockets = ground arith

  reached :
      (sockets : Map Socket) (socket : Socket) (other : ServerMessage)
      → In (socket, other) (broadcast_to is_open message except sockets)
      → (other ≡ message) × IsReached socket sockets
  unfolding broadcast_to
  reached [] socket other h = absurd h
  reached ((r, s) ∷ sockets) socket other h = elim (round r s sockets) [
    | inl (kept, there, e) ↦ elim (subst (In (socket, other)) e h) [
      | inl first ↦ (
        ap (λ (p : Sent). p.1) first,
        (
          ap is_open (ap (λ (p : Sent). p.0) first) ∙ there,
          (r, kept, inl (ap (λ (p : Sent). (r, p.0)) first)),
        ),
      )
      | inr rest ↦
          let (e', i) = reached sockets socket other rest in (e', widen r s socket sockets i)
    ]
    | inr (_, e) ↦
        let (e', i) = reached sockets socket other (subst (In (socket, other)) e h) in
        (e', widen r s socket sockets i)
  ]

  reaches :
      (sockets : Map Socket) (socket : Socket)
      → IsReached socket sockets
      → In (socket, message) (broadcast_to is_open message except sockets)
  reaches [] socket (o, (x, e, i)) = absurd i
  reaches ((r, s) ∷ sockets) socket (o, (x, e, i)) = elim (round r s sockets) [
    | inl (kept, there, eq) ↦ subst (In (socket, message)) (sym eq) (elim i [
      | inl first ↦ inl (ap (λ (p : Text × Socket). (p.1, message)) first)
      | inr rest ↦ inr (reaches sockets socket (o, (x, e, rest)))
    ])
    | inr (gone, eq) ↦ subst (In (socket, message)) (sym eq) (elim i [
      | inl first ↦ absurd (elim gone [
        | inl out ↦ absurd (cc (ap (λ (p : Text × Socket). is_excepted is_open p.0 except) first))
        | inr closed ↦ absurd (cc (ap (λ (p : Text × Socket). is_open p.1) first))
      ])
      | inr rest ↦ reaches sockets socket (o, (x, e, rest))
    ])
  ]

  -- A broadcast sends its own message and no other, to exactly the open sockets of the replicas that
  -- it does not leave out.
  pub In-broadcast :
      (room : Room) (socket : Socket) (other : ServerMessage)
      → In (socket, other) (broadcast is_open message except room)
        ↔ ((other ≡ message) × IsReached socket room.sockets)
  unfolding broadcast
  In-broadcast room socket other = (
    reached room.sockets socket other,
    λ (e, i).
        subst (λ m. In (socket, m) (broadcast_to is_open message except room.sockets)) (sym e)
          (reaches room.sockets socket i),
  )
