-- ===== src/Server/RoomManager/Fanout.antt =====
-- Edits that reach other processes by apps/server/src/roomManager.ts, and rooms that are set twice.
use mathlib.Core.List.{append-nil}
use ysync.Common.{
  ℕ, ◌≡◌, ◌≢◌, refl, ap, subst, ◌∙◌, inl, inr, Bool, false, List, [], ◌∷◌, ◌++◌, Option, none, some,
  Bool-cases, arith,
}
use ysync.Common.Texts.{Text, text_eq, text_eq_refl, text_eq_iff}
use ysync.Common.Maps
use ysync.Common.Maps.{Map, get-put, get-put_self}
use ysync.Crdt.Op.{Op}
use ysync.Protocol.{ServerMessage, broadcast_op}
use ysync.Server.Persistence.{LoadedDocument}
use ysync.Server.Room
use ysync.Server.Room.{Room, Socket}
use ysync.Server.RoomManager.{
  RoomManager, RoomEntry, Faults, FanoutPayload, ops_fanout, doc_channel, put_out, publish, say,
  write_room, install_room, get_or_create_room,
}
use ysync.Server.RoomManager.Handlers.{
  persist, apply_numbered, apply_found, apply_client_op, handle_remote_op, tell_room,
}
use ysync.Server.Seq

-- The room of a document, where there is one.
abbrev pub entry_room : Option RoomEntry → Option Room
entry_room none = none
entry_room (some entry) = some entry.room

abbrev pub room_of : Text → RoomManager → Option Room
room_of doc_id m = entry_room (Maps.get doc_id m.rooms)

write_room-rooms :
    (doc_id : Text) (room : Room) (m : RoomManager) (entry : RoomEntry)
    → Maps.get doc_id m.rooms ≡ some entry
    → (write_room doc_id room m).rooms ≡ Maps.put doc_id (record entry { room = room }) m.rooms
unfolding write_room
write_room-rooms doc_id room m entry e = rw (e, write_room) refl

room_of-write_room :
    (doc_id : Text) (room : Room) (m : RoomManager) (entry : RoomEntry)
    → Maps.get doc_id m.rooms ≡ some entry
    → room_of doc_id (write_room doc_id room m) ≡ some room
room_of-write_room doc_id room m entry e =
    ap (λ rooms. entry_room (Maps.get doc_id rooms)) (write_room-rooms doc_id room m entry e)
    ∙ ap entry_room (get-put_self doc_id (record entry { room = room }) m.rooms)

write_room-published :
    (doc_id : Text) (room : Room) (m : RoomManager)
    → ((write_room doc_id room m).published ≡ m.published)
      × ((write_room doc_id room m).process_id ≡ m.process_id)
unfolding write_room
write_room-published doc_id room m = ground arith

publish_out :
    (faults : Faults) (channel : Text) (payload : FanoutPayload) (m : RoomManager)
    → faults.publish_fails payload ≡ false
    → ((publish faults channel payload m).rooms ≡ m.rooms)
      × ((publish faults channel payload m).published ≡ m.published ++ (channel, payload) ∷ [])
      × ((publish faults channel payload m).process_id ≡ m.process_id)
unfolding publish put_out
publish_out faults channel payload m e = rw e (refl, refl, refl)

text_ne : (a b : Text) → a ≢ b → text_eq a b ≡ false
text_ne a b ne = elim (Bool-cases (text_eq a b)) [
  | inl e ↦ absurd (ne ((text_eq_iff a b).0 e))
  | inr e ↦ e
]

module _ (is_open : Socket → Bool) where
  persist-rooms :
      (faults : Faults) (doc_id sender : Text) (seq : ℕ) (ops : List Op) (room : Room)
      (m : RoomManager)
      → ((persist is_open faults doc_id sender seq ops room m).rooms ≡ m.rooms)
        × ((persist is_open faults doc_id sender seq ops room m).published ≡ m.published)
        × ((persist is_open faults doc_id sender seq ops room m).process_id ≡ m.process_id)
  unfolding persist say
  persist-rooms faults doc_id sender seq ops room m = ground arith

  remote_rooms :
      (faults : Faults) (doc_id origin_id : Text) (seq : ℕ) (ops : List Op) (q : RoomManager)
      (entry : RoomEntry)
      → text_eq origin_id q.process_id ≡ false
      → Maps.get doc_id q.rooms ≡ some entry
      → (handle_remote_op is_open faults doc_id (ops_fanout origin_id seq ops) q).rooms
        ≡ (write_room doc_id (Room.apply_ops ops seq entry.room) q).rooms
  unfolding handle_remote_op say
  remote_rooms faults doc_id origin_id seq ops q entry other e =
      elim (Bool-cases faults.append_fails) [
        | inl fails ↦ rw (other, e, handle_remote_op, fails) refl
        | inr stored ↦ rw (other, e, handle_remote_op, stored) refl
      ]

  remote_room :
      (faults : Faults) (doc_id origin_id : Text) (seq : ℕ) (ops : List Op) (q : RoomManager)
      (entry : RoomEntry)
      → origin_id ≢ q.process_id
      → Maps.get doc_id q.rooms ≡ some entry
      → room_of doc_id (handle_remote_op is_open faults doc_id (ops_fanout origin_id seq ops) q)
        ≡ some (Room.apply_ops ops seq entry.room)
  remote_room faults doc_id origin_id seq ops q entry ne e =
      ap (λ rooms. entry_room (Maps.get doc_id rooms))
        (remote_rooms faults doc_id origin_id seq ops q entry (text_ne origin_id q.process_id ne) e)
      ∙ room_of-write_room doc_id (Room.apply_ops ops seq entry.room) q entry e

  own_echo :
      (faults : Faults) (doc_id : Text) (seq : ℕ) (ops : List Op) (m : RoomManager)
      → handle_remote_op is_open faults doc_id (ops_fanout m.process_id seq ops) m ≡ m
  unfolding handle_remote_op
  own_echo faults doc_id seq ops m = rw (text_eq_refl m.process_id) refl

  told_empty :
      (doc_id : Text) (message : ServerMessage) (except : Option Text) (m : RoomManager)
      (entry : RoomEntry)
      → Maps.get doc_id m.rooms ≡ some entry
      → entry.room.sockets ≡ []
      → (tell_room is_open doc_id message except m).sent ≡ m.sent
  unfolding tell_room say Room.broadcast Room.broadcast_to
  told_empty doc_id message except m entry e nobody = rw (e, tell_room, nobody) (append-nil m.sent)

  -- A room that is set for a document, whichever room the document had before, has no sockets: what
  -- is then broadcast to the document reaches nobody.
  pub install_room_forgets :
      (doc_id : Text) (loaded : LoadedDocument) (m : RoomManager) (message : ServerMessage)
      (except : Option Text)
      → (tell_room is_open doc_id message except (install_room doc_id loaded m).0).sent ≡ m.sent
  unfolding install_room Room.hydrate Room.new_room
  install_room_forgets doc_id loaded m message except =
      told_empty doc_id message except (install_room doc_id loaded m).0 _
        (get-put_self doc_id _ m.rooms) refl

  found_numbered :
      (faults : Faults) (doc_id sender : Text) (ops : List Op) (p : RoomManager) (room : Room)
      → faults.next_fails ≡ false
      → (apply_found is_open faults doc_id sender ops p (some room)).0
        ≡ apply_numbered is_open faults doc_id sender
            (Seq.next doc_id p.counters).1
            ops
            room
            (record p { counters = (Seq.next doc_id p.counters).0 })
  unfolding apply_found
  found_numbered faults doc_id sender ops p room given = rw given refl

  numbered :
      (faults : Faults) (doc_id sender : Text) (ops : List Op) (p : RoomManager) (entry : RoomEntry)
      → Maps.get doc_id p.rooms ≡ some entry
      → faults.next_fails ≡ false
      → (apply_client_op is_open faults doc_id sender ops p).0
        ≡ apply_numbered is_open faults doc_id sender
            (Seq.next doc_id p.counters).1
            ops
            entry.room
            (record p { counters = (Seq.next doc_id p.counters).0 })
  unfolding apply_client_op
  numbered faults doc_id sender ops p entry e given =
      let found : get_or_create_room faults doc_id p ≡ (p, some entry.room) =
        rw (e, get_or_create_room) refl in
      ap
        (λ (r : RoomManager × Option Room).
          (apply_found is_open faults doc_id sender ops r.0 r.1).0)
        found
      ∙ found_numbered faults doc_id sender ops p entry.room given

  spread_out :
      (faults : Faults) (doc_id sender : Text) (seq : ℕ) (ops : List Op) (entry : RoomEntry)
      (p : RoomManager)
      → Maps.get doc_id p.rooms ≡ some entry
      → faults.publish_fails (ops_fanout p.process_id seq ops) ≡ false
      → let p' = apply_numbered is_open faults doc_id sender seq ops entry.room p in
        (room_of doc_id p' ≡ some (Room.apply_ops ops seq entry.room))
        × (p'.published ≡ p.published ++ (doc_channel doc_id, ops_fanout p.process_id seq ops) ∷ [])
        × (p'.process_id ≡ p.process_id)
  unfolding apply_numbered say
  spread_out faults doc_id sender seq ops entry p e out =
      let applied = Room.apply_ops ops seq entry.room in
      let written = write_room doc_id applied p in
      let told =
        say (Room.broadcast is_open (broadcast_op doc_id seq ops) (some sender) applied) written in
      let kept = write_room-published doc_id applied p in
      let put =
        publish_out faults (doc_channel doc_id) (ops_fanout p.process_id seq ops) told out in
      let last =
        persist-rooms faults doc_id sender seq ops applied
          (publish faults (doc_channel doc_id) (ops_fanout p.process_id seq ops) told) in
      (
        ap (λ rooms. entry_room (Maps.get doc_id rooms)) (last.0 ∙ put.0)
            ∙ room_of-write_room doc_id applied p entry e,
        last.1
            ∙ put.1
            ∙ ap
                (λ (l : List (Text × FanoutPayload)).
                  l ++ (doc_channel doc_id, ops_fanout p.process_id seq ops) ∷ [])
                kept.0,
        last.2 ∙ put.2 ∙ kept.1,
      )

  -- An edit that a process with a room for the document numbers and can publish is applied to that
  -- room, and to the room of another process that handles what was published, under one number; its
  -- own process ignores it.
  pub apply_client_op-handle_remote_op :
      (faults remote : Faults) (doc_id sender : Text) (ops : List Op) (p q : RoomManager)
      (entry other : RoomEntry)
      → Maps.get doc_id p.rooms ≡ some entry
      → Maps.get doc_id q.rooms ≡ some other
      → p.process_id ≢ q.process_id
      → faults.next_fails ≡ false
      → faults.publish_fails (ops_fanout p.process_id (Seq.next doc_id p.counters).1 ops) ≡ false
      → let p' = (apply_client_op is_open faults doc_id sender ops p).0 in
        let seq = (Seq.next doc_id p.counters).1 in
        let payload = ops_fanout p.process_id seq ops in
        (room_of doc_id p' ≡ some (Room.apply_ops ops seq entry.room))
        × (p'.published ≡ p.published ++ (doc_channel doc_id, payload) ∷ [])
        × (room_of doc_id (handle_remote_op is_open remote doc_id payload q)
            ≡ some (Room.apply_ops ops seq other.room))
        × (handle_remote_op is_open remote doc_id payload p' ≡ p')
  apply_client_op-handle_remote_op faults remote doc_id sender ops p q entry other e f ne given
        out =
      let p' = (apply_client_op is_open faults doc_id sender ops p).0 in
      let seq = (Seq.next doc_id p.counters).1 in
      let counted : RoomManager = record p { counters = (Seq.next doc_id p.counters).0 } in
      let here = numbered faults doc_id sender ops p entry e given in
      let there = spread_out faults doc_id sender seq ops entry counted e out in
      (
        ap (room_of doc_id) here ∙ there.0,
        ap (λ (m : RoomManager). m.published) here ∙ there.1,
        remote_room remote doc_id p.process_id seq ops q other ne f,
        subst (λ r. handle_remote_op is_open remote doc_id (ops_fanout r seq ops) p' ≡ p')
            (ap (λ (m : RoomManager). m.process_id) here ∙ there.2)
            (own_echo remote doc_id seq ops p'),
      )
