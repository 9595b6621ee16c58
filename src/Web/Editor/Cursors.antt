-- ===== src/Web/Editor/Cursors.antt =====
-- Which cursors `syncCursors` of apps/web/src/components/Editor.tsx shows, and where.
use ysync.Common.{
  ℕ, ◌+◌, ◌-◌, ◌≤◌, ◌≡◌, refl, ap, max, min, Bool, true, false, not, ◌&&◌, ◌||◌, Bool-cases, inl,
  inr, List, [], ◌∷◌, ◌++◌, Option, none, some, All, if◌then◌else◌, arith,
}
use ysync.Common.Texts.{Text, text_eq, text_eq_iff, eq_of_text_eq}
use ysync.Protocol.{Selection}
use ysync.Web.DocumentClient.{RemotePresence}
use ysync.Web.Editor.{
  Range, CursorCall, remove_cursor, create_cursor, move_cursor, to_quill_range, has_id, add_id,
  delete_id, drop_left, clamped, show_range, show_entry, show_entries, ids_of, sync_cursors,
}

abbrev pub has_selection : Option Selection → Bool
has_selection none = false
has_selection (some _) = true

-- Whether an entry of another replica has the id and a selection.
abbrev pub has_cursor : Text → Text → List RemotePresence → Bool
has_cursor own r [] = false
has_cursor own r (entry ∷ presence) =
    (has_selection entry.awareness.selection
      && (text_eq entry.replica_id r && not (text_eq entry.replica_id own)))
    || has_cursor own r presence

-- No replica has two entries.
abbrev pub AreDistinct : List RemotePresence → Type 0
AreDistinct [] = Unit {0}
AreDistinct (entry ∷ presence) =
    (has_id entry.replica_id (ids_of presence) ≡ false) × AreDistinct presence

has_id-append : (r : Text) (xs ys : List Text) → has_id r (xs ++ ys) ≡ (has_id r xs || has_id r ys)
unfolding has_id
has_id-append r [] ys = refl
has_id-append r (x ∷ xs) ys = ground (arith, has_id-append r xs ys)

has_id_same : (r q : Text) (ids : List Text) → text_eq q r ≡ true → has_id q ids ≡ has_id r ids
has_id_same r q ids e = ap (λ k. has_id k ids) (eq_of_text_eq q r e)

has_id_one : (r q : Text) → has_id r (q ∷ []) ≡ text_eq q r
unfolding has_id
has_id_one r q = ground arith

has_id-add_id :
    (r q : Text) (ids : List Text) → has_id r (add_id q ids) ≡ (text_eq q r || has_id r ids)
unfolding add_id has_id
has_id-add_id r q ids =
    ground (arith, has_id-append r ids (q ∷ []), has_id_same r q ids, has_id_one r q)

has_id-delete_id :
    (r q : Text) (ids : List Text)
    → has_id r (delete_id q ids) ≡ (not (text_eq q r) && has_id r ids)
unfolding delete_id has_id
has_id-delete_id r q [] = ground arith
has_id-delete_id r q (k ∷ ks) =
    ground (arith, has_id-delete_id r q ks, text_eq_iff k q, text_eq_iff k r, text_eq_iff q r)

has_id-drop_left :
    (r : Text) (active known : List Text)
    → has_id r (drop_left active known).0 ≡ (has_id r active && has_id r known)
unfolding drop_left has_id
has_id-drop_left r active [] = ground arith
has_id-drop_left r active (k ∷ known) =
    ground (arith, has_id-drop_left r active known, has_id_same r k active)

has_id-show_range :
    (r : Text) (doc_length : ℕ) (entry : RemotePresence) (selection : Option Selection)
    (known : List Text)
    → has_id r (show_range doc_length entry (to_quill_range selection) known).0
      ≡ (if text_eq entry.replica_id r then has_selection selection else has_id r known)
unfolding show_range to_quill_range
has_id-show_range r doc_length entry none known =
    ground (arith, has_id-delete_id r entry.replica_id known, has_id_same r entry.replica_id known)
has_id-show_range r doc_length entry (some s) known =
    ground (arith, has_id-add_id r entry.replica_id known, has_id_same r entry.replica_id known)

has_id-show_entry :
    (own r : Text) (doc_length : ℕ) (entry : RemotePresence) (known : List Text)
    → has_id r (show_entry own doc_length entry known).0 ≡ (
        if text_eq entry.replica_id own
        then has_id r known
        else if text_eq entry.replica_id r
        then has_selection entry.awareness.selection
        else has_id r known)
unfolding show_entry
has_id-show_entry own r doc_length entry known =
    ground (arith, has_id-show_range r doc_length entry entry.awareness.selection known)

-- Only a replica with an entry has a cursor.
has_cursor-absent :
    (own r : Text) (presence : List RemotePresence)
    → has_id r (ids_of presence) ≡ false
    → has_cursor own r presence ≡ false
unfolding has_id
has_cursor-absent own r [] h = refl
has_cursor-absent own r (e ∷ presence) h = ground (arith, h, has_cursor-absent own r presence)

has_cursor-own :
    (own r : Text) (presence : List RemotePresence)
    → text_eq r own ≡ true
    → has_cursor own r presence ≡ false
has_cursor-own own r [] h = refl
has_cursor-own own r (e ∷ presence) h = ground (
  arith,
  h,
  has_cursor-own own r presence,
  text_eq_iff e.replica_id r,
  text_eq_iff e.replica_id own,
  text_eq_iff r own,
)

has_id-show_entries :
    (own r : Text) (doc_length : ℕ) (presence : List RemotePresence) (known : List Text)
    → AreDistinct presence
    → has_id r (show_entries own doc_length presence known).0 ≡ (
        if has_id r (ids_of presence) && not (text_eq r own)
        then has_cursor own r presence
        else has_id r known)
unfolding show_entries has_id
has_id-show_entries own r doc_length [] known d = refl
has_id-show_entries own r doc_length (e ∷ presence) known d =
    let known' = (show_entry own doc_length e known).0 in
    ground (
      arith,
      has_id-show_entries own r doc_length presence known' d.1,
      has_id-show_entry own r doc_length e known,
      has_cursor-absent own r presence,
      has_id_same r e.replica_id (ids_of presence),
      d.0,
      text_eq_iff e.replica_id r,
      text_eq_iff e.replica_id own,
      text_eq_iff r own,
    )

-- After `syncCursors` the known cursors are those of the other replicas that are present with a
-- selection, when no replica has two entries and the own replica had no cursor.
pub has_id-sync_cursors :
    (own r : Text) (doc_length : ℕ) (presence : List RemotePresence) (known : List Text)
    → AreDistinct presence
    → has_id own known ≡ false
    → has_id r (sync_cursors own doc_length presence known).0 ≡ has_cursor own r presence
unfolding sync_cursors
has_id-sync_cursors own r doc_length presence known d h =
    let kept = (drop_left (ids_of presence) known).0 in
    ground (
      arith,
      has_id-show_entries own r doc_length presence kept d,
      has_id-drop_left r (ids_of presence) known,
      has_cursor-absent own r presence,
      has_cursor-own own r presence,
      has_id_same own r known,
      h,
    )

-- A cursor is moved to a range of the document, before its last character.
abbrev pub IsInside : ℕ → CursorCall → Type 0
IsInside doc_length (remove_cursor _) = Unit {0}
IsInside doc_length (create_cursor _ _ _) = Unit {0}
IsInside doc_length (move_cursor _ range) = range.index + range.length ≤ doc_length - 1

clamped-IsInside :
    (r : Text) (doc_length : ℕ) (range : Range)
    → IsInside doc_length (move_cursor r (clamped doc_length range))
unfolding clamped
clamped-IsInside r doc_length range = omega arith

All-append :
    (doc_length : ℕ) (xs ys : List CursorCall)
    → All (IsInside doc_length) xs
    → All (IsInside doc_length) ys
    → All (IsInside doc_length) (xs ++ ys)
All-append doc_length [] ys a b = b
All-append doc_length (x ∷ xs) ys a b = (a.0, All-append doc_length xs ys a.1 b)

show_range-IsInside :
    (doc_length : ℕ) (entry : RemotePresence) (range : Option Range) (known : List Text)
    → All (IsInside doc_length) (show_range doc_length entry range known).1
unfolding show_range
show_range-IsInside doc_length entry none known =
    elim (Bool-cases (has_id entry.replica_id known)) [
      | inl t ↦ rw (t, if◌then◌else◌) (tt, tt)
      | inr f ↦ rw (f, if◌then◌else◌) tt
    ]
show_range-IsInside doc_length entry (some range) known =
    elim (Bool-cases (has_id entry.replica_id known)) [
      | inl t ↦ rw (t, if◌then◌else◌) (clamped-IsInside entry.replica_id doc_length range, tt)
      | inr f ↦ rw (f, if◌then◌else◌) (tt, (clamped-IsInside entry.replica_id doc_length range, tt))
    ]

show_entries-IsInside :
    (own : Text) (doc_length : ℕ) (presence : List RemotePresence) (known : List Text)
    → All (IsInside doc_length) (show_entries own doc_length presence known).1
unfolding show_entries show_entry
show_entries-IsInside own doc_length [] known = tt
show_entries-IsInside own doc_length (e ∷ presence) known =
    All-append doc_length (show_entry own doc_length e known).1 _
      (elim (Bool-cases (text_eq e.replica_id own)) [
        | inl t ↦ rw (t, if◌then◌else◌) tt
        | inr f ↦ rw (f, if◌then◌else◌) (show_range-IsInside doc_length e _ known)
      ])
      (show_entries-IsInside own doc_length presence _)

drop_left-IsInside :
    (doc_length : ℕ) (active known : List Text)
    → All (IsInside doc_length) (drop_left active known).1
unfolding drop_left
drop_left-IsInside doc_length active [] = tt
drop_left-IsInside doc_length active (k ∷ known) = elim (Bool-cases (has_id k active)) [
  | inl t ↦ rw (t, if◌then◌else◌) (drop_left-IsInside doc_length active known)
  | inr f ↦ rw (f, if◌then◌else◌) (tt, drop_left-IsInside doc_length active known)
]

-- Whatever selections the others send, `syncCursors` moves each cursor to a range whose index and
-- length add up to at most `quill.getLength() - 1`, or to 0 where that is 0.
pub sync_cursors-IsInside :
    (own : Text) (doc_length : ℕ) (presence : List RemotePresence) (known : List Text)
    → All (IsInside doc_length) (sync_cursors own doc_length presence known).1
unfolding sync_cursors
sync_cursors-IsInside own doc_length presence known =
    All-append doc_length (drop_left (ids_of presence) known).1 _
      (drop_left-IsInside doc_length (ids_of presence) known)
      (show_entries-IsInside own doc_length presence _)

-- A selection that Quill reports is shown to the others as the range that it was.
pub to_quill_range-selection :
    (index length : ℕ)
    → to_quill_range (some (record { anchor = index; head = index + length }))
      ≡ some (record { index = index; length = length })
unfolding to_quill_range
to_quill_range-selection index length =
    let at : min index (index + length) ≡ index = omega arith in
    let long : max index (index + length) - min index (index + length) ≡ length = omega arith in
    λ i. some (record { index = at i; length = long i })
