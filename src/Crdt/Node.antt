-- ===== src/Crdt/Node.antt =====
-- packages/crdt/src/node.ts and the formatting part of packages/crdt/src/rga.ts. A node is its
-- fields without `next`: the linked list is a list of nodes.
use ysync.Common.{Bool, true, false, ◌&&◌, [], ◌∷◌, Option, none, some, ◌==◌, length, if◌then◌else◌}
use ysync.Common.Texts.{Text}
use ysync.Common.Maps
use ysync.Common.Maps.{Map}
use ysync.Crdt.OpId.{OpId}

-- `Record<string, true>`: its keys, in insertion order.
abbrev pub FormatMark : Type 0
FormatMark = Map (Unit {0})

-- `Record<string, true | null | false>`. The code only asks whether a value is `true`.
abbrev pub FormatPatch : Type 0
FormatPatch = Map Bool

abbrev pub FormatClock : Type 0
FormatClock = Map OpId

pub record Node : Type 0 where
  pub id : OpId
  pub origin_id : Option OpId
  pub value : Option Text
  pub tombstone : Bool
  pub attrs : Option FormatMark
  pub format_clock : Option FormatClock

-- `record ?? {}`
unfoldable pub or_empty : {V : Type 0} → Option (Map V) → Map V
or_empty none = []
or_empty (some m) = m

-- `key in mark`, and `mark[key] === true`
unfoldable pub has_mark : Text → FormatMark → Bool
unfolding Maps.get
has_mark key mark = elim (Maps.get key mark) [ some _ ↦ true | none ↦ false ]

-- `Object.keys(mark).length > 0 ? mark : undefined`
unfoldable pub unless_empty : FormatMark → Option FormatMark
unless_empty [] = none
unless_empty (m ∷ ms) = some (m ∷ ms)

-- `keys.every((key) => b[key] === true)`
unfoldable pub every_mark : FormatMark → FormatMark → Bool
unfolding has_mark
every_mark [] b = true
every_mark ((key, _) ∷ a) b = has_mark key b && every_mark a b

-- `attrsEqual`
unfoldable pub attrs_equal : Option FormatMark → Option FormatMark → Bool
unfolding or_empty every_mark
attrs_equal a b =
    if length (or_empty a) == length (or_empty b)
    then every_mark (or_empty a) (or_empty b)
    else false
