-- ===== src/Web/DeltaToEdits.antt =====
-- apps/web/src/lib/deltaToEdits.ts: a Quill delta as a list of index-based edits.
pub mod Refines
use ysync.Common.{
  ℕ, zero, suc, ◌+◌, Bool, true, false, ◌&&◌, List, [], ◌∷◌, ◌++◌, Option, none, some, leb,
  if◌then◌else◌,
}
use ysync.Common.Texts.{Text}
use ysync.Common.Maps
use ysync.Common.Maps.{Map}
use ysync.Crdt.Node.{FormatMark, FormatPatch, unless_empty}

-- The value of an attribute: a boolean, null, or anything else.
pub data AttributeValue : Type 0 where
  boolean : Bool → AttributeValue
  null : AttributeValue
  other : AttributeValue

-- What a delta op inserts: a text, or an embed.
pub data Inserted : Type 0 where
  text : Text → Inserted
  embed : Inserted

pub record DeltaOp : Type 0 where
  pub insert : Option Inserted
  pub delete : Option ℕ
  pub retain : Option ℕ
  pub attributes : Option (Map AttributeValue)

pub data Edit : Type 0 where
  insert : ℕ → Text → Option FormatMark → Edit
  delete : ℕ → Edit
  format : ℕ → ℕ → FormatPatch → Edit

-- The loop of `toFormatMark`, on the mark built so far.
unfoldable pub collect_mark : FormatMark → Map AttributeValue → FormatMark
unfolding Maps.put
collect_mark mark [] = mark
collect_mark mark ((key, boolean true) ∷ attributes) =
    collect_mark (Maps.put key tt mark) attributes
collect_mark mark ((key, _) ∷ attributes) = collect_mark mark attributes

unfoldable pub to_format_mark : Option (Map AttributeValue) → Option FormatMark
unfolding collect_mark unless_empty
to_format_mark none = none
to_format_mark (some attributes) = unless_empty (collect_mark [] attributes)

-- The loop of `toFormatPatch`; `false` stands for null, the value that clears.
unfoldable pub collect_patch : FormatPatch → Map AttributeValue → FormatPatch
unfolding Maps.put
collect_patch patch [] = patch
collect_patch patch ((key, boolean b) ∷ attributes) =
    collect_patch (Maps.put key b patch) attributes
collect_patch patch ((key, null) ∷ attributes) = collect_patch (Maps.put key false patch) attributes
collect_patch patch ((key, other) ∷ attributes) = collect_patch patch attributes

-- `Object.keys(patch).length > 0 ? patch : undefined`
unfoldable pub patch_unless_empty : FormatPatch → Option FormatPatch
patch_unless_empty [] = none
patch_unless_empty (m ∷ ms) = some (m ∷ ms)

unfoldable pub to_format_patch : Option (Map AttributeValue) → Option FormatPatch
unfolding collect_patch patch_unless_empty
to_format_patch none = none
to_format_patch (some attributes) = patch_unless_empty (collect_patch [] attributes)

-- The two code units are a surrogate pair.
unfoldable pub is_pair : ℕ → ℕ → Bool
is_pair c d = leb 0xD800 c && leb c 0xDBFF && leb 0xDC00 d && leb d 0xDFFF

-- `for (const char of s)` walks code points.
unfoldable pub code_points : Text → List Text
unfolding is_pair
code_points [] = []
code_points (c ∷ []) = (c ∷ []) ∷ []
code_points (c ∷ d ∷ s) = elim (is_pair c d) [
  | true ↦ (c ∷ d ∷ []) ∷ code_points s
  | false ↦ (c ∷ []) ∷ code_points (d ∷ s)
]

-- The inserts of one text, from the cursor on.
unfoldable pub insert_edits : ℕ → List Text → Option FormatMark → List Edit
insert_edits cursor [] attrs = []
insert_edits cursor (char ∷ chars) attrs =
    insert cursor char attrs ∷ insert_edits (cursor + 1) chars attrs

unfoldable pub delete_edits : ℕ → ℕ → List Edit
delete_edits cursor zero = []
delete_edits cursor (suc n) = delete cursor ∷ delete_edits cursor n

unfoldable pub format_edit : ℕ → ℕ → Option FormatPatch → List Edit
format_edit cursor n none = []
format_edit cursor n (some patch) = format cursor n patch ∷ []

unfoldable pub count : List Text → ℕ
count [] = 0
count (c ∷ cs) = suc (count cs)

-- One round of the loop: the edits that it pushes, and the cursor behind it.
unfoldable pub op_edits :
    ℕ → Option ℕ → Option Inserted → Option ℕ → Option (Map AttributeValue) → List Edit × ℕ
unfolding to_format_mark to_format_patch code_points insert_edits delete_edits format_edit count
op_edits cursor (some n) inserted deleted attributes =
    (format_edit cursor n (to_format_patch attributes), cursor + n)
op_edits cursor none (some (text s)) deleted attributes = (
  insert_edits cursor (code_points s) (to_format_mark attributes),
  cursor + count (code_points s),
)
op_edits cursor none (some embed) deleted attributes = ([], cursor + 1)
op_edits cursor none none (some n) attributes = (delete_edits cursor n, cursor)
op_edits cursor none none none attributes = ([], cursor)

unfoldable pub edits_from : ℕ → List DeltaOp → List Edit
unfolding op_edits
edits_from cursor [] = []
edits_from cursor (op ∷ ops) =
    let (edits, next) = op_edits cursor op.retain op.insert op.delete op.attributes in
    edits ++ edits_from next ops

unfoldable pub delta_to_edits : List DeltaOp → List Edit
unfolding edits_from
delta_to_edits ops = edits_from 0 ops
