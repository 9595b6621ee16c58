-- ===== src/Web/DeltaToEdits/Refines.antt =====
-- Deltas as changes of a document, against the edits of apps/web/src/lib/deltaToEdits.ts.
use ysync.Common.{
  ℕ, zero, suc, ◌-◌, ◌≤◌, ◌≡◌, Bool, true, false, All, List, [], ◌∷◌, ◌++◌, map, Option, none, some,
}
use ysync.Common.Texts.{Text}
use ysync.Common.Maps.{Map}
use ysync.Crdt.Node.{FormatMark, FormatPatch}
use ysync.Web.DeltaToEdits.{
  AttributeValue, text, embed, DeltaOp, Edit, insert, delete, format, to_format_mark,
  to_format_patch, code_points,
}

-- Quill's kinds of change. Numbers are lengths in UTF-16 code units, as Quill counts them.
pub data Change : Type 0 where
  keep : ℕ → Option (Map AttributeValue) → Change
  add : Text → Option (Map AttributeValue) → Change
  add_embed : Option (Map AttributeValue) → Change
  drop : ℕ → Change

-- Whether an embed is added.
abbrev pub has_embed : List Change → Bool
has_embed [] = false
has_embed (keep n a ∷ cs) = has_embed cs
has_embed (add s a ∷ cs) = has_embed cs
has_embed (add_embed a ∷ cs) = true
has_embed (drop n ∷ cs) = has_embed cs

-- How Quill writes one.
abbrev pub encode : Change → DeltaOp
encode (keep n a) = record { insert = none; delete = none; retain = some n; attributes = a }
encode (add s a) = record { insert = some (text s); delete = none; retain = none; attributes = a }
encode (add_embed a) = record { insert = some embed; delete = none; retain = none; attributes = a }
encode (drop n) = record { insert = none; delete = some n; retain = none; attributes = none }

-- `A` is what a place of the document holds: a character with its marks, which is a code point and
-- has one UTF-16 code unit or two, or an embed, which has length one.
module _ {A : Type 0} (char : Text → Option FormatMark → A) (mark : FormatPatch → A → A)
    (object : Option (Map AttributeValue) → A) (width : A → ℕ) where
  abbrev pub insert_at : ℕ → A → List A → List A
  insert_at zero a xs = a ∷ xs
  insert_at (suc i) a [] = a ∷ []
  insert_at (suc i) a (x ∷ xs) = x ∷ insert_at i a xs

  abbrev pub remove_at : ℕ → List A → List A
  remove_at i [] = []
  remove_at zero (x ∷ xs) = xs
  remove_at (suc i) (x ∷ xs) = x ∷ remove_at i xs

  abbrev pub mark_first : ℕ → FormatPatch → List A → List A
  mark_first zero p xs = xs
  mark_first (suc n) p [] = []
  mark_first (suc n) p (x ∷ xs) = mark p x ∷ mark_first n p xs

  abbrev pub mark_at : ℕ → ℕ → FormatPatch → List A → List A
  mark_at zero n p xs = mark_first n p xs
  mark_at (suc i) n p [] = []
  mark_at (suc i) n p (x ∷ xs) = x ∷ mark_at i n p xs

  abbrev pub apply_edit : Edit → List A → List A
  apply_edit (insert i v a) xs = insert_at i (char v a) xs
  apply_edit (delete i) xs = remove_at i xs
  apply_edit (format i n p) xs = mark_at i n p xs

  abbrev pub apply_edits : List Edit → List A → List A
  apply_edits [] xs = xs
  apply_edits (e ∷ es) xs = apply_edits es (apply_edit e xs)

  abbrev pub take : ℕ → List A → List A
  take zero xs = []
  take (suc n) [] = []
  take (suc n) (x ∷ xs) = x ∷ take n xs

  abbrev pub skip : ℕ → List A → List A
  skip zero xs = xs
  skip (suc n) [] = []
  skip (suc n) (x ∷ xs) = skip n xs

  abbrev pub restyle : Option FormatPatch → List A → List A
  restyle none xs = xs
  restyle (some p) xs = map (mark p) xs

  -- The places of the first code units, and those behind them, where no character is cut.
  abbrev pub take_units : ℕ → List A → List A
  take_units zero xs = []
  take_units (suc n) [] = []
  take_units (suc n) (x ∷ xs) = x ∷ take_units (suc n - width x) xs

  abbrev pub skip_units : ℕ → List A → List A
  skip_units zero xs = xs
  skip_units (suc n) [] = []
  skip_units (suc n) (x ∷ xs) = skip_units (suc n - width x) xs

  -- What a delta does to the document from its place on, as Quill defines it.
  abbrev pub change : List Change → List A → List A
  change [] xs = xs
  change (keep n a ∷ cs) xs =
      restyle (to_format_patch a) (take_units n xs) ++ change cs (skip_units n xs)
  change (add s a ∷ cs) xs = map (λ c. char c (to_format_mark a)) (code_points s) ++ change cs xs
  change (add_embed a ∷ cs) xs = object a ∷ change cs xs
  change (drop n ∷ cs) xs = change cs (skip_units n xs)

  -- The delta keeps and drops only what is there.
  abbrev pub Fits : List Change → ℕ → Type 0
  Fits [] n = Unit {0}
  Fits (keep k a ∷ cs) n = (k ≤ n) × Fits cs (n - k)
  Fits (add s a ∷ cs) n = Fits cs n
  Fits (add_embed a ∷ cs) n = Fits cs n
  Fits (drop k ∷ cs) n = (k ≤ n) × Fits cs (n - k)

  -- Every place has one code unit.
  abbrev pub AreNarrow : List A → Type 0
  AreNarrow = All (λ x. width x ≡ 1)
