-- ===== src/Crdt/Rga/Marks.antt =====
-- Format ops on one character, by `applyFormatOp` of packages/crdt/src/rga.ts.
use ysync.Common.{
  ◌≡◌, refl, sym, ap, ◌∙◌, subst, inl, inr, Bool, true, false, not, ◌&&◌, List, [], ◌∷◌, Option,
  none, some, In, if◌then◌else◌, Bool-cases, Option-cases, arith,
}
use ysync.Common.Texts.{
  Text, text_eq, text_eq_iff, text_eq_refl, text_lt_irrefl, text_lt_total, text_lt_trans,
}
use ysync.Common.Maps
use ysync.Common.Maps.{Map, get-put, get-remove}
use ysync.Crdt.OpId.{OpId, newer, at_least, compare_op_id, sub_ℕ, is_positive, is_nonneg}
use ysync.Crdt.OpId.Order.{newer_total, newer_irrefl}
use ysync.Crdt.Node.{Node, FormatMark, or_empty, has_mark, unless_empty}
use ysync.Crdt.Op.{FormatOp}
use ysync.Crdt.Rga.{apply_format_op}

at_least-newer : (a b : OpId) → at_least a b ≡ not (newer b a)
unfolding at_least newer compare_op_id sub_ℕ is_positive is_nonneg
at_least-newer a b = ground (
  arith,
  text_eq_iff a.replica_id b.replica_id,
  text_eq_iff b.replica_id a.replica_id,
  text_lt_irrefl a.replica_id,
  text_lt_total a.replica_id b.replica_id,
  text_lt_trans a.replica_id b.replica_id a.replica_id,
)

-- The mark of a node, and the id that decided it.
abbrev pub is_marked : Text → Node → Bool
is_marked key n = has_mark key (or_empty n.attrs)

abbrev pub decided_by : Text → Node → Option OpId
decided_by key n = Maps.get key (or_empty n.format_clock)

-- The op is newer than what decided its mark before.
abbrev pub beats : OpId → Option OpId → Bool
beats id none = true
beats id (some d) = not (at_least d id)

or_empty-unless_empty : (m : FormatMark) → or_empty (unless_empty m) ≡ m
unfolding or_empty unless_empty
or_empty-unless_empty [] = refl
or_empty-unless_empty (x ∷ m) = refl

decided_by-apply_format_op :
    (op : FormatOp) (n : Node) (key : Text)
    → decided_by key (apply_format_op op n) ≡ (
        if beats op.id (decided_by op.mark n) && text_eq op.mark key
        then some op.id
        else decided_by key n)
unfolding apply_format_op
decided_by-apply_format_op op n key = elim (Option-cases (decided_by op.mark n)) [
  | inl e ↦ rw (e, apply_format_op) (get-put op.mark key op.id (or_empty n.format_clock))
  | inr (d, e) ↦ elim (Bool-cases (at_least d op.id)) [
    | inl old ↦ rw (e, apply_format_op, old) refl
    | inr new ↦ rw (e, apply_format_op, new) (get-put op.mark key op.id (or_empty n.format_clock))
  ]
]

has_mark-put :
    (k j : Text) (m : FormatMark)
    → has_mark j (Maps.put k tt m) ≡ (if text_eq k j then true else has_mark j m)
unfolding has_mark
has_mark-put k j m = ground (arith, get-put k j tt m)

has_mark-remove :
    (k j : Text) (m : FormatMark)
    → has_mark j (Maps.remove k m) ≡ (if text_eq k j then false else has_mark j m)
unfolding has_mark
has_mark-remove k j m = ground (arith, get-remove k j m)

-- What a decision does to the marks.
abbrev decided_attrs : FormatOp → Option FormatMark → Option FormatMark
decided_attrs op attrs =
    if op.value
    then some (Maps.put op.mark tt (or_empty attrs))
    else if has_mark op.mark (or_empty attrs)
    then unless_empty (Maps.remove op.mark (or_empty attrs))
    else attrs

has_mark-decided_attrs :
    (op : FormatOp) (attrs : Option FormatMark) (key : Text)
    → has_mark key (or_empty (decided_attrs op attrs))
      ≡ (if text_eq op.mark key then op.value else has_mark key (or_empty attrs))
unfolding or_empty Maps.put
has_mark-decided_attrs op attrs key = elim (Bool-cases op.value) [
  | inl set ↦ rw set (has_mark-put op.mark key (or_empty attrs))
  | inr clear ↦ elim (Bool-cases (has_mark op.mark (or_empty attrs))) [
    | inl there ↦
        rw (clear, there)
          (ap (has_mark key) (or_empty-unless_empty (Maps.remove op.mark (or_empty attrs)))
            ∙ has_mark-remove op.mark key (or_empty attrs))
    | inr gone ↦ rw (clear, gone) (ground (arith, text_eq_iff op.mark key))
  ]
]

is_marked-apply_format_op :
    (op : FormatOp) (n : Node) (key : Text)
    → is_marked key (apply_format_op op n) ≡ (
        if beats op.id (decided_by op.mark n) && text_eq op.mark key
        then op.value
        else is_marked key n)
unfolding apply_format_op
is_marked-apply_format_op op n key = elim (Option-cases (decided_by op.mark n)) [
  | inl e ↦ rw (e, apply_format_op) (has_mark-decided_attrs op n.attrs key)
  | inr (d, e) ↦ elim (Bool-cases (at_least d op.id)) [
    | inl old ↦ rw (e, apply_format_op, old) refl
    | inr new ↦ rw (e, apply_format_op, new) (has_mark-decided_attrs op n.attrs key)
  ]
]

abbrev pub apply_formats : List FormatOp → Node → Node
apply_formats [] n = n
apply_formats (op ∷ ops) n = apply_formats ops (apply_format_op op n)

-- Each op of the list on this mark is at most the id.
abbrev Below : OpId → Text → List FormatOp → Type 0
Below id key ops = (op : FormatOp) → In op ops → op.mark ≡ key → at_least id op.id ≡ true

-- An op that another decision of its mark is not older than changes nothing of a mark.
ignored :
    (w : OpId) (key : Text) (op : FormatOp) (n : Node)
    → decided_by key n ≡ some w
    → (op.mark ≡ key → at_least w op.id ≡ true)
    → (beats op.id (decided_by op.mark n) && text_eq op.mark key) ≡ false
ignored w key op n e h = elim (Bool-cases (text_eq op.mark key)) [
  | inr other ↦ ground arith
  | inl same ↦
      let eq = (text_eq_iff op.mark key).0 same in
      let there : decided_by op.mark n ≡ some w = ap (λ k. decided_by k n) eq ∙ e in
      rw (there, h eq) refl
]

-- A decision stands against what is not newer.
stands :
    (w : OpId) (key : Text) (ops : List FormatOp) (n : Node)
    → decided_by key n ≡ some w
    → Below w key ops
    → is_marked key (apply_formats ops n) ≡ is_marked key n
stands w key [] n e h = refl
stands w key (op ∷ ops) n e h =
    let no = ignored w key op n e (h op (inl refl)) in
    stands w key ops (apply_format_op op n) (decided_by-apply_format_op op n key ∙ rw no e)
      (λ x m. h x (inr m))
    ∙ is_marked-apply_format_op op n key
    ∙ rw no refl

beats_older : (w : OpId) (d : OpId) → newer w d ≡ true → beats w (some d) ≡ true
beats_older w d h = rw (at_least-newer d w, h) refl

-- One op that the winner beats leaves it winning.
still_beats :
    (w : OpId) (key : Text) (op : FormatOp) (n : Node)
    → beats w (decided_by key n) ≡ true
    → newer w op.id ≡ true
    → beats w (decided_by key (apply_format_op op n)) ≡ true
still_beats w key op n h new =
    elim (Bool-cases (beats op.id (decided_by op.mark n) && text_eq op.mark key)) [
      | inl decides ↦
          let now : decided_by key (apply_format_op op n) ≡ some op.id =
            decided_by-apply_format_op op n key ∙ rw decides refl in
          ap (beats w) now ∙ beats_older w op.id new
      | inr ignores ↦
          let kept : decided_by key (apply_format_op op n) ≡ decided_by key n =
            decided_by-apply_format_op op n key ∙ rw ignores refl in
          ap (beats w) kept ∙ h
    ]

-- The format op with the greatest id decides its mark, in whatever order and however often the ops
-- are applied: where no earlier decision of the mark is as new, and where ids are unique, the
-- character has the mark in the end exactly if that op adds it.
pub is_marked-apply_formats :
    (w : FormatOp) (ops : List FormatOp) (n : Node)
    → In w ops
    → ((op : FormatOp) → In op ops → op.mark ≡ w.mark → at_least w.id op.id ≡ true)
    → ((op : FormatOp) → In op ops → op.id ≡ w.id → op ≡ w)
    → beats w.id (decided_by w.mark n) ≡ true
    → is_marked w.mark (apply_formats ops n) ≡ w.value
is_marked-apply_formats w [] n m h u b = absurd m
is_marked-apply_formats w (op ∷ ops) n m h u b = elim (Bool-cases (text_eq op.mark w.mark)) [
  | inr other ↦
      let later : In w ops = elim m [
        | inl e ↦
            absurd (cc (ap (λ (o : FormatOp). text_eq o.mark w.mark) e, text_eq_refl w.mark, other))
        | inr rest ↦ rest
      ] in
      let apart : (beats op.id (decided_by op.mark n) && text_eq op.mark w.mark) ≡ false =
        ground arith in
      is_marked-apply_formats w ops (apply_format_op op n) later (λ x i. h x (inr i))
        (λ x i. u x (inr i))
        (ap (beats w.id) (decided_by-apply_format_op op n w.mark ∙ rw apart refl) ∙ b)
  | inl same ↦ elim (Bool-cases (newer w.id op.id)) [
    | inl new ↦
        let later : In w ops = elim m [
          | inl e ↦ absurd (cc (ap (λ (o : FormatOp). newer w.id o.id) e, newer_irrefl w.id, new))
          | inr rest ↦ rest
        ] in
        is_marked-apply_formats w ops (apply_format_op op n) later (λ x i. h x (inr i))
          (λ x i. u x (inr i)) (still_beats w.id w.mark op n b new)
    | inr old ↦
        let eq = (text_eq_iff op.mark w.mark).0 same in
        let at_most : newer op.id w.id ≡ false =
          ground (arith, at_least-newer w.id op.id, h op (inl refl) eq) in
        let is_w : op ≡ w = u op (inl refl) (newer_total op.id w.id at_most old) in
        let decides : (beats op.id (decided_by op.mark n) && text_eq op.mark w.mark) ≡ true =
          subst
            (λ (o : FormatOp). (beats o.id (decided_by o.mark n) && text_eq o.mark w.mark) ≡ true)
            (sym is_w) (rw (b, text_eq_refl w.mark) refl) in
        stands op.id w.mark ops (apply_format_op op n)
          (decided_by-apply_format_op op n w.mark ∙ rw decides refl)
          (λ x i e. subst (λ (o : FormatOp). at_least o.id x.id ≡ true) (sym is_w) (h x (inr i) e))
        ∙ is_marked-apply_format_op op n w.mark
        ∙ rw decides (ap (λ (o : FormatOp). o.value) is_w)
  ]
]
