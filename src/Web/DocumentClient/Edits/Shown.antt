-- ===== src/Web/DocumentClient/Edits/Shown.antt =====
-- What the edits of apps/web/src/lib/documentClient.ts show against what their ops make elsewhere.
use ysync.Common.{
  ◌≡◌, refl, sym, ap, subst, inl, inr, List, [], ◌∷◌, ◌++◌, map, Option, none, some, some_injective,
  Option-cases, arith,
}
use ysync.Crdt.Op.{Op, insert, delete, format}
use ysync.Crdt.Rga.{Rga, apply_all}
use ysync.Crdt.Rga.WellFormed.{IsWellFormed, IsWellFormed-apply_all}
use ysync.Crdt.Editing.{local_insert, local_delete, local_format}
use ysync.Crdt.Editing.Echo.{
  NoneAhead, NoneAhead-after, Echoes, local_insert-Echoes, local_delete-Echoes, local_format-Echoes,
  Echoes-append,
}
use ysync.Web.DeltaToEdits.{Edit}
use ysync.Web.DocumentClient.Edits.{apply_edit, collect_edits}

apply_edit-Echoes :
    (edit : Edit) (s t : Rga) (ops : List Op)
    → IsWellFormed s
    → NoneAhead s
    → apply_edit edit s ≡ some (t, ops)
    → Echoes s ops t
unfolding apply_edit
apply_edit-Echoes (Edit.insert index value attrs) s t ops v ahead e =
    subst (λ (r : Rga × List Op). Echoes s r.1 r.0)
      (some_injective
        ((local_insert s index value attrs).0, insert (local_insert s index value attrs).1 ∷ [])
        (t, ops) e)
      (local_insert-Echoes s index value attrs v ahead)
apply_edit-Echoes (Edit.delete index) s t ops v ahead e =
    elim (Option-cases (local_delete s index)) [
      | inl missing ↦
          let none_left : none ≡ some (t, ops) = rw (missing, apply_edit) at e in
          absurd (ground (arith, none_left))
      | inr ((u, op), there) ↦
          subst (λ (r : Rga × List Op). Echoes s r.1 r.0)
            (some_injective (u, delete op ∷ []) (t, ops) (rw (there, apply_edit) at e))
            (local_delete-Echoes s u index op there)
    ]
apply_edit-Echoes (Edit.format index length attrs) s t ops v ahead e =
    subst (λ (r : Rga × List Op). Echoes s r.1 r.0)
      (some_injective
        ((local_format length s index attrs).0, map format (local_format length s index attrs).1)
        (t, ops) e)
      (local_format-Echoes length s index attrs)

-- The edits from some ops on, which led to the replica.
collect_edits-Echoes :
    (edits : List Edit) (sent : List Op) (s t u : Rga) (ops : List Op)
    → IsWellFormed s
    → NoneAhead s
    → Echoes s sent t
    → collect_edits edits sent t ≡ (u, some ops)
    → Echoes s ops u
unfolding collect_edits
collect_edits-Echoes [] sent s t u ops v ahead a e =
    let state : t ≡ u = ap (λ (r : Rga × Option (List Op)). r.0) e in
    let outcome : some sent ≡ some ops = ap (λ (r : Rga × Option (List Op)). r.1) e in
    subst (λ x. Echoes s x u) (some_injective sent ops outcome)
      (subst (λ x. Echoes s sent x) state a)
collect_edits-Echoes (edit ∷ edits) sent s t u ops v ahead a e =
    elim (Option-cases (apply_edit edit t)) [
      | inl throws ↦
          let left : ◌≡◌ {A = Rga × Option (List Op)} (t, none) (u, some ops) =
            rw (throws, collect_edits) at e in
          let none_left : ◌≡◌ {A = Option (List Op)} none (some ops) =
            ap (λ (r : Rga × Option (List Op)). r.1) left in
          absurd (ground (arith, none_left))
      | inr ((t', os), there) ↦
          let v' : IsWellFormed t =
            subst IsWellFormed (sym a.0) (IsWellFormed-apply_all sent s v) in
          collect_edits-Echoes edits (sent ++ os) s t' u ops v ahead
            (Echoes-append sent os s t t' a
              (apply_edit-Echoes edit t t' os v' (NoneAhead-after s t a.1 ahead) there))
            (rw (there, collect_edits) at e)
    ]

-- On a well-formed replica where no op waits for an id that it has still to give, edits that do not
-- throw leave exactly the replica that delivering their ops to it would: what the user sees is what
-- the others make of the ops.
pub collect_edits_echo :
    (edits : List Edit) (s t : Rga) (ops : List Op)
    → IsWellFormed s
    → NoneAhead s
    → collect_edits edits [] s ≡ (t, some ops)
    → (t ≡ apply_all ops s) × (IsWellFormed t × NoneAhead t)
unfolding apply_all
collect_edits_echo edits s t ops v ahead e =
    let (same, after) =
      collect_edits-Echoes edits [] s s t ops v ahead (refl, (refl, (refl, omega arith))) e in
    (
      same,
      (
        subst IsWellFormed (sym same) (IsWellFormed-apply_all ops s v),
        NoneAhead-after s t after ahead,
      ),
    )
