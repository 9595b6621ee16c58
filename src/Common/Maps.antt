-- ===== src/Common/Maps.antt =====
-- JavaScript maps with string keys: association lists in insertion order. An entry that is set
-- again keeps its place.
use mathlib.Core.Path.{◌≡◌, refl}
use mathlib.Core.Option.{Option, none, some}
use mathlib.Core.List.{List, [], ◌∷◌, map}
use native.Mathlib.Omega.{arith}
use ysync.Common.Tests.{if◌then◌else◌}
use ysync.Common.Texts.{Text, text_eq, text_eq_iff, text_eq_refl}

abbrev pub Map {ℓ} : Type ℓ → Type ℓ
Map V = List (Text × V)

module _ {ℓ} {V : Type ℓ} where
  unfoldable pub get : Text → Map V → Option V
  unfolding text_eq
  get k [] = none
  get k ((j, v) ∷ m) = if text_eq j k then some v else get k m

  unfoldable pub put : Text → V → Map V → Map V
  unfolding text_eq
  put k v [] = (k, v) ∷ []
  put k v ((j, w) ∷ m) = if text_eq j k then (j, v) ∷ m else (j, w) ∷ put k v m

  unfoldable pub remove : Text → Map V → Map V
  unfolding text_eq
  remove k [] = []
  remove k ((j, v) ∷ m) = if text_eq j k then remove k m else (j, v) ∷ remove k m

  abbrev pub keys : Map V → List Text
  keys = map (λ e. e.0)

  abbrev pub values : Map V → List V
  values = map (λ e. e.1)

  pub get-put :
      (k j : Text) (v : V) (m : Map V)
      → get j (put k v m) ≡ (if text_eq k j then some v else get j m)
  unfolding get put
  get-put k j v [] = refl
  get-put k j v ((i, w) ∷ m) =
      ground (arith, text_eq_iff k j, text_eq_iff i k, text_eq_iff i j, get-put k j v m)

  pub get-put_self : (k : Text) (v : V) (m : Map V) → get k (put k v m) ≡ some v
  get-put_self k v m = rw (get-put k k v m, text_eq_refl k)

  pub get-remove :
      (k j : Text) (m : Map V) → get j (remove k m) ≡ (if text_eq k j then none else get j m)
  unfolding get remove
  get-remove k j [] = ground arith
  get-remove k j ((i, w) ∷ m) =
      ground (arith, text_eq_iff k j, text_eq_iff i k, text_eq_iff i j, get-remove k j m)
