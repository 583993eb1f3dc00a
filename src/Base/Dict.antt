-- ===== src/Base/Dict.antt =====
-- A Go map with string keys as an association list: a write replaces the entry of its key.
use Prim.Native.String.{String}
use mathlib.Core.Path.{◌≡◌, refl}
use mathlib.Core.Bool.{Bool}
use mathlib.Core.List.{List, [], ◌∷◌}
use mathlib.Core.Option.{Option, none, some}
use native.Mathlib.Omega.{arith}
use text.Mathlib.Text.{◌==◌}
use text.Mathlib.TextEquality.{eq_iff}
use sydney.Base.Tests.{if◌then◌else◌}

abbrev pub str_eq : String → String → Bool
str_eq a b = a == b

module _ {ℓ} {Value : Type ℓ} where
  unfoldable pub lookup : String → List (String × Value) → Option Value
  lookup name [] = none
  lookup name ((key, old) ∷ entries) = if str_eq key name then some old else lookup name entries

  unfoldable pub insert : String → Value → List (String × Value) → List (String × Value)
  insert name new [] = (name, new) ∷ []
  insert name new ((key, old) ∷ entries) =
      if str_eq key name then (name, new) ∷ entries else (key, old) ∷ insert name new entries

  -- A write is seen under its own key, and no other key sees it.
  pub lookup-insert :
      (name other : String) (new : Value) (entries : List (String × Value))
      → lookup other (insert name new entries)
        ≡ (if str_eq name other then some new else lookup other entries)
  unfolding lookup insert
  lookup-insert name other new [] = refl
  lookup-insert name other new ((key, old) ∷ entries) = ground (
    arith,
    lookup-insert name other new entries,
    eq_iff name other,
    eq_iff key other,
    eq_iff key name,
  )
