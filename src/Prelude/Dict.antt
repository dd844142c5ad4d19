-- ===== src/Prelude/Dict.antt =====
-- Go's `map[string]V`, as an association list read by its first entry. A nil map and an empty one
-- are both `[]`: reading, `len`, `range` and the `omitempty` of JSON treat them alike.
use Prim.Native.String.{String}
use mathlib.Core.Path.{◌≡◌, refl, sym, ◌∙◌}
use mathlib.Core.HLevel.{hedberg}
use mathlib.Core.Bool.{true≢false}
use mathlib.Core.Logic.{inl, inr}
use mathlib.Core.List.{List, [], ◌∷◌}
use mathlib.Core.Option.{Option, none, some}
use native.Mathlib.Omega.{arith}
use text.Mathlib.Text.{◌==◌ as str_eq}
use text.Mathlib.TextEquality.{eq_iff}
use k8s_lite.Prelude.Tests.{if◌then◌else◌, Bool-cases}

pub string_IsSet : IsSet String
string_IsSet = hedberg decide
  where
    decide : Discrete String
    decide a b = elim (Bool-cases (str_eq a b)) [
      | inl e ↦ yes ((eq_iff a b).0 e)
      | inr e ↦ no (λ q. true≢false (sym ((eq_iff a b).1 q) ∙ e))
    ]

abbrev pub Map {ℓ} : Type ℓ → Type ℓ
Map V = List (String × V)

module _ {ℓ} {V : Type ℓ} where
  -- `m[key]`, with `none` for a missing key
  unfoldable pub lookup : String → Map V → Option V
  lookup key [] = none
  lookup key ((i, old) ∷ rest) = if str_eq i key then some old else lookup key rest

  -- `delete(m, key)`
  unfoldable pub remove : String → Map V → Map V
  remove key [] = []
  remove key ((i, old) ∷ rest) =
      if str_eq i key then remove key rest else (i, old) ∷ remove key rest

  -- `m[key] = new`, at the entry that is read, or at the end
  unfoldable pub insert : String → V → Map V → Map V
  insert key new [] = (key, new) ∷ []
  insert key new ((i, old) ∷ rest) =
      if str_eq i key then (key, new) ∷ rest else (i, old) ∷ insert key new rest

  pub lookup-remove :
      (key other : String) (m : Map V)
      → lookup other (remove key m) ≡ (if str_eq key other then none else lookup other m)
  unfolding lookup remove
  lookup-remove key other [] = ground arith
  lookup-remove key other ((i, old) ∷ rest) =
      ground (arith, eq_iff i other, eq_iff i key, eq_iff key other, lookup-remove key other rest)

  pub lookup-insert :
      (key other : String) (new : V) (m : Map V)
      → lookup other (insert key new m) ≡ (if str_eq key other then some new else lookup other m)
  unfolding lookup insert
  lookup-insert key other new [] = refl
  lookup-insert key other new ((i, old) ∷ rest) =
      ground
        (arith, eq_iff i other, eq_iff i key, eq_iff key other, lookup-insert key other new rest)
