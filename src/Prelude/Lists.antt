-- ===== src/Prelude/Lists.antt =====
-- Lists measured by the native numbers, predicates on all items, and filters by Boolean tests.
use Prim.Native.Nat.{ℕ, zero, suc, ◌+◌, ◌<◌}
use mathlib.Core.Path.{◌≡◌, refl}
use mathlib.Core.Bool.{Bool, true}
use mathlib.Core.Logic.{◌⊎◌, inl, inr}
use mathlib.Core.List.{List, [], ◌∷◌, ◌++◌}
use mathlib.Core.Option.{Option, none, some}
use native.Mathlib.Omega.{arith}
use k8s_lite.Prelude.Tests.{if◌then◌else◌, Bool-cases}

module _ {ℓ} {A : Type ℓ} where
  abbrev pub length : List A → ℕ
  length [] = 0
  length (x ∷ xs) = suc (length xs)

  abbrev pub get_elem? : List A → ℕ → Option A
  get_elem? [] i = none
  get_elem? (x ∷ xs) zero = some x
  get_elem? (x ∷ xs) (suc i) = get_elem? xs i

  abbrev pub take : ℕ → List A → List A
  take zero xs = []
  take (suc n) [] = []
  take (suc n) (x ∷ xs) = x ∷ take n xs

  abbrev pub keep : (A → Bool) → List A → List A
  keep p [] = []
  keep p (x ∷ xs) = if p x then x ∷ keep p xs else keep p xs

  abbrev pub All {κ} : (A → Type κ) → List A → Type κ
  All P [] = Unit
  All P (x ∷ xs) = P x × All P xs

  pub length-append : (xs ys : List A) → length (xs ++ ys) ≡ length xs + length ys
  length-append [] ys = omega arith
  length-append (x ∷ xs) ys = omega (arith, length-append xs ys)

module _ {A : Type 0} where
  abbrev pub Among : A → List A → Type 0
  Among a [] = ⊥
  Among a (x ∷ xs) = (a ≡ x) ⊎ Among a xs

  -- An item of a filtered list, by its index.
  abbrev pub Kept : (A → Bool) → List A → ℕ → Type 0
  Kept p xs i = (x : A) × (get_elem? (keep p xs) i ≡ some x) × Among x xs × (p x ≡ true)

  front_item :
      (p : A → Bool) (x : A) (xs : List A) (i : ℕ)
      → p x ≡ true
      → ((j : ℕ) → j < length (keep p xs) → Kept p xs j)
      → i < suc (length (keep p xs))
      → Kept p (x ∷ xs) i
  front_item p x xs zero e r h = (x, rw e, inl refl, e)
  front_item p x xs (suc i) e r h = let (y, g, m, f) = r i (omega arith) in (y, rw e g, inr m, f)

  pub get_elem?-keep : (p : A → Bool) (xs : List A) (i : ℕ) → i < length (keep p xs) → Kept p xs i
  get_elem?-keep p [] i h = elim h [ ]
  get_elem?-keep p (x ∷ xs) i h = elim (Bool-cases (p x)) [
    | inl e ↦ front_item p x xs i e (get_elem?-keep p xs) (rw e at h)
    | inr e ↦ let (y, g, m, f) = get_elem?-keep p xs i (rw e at h) in (y, rw e g, inr m, f)
  ]
