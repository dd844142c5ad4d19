-- ===== src/Prelude/Texts.antt =====
-- What the program uses of Go's package strings: Split at one character, TrimSpace, and Contains of
-- one character.
use Prim.Native.Char.{Char, code}
use Prim.Native.Nat.{ℕ}
use Prim.Native.String.{String, ◌++◌}
use mathlib.Core.Path.{◌≡◌, refl, subst}
use mathlib.Core.Logic.{◌≢◌, ◌⊎◌, inl, inr}
use mathlib.Core.Bool.{Bool, true, false, ◌&&◌, ◌||◌}
use mathlib.Core.List.{List, [], ◌∷◌, ◌++◌ as ◌++l◌}
use native.Mathlib.Omega.{arith}
use text.Mathlib.Text.{◌==◌ as str_eq}
use text.Mathlib.TextEquality.{eq_iff}
use text.Mathlib.TextLemmas.{nil-append, cons-append}
use k8s_lite.Prelude.Tests.{if◌then◌else◌, ◌==◌, leb, ==_iff, Bool-cases, false_of_not}
use k8s_lite.Prelude.Lists.{All}

cons_first : Char → List String → List String
cons_first c [] = (String.◌∷◌ c String.[]) ∷ []
cons_first c (w ∷ ws) = (String.◌∷◌ c w) ∷ ws

-- strings.Split(s, sep), for the code of a separator of one character
unfoldable pub split : ℕ → String → List String
unfolding cons_first
split sep String.[] = String.[] ∷ []
split sep (String.◌∷◌ c s) =
    let rest = split sep s in if code c == sep then String.[] ∷ rest else cons_first c rest

-- unicode.IsSpace
unfoldable pub is_space : ℕ → Bool
is_space c =
    (leb 9 c && leb c 13)
    || (c == 0x20 || c == 0x85 || c == 0xA0 || c == 0x1680)
    || (leb 0x2000 c && leb c 0x200A)
    || (c == 0x2028 || c == 0x2029 || c == 0x202F || c == 0x205F || c == 0x3000)

trim_left : String → String
trim_left String.[] = String.[]
trim_left (String.◌∷◌ c s) = if is_space (code c) then trim_left s else String.◌∷◌ c s

trim_right : String → String
trim_right String.[] = String.[]
trim_right (String.◌∷◌ c s) =
    let rest = trim_right s in
    if is_space (code c) && str_eq rest "" then String.[] else String.◌∷◌ c rest

-- strings.TrimSpace
unfoldable pub trim_space : String → String
unfolding trim_left trim_right
trim_space s = trim_left (trim_right s)

-- The text does not hold the character.
abbrev pub IsFree : ℕ → String → Type 0
IsFree sep String.[] = Unit
IsFree sep (String.◌∷◌ c s) = (code c == sep ≡ false) × IsFree sep s

pub split-free : (sep : ℕ) (w : String) → IsFree sep w → split sep w ≡ w ∷ []
unfolding split
split-free sep String.[] h = refl
split-free sep (String.◌∷◌ c s) h = ground (arith, split-free sep s h.1)

pub split-append :
    (sep : ℕ) (w rest : String) (c : Char)
    → code c ≡ sep
    → IsFree sep w
    → split sep (w ++ String.◌∷◌ c rest) ≡ w ∷ split sep rest
unfolding split
split-append sep String.[] rest c e h = rw (nil-append (String.◌∷◌ c rest)) (ground arith)
split-append sep (String.◌∷◌ d w) rest c e h =
    rw (cons-append d w (String.◌∷◌ c rest)) (ground (arith, split-append sep w rest c e h.1))

cons_first-append :
    (c : Char) (w rest : List String) → w ≢ [] → cons_first c (w ++l rest) ≡ cons_first c w ++l rest
unfolding cons_first
cons_first-append c [] rest h = absurd (h refl)
cons_first-append c (x ∷ w) rest h = refl

split-ne-nil : (sep : ℕ) (s : String) → split sep s ≢ []
unfolding split cons_first
split-ne-nil sep String.[] = λ e. cc
split-ne-nil sep (String.◌∷◌ c s) = first_case (code c == sep) (split sep s)
  where
    first_case :
        (b : Bool) (rest : List String) → (if b then String.[] ∷ rest else cons_first c rest) ≢ []
    first_case true rest e = cc
    first_case false [] e = cc
    first_case false (w ∷ ws) e = cc

-- A separator splits the parts before it from those after it.
pub split-append_any :
    (sep : ℕ) (w rest : String) (c : Char)
    → code c ≡ sep
    → split sep (w ++ String.◌∷◌ c rest) ≡ split sep w ++l split sep rest
unfolding split
split-append_any sep String.[] rest c e =
    rw (nil-append (String.◌∷◌ c rest)) (rw ((==_iff (code c) sep).1 e))
split-append_any sep (String.◌∷◌ d w) rest c e =
    rw (cons-append d w (String.◌∷◌ c rest), split-append_any sep w rest c e)
      (elim (Bool-cases (code d == sep)) [
        | inl q ↦ rw q
        | inr q ↦ rw q (cons_first-append d (split sep w) (split sep rest) (split-ne-nil sep w))
      ])

-- No part holds the separator.
pub split-IsFree : (sep : ℕ) (s : String) → All (IsFree sep) (split sep s)
unfolding split
split-IsFree sep String.[] = (tt, tt)
split-IsFree sep (String.◌∷◌ c s) = elim (Bool-cases (code c == sep)) [
  | inl q ↦ rw q (tt, split-IsFree sep s)
  | inr q ↦ rw q (cons_first-IsFree (split sep s) q (split-IsFree sep s))
]
  where
    cons_first-IsFree :
        (ws : List String)
        → code c == sep ≡ false
        → All (IsFree sep) ws
        → All (IsFree sep) (cons_first c ws)
    cons_first-IsFree [] q h = ((q, tt), tt)
    cons_first-IsFree (w ∷ ws) q h = ((q, h.0), h.1)

pub IsFree-append : (sep : ℕ) (s t : String) → IsFree sep s → IsFree sep t → IsFree sep (s ++ t)
IsFree-append sep String.[] t h k = rw (nil-append t) k
IsFree-append sep (String.◌∷◌ c s) t h k =
    rw (cons-append c s t) ((h.0, IsFree-append sep s t h.1 k))

-- Some character is not a space.
abbrev pub HasInk : String → Type 0
HasInk String.[] = ⊥
HasInk (String.◌∷◌ c s) = (is_space (code c) ≡ false) ⊎ HasInk s

pub HasInk-append : (s t : String) → HasInk t → HasInk (s ++ t)
HasInk-append String.[] t h = rw (nil-append t) h
HasInk-append (String.◌∷◌ c s) t h = rw (cons-append c s t) (inr (HasInk-append s t h))

HasInk-trim_right : (s : String) → HasInk s → HasInk (trim_right s)
unfolding trim_right
HasInk-trim_right String.[] h = h
HasInk-trim_right (String.◌∷◌ c s) (inl q) = rw q (inl q)
HasInk-trim_right (String.◌∷◌ c s) (inr h) = ink (HasInk-trim_right s h)
  where
    ink : HasInk (trim_right s) → HasInk (trim_right (String.◌∷◌ c s))
    ink k =
        let differs =
          false_of_not (str_eq (trim_right s) "") (λ e. subst HasInk ((eq_iff _ _).0 e) k) in
        elim (Bool-cases (is_space (code c))) [
          | inl q ↦ rw (q, differs) (inr k)
          | inr q ↦ rw q (inl q)
        ]

HasInk-trim_left : (s : String) → HasInk s → HasInk (trim_left s)
unfolding trim_left
HasInk-trim_left String.[] h = h
HasInk-trim_left (String.◌∷◌ c s) (inl q) = rw q (inl q)
HasInk-trim_left (String.◌∷◌ c s) (inr h) = elim (Bool-cases (is_space (code c))) [
  | inl q ↦ rw q (HasInk-trim_left s h)
  | inr q ↦ rw q (inr h)
]

-- TrimSpace empties no text that has another character than spaces.
pub trim_space-HasInk : (s : String) → HasInk s → trim_space s ≢ ""
unfolding trim_space
trim_space-HasInk s h e = subst HasInk e (HasInk-trim_left (trim_right s) (HasInk-trim_right s h))

abbrev HasText : String → Type 0
HasText String.[] = ⊥
HasText (String.◌∷◌ c s) = Unit

HasText-append : (s t : String) → HasText t → HasText (s ++ t)
HasText-append String.[] t h = rw (nil-append t) h
HasText-append (String.◌∷◌ c s) t h = rw (cons-append c s t) tt

pub append-ne-empty : (s t : String) → s ++ ("-" ++ t) ≢ ""
append-ne-empty s t e =
    subst HasText e (HasText-append s ("-" ++ t) (rw (cons-append "-" String.[] t) tt))
