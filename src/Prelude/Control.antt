-- ===== src/Prelude/Control.antt =====
-- Code that changes a state `S` and returns an `A`. A Go routine may also wait in a channel send
-- (`blocked`), or panic; what it had written by then stays written.

use Prim.Native.Nat.{ℕ, zero, suc}
use mathlib.Core.Path.{◌≡◌, refl, ap}

pub data Flow {ℓ} (A : Type ℓ) : Type ℓ where
  ret : A → Flow A
  blocked : Flow A
  panicked : Flow A

pub ret_inj {ℓ} : {A : Type ℓ} (a b : A) → ret a ≡ ret b → a ≡ b
ret_inj a b e = cc

abbrev pub Exec {ℓ} : Type ℓ → Type ℓ → Type ℓ
Exec S A = S → Flow A × S

module _ {ℓ} {S A : Type ℓ} where
  abbrev pub pure : A → Exec S A
  pure a s = (ret a, s)

  abbrev pub panic : Exec S A
  panic s = (panicked, s)

module _ {ℓ} {S A B : Type ℓ} where
  abbrev pub continue : Flow A → (A → Exec S B) → Exec S B
  continue (ret a) f s = f a s
  continue blocked f s = (blocked, s)
  continue panicked f s = (panicked, s)

  infixl 10 ◌>>=◌ ◌>>◌
  abbrev pub ◌>>=◌ : Exec S A → (A → Exec S B) → Exec S B
  ◌>>=◌ m f s = continue (m s).0 f (m s).1

  abbrev pub ◌>>◌ : Exec S A → Exec S B → Exec S B
  m >> n = m >>= λ _. n

  -- A pure rest changes no state, and gives a value wherever the first part does.
  pub state-bind-pure : (m : Exec S A) (f : A → B) (s : S) → ((m >>= λ a. pure (f a)) s).1 ≡ (m s).1
  state-bind-pure m f s =
      elim (m s).0 as (λ r. (continue r (λ a. pure (f a)) (m s).1).1 ≡ (m s).1) [
        | ret a ↦ refl
        | blocked ↦ refl
        | panicked ↦ refl
      ]

  pub ret-bind-pure :
      (m : Exec S A) (f : A → B) (s : S) {b : B}
      → ((m >>= λ a. pure (f a)) s).0 ≡ ret b
      → (a : A) × ((m s).0 ≡ ret a) × (f a ≡ b)
  ret-bind-pure m f s h = inversion (m s).0 refl h
    where
      inversion :
          (r : Flow A)
          → (m s).0 ≡ r
          → {b : B} → (continue r (λ a. pure (f a)) (m s).1).0 ≡ ret b
          → (a : A) × ((m s).0 ≡ ret a) × (f a ≡ b)
      inversion (ret a) e h = (a, e, cc)
      inversion blocked e h = cc
      inversion panicked e h = cc

  -- A chain that gives a value went through its first part.
  pub ret-bind :
      (m : Exec S A) (f : A → Exec S B) (s : S) {b : B}
      → ((m >>= f) s).0 ≡ ret b
      → (a : A) × ((m s).0 ≡ ret a) × ((m >>= f) s ≡ f a (m s).1)
  ret-bind m f s h = inversion (m s).0 refl h
    where
      inversion :
          (r : Flow A)
          → (m s).0 ≡ r
          → {b : B} → (continue r f (m s).1).0 ≡ ret b
          → (a : A) × ((m s).0 ≡ ret a) × (continue (m s).0 f (m s).1 ≡ f a (m s).1)
      inversion (ret a) e h = (a, e, ap (λ (r : Flow A). continue r f (m s).1) e)
      inversion blocked e h = cc
      inversion panicked e h = cc

module _ {S : Type 0} where
  -- A loop that makes a round at each of n ticks, and then finds its context done.
  unfoldable pub repeat : ℕ → Exec S (Unit {0}) → Exec S (Unit {0})
  repeat zero m = pure tt
  repeat (suc n) m = m >>= λ _. repeat n m

  -- What every round keeps, the loop keeps, also if a round does not return.
  pub repeat_inv :
      (P : S → Type 0) (m : Exec S (Unit {0}))
      → ((s : S) → P s → P (m s).1)
      → (n : ℕ) (s : S) → P s
      → P (repeat n m s).1
  unfolding repeat
  repeat_inv P m k zero s p = p
  repeat_inv P m k (suc n) s p = after (m s).0 (k s p) (repeat_inv P m k n (m s).1)
    where
      after :
          (r : Flow (Unit {0}))
          → P (m s).1
          → (P (m s).1 → P (repeat n m (m s).1).1)
          → P (continue r (λ _. repeat n m) (m s).1).1
      after (ret _) q f = f q
      after blocked q f = q
      after panicked q f = q
