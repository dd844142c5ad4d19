-- ===== src/Proxy/Ports.antt =====
-- Go's `map[int32]V`, as an association list read by its first entry.
use mathlib.Core.Logic.Or
use mathlib.Core.List.{Perm, Mem, mem-cons, mem-cons_self, mem-cons_of_mem, not-mem-nil}
use mathlib.Core.List.Perm
use mathlib.Core.Option
use mathlib.Core.Bool.{true≢false}
use k8s_lite.Prelude.{
  String, ◌≡◌, refl, sym, ap, ◌∙◌, true, false, Option, none, some, List, [], ◌∷◌, if◌then◌else◌, ℤ,
  pos, negsuc, eqb_ℤ, arith, Bool-cases, Option-cases, inl, inr, subst, some_inj, string_IsSet, ◌≢◌,
  false_of_not,
}

abbrev pub Ports : Type 0 → Type 0
Ports V = List (ℤ × V)

pub eqb_eq : (a b : ℤ) → eqb_ℤ a b ≡ true → a ≡ b
eqb_eq (pos a) (pos b) e = ap pos (ground arith)
eqb_eq (negsuc a) (negsuc b) e = ap negsuc (ground arith)
eqb_eq (pos a) (negsuc b) e = cc e
eqb_eq (negsuc a) (pos b) e = cc e

pub eqb_refl : (a : ℤ) → eqb_ℤ a a ≡ true
eqb_refl (pos a) = ground arith
eqb_refl (negsuc a) = ground arith

pub eqb_sym : (a b : ℤ) → eqb_ℤ b a ≡ false → eqb_ℤ a b ≡ false
eqb_sym (pos a) (pos b) e = ground arith
eqb_sym (negsuc a) (negsuc b) e = ground arith
eqb_sym (pos a) (negsuc b) e = refl
eqb_sym (negsuc a) (pos b) e = refl

module _ {V : Type 0} where
  -- `m[port]`, with `none` for a missing port
  unfoldable pub at_port : ℤ → Ports V → Option V
  at_port port [] = none
  at_port port ((i, old) ∷ rest) = if eqb_ℤ i port then some old else at_port port rest

  -- `delete(m, port)`
  unfoldable pub remove_port : ℤ → Ports V → Ports V
  remove_port port [] = []
  remove_port port ((i, old) ∷ rest) =
      if eqb_ℤ i port then remove_port port rest else (i, old) ∷ remove_port port rest

  -- `m[port] = new`
  unfoldable pub set_port : ℤ → V → Ports V → Ports V
  set_port port new [] = (port, new) ∷ []
  set_port port new ((i, old) ∷ rest) =
      if eqb_ℤ i port then (port, new) ∷ rest else (i, old) ∷ set_port port new rest

  pub at_port-remove_port :
      (port other : ℤ) (m : Ports V)
      → at_port other (remove_port port m) ≡ (if eqb_ℤ port other then none else at_port other m)
  unfolding at_port remove_port
  at_port-remove_port port other [] = ground arith
  at_port-remove_port port other ((i, old) ∷ rest) = ground (
    arith,
    eqb_eq i other,
    eqb_eq i port,
    eqb_eq port other,
    eqb_refl port,
    eqb_refl other,
    at_port-remove_port port other rest,
  )

  pub at_port-set_port :
      (port other : ℤ) (new : V) (m : Ports V)
      → at_port other (set_port port new m)
        ≡ (if eqb_ℤ port other then some new else at_port other m)
  unfolding at_port set_port
  at_port-set_port port other new [] = refl
  at_port-set_port port other new ((i, old) ∷ rest) = ground (
    arith,
    eqb_eq i other,
    eqb_eq i port,
    eqb_eq port other,
    eqb_refl port,
    eqb_refl other,
    at_port-set_port port other new rest,
  )

  -- No port has two entries, as in every map.
  abbrev pub IsDistinct : Ports V → Type 0
  IsDistinct [] = Unit
  IsDistinct ((port, _) ∷ rest) = (at_port port rest ≡ none) × IsDistinct rest

  pub set_port-IsDistinct :
      (port : ℤ) (new : V) (m : Ports V) → IsDistinct m → IsDistinct (set_port port new m)
  unfolding set_port at_port
  set_port-IsDistinct port new [] d = (refl, tt)
  set_port-IsDistinct port new ((i, old) ∷ rest) d = elim (Bool-cases (eqb_ℤ i port)) [
    | inl e ↦ rw e ((sym (rw (eqb_eq i port e) refl) ∙ d.0, d.1))
    | inr e ↦ rw e (
      at_port-set_port port i new rest ∙ rw (eqb_sym port i e) (d.0),
      set_port-IsDistinct port new rest d.1,
    )
  ]

  at_port-mem : (port : ℤ) (v : V) (m : Ports V) → at_port port m ≡ some v → Mem (port, v) m
  unfolding at_port
  at_port-mem port v [] e = cc e
  at_port-mem port v ((i, old) ∷ rest) e = elim (Bool-cases (eqb_ℤ i port)) [
    | inl f ↦ rw (sym (eqb_eq i port f), some_inj old v (sym (rw f refl) ∙ e)) mem-cons_self
    | inr f ↦ mem-cons_of_mem _ (at_port-mem port v rest (sym (rw f refl) ∙ e))
  ]

  mem_present : (port : ℤ) (v : V) (m : Ports V) → Mem (port, v) m → at_port port m ≢ none
  unfolding at_port
  mem_present port v [] k e = absurd (not-mem-nil k)
  mem_present port v ((i, old) ∷ rest) k e = elim (Bool-cases (eqb_ℤ i port)) [
    | inl f ↦ some_none (sym (rw f refl) ∙ e)
    | inr f ↦
        Or.elim (hlevel) (mem-cons.0 k)
          (λ q. true≢false (sym (eqb_refl port) ∙ ap (λ (x : ℤ × V). eqb_ℤ x.0 port) q ∙ f))
          (λ q. mem_present port v rest q (sym (rw f refl) ∙ e))
  ]
    where
      some_none : some old ≡ none → ⊥
      some_none q = cc

  -- It meets the same ports, also where a port has several entries.
  pub at_port-none_walk :
      (port : ℤ) (m es : Ports V) → Perm es m → at_port port es ≡ none → at_port port m ≡ none
  at_port-none_walk port m es p e = elim (Option-cases (at_port port m)) [
    | inl f ↦ f
    | inr f ↦ absurd (mem_present port f.0 es ((Perm.mem_iff p).1 (at_port-mem port f.0 m (f.1))) e)
  ]

mem-at_port :
    (port : ℤ) (v : String) (m : Ports String)
    → IsDistinct m
    → Mem (port, v) m
    → at_port port m ≡ some v
unfolding at_port
mem-at_port port v [] d k = absurd (not-mem-nil k)
mem-at_port port v ((i, old) ∷ rest) d k =
    Or.elim (Option.is_set string_IsSet _ _) (mem-cons.0 k)
      (λ q. here (eqb_of q) (ap (λ (x : ℤ × String). x.1) (sym q)))
      (λ q. rw (other q) (mem-at_port port v rest d.1 q))
  where
    eqb_of : ◌≡◌ {A = ℤ × String} (port, v) (i, old) → eqb_ℤ i port ≡ true
    eqb_of q = ap (λ (x : ℤ × String). eqb_ℤ x.0 port) (sym q) ∙ eqb_refl port

    here : eqb_ℤ i port ≡ true → old ≡ v → at_port port ((i, old) ∷ rest) ≡ some v
    here f g = rw f (ap some g)

    other : Mem (port, v) rest → eqb_ℤ i port ≡ false
    other q =
        false_of_not _ (λ f.
          mem_present port v rest q (subst (λ x. at_port x rest ≡ none) (eqb_eq i port f) d.0))

-- Walking a map in another order reads the same.
pub at_port-walk :
    (port : ℤ) (m es : Ports String) → IsDistinct m → Perm es m → at_port port es ≡ at_port port m
at_port-walk port m es d p = elim (Option-cases (at_port port es)) [
  | inl e ↦ elim (Option-cases (at_port port m)) [
    | inl f ↦ e ∙ sym f
    | inr f ↦ absurd (mem_present port f.0 es ((Perm.mem_iff p).1 (at_port-mem port f.0 m (f.1))) e)
  ]
  | inr e ↦
      e.1 ∙ sym (mem-at_port port e.0 m d ((Perm.mem_iff p).0 (at_port-mem port e.0 es (e.1))))
]
