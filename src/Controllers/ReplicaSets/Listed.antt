-- ===== src/Controllers/ReplicaSets/Listed.antt =====
-- What ListPods of internal/client/client.go tells internal/controller/replicaset/controller.go of a
-- registry in which each pod stands under its own name.
use mathlib.Core.Logic.Or
use mathlib.Core.HLevel.{⊥_prop}
use mathlib.Core.List.{Mem, mem-cons, not-mem-nil, filter_map, Pairwise}
use mathlib.Core.Option.{Option-elim}
use k8s_lite.Prelude.{
  String, ◌≡◌, ◌≢◌, sym, ap, subst, ◌∙◌, none, some, some_inj, List, [], ◌∷◌, Map, lookup, eq_iff,
  if◌then◌else◌, Bool-cases, Option-cases, inl, inr, arith, str_eq,
}
use k8s_lite.Api.Pods.{Pod}
use k8s_lite.Api.Workloads.{ReplicaSet}
use k8s_lite.Api.Objects.{pods}
use k8s_lite.Api.Stored.{Json}
use k8s_lite.Registry.{key, key_prefix}
use k8s_lite.Storage.Listing.{entry_object}
use k8s_lite.ApiServer.WellFormed.{Unique}
use k8s_lite.Controllers.ReplicaSets.Reconcile.{labels_match}
use k8s_lite.Controllers.ReplicaSets.Counting.{owns}

module _ ⦃json : Json⦄ where
  -- A pod of the map stands under its own name.
  abbrev pub IsNamed : Map json.Bytes → Type 0
  IsNamed [] = Unit
  IsNamed ((j, v) ∷ m) =
      ((p : Pod) → entry_object (key_prefix pods) pods (j, v) ≡ some p → j ≡ key pods p.name)
      × IsNamed m

  abbrev pub listed : Map json.Bytes → List Pod
  listed m = filter_map (entry_object (key_prefix pods) pods) m

  module _ (rs : ReplicaSet) where
    -- Some bytes are stored under the name of the pod, and they are owned if the pod is.
    abbrev pub IsKept : Map json.Bytes → Pod → Type 0
    IsKept m p =
        (lookup (key pods p.name) m ≢ none)
        × ((b : json.Bytes)
            → lookup (key pods p.name) m ≡ some b
            → owns rs (key pods p.name, b) ≡ labels_match rs.spec.selector.match_labels p.labels)

    IsKept-head :
        (j : String) (v : json.Bytes) (m : Map json.Bytes) (p : Pod)
        → entry_object (key_prefix pods) pods (j, v) ≡ some p
        → j ≡ key pods p.name
        → IsKept ((j, v) ∷ m) p
    unfolding lookup owns
    IsKept-head j v m p e n =
        rw ((eq_iff j (key pods p.name)).1 n)
          ((λ q. cc), λ b q. sym (ap (owns rs) (λ i. (n i, some_inj v b q i))) ∙ rw e)

    IsKept-prop : (m : Map json.Bytes) (p : Pod) → IsProp (IsKept m p)
    IsKept-prop m p = hlevel

    IsKept-tail :
        (j : String) (v : json.Bytes) (m : Map json.Bytes) (p : Pod)
        → lookup j m ≡ none
        → IsKept m p
        → IsKept ((j, v) ∷ m) p
    unfolding lookup
    IsKept-tail j v m p u (n, k) = elim (Bool-cases (str_eq j (key pods p.name))) [
      | inl q ↦ absurd (n (subst (λ t. lookup t m ≡ none) ((eq_iff _ _).0 q) u))
      | inr q ↦ rw q (n, k)
    ]

    pub listed-IsKept :
        (m : Map json.Bytes) (p : Pod) → Unique m → IsNamed m → Mem p (listed m) → IsKept m p
    unfolding filter_map Option-elim
    listed-IsKept [] p u n h = absurd (not-mem-nil h)
    listed-IsKept ((j, v) ∷ m) p u n h =
        elim (Option-cases (entry_object (key_prefix pods) pods (j, v))) [
          | inl q ↦ IsKept-tail j v m p u.0 (listed-IsKept m p u.1 n.1 (rw q at h))
          | inr (p', q) ↦
              Or.elim (IsKept-prop ((j, v) ∷ m) p) (mem-cons.0 (rw q at h))
                (λ e. subst (IsKept ((j, v) ∷ m)) (sym e) (IsKept-head j v m p' q (n.0 p' q)))
                (λ r. IsKept-tail j v m p u.0 (listed-IsKept m p u.1 n.1 r))
        ]

  -- The pods of a listing have different names.
  abbrev pub Differ : Pod → Pod → Type 0
  Differ p q = q.name ≢ p.name

  named_apart :
      (j : String) (m : Map json.Bytes) (q : Pod)
      → lookup j m ≡ none
      → IsNamed m
      → Mem q (listed m)
      → j ≢ key pods q.name
  unfolding filter_map Option-elim lookup
  named_apart j [] q u n h e = not-mem-nil h
  named_apart j ((i, w) ∷ m) q u n h e =
      elim (Option-cases (entry_object (key_prefix pods) pods (i, w))) [
        | inl x ↦ named_apart j m q (absent_tail u) n.1 (rw x at h) e
        | inr (p, x) ↦
            Or.elim ⊥_prop (mem-cons.0 (rw x at h))
              (λ y. other_head u (n.0 p x ∙ ap (λ (z : Pod). key pods z.name) (sym y) ∙ sym e))
              (λ r. named_apart j m q (absent_tail u) n.1 r e)
      ]
    where
      absent_tail : (if str_eq i j then some w else lookup j m) ≡ none → lookup j m ≡ none
      absent_tail a = ground arith

      other_head : (if str_eq i j then some w else lookup j m) ≡ none → i ≢ j
      other_head a b = ground (arith, (eq_iff i j).1 b)

  pub listed-Differ : (m : Map json.Bytes) → Unique m → IsNamed m → Pairwise Differ (listed m)
  unfolding filter_map Option-elim
  listed-Differ [] u n = Pairwise.nil
  listed-Differ ((j, v) ∷ m) u n =
      elim (Option-cases (entry_object (key_prefix pods) pods (j, v))) [
        | inl q ↦ rw q (listed-Differ m u.1 n.1)
        | inr (p, q) ↦ rw q (
            Pairwise.cons (λ p' h e. named_apart j m p' u.0 n.1 h (n.0 p q ∙ ap (key pods) (sym e)))
              (listed-Differ m u.1 n.1))
      ]
