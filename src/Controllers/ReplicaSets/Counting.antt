-- ===== src/Controllers/ReplicaSets/Counting.antt =====
-- The pods that a ReplicaSet of internal/controller/replicaset/controller.go owns, counted in the
-- registry itself.
use mathlib.Core.List.{Perm, foldr, filter_map}
use mathlib.Core.List.Perm
use mathlib.Core.Option.{Option-elim}
use native.Mathlib.Nat.{ℕ_set}
use k8s_lite.Prelude.{
  ℕ, ◌+◌, String, ◌≡◌, refl, sym, ap, ◌∙◌, Bool, true, false, Option, none, some, some_inj, subst,
  [], ◌∷◌, Map, if◌then◌else◌, arith, lookup, insert, remove, eq_iff, length, Bool-cases, inl, inr,
  str_eq,
}
use k8s_lite.Api.Pods.{Pod}
use k8s_lite.Api.Workloads.{ReplicaSet}
use k8s_lite.Api.Objects.{pods}
use k8s_lite.Api.Stored.{Json}
use k8s_lite.Registry.{key_prefix}
use k8s_lite.Storage.Listing.{entry_object}
use k8s_lite.ApiServer.WellFormed.{Unique}
use k8s_lite.Controllers.ReplicaSets.Reconcile.{labels_match, owned_pods}

module _ ⦃json : Json⦄ (rs : ReplicaSet) where
  abbrev pub owns_pod : Option Pod → Bool
  owns_pod none = false
  owns_pod (some p) = labels_match rs.spec.selector.match_labels p.labels

  -- An entry of the map is a pod that the ReplicaSet owns.
  unfoldable pub owns : String × json.Bytes → Bool
  owns e = owns_pod (entry_object (key_prefix pods) pods e)

  unfoldable pub weigh : String × json.Bytes → ℕ → ℕ
  weigh e n = (if owns e then 1 else 0) + n

  unfoldable pub owned_count : Map json.Bytes → ℕ
  unfolding weigh owns
  owned_count = foldr weigh 0

  owned_count-cons :
      (e : String × json.Bytes) (m : Map json.Bytes)
      → owned_count (e ∷ m) ≡ (if owns e then 1 else 0) + owned_count m
  unfolding owned_count weigh
  owned_count-cons e m = refl

  weigh_comm : (a b : String × json.Bytes) (n : ℕ) → weigh a (weigh b n) ≡ weigh b (weigh a n)
  unfolding weigh
  weigh_comm a b n = omega arith

  -- The order of the map does not matter.
  pub owned_count-Perm : (m n : Map json.Bytes) → Perm m n → owned_count m ≡ owned_count n
  unfolding owned_count
  owned_count-Perm m n p = Perm.foldr-eq ℕ_set weigh weigh_comm p 0

  -- The pods of a listing that are owned are as many.
  pub length-owned_pods :
      (m : Map json.Bytes)
      → length (owned_pods rs (filter_map (entry_object (key_prefix pods) pods) m)) ≡ owned_count m
  unfolding owned_pods filter_map Option-elim owned_count weigh owns
  length-owned_pods [] = refl
  length-owned_pods (e ∷ m) = ground (arith, length-owned_pods m)

  -- A new key.
  pub owned_count-insert :
      (j : String) (v : json.Bytes) (m : Map json.Bytes)
      → lookup j m ≡ none
      → owns (j, v) ≡ true
      → owned_count (insert j v m) ≡ owned_count m + 1
  unfolding lookup insert
  owned_count-insert j v [] h o = owned_count-cons (j, v) [] ∙ rw o (omega (arith))
  owned_count-insert j v ((i, w) ∷ m) h o = elim (Bool-cases (str_eq i j)) [
    | inl q ↦ absurd (ground (arith))
    | inr q ↦
        let r = owned_count-insert j v m (ground (arith)) o in
        rw q (omega (arith, owned_count-cons (i, w) (insert j v m), owned_count-cons (i, w) m, r))
  ]

  remove_absent : (j : String) (m : Map json.Bytes) → lookup j m ≡ none → remove j m ≡ m
  unfolding lookup remove
  remove_absent j [] h = refl
  remove_absent j ((i, w) ∷ m) h = ground (arith, remove_absent j m)

  -- A key that is there once.
  pub owned_count-remove :
      (j : String) (v : json.Bytes) (m : Map json.Bytes)
      → Unique m
      → lookup j m ≡ some v
      → owns (j, v) ≡ true
      → owned_count (remove j m) + 1 ≡ owned_count m
  unfolding lookup remove
  owned_count-remove j v [] u h o = cc
  owned_count-remove j v ((i, w) ∷ m) u h o = elim (Bool-cases (str_eq i j)) [
    | inl q ↦
        let e : i ≡ j = (eq_iff i j).0 q in
        let k : w ≡ v = some_inj w v (rw q at h) in
        let absent : lookup j m ≡ none = subst (λ t. lookup t m ≡ none) e u.0 in
        let owned : owns (i, w) ≡ true = ap owns (λ a. (e a, k a)) ∙ o in
        rw (q, remove_absent j m absent) (sym (owned_count-cons (i, w) m ∙ rw owned (omega arith)))
    | inr q ↦
        let r = owned_count-remove j v m u.1 (rw q at h) o in
        rw q (omega (arith, owned_count-cons (i, w) (remove j m), owned_count-cons (i, w) m, r))
  ]
