-- ===== src/Controllers/ReplicaSets/Settling.antt =====
-- A whole round of internal/controller/replicaset/controller.go on a healthy cluster: what it lists
-- and what it then does.
use mathlib.Core.HLevel.{¬_prop}
use mathlib.Core.List.{Mem, Perm, mem-cons_self, mem-cons_of_mem, filter_map, Pairwise, foldr}
use mathlib.Core.List.Perm
use native.Mathlib.Nat.{ℕ_set}
use k8s_lite.Prelude.{
  ℕ, suc, ◌+◌, ◌-◌, ◌<◌, ◌≡◌, ◌≢◌, refl, sym, ap, ◌∙◌, true, some, List, [], ◌∷◌, Map, All, lookup,
  length, map, if◌then◌else◌, Bool-cases, Option-cases, inl, inr, ret, arith, pos, ◌>>=◌,
}
use k8s_lite.Api.Pods.{Pod}
use k8s_lite.Api.Workloads.{ReplicaSet}
use k8s_lite.Api.Objects.{Kind, Obj, pods, replicasets}
use k8s_lite.Api.Stored.{Json, stored}
use k8s_lite.Registry.{key_prefix}
use k8s_lite.Storage.Listing.{entry_object}
use k8s_lite.ApiServer.WellFormed.{IsRegistry, serve-get_list}
use k8s_lite.Cluster.{Env, Cluster, send}
use k8s_lite.Client.{success, list_replica_sets, list, list_pods, list_reply, wire, wire_all}
use k8s_lite.Client.Progress.{IsHealthy, encoded}
use k8s_lite.Urls.{IsPlainName}
use k8s_lite.Controllers.ReplicaSets.Reconcile.{
  reconcile, with_replica_sets, labels_match, owned_pods, reconcile_all, with_pods,
}
use k8s_lite.Controllers.ReplicaSets.Counting.{owned_count, length-owned_pods}
use k8s_lite.Controllers.ReplicaSets.Converging.{
  AreStored, IsStored, IsFresh, MatchesTemplate, reconcile_rs-Owns,
}
use k8s_lite.Controllers.ReplicaSets.Listed.{
  IsNamed, IsKept, Differ, listed, listed-IsKept, listed-Differ,
}

module _ ⦃json : Json⦄ ⦃env : Env json.Bytes⦄ where
  -- A request that changes nothing has been sent.
  abbrev pub later : Cluster → Cluster
  later w = record w { clock = suc w.clock }

  later-IsHealthy : (w : Cluster) → IsHealthy w → IsHealthy (later w)
  later-IsHealthy w h = record {
    reliable = h.reliable;
    encodes = h.encodes;
    no_file = h.no_file;
    no_watcher = h.no_watcher;
  }

  wire_all-stored :
      (k : Kind) (os : List (Obj k)) (w : Cluster)
      → IsHealthy w
      → wire_all k k os ≡ success (map (stored k) os)
  unfolding wire_all wire
  wire_all-stored k [] w h = refl
  wire_all-stored k (o ∷ os) w h =
      let (b, m) = encoded w h k o in
      ground (arith, m, json.round_trip k o b m, wire_all-stored k os w h)

  -- A listing of a well-formed registry succeeds, with what is stored in some order.
  list_succeeds :
      (k : Kind) (w : Cluster)
      → IsHealthy w
      → IsRegistry w.store.table
      → (os : List (Obj k)) × Perm os (filter_map (entry_object (key_prefix k) k) w.store.table)
        × (list k w ≡ (ret (success (map (stored k) os)), later w))
  unfolding list list_reply send
  list_succeeds k w h g =
      let (os, e, p) =
        serve-get_list (env.order w.clock) k w.store (env.order_perm w.clock w.store.table) g in
      (os, p, ground (arith, h.reliable w.clock, e, wire_all-stored k os w h))

module _ ⦃json : Json⦄ ⦃env : Env json.Bytes⦄ (rs : ReplicaSet) where
  IsKept-IsStored :
      (m : Map json.Bytes) (p : Pod)
      → labels_match rs.spec.selector.match_labels p.labels ≡ true
      → IsKept rs m p
      → IsStored rs m (stored pods p)
  unfolding stored
  IsKept-IsStored m p t (n, f) = elim (Option-cases (lookup _ m)) [
    | inl e ↦ absurd (n e)
    | inr (b, e) ↦ (b, e, f b e ∙ t)
  ]

  owned_Differ :
      (p : Pod) (os : List Pod)
      → ((q : Pod) → Mem q os → Differ p q)
      → All (λ (q : Pod). q.name ≢ p.name) (owned_pods rs (map (stored pods) os))
  unfolding owned_pods stored
  owned_Differ p [] d = tt
  owned_Differ p (o ∷ os) d =
      let rest = owned_Differ p os (λ q m. d q (mem-cons_of_mem o m)) in
      elim (Bool-cases (labels_match rs.spec.selector.match_labels o.labels)) [
        | inl e ↦ rw e (d o mem-cons_self, rest)
        | inr e ↦ rw e rest
      ]

  owned_plain :
      (os : List Pod)
      → ((p : Pod) → Mem p os → IsPlainName p.name)
      → All (λ (p : Pod). IsPlainName p.name) (owned_pods rs (map (stored pods) os))
  unfolding owned_pods stored
  owned_plain [] k = tt
  owned_plain (p ∷ os) k =
      let rest = owned_plain os (λ q m. k q (mem-cons_of_mem p m)) in
      elim (Bool-cases (labels_match rs.spec.selector.match_labels p.labels)) [
        | inl e ↦ rw e (k p mem-cons_self, rest)
        | inr e ↦ rw e rest
      ]

  -- The owned pods of a listing are stored, under different names.
  owned-AreStored :
      (m : Map json.Bytes) (os : List Pod)
      → ((p : Pod) → Mem p os → IsKept rs m p)
      → Pairwise Differ os
      → AreStored rs m (owned_pods rs (map (stored pods) os))
  unfolding owned_pods stored
  owned-AreStored m [] k d = tt
  owned-AreStored m (p ∷ os) k (Pairwise.cons far d) =
      let rest = owned-AreStored m os (λ q h. k q (mem-cons_of_mem p h)) d in
      elim (Bool-cases (labels_match rs.spec.selector.match_labels p.labels)) [
        | inl e ↦ rw e (IsKept-IsStored m p e (k p mem-cons_self), owned_Differ p os far, rest)
        | inr e ↦ rw e rest
      ]

  weigh_pod : Pod → ℕ → ℕ
  weigh_pod p n = (if labels_match rs.spec.selector.match_labels p.labels then 1 else 0) + n

  weigh_pod_comm : (p q : Pod) (n : ℕ) → weigh_pod p (weigh_pod q n) ≡ weigh_pod q (weigh_pod p n)
  unfolding weigh_pod
  weigh_pod_comm p q n = omega arith

  length-owned : (os : List Pod) → length (owned_pods rs os) ≡ foldr weigh_pod 0 os
  unfolding owned_pods weigh_pod
  length-owned [] = refl
  length-owned (p ∷ os) = ground (arith, length-owned os)

  length-owned_stored :
      (os : List Pod) → length (owned_pods rs (map (stored pods) os)) ≡ length (owned_pods rs os)
  unfolding owned_pods stored
  length-owned_stored [] = refl
  length-owned_stored (p ∷ os) = ground (arith, length-owned_stored os)

  -- A listing has as many owned pods as the registry.
  listed_count :
      (m : Map json.Bytes) (os : List Pod)
      → Perm os (listed m)
      → length (owned_pods rs (map (stored pods) os)) ≡ owned_count rs m
  listed_count m os p =
      length-owned_stored os
      ∙ length-owned os
      ∙ Perm.foldr-eq ℕ_set weigh_pod weigh_pod_comm p 0
      ∙ sym (length-owned (listed m))
      ∙ length-owned_pods rs m

  Pod-Differ :
      (m : Map json.Bytes) (os : List Pod)
      → Perm os (listed m)
      → Pairwise Differ (listed m)
      → Pairwise Differ os
  Pod-Differ m os p d = (Perm.Pairwise-iff (λ a b. ¬_prop) (λ a b n e. n (sym e)) p).1 d

  -- From the listing of the pods on.
  pods_settled :
      (d : ℕ) (w : Cluster)
      → IsHealthy w
      → IsRegistry w.store.table
      → IsNamed w.store.table
      → ((p : Pod) → Mem p (listed w.store.table) → IsPlainName p.name)
      → rs.spec.replicas ≡ some (pos d)
      → owned_count rs w.store.table < 0x8000_0000
      → d < 0x8000_0000
      → MatchesTemplate rs
      → IsFresh rs (suc w.clock) (d - owned_count rs w.store.table) w.store.table
      → let after = (list_pods "" >>= with_pods (rs ∷ [])) w in
        (after.0 ≡ ret tt) × (owned_count rs after.1.store.table ≡ d)
  unfolding list_pods with_pods reconcile_all
  pods_settled d w h g n u e l k t f =
      let (os, p, q) = list_succeeds pods w h g in
      let ps : List Pod = map (stored pods) os in
      let c : length (owned_pods rs ps) ≡ owned_count rs w.store.table =
        listed_count w.store.table os p in
      let v : Cluster = later w in
      let (r, o) =
        reconcile_rs-Owns rs ps d v e (omega (arith, c)) k t
          (record { healthy = later-IsHealthy w h; unique = g.unique; count = sym c })
          (owned-AreStored w.store.table os
            (λ x m. listed-IsKept rs w.store.table x g.unique n ((Perm.mem_iff p).0 m))
            (Pod-Differ w.store.table os p (listed-Differ w.store.table g.unique n)))
          (owned_plain os (λ x m. u x ((Perm.mem_iff p).0 m))) (rw c f) in
      rw q (rw r (refl, o.count))

  -- If the listing of the ReplicaSets gives this one alone, a whole round on a healthy cluster, in
  -- whose well-formed registry each pod stands under its own name, which is plain, returns, and
  -- leaves exactly the desired number d of pods that the ReplicaSet owns. Neither d nor the number
  -- of pods that it owns may reach 2^31, the labels of its template must match its selector, and
  -- the names of the pods that are to be made must not be taken and must differ.
  pub reconcile_settles :
      (d : ℕ) (w : Cluster)
      → IsHealthy w
      → IsRegistry w.store.table
      → IsNamed w.store.table
      → ((p : Pod) → Mem p (listed w.store.table) → IsPlainName p.name)
      → (list_replica_sets w).0 ≡ ret (success (rs ∷ []))
      → rs.spec.replicas ≡ some (pos d)
      → owned_count rs w.store.table < 0x8000_0000
      → d < 0x8000_0000
      → MatchesTemplate rs
      → IsFresh rs (suc (suc w.clock)) (d - owned_count rs w.store.table) w.store.table
      → ((reconcile w).0 ≡ ret tt) × (owned_count rs (reconcile w).1.store.table ≡ d)
  unfolding reconcile with_replica_sets list_replica_sets
  reconcile_settles d w h g n u a e l k t f =
      let (rss, _, q) = list_succeeds replicasets w h g in
      let b : list replicasets w ≡ (ret (success (rs ∷ [])), later w) =
        λ i. (a i, (ap (λ x. x.1) q) i) in
      rw b (pods_settled d (later w) (later-IsHealthy w h) g n u e l k t f)
