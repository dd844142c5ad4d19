-- ===== src/Controllers/ReplicaSets/Scaling.antt =====
-- What one round of internal/controller/replicaset/controller.go does to the cluster.
use k8s_lite.Prelude.{
  All, ap, ◌∙◌, Flow, ℕ, zero, suc, ◌+◌, ◌<◌, ◌≤◌, String, ◌≡◌, ◌≢◌, refl, some, List, [], ◌∷◌,
  if◌then◌else◌, length, pos, negsuc, ltb, ◌-ℤ◌, wrap32, to_int32, to_int32-small, pos_part, ret,
  arith, inl, inr, ◌⊎◌, ◌-◌,
}
use k8s_lite.Api.Pods.{Pod}
use k8s_lite.Api.Workloads.{ReplicaSet}
use k8s_lite.Api.Objects.{pods}
use k8s_lite.Api.Stored.{Json}
use k8s_lite.Registry.{key}
use k8s_lite.Storage.Spec.{view}
use k8s_lite.Cluster.{Env, Cluster}
use k8s_lite.Client.{Reply, create, delete_pod, create_pod}
use k8s_lite.Client.Keeping.{create_kept, view-delete}
use k8s_lite.Client.Named.{delete_pod-delete}
use k8s_lite.Urls.{IsPlainName}
use k8s_lite.Controllers.ReplicaSets.Reconcile.{
  labels_match, owned_pods, new_pod, create_pod_of, create_pods, delete_pods, reconcile_rs,
}

module _ ⦃json : Json⦄ ⦃env : Env json.Bytes⦄ where
  -- A loop that deletes more pods than there are does not come to its end.
  delete_pods_past :
      (n : ℕ) (ps : List Pod) (w : Cluster) → length ps < n → (delete_pods n ps w).0 ≢ ret tt
  unfolding delete_pods
  delete_pods_past zero ps w h = elim h [ ]
  delete_pods_past (suc n) [] w h = λ e. cc
  delete_pods_past (suc n) (p ∷ ps) w h =
      ground (arith, delete_pods_past n ps (delete_pod p.name w).1)

  scale_down_rounds :
      (n len : ℕ)
      → len + n + 1 < 0x8000_0000
      → pos_part (wrap32 (pos len -ℤ negsuc n)) ≡ len + n + 1
  unfolding wrap32 ◌-ℤ◌
  scale_down_rounds n len h = ground arith

  -- A round for a ReplicaSet with a negative number of replicas, if that and the number of owned
  -- pods differ by less than 2^31, does not return: it deletes the pods that the ReplicaSet owns
  -- and then reads past their end, if it does not block before that.
  pub reconcile_rs_negative :
      (rs : ReplicaSet) (all_pods : List Pod) (n : ℕ) (w : Cluster)
      → rs.spec.replicas ≡ some (negsuc n)
      → length (owned_pods rs all_pods) + n + 1 < 0x8000_0000
      → (reconcile_rs rs all_pods w).0 ≢ ret tt
  unfolding reconcile_rs
  reconcile_rs_negative rs all_pods n w e h =
      let len = length (owned_pods rs all_pods) in
      ground (
        arith,
        e,
        to_int32-small len,
        scale_down_rounds n len h,
        delete_pods_past (len + n + 1) (owned_pods rs all_pods) w,
      )

  rounds : (a b : ℕ) → b ≤ a → a < 0x8000_0000 → pos_part (wrap32 (pos a -ℤ pos b)) ≡ a - b
  unfolding wrap32 ◌-ℤ◌
  rounds a b h k = ground arith

  scale_branch :
      (rs : ReplicaSet) (all_pods : List Pod) (d len : ℕ) (w : Cluster)
      → rs.spec.replicas ≡ some (pos d)
      → len ≡ length (owned_pods rs all_pods)
      → to_int32 len ≡ pos len
      → len < 0x8000_0000
      → d < 0x8000_0000
      → reconcile_rs rs all_pods w ≡ (
          if ltb len d
          then create_pods (d - len) rs w
          else delete_pods (len - d) (owned_pods rs all_pods) w)
  unfolding reconcile_rs delete_pods
  scale_branch rs all_pods d len w e q t l k = ground (arith, rounds d len, rounds len d)

  -- A round for one ReplicaSet, whose desired number is given, is not negative and is below 2^31,
  -- as is the number of pods it owns, makes exactly as many pods as are missing, or deletes
  -- exactly as many of those that it owns as there are too many, from the front; the int32
  -- arithmetic does not wrap.
  pub reconcile_rs_plan :
      (rs : ReplicaSet) (all_pods : List Pod) (d : ℕ) (w : Cluster)
      → rs.spec.replicas ≡ some (pos d)
      → length (owned_pods rs all_pods) < 0x8000_0000
      → d < 0x8000_0000
      → reconcile_rs rs all_pods w ≡ (
          if ltb (length (owned_pods rs all_pods)) d
          then create_pods (d - length (owned_pods rs all_pods)) rs w
          else delete_pods (length (owned_pods rs all_pods) - d) (owned_pods rs all_pods) w)
  reconcile_rs_plan rs all_pods d w e l k =
      scale_branch rs all_pods d _ w e refl (to_int32-small _ l) l k

  create_pods_kept :
      (n : ℕ) (rs : ReplicaSet) (w : Cluster) (j : String) (b : json.Bytes)
      → view w.store j ≡ some b
      → view (create_pods n rs w).1.store j ≡ some b
  unfolding create_pods create_pod_of create_pod
  create_pods_kept zero rs w j b h = h
  create_pods_kept (suc n) rs w j b h =
      let pod = new_pod rs (env.uuid w.clock) in
      let k = create_kept pods pod w j b h in
      ground (arith, k, create_pods_kept n rs (create pods pod w).1 j b k)

  -- The keys of the pods at the front of a list.
  abbrev pub IsDeleted : ℕ → List Pod → String → Type 0
  IsDeleted zero ps j = ⊥
  IsDeleted (suc n) [] j = ⊥
  IsDeleted (suc n) (p ∷ ps) j = (key pods p.name ≡ j) ⊎ IsDeleted n ps j

  delete_pods_kept :
      (n : ℕ) (ps : List Pod) (w : Cluster) (j : String)
      → All (λ (p : Pod). IsPlainName p.name) ps
      → ¬ IsDeleted n ps j
      → view (delete_pods n ps w).1.store j ≡ view w.store j
  unfolding delete_pods
  delete_pods_kept zero ps w j a d = refl
  delete_pods_kept (suc n) [] w j a d = refl
  delete_pods_kept (suc n) (p ∷ ps) w j (a, b) d =
      let e =
        ap (λ (x : Flow (Reply (Unit {0})) × Cluster). view x.1.store j)
          (delete_pod-delete p.name w a)
        ∙ view-delete pods p.name w j (λ q. d (inl q)) in
      let r = delete_pods_kept n ps (delete_pod p.name w).1 j b (λ q. d (inr q)) in
      ground (arith, e, r)

  -- If the desired number of a ReplicaSet is given, not negative and below 2^31, as is the number of
  -- pods that it owns, and the names of these are plain, a round for it removes or changes no object
  -- but pods that it owns, and of these at most as many, from the front, as there are above the desired
  -- number, whatever the network does.
  pub reconcile_rs_kept :
      (rs : ReplicaSet) (all_pods : List Pod) (d : ℕ) (w : Cluster) (j : String) (b : json.Bytes)
      → rs.spec.replicas ≡ some (pos d)
      → length (owned_pods rs all_pods) < 0x8000_0000
      → d < 0x8000_0000
      → All (λ (p : Pod). IsPlainName p.name) (owned_pods rs all_pods)
      → ¬ IsDeleted (length (owned_pods rs all_pods) - d) (owned_pods rs all_pods) j
      → view w.store j ≡ some b
      → view (reconcile_rs rs all_pods w).1.store j ≡ some b
  reconcile_rs_kept rs all_pods d w j b e l k a n h =
      let len = length (owned_pods rs all_pods) in
      ground (
        arith,
        reconcile_rs_plan rs all_pods d w e l k,
        create_pods_kept (d - len) rs w j b h,
        delete_pods_kept (len - d) (owned_pods rs all_pods) w j a n,
      )

  owned_pods-nil :
      (rs : ReplicaSet) (all_pods : List Pod)
      → rs.spec.selector.match_labels ≡ []
      → owned_pods rs all_pods ≡ []
  unfolding owned_pods labels_match
  owned_pods-nil rs [] e = refl
  owned_pods-nil rs (p ∷ ps) e = ground (arith, e, owned_pods-nil rs ps e)

  -- A ReplicaSet with an empty selector owns no pod, so each round makes the desired number of
  -- pods (not negative and below 2^31) again, whatever pods there are.
  pub reconcile_rs_no_selector :
      (rs : ReplicaSet) (all_pods : List Pod) (d : ℕ) (w : Cluster)
      → rs.spec.replicas ≡ some (pos d)
      → rs.spec.selector.match_labels ≡ []
      → d < 0x8000_0000
      → reconcile_rs rs all_pods w ≡ create_pods d rs w
  unfolding create_pods delete_pods
  reconcile_rs_no_selector rs all_pods zero w e s k =
      ground (arith, owned_pods-nil rs all_pods s, reconcile_rs_plan rs all_pods 0 w e)
  reconcile_rs_no_selector rs all_pods (suc d) w e s k =
      ground (arith, owned_pods-nil rs all_pods s, reconcile_rs_plan rs all_pods (suc d) w e)
