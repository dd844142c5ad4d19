-- ===== src/Controllers/Isolation/ReplicaSets.antt =====
-- Whole rounds of internal/controller/replicaset/controller.go.
use k8s_lite.Prelude.{
  pos_part, wrap32, to_int32, ◌-ℤ◌, length, ℕ, zero, suc, ℤ, Option, none, some, arith, String, ◌≡◌,
  refl, List, [], ◌∷◌,
}
use k8s_lite.Api.Workloads.{ReplicaSet}
use k8s_lite.Api.Objects.{pods, replicasets}
use k8s_lite.Api.Stored.{Json}
use k8s_lite.Storage.Spec.{view}
use k8s_lite.Cluster.{Env, Cluster}
use k8s_lite.Client.{delete_pod, create_pod, list_pods, Reply, success, failed, list_replica_sets}
use k8s_lite.Client.Effects.{view-create}
use k8s_lite.Client.Keeping.{then_kept}
use k8s_lite.Client.Named.{delete_pod_apart}
use k8s_lite.Client.Apart.{IsApart, list_then_kept}
use k8s_lite.Api.Pods.{Pod}
use k8s_lite.Controllers.ReplicaSets as Rs

module _ ⦃json : Json⦄ ⦃env : Env json.Bytes⦄ where
  create_pods_apart :
      (n : ℕ) (rs : ReplicaSet) (w : Cluster) (j : String)
      → IsApart pods j
      → view (Rs.create_pods n rs w).1.store j ≡ view w.store j
  unfolding Rs.create_pods Rs.create_pod_of create_pod
  create_pods_apart zero rs w j a = refl
  create_pods_apart (suc n) rs w j a =
      then_kept (Rs.create_pod_of rs) (λ _. Rs.create_pods n rs) w j
        (view-create pods (Rs.new_pod rs (env.uuid w.clock)) w j (a _))
        (λ r e. create_pods_apart n rs (Rs.create_pod_of rs w).1 j a)

  delete_pods_apart :
      (n : ℕ) (ps : List Pod) (w : Cluster) (j : String)
      → IsApart pods j
      → view (Rs.delete_pods n ps w).1.store j ≡ view w.store j
  unfolding Rs.delete_pods
  delete_pods_apart zero ps w j a = refl
  delete_pods_apart (suc n) [] w j a = refl
  delete_pods_apart (suc n) (p ∷ ps) w j a =
      then_kept (delete_pod p.name) (λ _. Rs.delete_pods n ps) w j (delete_pod_apart p.name w j a)
        (λ r e. delete_pods_apart n ps (delete_pod p.name w).1 j a)

  scale_apart :
      (rs : ReplicaSet) (owned : List Pod) (current desired : ℤ) (w : Cluster) (j : String)
      → IsApart pods j
      → view (Rs.scale rs owned current desired w).1.store j ≡ view w.store j
  unfolding Rs.scale
  scale_apart rs owned current desired w j a = ground (
    arith,
    create_pods_apart (pos_part (wrap32 (desired -ℤ current))) rs w j a,
    delete_pods_apart (pos_part (wrap32 (current -ℤ desired))) owned w j a,
  )

  reconcile_to_apart :
      (rs : ReplicaSet) (owned : List Pod) (desired : Option ℤ) (w : Cluster) (j : String)
      → IsApart pods j
      → view (Rs.reconcile_to rs owned desired w).1.store j ≡ view w.store j
  unfolding Rs.reconcile_to
  reconcile_to_apart rs owned none w j a = refl
  reconcile_to_apart rs owned (some desired) w j a =
      scale_apart rs owned (to_int32 (length owned)) desired w j a

  reconcile_all_apart :
      (rss : List ReplicaSet) (ps : List Pod) (w : Cluster) (j : String)
      → IsApart pods j
      → view (Rs.reconcile_all rss ps w).1.store j ≡ view w.store j
  unfolding Rs.reconcile_all Rs.reconcile_rs
  reconcile_all_apart [] ps w j a = refl
  reconcile_all_apart (rs ∷ rss) ps w j a =
      then_kept (Rs.reconcile_rs rs ps) (λ _. Rs.reconcile_all rss ps) w j
        (reconcile_to_apart rs (Rs.owned_pods rs ps) rs.spec.replicas w j a)
        (λ r e. reconcile_all_apart rss ps (Rs.reconcile_rs rs ps w).1 j a)

  with_pods_apart :
      (rss : List ReplicaSet) (j : String)
      → IsApart pods j
      → (r : Reply (List Pod)) (v : Cluster)
      → view (Rs.with_pods rss r v).1.store j ≡ view v.store j
  unfolding Rs.with_pods
  with_pods_apart rss j a (failed e) v = refl
  with_pods_apart rss j a (success ps) v = reconcile_all_apart rss ps v j a

  with_replica_sets_apart :
      (j : String)
      → IsApart pods j
      → (r : Reply (List ReplicaSet)) (v : Cluster)
      → view (Rs.with_replica_sets r v).1.store j ≡ view v.store j
  unfolding Rs.with_replica_sets list_pods
  with_replica_sets_apart j a (failed e) v = refl
  with_replica_sets_apart j a (success rss) v =
      list_then_kept pods (Rs.with_pods rss) v j (with_pods_apart rss j a)

  -- A whole round of the ReplicaSet controller changes, makes and deletes no object but pods, whatever
  -- the network does and also if it panics.
  pub replica_sets_reconcile_kept :
      (w : Cluster) (j : String) → IsApart pods j → view (Rs.reconcile w).1.store j ≡ view w.store j
  unfolding Rs.reconcile list_replica_sets
  replica_sets_reconcile_kept w j a =
      list_then_kept replicasets Rs.with_replica_sets w j (with_replica_sets_apart j a)
