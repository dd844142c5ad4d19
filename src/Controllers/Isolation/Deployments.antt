-- ===== src/Controllers/Isolation/Deployments.antt =====
-- Whole rounds of internal/controller/deployment/controller.go.
use k8s_lite.Prelude.{String, ◌≡◌, refl, List, [], ◌∷◌, All}
use k8s_lite.Api.Workloads.{ReplicaSet, Deployment}
use k8s_lite.Api.Objects.{replicasets, deployments}
use k8s_lite.Api.Stored.{Json}
use k8s_lite.Storage.Spec.{view}
use k8s_lite.Cluster.{Env, Cluster}
use k8s_lite.Client.{
  Reply, success, failed, list_replica_sets, list_deployments, update_replica_set,
}
use k8s_lite.Client.Named.{update_by_name_apart}
use k8s_lite.Client.Keeping.{then_kept}
use k8s_lite.Controllers.Deployments as Ds
use k8s_lite.Controllers.Deployments.Rollout.{Spares, sync_listed-Spares}
use k8s_lite.Client.Apart.{IsApart, list_then_kept}

module _ ⦃json : Json⦄ ⦃env : Env json.Bytes⦄ where
  IsApart-Spares : (rs : ReplicaSet) (j : String) → IsApart replicasets j → Spares j rs
  unfolding update_replica_set
  IsApart-Spares rs j a n w = update_by_name_apart replicasets (Ds.with_replicas n rs) w j a

  All-Spares : (rss : List ReplicaSet) (j : String) → IsApart replicasets j → All (Spares j) rss
  All-Spares [] j a = tt
  All-Spares (rs ∷ rss) j a = (IsApart-Spares rs j a, All-Spares rss j a)

  with_sets_kept :
      (d : Deployment) (j : String)
      → IsApart replicasets j
      → (r : Reply (List ReplicaSet)) (v : Cluster)
      → view (Ds.with_sets d r v).1.store j ≡ view v.store j
  unfolding Ds.with_sets
  with_sets_kept d j a (failed e) v = refl
  with_sets_kept d j a (success all_rs) v =
      sync_listed-Spares d all_rs v j (All-Spares (Ds.owned_sets d all_rs) j a)
        (IsApart-Spares (Ds.new_replica_set d (env.template_hash d.spec.template)) j a) (a _)

  sync_each_kept :
      (ds : List Deployment) (w : Cluster) (j : String)
      → IsApart replicasets j
      → view (Ds.sync_each ds w).1.store j ≡ view w.store j
  unfolding Ds.sync_each Ds.sync_deployment list_replica_sets
  sync_each_kept [] w j a = refl
  sync_each_kept (d ∷ ds) w j a =
      then_kept (Ds.sync_deployment d) (λ _. Ds.sync_each ds) w j
        (list_then_kept replicasets (Ds.with_sets d) w j (with_sets_kept d j a))
        (λ r e. sync_each_kept ds (Ds.sync_deployment d w).1 j a)

  with_deployments_kept :
      (j : String)
      → IsApart replicasets j
      → (r : Reply (List Deployment)) (v : Cluster)
      → view (Ds.with_deployments r v).1.store j ≡ view v.store j
  unfolding Ds.with_deployments
  with_deployments_kept j a (failed e) v = refl
  with_deployments_kept j a (success ds) v = sync_each_kept ds v j a

  -- A whole round of the deployment controller changes and makes no object but ReplicaSets, whatever
  -- the network does.
  pub deployments_reconcile_kept :
      (w : Cluster) (j : String)
      → IsApart replicasets j
      → view (Ds.reconcile w).1.store j ≡ view w.store j
  unfolding Ds.reconcile list_deployments
  deployments_reconcile_kept w j a =
      list_then_kept deployments Ds.with_deployments w j (with_deployments_kept j a)
