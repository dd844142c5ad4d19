-- ===== src/Examples/LoopRuns.antt =====
-- Runs of the loops: internal/controller and internal/scheduler, and of the client under them.
use k8s_lite.Prelude.{
  inl, inr, some, refl, arith, sym, ◌∙◌, str_eq, eq_iff, String, true, false, ◌≢◌, ◌⊎◌, [], ◌∷◌,
  pos, negsuc, ret, ◌≡◌, lookup, ltb_ℤ, not, ◌&&◌, Among,
}
use k8s_lite.Api.Nodes.{Node}
use k8s_lite.Api.Objects.{pods}
use k8s_lite.Registry.{key}
use k8s_lite.Storage.Spec.{view}
use k8s_lite.Cluster.{Cluster}
use k8s_lite.Controllers.ReplicaSets as Rs
use k8s_lite.Controllers.ReplicaSets.{
  owned_pods, reconcile_rs, create_pods, delete_pods, labels_match,
}
use k8s_lite.Controllers.ReplicaSets.Scaling.{reconcile_rs_negative, reconcile_rs_kept}
use k8s_lite.Controllers.Deployments as Ds
use k8s_lite.Controllers.Deployments.{
  new_replica_set, find_new, has_revision, owned_sets, old_sets, sync_listed, is_replicas,
  desired_replicas,
}
use k8s_lite.Controllers.Deployments.Rollout.{sync_listed_kept}
use k8s_lite.Scheduler.{
  Numbers, is_ready, pod_fits_resources, feasible, select_node, parse_cpu, text_at,
}
use k8s_lite.Scheduler.Placement.{select_node_lem, pod_fits_resources_lem}
use k8s_lite.Examples.World.{
  encoded, pod, node, replica_set, deployment, plain_json, plain_env, cluster_of,
}

abbrev small : Cluster
small = cluster_of (("/registry/pods/a", encoded pods (pod "a")) ∷ [])

differ_by_test : (s t : String) → str_eq s t ≡ false → s ≢ t
differ_by_test s t h e = differ (sym h ∙ (eq_iff s t).1 e)
  where
    differ : false ≢ true
    differ q = cc

reconcile_rs_negative_example :
    (reconcile_rs (replica_set "web" (negsuc 0)) (pod "a" ∷ []) small).0 ≢ ret tt
unfolding owned_pods lookup Rs.labels_match
reconcile_rs_negative_example =
    reconcile_rs_negative (replica_set "web" (negsuc 0)) (pod "a" ∷ []) 0 small refl (omega arith)

sync_listed_kept_example :
    view
      (sync_listed deployment (replica_set "web-1" (pos 1) ∷ []) small).1.store
      "/registry/pods/a"
    ≡ view small.store "/registry/pods/a"
unfolding owned_sets lookup new_replica_set Ds.labels_match key
sync_listed_kept_example =
    sync_listed_kept deployment (replica_set "web-1" (pos 1) ∷ []) small "/registry/pods/a"
      (
        (
          ((λ q. cc), (refl, (refl, (refl, (refl, (refl, tt)))))),
          differ_by_test "/registry/replicasets/web-1" "/registry/pods/a" refl,
        ),
        tt,
      )
      (
        (λ q. cc),
        (
          refl,
          (
            refl,
            (
              refl,
              (
                refl,
                (refl, (refl, (refl, (refl, (refl, (refl, (refl, (refl, (refl, (refl, tt)))))))))),
              ),
            ),
          ),
        ),
      )
      (differ_by_test "/registry/replicasets/web-0123456789" "/registry/pods/a" refl)

abbrev two_pods : Cluster
two_pods = cluster_of (
    ("/registry/pods/a", encoded pods (pod "a"))
    ∷ ("/registry/pods/b", encoded pods (pod "b"))
    ∷ [])

not_first : (j : String) → str_eq (key pods "a") j ≡ false → ¬ ((key pods "a" ≡ j) ⊎ ⊥)
not_first j h (inl e) = differ_by_test (key pods "a") j h e
not_first j h (inr e) = e

-- Of two pods the first is one too many.
reconcile_rs_kept_example :
    view
      (reconcile_rs (replica_set "web" (pos 1)) (pod "a" ∷ pod "b" ∷ []) two_pods).1.store
      "/registry/pods/b"
    ≡ some (encoded pods (pod "b"))
unfolding owned_pods lookup Rs.labels_match key
reconcile_rs_kept_example =
    reconcile_rs_kept (replica_set "web" (pos 1)) (pod "a" ∷ pod "b" ∷ []) 1 two_pods
      "/registry/pods/b" (encoded pods (pod "b")) refl (omega arith) (omega arith)
      (((λ q. cc), (refl, tt)), (((λ q. cc), (refl, tt)), tt)) (not_first "/registry/pods/b" refl)
      refl

abbrev pub numbers : Numbers
numbers = record { parse_int = λ _. pos 100; parse_milli = λ _. pos 0; parse_milli_zero = refl }

select_node_lem_example :
    ((feasible numbers (pod "a") (node ∷ []) ≡ [])
      × (select_node numbers (pod "a") (node ∷ []) small ≡ (ret "", small)))
    ⊎ ((n : Node) × Among n (node ∷ [])
        × (pod_fits_resources numbers (pod "a") n ≡ true)
        × (select_node numbers (pod "a") (node ∷ []) small ≡ (ret n.name, small)))
select_node_lem_example = select_node_lem numbers (pod "a") (node ∷ []) small

pod_fits_resources_lem_example : pod_fits_resources numbers (pod "a") node ≡ (
    is_ready node.status.conditions
    && not (ltb_ℤ (parse_cpu numbers (text_at "cpu" node.status.capacity)) (pos 0)))
pod_fits_resources_lem_example = pod_fits_resources_lem numbers (pod "a") node
