-- ===== src/Scheduler/Isolation.antt =====
-- A whole round of internal/scheduler/scheduler.go.
use k8s_lite.Prelude.{String, ◌≡◌, refl, List, [], ◌∷◌}
use k8s_lite.Api.Objects.{pods}
use k8s_lite.Api.Stored.{Json}
use k8s_lite.Storage.Spec.{view}
use k8s_lite.Cluster.{Env, Cluster}
use k8s_lite.Client.{list_pods, list_nodes, Reply, success, failed}
use k8s_lite.Client.Apart.{IsApart, list_then_kept}
use k8s_lite.Api.Pods.{Pod}
use k8s_lite.Api.Nodes.{Node}
use k8s_lite.Api.Objects.{nodes}
use k8s_lite.Scheduler.Round.{Numbers, with_nodes, with_unscheduled, with_pods, schedule_one_round}
use k8s_lite.Scheduler.Placement.{schedule_each_apart}

module _ (numbers : Numbers) ⦃json : Json⦄ ⦃env : Env json.Bytes⦄ where
  with_nodes_apart :
      (ps : List Pod) (j : String)
      → IsApart pods j
      → (r : Reply (List Node)) (v : Cluster)
      → view (with_nodes numbers ps r v).1.store j ≡ view v.store j
  unfolding with_nodes
  with_nodes_apart ps j a (failed e) v = refl
  with_nodes_apart ps j a (success []) v = refl
  with_nodes_apart ps j a (success (n ∷ ns)) v = schedule_each_apart numbers ps (n ∷ ns) v j a

  with_unscheduled_apart :
      (ps : List Pod) (w : Cluster) (j : String)
      → IsApart pods j
      → view (with_unscheduled numbers ps w).1.store j ≡ view w.store j
  unfolding with_unscheduled list_nodes
  with_unscheduled_apart [] w j a = refl
  with_unscheduled_apart (p ∷ ps) w j a =
      list_then_kept nodes (with_nodes numbers (p ∷ ps)) w j (with_nodes_apart (p ∷ ps) j a)

  with_pods_apart :
      (j : String)
      → IsApart pods j
      → (r : Reply (List Pod)) (v : Cluster)
      → view (with_pods numbers r v).1.store j ≡ view v.store j
  unfolding with_pods
  with_pods_apart j a (failed e) v = refl
  with_pods_apart j a (success ps) v = with_unscheduled_apart _ v j a

  -- A whole round of the scheduler changes and makes no object but pods, whatever the network does.
  pub schedule_one_round_kept :
      (w : Cluster) (j : String)
      → IsApart pods j
      → view (schedule_one_round numbers w).1.store j ≡ view w.store j
  unfolding schedule_one_round list_pods
  schedule_one_round_kept w j a = list_then_kept pods (with_pods numbers) w j (with_pods_apart j a)
