-- ===== src/Controllers/ReplicaSets/Reconcile.antt =====
-- internal/controller/replicaset/controller.go: Controller. The ticker's loop calls `reconcile`.
use k8s_lite.Prelude.{
  ℕ, zero, suc, String, ◌+s+◌, Bool, true, false, Option, none, some, List, [], ◌∷◌, Map, lookup,
  if◌then◌else◌, str_eq, length, keep, ℤ, ltb_ℤ, ◌-ℤ◌, wrap32, to_int32, pos_part, Exec, pure,
  panic, ◌>>=◌, repeat,
}
use k8s_lite.Api.Pods.{Pod, zero_pod_status}
use k8s_lite.Api.Workloads.{ReplicaSet}
use k8s_lite.Api.Stored.{Json}
use k8s_lite.Cluster.{Env, Cluster}
use k8s_lite.Client.{Reply, success, failed, list_replica_sets, list_pods, create_pod, delete_pod}

has_label : String → Option String → Bool
has_label v none = false
has_label v (some w) = str_eq w v

all_labels : Map String → Map String → Bool
unfolding has_label
all_labels [] labels = true
all_labels ((k, v) ∷ selector) labels =
    if has_label v (lookup k labels) then all_labels selector labels else false

-- An empty selector matches nothing.
unfoldable pub labels_match : Map String → Map String → Bool
unfolding all_labels
labels_match [] labels = false
labels_match (l ∷ selector) labels = all_labels (l ∷ selector) labels

unfoldable pub new_pod : ReplicaSet → String → Pod
new_pod rs suffix = record {
  type_meta = record { kind = "Pod"; api_version = "v1" };
  metadata = record rs.spec.template.metadata { name = rs.name +s+ ("-" +s+ suffix) };
  spec = rs.spec.template.spec;
  status = zero_pod_status;
}

unfoldable pub owned_pods : ReplicaSet → List Pod → List Pod
owned_pods rs = keep (λ pod. labels_match rs.spec.selector.match_labels pod.labels)

module _ ⦃json : Json⦄ ⦃env : Env json.Bytes⦄ where
  unfoldable pub create_pod_of : ReplicaSet → Exec Cluster (Reply (Unit {0}))
  create_pod_of rs w = create_pod (new_pod rs (env.uuid w.clock)) w

  -- The loop that scales up; an error is only logged.
  unfoldable pub create_pods : ℕ → ReplicaSet → Exec Cluster (Unit {0})
  create_pods zero rs = pure tt
  create_pods (suc n) rs = create_pod_of rs >>= λ _. create_pods n rs

  -- The loop that scales down takes the pods from the front of the list; an index past its end panics.
  unfoldable pub delete_pods : ℕ → List Pod → Exec Cluster (Unit {0})
  delete_pods zero ps = pure tt
  delete_pods (suc n) [] = panic
  delete_pods (suc n) (p ∷ ps) = delete_pod p.name >>= λ _. delete_pods n ps

  -- A loop to an int32 makes no round if that is not positive.
  unfoldable pub scale : ReplicaSet → List Pod → ℤ → ℤ → Exec Cluster (Unit {0})
  scale rs owned current desired =
      if ltb_ℤ current desired
      then create_pods (pos_part (wrap32 (desired -ℤ current))) rs
      else if ltb_ℤ desired current
      then delete_pods (pos_part (wrap32 (current -ℤ desired))) owned
      else pure tt

  unfoldable pub reconcile_to : ReplicaSet → List Pod → Option ℤ → Exec Cluster (Unit {0})
  unfolding scale
  reconcile_to rs owned none = pure tt
  reconcile_to rs owned (some desired) = scale rs owned (to_int32 (length owned)) desired

  unfoldable pub reconcile_rs : ReplicaSet → List Pod → Exec Cluster (Unit {0})
  unfolding reconcile_to
  reconcile_rs rs all_pods = reconcile_to rs (owned_pods rs all_pods) rs.spec.replicas

  unfoldable pub reconcile_all : List ReplicaSet → List Pod → Exec Cluster (Unit {0})
  reconcile_all [] pods = pure tt
  reconcile_all (rs ∷ rss) pods = reconcile_rs rs pods >>= λ _. reconcile_all rss pods

  unfoldable pub with_pods : List ReplicaSet → Reply (List Pod) → Exec Cluster (Unit {0})
  unfolding reconcile_all
  with_pods rss (failed e) = pure tt
  with_pods rss (success pods) = reconcile_all rss pods

  unfoldable pub with_replica_sets : Reply (List ReplicaSet) → Exec Cluster (Unit {0})
  unfolding with_pods
  with_replica_sets (failed e) = pure tt
  with_replica_sets (success rss) = list_pods "" >>= with_pods rss

  unfoldable pub reconcile : Exec Cluster (Unit {0})
  unfolding with_replica_sets
  reconcile = list_replica_sets >>= with_replica_sets

  -- Start, whose context is done after n ticks.
  unfoldable pub start : ℕ → Exec Cluster (Unit {0})
  unfolding repeat
  start n = repeat n reconcile
