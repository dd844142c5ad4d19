-- ===== src/Examples/SettlingRuns.antt =====
-- A round of the ReplicaSet controller that makes the one pod that is missing.
use k8s_lite.Prelude.{◌≡◌, refl, ap, some_inj, [], ◌∷◌, pos, ret, arith, lookup}
use k8s_lite.Api.Workloads.{ReplicaSet}
use k8s_lite.Api.Objects.{pods, replicasets}
use k8s_lite.Api.Stored.{stored}
use k8s_lite.Registry.{key, key_prefix}
use k8s_lite.Storage.Listing.{entry_object}
use k8s_lite.ApiServer.{serve, handle_list}
use k8s_lite.ApiServer.WellFormed.{IsRegistry}
use k8s_lite.Cluster.{Cluster, send}
use k8s_lite.Client.{list, list_replica_sets, list_reply, wire_all, wire}
use k8s_lite.Client.Progress.{IsHealthy}
use k8s_lite.Controllers.ReplicaSets.{reconcile, labels_match}
use k8s_lite.Controllers.ReplicaSets.Counting.{owned_count, owns, weigh}
use k8s_lite.Controllers.ReplicaSets.Converging.{IsFresh, pod_key}
use k8s_lite.Controllers.ReplicaSets.Listed.{IsNamed, listed}
use k8s_lite.Urls.{IsPlainName, IsPlainName-prop}
use k8s_lite.Api.Pods.{Pod}
use mathlib.Core.Logic.Or
use mathlib.Core.List.{Mem, mem-cons, not-mem-nil}
use k8s_lite.Controllers.ReplicaSets.Settling.{reconcile_settles}
use k8s_lite.Examples.World.{encoded, pod, replica_set, plain_json, plain_env, cluster_of}

abbrev wanted : ReplicaSet
wanted = replica_set "web" (pos 2)

abbrev short : Cluster
short = cluster_of (
    ("/registry/replicasets/web", encoded replicasets wanted)
    ∷ ("/registry/pods/a", encoded pods (pod "a"))
    ∷ [])

short-IsHealthy : IsHealthy short
short-IsHealthy = record {
  reliable = λ n. refl;
  encodes = λ k o e. cc;
  no_file = refl;
  no_watcher = refl;
}

short-IsRegistry : IsRegistry short.store.table
unfolding key lookup
short-IsRegistry = record {
  typed = ((replicasets, "web", refl, λ e. cc), ((pods, "a", refl, λ e. cc), tt));
  unique = (refl, (refl, tt));
}

short-IsNamed : IsNamed short.store.table
unfolding key key_prefix entry_object stored
short-IsNamed = (
  λ p e. cc,
  (λ p e. ap (λ x. key pods x.metadata.name) (some_inj (stored pods (pod "a")) p e), tt),
)

short_plain : (p : Pod) → Mem p (listed short.store.table) → IsPlainName p.name
unfolding entry_object key_prefix stored mathlib.Core.List.filter_map
short_plain p m =
    Or.elim (IsPlainName-prop p.name) (mem-cons.0 m) (λ e. rw e ((λ q. cc), (refl, tt)))
      (λ h. absurd (not-mem-nil h))

short-IsFresh : IsFresh wanted 2 1 short.store.table
unfolding pod_key key lookup
short-IsFresh = record { free = λ i lo hi. refl; distinct = λ i j lo lt hi. absurd (omega arith) }

reconcile_settles_example :
    ((reconcile short).0 ≡ ret tt) × (owned_count wanted (reconcile short).1.store.table ≡ 2)
unfolding owned_count owns weigh entry_object key_prefix labels_match list_replica_sets list send
    serve handle_list list_reply wire_all wire stored k8s_lite.Storage.Memory.list lookup
reconcile_settles_example =
    reconcile_settles wanted 2 short short-IsHealthy short-IsRegistry short-IsNamed short_plain refl
      refl (omega arith) (omega arith) refl short-IsFresh
