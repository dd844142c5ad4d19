-- ===== src/Examples/RollingRuns.antt =====
-- A round of the Deployment controller that makes the ReplicaSet of a new template and turns the
-- one of the old template off.
use k8s_lite.Prelude.{refl, some, [], ◌∷◌, pos, lookup}
use k8s_lite.Api.Meta.{zero_type_meta}
use k8s_lite.Api.Workloads.{ReplicaSet, zero_replica_set_status}
use k8s_lite.Api.Objects.{replicasets}
use k8s_lite.Api.Stored.{stored}
use k8s_lite.Registry.{key}
use k8s_lite.Cluster.{Cluster}
use k8s_lite.Client.Progress.{IsHealthy}
use k8s_lite.Controllers.Deployments.{
  sync_listed, owned_sets, labels_match, label_at, new_replica_set,
}
use k8s_lite.Controllers.Deployments.Rolling.{IsListed, Rolled, sync_listed_rolls}
use k8s_lite.Examples.World.{
  encoded, deployment, named, web, template, plain_json, plain_env, cluster_of,
}

abbrev old : ReplicaSet
old = record {
  type_meta = zero_type_meta;
  metadata = named "web-old";
  spec = record { replicas = some (pos 3); selector = web; template = template };
  status = zero_replica_set_status;
}

abbrev before : Cluster
before = cluster_of (("/registry/replicasets/web-old", encoded replicasets old) ∷ [])

before-IsHealthy : IsHealthy before
before-IsHealthy = record {
  reliable = λ n. refl;
  encodes = λ k o e. cc;
  no_file = refl;
  no_watcher = refl;
}

old-IsListed : IsListed before old
unfolding lookup key stored
old-IsListed = (
  ((λ q. cc), (refl, (refl, (refl, (refl, (refl, (refl, (refl, tt)))))))),
  (
    stored replicasets old,
    record { bytes = encoded replicasets old; there = refl; decodes = refl },
    refl,
  ),
)

sync_listed_rolls_example :
    (new : ReplicaSet) × Rolled deployment new
      (owned_sets deployment (old ∷ []))
      (sync_listed deployment (old ∷ []) before)
unfolding owned_sets labels_match label_at lookup key new_replica_set
sync_listed_rolls_example =
    sync_listed_rolls deployment (old ∷ []) before before-IsHealthy (old-IsListed, tt) (λ e. refl)
      (λ e. (
        (λ q. cc),
        (
          refl,
          (
            refl,
            (
              refl,
              (
                refl,
                (refl, (refl, (refl, (refl, (refl, (refl, (refl, (refl, (refl, (refl, tt)))))))))),
              ),
            ),
          ),
        ),
      ))
      (λ e. refl)
