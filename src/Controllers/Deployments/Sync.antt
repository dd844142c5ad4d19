-- ===== src/Controllers/Deployments/Sync.antt =====
-- internal/controller/deployment/controller.go: Controller. The pointers into the list of
-- ReplicaSets do not alias: the new one is left out of the old ones by its name.
use Prim.Native.String.{len, slice}
use k8s_lite.Prelude.{
  String, ◌+s+◌, Bool, true, false, not, Option, none, some, List, [], ◌∷◌, ◌++◌, Map, lookup,
  if◌then◌else◌, str_eq, ltb, keep, ℤ, pos, ltb_ℤ, eqb_ℤ, Exec, pure, panic, ◌>>=◌, repeat, ℕ,
}
use k8s_lite.Api.Meta.{zero_object_meta}
use k8s_lite.Api.Workloads.{Deployment, ReplicaSet, zero_replica_set_status}
use k8s_lite.Api.Stored.{Json}
use k8s_lite.Cluster.{Env, Cluster}
use k8s_lite.Client.{
  Reply, success, failed, list_deployments, list_replica_sets, create_replica_set,
  update_replica_set,
}

-- `labels[k]`, which is "" for a missing key
unfoldable pub label_at : String → Map String → String
label_at k labels = elim (lookup k labels) [ none ↦ "" | some v ↦ v ]

unfoldable pub labels_match : Map String → Map String → Bool
unfolding label_at
labels_match [] labels = true
labels_match ((k, v) ∷ selector) labels =
    if str_eq (label_at k labels) v then labels_match selector labels else false

abbrev pub revision : String
revision = "deployment.kubernetes.io/revision"

unfoldable pub has_revision : String → ReplicaSet → Bool
unfolding label_at
has_revision hash rs = str_eq (label_at revision rs.annotations) hash

unfoldable pub find_new : String → List ReplicaSet → Option ReplicaSet
unfolding has_revision
find_new hash [] = none
find_new hash (rs ∷ rss) = if has_revision hash rs then some rs else find_new hash rss

unfoldable pub owned_sets : Deployment → List ReplicaSet → List ReplicaSet
owned_sets d = keep (λ rs. labels_match d.spec.selector.match_labels rs.labels)

unfoldable pub old_sets : ReplicaSet → List ReplicaSet → List ReplicaSet
old_sets new = keep (λ rs. not (str_eq rs.name new.name))

abbrev pub replicas_or : ℤ → Option ℤ → ℤ
replicas_or n none = n
replicas_or n (some r) = r

unfoldable pub desired_replicas : Deployment → ℤ
desired_replicas d = replicas_or (pos 1) d.spec.replicas

unfoldable pub new_replica_set : Deployment → String → ReplicaSet
new_replica_set d hash = record {
  type_meta = record { kind = "ReplicaSet"; api_version = "apps/v1" };
  metadata = record zero_object_meta {
    name = d.name +s+ ("-" +s+ slice hash 0 10);
    namespace = d.namespace;
    labels = d.spec.template.labels;
    annotations = (revision, hash) ∷ [];
  };
  spec = record {
    replicas = some (replicas_or (pos 0) d.spec.replicas);
    selector = d.spec.selector;
    template = d.spec.template;
  };
  status = zero_replica_set_status;
}

abbrev pub with_replicas : ℤ → ReplicaSet → ReplicaSet
with_replicas n rs = record rs { spec = record rs.spec { replicas = some n } }

unfoldable pub is_replicas : ℤ → Option ℤ → Bool
is_replicas n none = false
is_replicas n (some r) = eqb_ℤ r n

unfoldable pub is_positive : Option ℤ → Bool
is_positive none = false
is_positive (some r) = ltb_ℤ (pos 0) r

module _ ⦃json : Json⦄ ⦃env : Env json.Bytes⦄ where
  unfoldable pub created : ReplicaSet → Reply (Unit {0}) → Reply ReplicaSet
  created rs (failed e) = failed e
  created rs (success _) = success rs

  -- `hash[:10]` of a shorter text panics.
  unfoldable pub create_new_replica_set : Deployment → String → Exec Cluster (Reply ReplicaSet)
  unfolding created
  create_new_replica_set d hash =
      if ltb (len hash) 10
      then panic
      else (create_replica_set (new_replica_set d hash) >>= λ r.
          pure (created (new_replica_set d hash) r))

  -- An error of an update is only logged.
  unfoldable pub scale_up : ReplicaSet → ℤ → Exec Cluster (Unit {0})
  unfolding is_replicas
  scale_up new n =
      if is_replicas n new.spec.replicas
      then pure tt
      else (update_replica_set (with_replicas n new) >>= λ _. pure tt)

  unfoldable pub scale_one : ReplicaSet → Exec Cluster (Unit {0})
  unfolding is_positive
  scale_one old =
      if is_positive old.spec.replicas
      then (update_replica_set (with_replicas (pos 0) old) >>= λ _. pure tt)
      else pure tt

  unfoldable pub scale_down : List ReplicaSet → Exec Cluster (Unit {0})
  unfolding scale_one
  scale_down [] = pure tt
  scale_down (old ∷ rest) = scale_one old >>= λ _. scale_down rest

  -- Steps 6 and following of syncDeployment.
  unfoldable pub roll : Deployment → ReplicaSet → List ReplicaSet → Exec Cluster (Reply (Unit {0}))
  roll d new owned = scale_up new (desired_replicas d) >>= λ _.
      scale_down (old_sets new owned) >>= λ _. pure (success tt)

  unfoldable pub after_create :
      Deployment → List ReplicaSet → Reply ReplicaSet → Exec Cluster (Reply (Unit {0}))
  after_create d owned (failed e) = pure (failed e)
  after_create d owned (success new) = roll d new (owned ++ new ∷ [])

  unfoldable pub with_new :
      Deployment → String → List ReplicaSet → Option ReplicaSet → Exec Cluster (Reply (Unit {0}))
  unfolding after_create
  with_new d hash owned none = create_new_replica_set d hash >>= after_create d owned
  with_new d hash owned (some new) = roll d new owned

  unfoldable pub sync_listed : Deployment → List ReplicaSet → Exec Cluster (Reply (Unit {0}))
  unfolding with_new
  sync_listed d all_rs =
      let owned = owned_sets d all_rs in
      let hash = env.template_hash d.spec.template in with_new d hash owned (find_new hash owned)

  unfoldable pub with_sets : Deployment → Reply (List ReplicaSet) → Exec Cluster (Reply (Unit {0}))
  with_sets d (failed e) = pure (failed e)
  with_sets d (success all_rs) = sync_listed d all_rs

  unfoldable pub sync_deployment : Deployment → Exec Cluster (Reply (Unit {0}))
  unfolding with_sets
  sync_deployment d = list_replica_sets >>= with_sets d

  unfoldable pub sync_each : List Deployment → Exec Cluster (Reply (Unit {0}))
  sync_each [] = pure (success tt)
  sync_each (d ∷ ds) = sync_deployment d >>= λ _. sync_each ds

  unfoldable pub with_deployments : Reply (List Deployment) → Exec Cluster (Reply (Unit {0}))
  unfolding sync_each
  with_deployments (failed e) = pure (failed e)
  with_deployments (success ds) = sync_each ds

  unfoldable pub reconcile : Exec Cluster (Reply (Unit {0}))
  unfolding with_deployments
  reconcile = list_deployments >>= with_deployments

  -- Start, whose context is done after n ticks; the errors of its rounds are logged.
  unfoldable pub start : ℕ → Exec Cluster (Unit {0})
  unfolding repeat
  start n = repeat n (reconcile >>= λ _. pure tt)
