-- ===== src/Examples/ServiceRuns.antt =====
-- Runs of the service controller: internal/controller/service/service_controller.go.
use mathlib.Core.List.Perm
use k8s_lite.Prelude.{refl, ◌≡◌, List, [], ◌∷◌, ret, lookup}
use k8s_lite.Api.Meta.{zero_type_meta}
use k8s_lite.Api.Pods.{Pod, zero_pod_status}
use k8s_lite.Api.Services.{Service, Endpoints}
use k8s_lite.Api.Objects.{endpoints}
use k8s_lite.Api.Stored.{stored}
use k8s_lite.Registry.{key}
use k8s_lite.Cluster.{Cluster}
use k8s_lite.Client.{success}
use k8s_lite.Client.Effects.{Holds}
use k8s_lite.Client.Progress.{IsHealthy}
use k8s_lite.Controllers.Endpoints.{
  Sort, is_backend, is_match, desired_addresses, desired_endpoints, sync_endpoints,
}
use k8s_lite.Controllers.Endpoints.Addresses.{HasAddress, sync_endpoints_settled}
use k8s_lite.Examples.World.{encoded, named, pod, plain_json, plain_env, cluster_of}

abbrev pub as_given : Sort
as_given = record { sort_slice = λ xs. xs; sort_perm = λ xs. Perm.refl xs }

abbrev pub service : Service
service = record {
  type_meta = zero_type_meta;
  metadata = named "web";
  spec = record { selector = ("app", "web") ∷ []; ports = []; type = ""; cluster_ip = "" };
  status = record { load_balancer = record { ingress = [] } };
}

abbrev pub running : List Pod
running =
    record (pod "a") { status = record zero_pod_status { phase = "Running"; pod_ip = "10.0.0.7" } }
    ∷ []

abbrev pub wanted : Endpoints
wanted = desired_endpoints as_given service running

abbrev served_at_a : Cluster
served_at_a =
    cluster_of (("/registry/endpoints/web", encoded endpoints (stored endpoints wanted)) ∷ [])

served_at_a-IsHealthy : IsHealthy served_at_a
served_at_a-IsHealthy = record {
  reliable = λ n. refl;
  encodes = λ k o e. cc;
  no_file = refl;
  no_watcher = refl;
}

served_at_a-Holds : Holds endpoints "web" (stored endpoints (stored endpoints wanted)) served_at_a
unfolding key lookup
served_at_a-Holds = record {
  bytes = encoded endpoints (stored endpoints wanted);
  there = refl;
  decodes = refl;
}

running-HasAddress : HasAddress as_given service running
unfolding desired_addresses is_backend is_match lookup
running-HasAddress = (record { ip = "10.0.0.7"; node_name = "" }, [], refl)

sync_endpoints_settled_example :
    ((sync_endpoints as_given service running served_at_a).0 ≡ ret (success tt))
    × ((sync_endpoints as_given service running served_at_a).1.store ≡ served_at_a.store)
sync_endpoints_settled_example =
    sync_endpoints_settled as_given service running served_at_a running-HasAddress
      served_at_a-IsHealthy ((λ q. cc), (refl, (refl, (refl, tt)))) served_at_a-Holds
