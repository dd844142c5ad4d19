-- ===== src/Api/Stored.antt =====
-- What a resource is after `json.Marshal` and `json.Unmarshal`, by the struct tags and the JSON
-- methods of internal/api/types.go: an empty slice under `omitempty` comes back nil, and an
-- IntOrString in its canonical form. `Json` is what the code relies on of encoding/json.
use k8s_lite.Prelude.{String, ◌≡◌, Option, none, some, List, [], ◌∷◌, map, Map, lookup}
use k8s_lite.Api.Port.{stored_port}
use k8s_lite.Api.Pods.{HttpGetAction, TcpSocketAction, Probe, Container, PodSpec, PodTemplateSpec}
use k8s_lite.Api.Workloads.{RollingUpdateDeployment}
use k8s_lite.Api.Services.{ServicePort, Slice, EndpointSubset, slice_items}
use k8s_lite.Api.Objects.{
  Kind, Obj, pods, nodes, replicasets, deployments, services, endpoints, leases,
}

abbrev opt {ℓ} : {A : Type ℓ} → (A → A) → Option A → Option A
opt f none = none
opt f (some a) = some (f a)

stored_probe : Probe → Probe
stored_probe p = record p {
  http_get = opt (λ (g : HttpGetAction). record g { port = stored_port g.port }) p.http_get;
  tcp_socket = opt (λ (g : TcpSocketAction). record g { port = stored_port g.port }) p.tcp_socket;
}

stored_container : Container → Container
stored_container c = record c {
  liveness_probe = opt stored_probe c.liveness_probe;
  readiness_probe = opt stored_probe c.readiness_probe;
}

unfoldable pub stored_pod_spec : PodSpec → PodSpec
unfolding stored_probe stored_container
stored_pod_spec s = record s { containers = map stored_container s.containers }

abbrev pub stored_template : PodTemplateSpec → PodTemplateSpec
stored_template t = record t { spec = stored_pod_spec t.spec }

stored_rolling : RollingUpdateDeployment → RollingUpdateDeployment
stored_rolling r = record {
  max_unavailable = opt stored_port r.max_unavailable;
  max_surge = opt stored_port r.max_surge;
}

stored_service_port : ServicePort → ServicePort
stored_service_port p = record p { target_port = stored_port p.target_port }

-- `omitempty` drops an empty slice, which is then decoded as nil.
abbrev pub omit_empty : {A : Type 0} → List A → Slice A
omit_empty [] = none
omit_empty (x ∷ xs) = some (x ∷ xs)

abbrev pub stored_subset : EndpointSubset → EndpointSubset
stored_subset s = record {
  addresses = omit_empty (slice_items s.addresses);
  ports = omit_empty (slice_items s.ports);
}

unfoldable pub stored : (k : Kind) → Obj k → Obj k
unfolding stored_pod_spec stored_rolling stored_service_port
stored pods p = record p { spec = stored_pod_spec p.spec }
stored nodes n = n
stored replicasets r = record r {
  spec = record r.spec { template = stored_template r.spec.template };
}
stored deployments d = record d {
  spec = record d.spec {
    template = stored_template d.spec.template;
    strategy = record d.spec.strategy {
      rolling_update = opt stored_rolling d.spec.strategy.rolling_update;
    };
  };
}
stored services s = record s {
  spec = record s.spec { ports = map stored_service_port s.spec.ports };
}
stored endpoints e = record e { subsets = omit_empty (map stored_subset (slice_items e.subsets)) }
stored leases l = l

-- `none` is an error. A text of the store's whole map is a `Blob`.
pub record Json : Type 1 where
  pub Bytes : Type 0
  pub Blob : Type 0
  pub marshal : (k : Kind) → Obj k → Option Bytes
  pub unmarshal : (k : Kind) → Bytes → Option (Obj k)
  pub round_trip :
      (k : Kind) (o : Obj k) (b : Bytes) → marshal k o ≡ some b → unmarshal k b ≡ some (stored k o)
  pub marshal_map : Map Bytes → Option Blob
  pub unmarshal_map : Blob → Option (Map Bytes)
  pub map_round_trip :
      (m n : Map Bytes) (t : Blob) (key : String)
      → marshal_map m ≡ some t
      → unmarshal_map t ≡ some n
      → lookup key n ≡ lookup key m
  pub map_readable :
      (m : Map Bytes) (t : Blob)
      → marshal_map m ≡ some t
      → (n : Map Bytes) × (unmarshal_map t ≡ some n)
