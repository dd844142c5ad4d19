-- ===== src/Controllers/Endpoints/Reconcile.antt =====
-- internal/controller/service/service_controller.go: ServiceController. `sort.Slice` is a parameter.
use mathlib.Core.List.{Perm}
use k8s_lite.Prelude.{
  String, Bool, true, false, ◌&&◌, not, Option, none, some, List, [], ◌∷◌, map, Map, lookup,
  if◌then◌else◌, str_eq, keep, ◌==◌, ℤ, pos, eqb_ℤ, Exec, pure, ◌>>=◌, repeat, ℕ,
}
use k8s_lite.Api.Meta.{zero_type_meta, zero_object_meta}
use k8s_lite.Api.Pods.{Pod}
use k8s_lite.Api.Services.{
  Service, ServicePort, Slice, EndpointAddress, EndpointPort, EndpointSubset, Endpoints,
}
use k8s_lite.Api.Stored.{Json, omit_empty}
use k8s_lite.Cluster.{Env, Cluster}
use k8s_lite.Client.{
  Reply, success, failed, list_services, list_pods, get_endpoints, create_endpoints,
  update_endpoints,
}

-- `sort.Slice` by IP, which need not be stable.
pub record Sort : Type 0 where
  pub sort_slice : List EndpointAddress → List EndpointAddress
  pub sort_perm : (xs : List EndpointAddress) → Perm (sort_slice xs) xs

-- `labels[k]`, which is "" for a missing key
label_at : String → Map String → String
label_at k labels = elim (lookup k labels) [ none ↦ "" | some v ↦ v ]

unfoldable pub is_match : Map String → Map String → Bool
unfolding label_at
is_match labels [] = true
is_match labels ((k, v) ∷ selector) =
    let rest = is_match labels selector in if str_eq (label_at k labels) v then rest else false

unfoldable pub is_backend : Service → Pod → Bool
unfolding is_match
is_backend svc pod =
    if not (str_eq pod.namespace svc.namespace)
    then false
    else if is_match pod.labels svc.spec.selector
    then str_eq pod.status.phase "Running" && not (str_eq pod.status.pod_ip "")
    else false

abbrev pub address : Pod → EndpointAddress
address pod = record { ip = pod.status.pod_ip; node_name = pod.spec.node_name }

target : ServicePort → ℤ
target sp =
    if sp.target_port.type == 1
    then sp.target_port.int_val
    else if eqb_ℤ sp.target_port.int_val (pos 0)
    then sp.port
    else sp.target_port.int_val

unfoldable pub endpoint_port : ServicePort → EndpointPort
unfolding target
endpoint_port sp = record {
  name = sp.name;
  port = target sp;
  protocol = if str_eq sp.protocol "" then "TCP" else sp.protocol;
}

-- DeepEqual of two slices tells nil from empty.
unfoldable pub same_items : {A : Type 0} → (A → A → Bool) → List A → List A → Bool
same_items eq [] [] = true
same_items eq (x ∷ xs) [] = false
same_items eq [] (y ∷ ys) = false
same_items eq (x ∷ xs) (y ∷ ys) = eq x y && same_items eq xs ys

unfoldable pub same_slice : {A : Type 0} → (A → A → Bool) → Slice A → Slice A → Bool
unfolding same_items
same_slice eq none none = true
same_slice eq (some xs) none = false
same_slice eq none (some ys) = false
same_slice eq (some xs) (some ys) = same_items eq xs ys

unfoldable pub same_address : EndpointAddress → EndpointAddress → Bool
same_address a b = str_eq a.ip b.ip && str_eq a.node_name b.node_name

unfoldable pub same_port : EndpointPort → EndpointPort → Bool
same_port a b = str_eq a.name b.name && (eqb_ℤ a.port b.port && str_eq a.protocol b.protocol)

unfoldable pub same_subset : EndpointSubset → EndpointSubset → Bool
unfolding same_address same_port
same_subset a b =
    same_slice same_address a.addresses b.addresses && same_slice same_port a.ports b.ports

unfoldable pub deep_equal : Slice EndpointSubset → Slice EndpointSubset → Bool
unfolding same_subset
deep_equal = same_slice same_subset

module _ (sort : Sort) where
  -- An append makes a slice that is not nil.
  unfoldable pub desired_addresses : Service → List Pod → List EndpointAddress
  desired_addresses svc pods = sort.sort_slice (map address (keep (is_backend svc) pods))

  unfoldable pub subsets_of : List EndpointAddress → List EndpointPort → List EndpointSubset
  subsets_of [] ports = []
  subsets_of (a ∷ rest) ports =
      record { addresses = some (a ∷ rest); ports = omit_empty ports } ∷ []

  unfoldable pub desired_endpoints : Service → List Pod → Endpoints
  unfolding subsets_of
  desired_endpoints svc pods = record {
    type_meta = zero_type_meta;
    metadata = record zero_object_meta {
      name = svc.name;
      namespace = svc.namespace;
      labels = svc.labels;
    };
    subsets = some (subsets_of (desired_addresses svc pods) (map endpoint_port svc.spec.ports));
  }

  module _ ⦃json : Json⦄ ⦃env : Env json.Bytes⦄ where
    -- What follows GetEndpoints.
    unfoldable pub apply : Endpoints → Reply (Option Endpoints) → Exec Cluster (Reply (Unit {0}))
    apply desired (failed e) = pure (failed e)
    apply desired (success none) = create_endpoints desired
    apply desired (success (some existing)) =
        if not (deep_equal existing.subsets desired.subsets)
        then update_endpoints (record existing { subsets = desired.subsets })
        else pure (success tt)

    unfoldable pub sync_endpoints : Service → List Pod → Exec Cluster (Reply (Unit {0}))
    sync_endpoints svc pods = get_endpoints svc.name >>= apply (desired_endpoints svc pods)

    unfoldable pub with_pods : Service → Reply (List Pod) → Exec Cluster (Reply (Unit {0}))
    with_pods svc (failed e) = pure (failed e)
    with_pods svc (success pods) = sync_endpoints svc pods

    unfoldable pub unless_empty : Service → Map String → Exec Cluster (Reply (Unit {0}))
    unfolding with_pods
    unless_empty svc [] = pure (success tt)
    unless_empty svc (_ ∷ _) = list_pods "" >>= with_pods svc

    unfoldable pub reconcile_service : Service → Exec Cluster (Reply (Unit {0}))
    unfolding unless_empty
    reconcile_service svc = unless_empty svc svc.spec.selector

    unfoldable pub reconcile_each : List Service → Exec Cluster (Reply (Unit {0}))
    reconcile_each [] = pure (success tt)
    reconcile_each (svc ∷ svcs) = reconcile_service svc >>= λ _. reconcile_each svcs

    unfoldable pub with_services : Reply (List Service) → Exec Cluster (Reply (Unit {0}))
    unfolding reconcile_each
    with_services (failed e) = pure (failed e)
    with_services (success svcs) = reconcile_each svcs

    unfoldable pub sync_services : Exec Cluster (Reply (Unit {0}))
    unfolding with_services
    sync_services = list_services >>= with_services

    -- Run, whose context is done after n ticks; the errors of its rounds are logged.
    unfoldable pub run : ℕ → Exec Cluster (Unit {0})
    unfolding repeat
    run n = repeat n (sync_services >>= λ _. pure tt)
