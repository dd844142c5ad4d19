-- ===== src/Controllers/Isolation/Services.antt =====
-- Whole rounds of internal/controller/service/service_controller.go.
use k8s_lite.Prelude.{String, ◌≡◌, refl, ap, Option, none, some, List, [], ◌∷◌, Map, arith}
use k8s_lite.Api.Pods.{Pod}
use k8s_lite.Api.Services.{Service, Endpoints}
use k8s_lite.Api.Objects.{pods, services, endpoints}
use k8s_lite.Api.Stored.{Json}
use k8s_lite.Storage.Spec.{view}
use k8s_lite.Cluster.{Env, Cluster}
use k8s_lite.Client.{
  Reply, success, failed, get_endpoints, create_endpoints, update_endpoints, list_pods,
  list_services,
}
use k8s_lite.Client.Effects.{view-create}
use k8s_lite.Client.Named.{update_by_name_apart, store-get_by_name}
use k8s_lite.Client.Keeping.{then_kept}
use k8s_lite.Client.Apart.{IsApart, list_then_kept}
use k8s_lite.Controllers.Endpoints.{
  Sort, apply, desired_endpoints, sync_endpoints, with_pods, unless_empty, reconcile_service,
  reconcile_each, with_services, sync_services,
}

module _ (sort : Sort) ⦃json : Json⦄ ⦃env : Env json.Bytes⦄ where
  apply_apart :
      (want : Endpoints) (j : String)
      → IsApart endpoints j
      → (r : Reply (Option Endpoints)) (v : Cluster)
      → view (apply sort want r v).1.store j ≡ view v.store j
  unfolding apply create_endpoints update_endpoints
  apply_apart want j a (failed e) v = refl
  apply_apart want j a (success none) v = view-create endpoints want v j (a _)
  apply_apart want j a (success (some ep)) v =
      ground (arith, update_by_name_apart endpoints (record ep { subsets = want.subsets }) v j a)

  with_pods_apart :
      (svc : Service) (j : String)
      → IsApart endpoints j
      → (r : Reply (List Pod)) (v : Cluster)
      → view (with_pods sort svc r v).1.store j ≡ view v.store j
  unfolding with_pods sync_endpoints get_endpoints
  with_pods_apart svc j a (failed e) v = refl
  with_pods_apart svc j a (success ps) v =
      then_kept (get_endpoints svc.name) (apply sort (desired_endpoints sort svc ps)) v j
        (ap (λ s. view s j) (store-get_by_name endpoints svc.name v))
        (λ r e. apply_apart (desired_endpoints sort svc ps) j a r (get_endpoints svc.name v).1)

  unless_empty_apart :
      (svc : Service) (selector : Map String) (w : Cluster) (j : String)
      → IsApart endpoints j
      → view (unless_empty sort svc selector w).1.store j ≡ view w.store j
  unfolding unless_empty list_pods
  unless_empty_apart svc [] w j a = refl
  unless_empty_apart svc (l ∷ ls) w j a =
      list_then_kept pods (with_pods sort svc) w j (with_pods_apart svc j a)

  reconcile_each_apart :
      (svcs : List Service) (w : Cluster) (j : String)
      → IsApart endpoints j
      → view (reconcile_each sort svcs w).1.store j ≡ view w.store j
  unfolding reconcile_each reconcile_service
  reconcile_each_apart [] w j a = refl
  reconcile_each_apart (svc ∷ svcs) w j a =
      then_kept (reconcile_service sort svc) (λ _. reconcile_each sort svcs) w j
        (unless_empty_apart svc svc.spec.selector w j a)
        (λ r e. reconcile_each_apart svcs (reconcile_service sort svc w).1 j a)

  with_services_apart :
      (j : String)
      → IsApart endpoints j
      → (r : Reply (List Service)) (v : Cluster)
      → view (with_services sort r v).1.store j ≡ view v.store j
  unfolding with_services
  with_services_apart j a (failed e) v = refl
  with_services_apart j a (success svcs) v = reconcile_each_apart svcs v j a

  -- A whole round of the service controller changes and makes no object but Endpoints, whatever the
  -- network does.
  pub sync_services_kept :
      (w : Cluster) (j : String)
      → IsApart endpoints j
      → view (sync_services sort w).1.store j ≡ view w.store j
  unfolding sync_services list_services
  sync_services_kept w j a =
      list_then_kept services (with_services sort) w j (with_services_apart j a)
