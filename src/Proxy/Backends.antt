-- ===== src/Proxy/Backends.antt =====
-- The service controller and the proxy together: internal/controller/service/service_controller.go and
-- internal/proxy/proxier.go.
use mathlib.Core.Logic.Or
use mathlib.Core.List.{Mem, mem-cons, mem-cons_self, mem-cons_of_mem, not-mem-nil}
use mathlib.Core.List.Perm
use mathlib.Core.Bool.{Bool-set}
use k8s_lite.Prelude.{
  String, ◌≡◌, ◌⊎◌, inl, inr, refl, ap, ◌∙◌, Bool, true, false, ◌||◌, some, List, [], ◌∷◌, map,
  str_eq, eq_iff, eq_refl, Map, lookup, ret, Among, Bool-cases, arith, keep,
}
use k8s_lite.Api.Pods.{Pod}
use k8s_lite.Api.Services.{Service, Endpoints, EndpointAddress, EndpointPort, slice_items}
use k8s_lite.Api.Stored.{omit_empty}
use k8s_lite.Controllers.Endpoints.{
  Sort, is_backend, address, endpoint_port, desired_addresses, subsets_of, desired_endpoints,
}
use k8s_lite.Proxy.Connection.{
  Dialer, dropped, target_port, backend, dial, handle_connection, with_endpoints, with_subsets,
  with_subset, pick,
}
use k8s_lite.Proxy.Routing.{pick-GoesTo}

mem_of_among : {A : Type 0} (a : A) (xs : List A) → Among a xs → Mem a xs
mem_of_among a [] m = elim m [ ]
mem_of_among a (x ∷ xs) (inl e) = rw e mem-cons_self
mem_of_among a (x ∷ xs) (inr m) = mem-cons_of_mem _ (mem_of_among a xs m)

-- Whether some pod has the IP.
abbrev has_ip : String → List Pod → Bool
has_ip ip [] = false
has_ip ip (p ∷ ps) = str_eq p.status.pod_ip ip || has_ip ip ps

has_ip-mem : (a : EndpointAddress) (ps : List Pod) → Mem a (map address ps) → has_ip a.ip ps ≡ true
has_ip-mem a [] m = absurd (not-mem-nil m)
has_ip-mem a (p ∷ ps) m =
    Or.elim (Bool-set _ _) (mem-cons.0 m) (λ q. rw (q, eq_refl p.status.pod_ip) refl)
      (λ q. ground (arith, has_ip-mem a ps q))

-- A pod that backs the service, with the IP.
abbrev pub BackendWith : Service → List Pod → String → Type 0
BackendWith svc pods ip =
    (pod : Pod) × Among pod pods × (is_backend svc pod ≡ true) × (pod.status.pod_ip ≡ ip)

later :
    (svc : Service) (p : Pod) (pods : List Pod) (ip : String)
    → BackendWith svc pods ip
    → BackendWith svc (p ∷ pods) ip
later svc p pods ip (q, m, b, e) = (q, inr m, b, e)

find_backend :
    (svc : Service) (ip : String) (pods : List Pod)
    → has_ip ip (keep (is_backend svc) pods) ≡ true
    → BackendWith svc pods ip
find_backend svc ip [] e = cc e
find_backend svc ip (p ∷ pods) e = elim (Bool-cases (is_backend svc p)) [
  | inl b ↦ elim (Bool-cases (str_eq p.status.pod_ip ip)) [
    | inl q ↦ (p, inl refl, b, (eq_iff _ _).0 q)
    | inr q ↦ later svc p pods ip (find_backend svc ip pods (rw (b, q) at e))
  ]
  | inr b ↦ later svc p pods ip (find_backend svc ip pods (rw b at e))
]

module _ (sort : Sort) (dialer : Dialer) where
  from_address :
      (svc : Service) (pods : List Pod) (a : EndpointAddress)
      → Among a (desired_addresses sort svc pods)
      → BackendWith svc pods a.ip
  unfolding desired_addresses
  from_address svc pods a m = find_backend svc a.ip pods (
      has_ip-mem a (keep (is_backend svc) pods) (
        (Perm.mem_iff (sort.sort_perm (map address (keep (is_backend svc) pods)))).0
          (mem_of_among a _ m)))

  omitted : {A : Type 0} (xs : List A) → slice_items (omit_empty xs) ≡ xs
  omitted [] = refl
  omitted (x ∷ xs) = refl

  -- A connection to a service whose cached subsets are those that the service controller wants for
  -- the pods is dropped only if the controller wants no address, and else it is sent to the IP of
  -- a pod that backs the service, at the target port of the first port of the service, or at 80 if
  -- it has none.
  pub routed_to_backend :
      (svc : Service) (pods : List Pod) (endpoints : Map Endpoints) (ep : Endpoints)
      → lookup svc.name endpoints ≡ some ep
      → slice_items ep.subsets ≡ slice_items (desired_endpoints sort svc pods).subsets
      → ((desired_addresses sort svc pods ≡ [])
          × (handle_connection dialer endpoints svc.name ≡ ret dropped))
        ⊎ ((a : EndpointAddress) × BackendWith svc pods a.ip
            × (handle_connection dialer endpoints svc.name
                ≡ ret (
                    dial dialer
                      (backend dialer (target_port (map endpoint_port svc.spec.ports)) a))))
  unfolding handle_connection with_endpoints with_subsets with_subset desired_endpoints subsets_of
  routed_to_backend svc pods endpoints ep e s =
      rw (e, s) (routed (desired_addresses sort svc pods) (λ a m. from_address svc pods a m))
    where
      ports : List EndpointPort
      ports = map endpoint_port svc.spec.ports

      routed :
          (addrs : List EndpointAddress)
          → ((a : EndpointAddress) → Among a addrs → BackendWith svc pods a.ip)
          → ((addrs ≡ []) × (with_subsets dialer (subsets_of sort addrs ports) ≡ ret dropped))
            ⊎ ((a : EndpointAddress) × BackendWith svc pods a.ip
                × (with_subsets dialer (subsets_of sort addrs ports)
                    ≡ ret (dial dialer (backend dialer (target_port ports) a))))
      routed [] k = inl (refl, refl)
      routed (a ∷ rest) k =
          let (b, m, q) = pick-GoesTo dialer (target_port ports) a rest in
          inr (
            b,
            k b m,
            ap (λ ps. pick dialer (map (backend dialer (target_port ps)) (a ∷ rest)))
                  (omitted ports)
                ∙ q,
          )
