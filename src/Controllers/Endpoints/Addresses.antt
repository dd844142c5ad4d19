-- ===== src/Controllers/Endpoints/Addresses.antt =====
-- What a round of internal/controller/service/service_controller.go does to the Endpoints.
use k8s_lite.Prelude.{
  ◌≡◌, refl, sym, ap, ◌∙◌, Bool, true, false, some, List, [], ◌∷◌, map, eq_refl, ℤ, pos, negsuc,
  eqb_ℤ, ret, arith,
}
use k8s_lite.Api.Pods.{Pod}
use k8s_lite.Api.Services.{
  Service, slice_items, EndpointAddress, EndpointPort, EndpointSubset, Endpoints,
}
use k8s_lite.Api.Objects.{endpoints}
use k8s_lite.Api.Stored.{Json, omit_empty, stored, stored_subset}
use k8s_lite.Cluster.{Env, Cluster}
use k8s_lite.Client.{success, get_endpoints, update_endpoints}
use k8s_lite.Client.Effects.{Holds, store-get, get-some}
use k8s_lite.Urls.{IsPlainName}
use k8s_lite.Client.Named.{get_by_name-get}
use k8s_lite.Client.Progress.{IsHealthy, get_succeeds}
use k8s_lite.Controllers.Endpoints.Reconcile.{
  Sort, same_items, same_slice, same_address, same_port, same_subset, deep_equal, desired_addresses,
  subsets_of, desired_endpoints, endpoint_port, apply, sync_endpoints,
}

same_items_refl :
    {A : Type 0} (eq : A → A → Bool) (xs : List A)
    → ((x : A) → eq x x ≡ true)
    → same_items eq xs xs ≡ true
unfolding same_items
same_items_refl eq [] h = refl
same_items_refl eq (x ∷ xs) h = ground (arith, h x, same_items_refl eq xs h)

eqb_ℤ_refl : (n : ℤ) → eqb_ℤ n n ≡ true
eqb_ℤ_refl (pos n) = ground arith
eqb_ℤ_refl (negsuc n) = ground arith

same_address_refl : (a : EndpointAddress) → same_address a a ≡ true
unfolding same_address
same_address_refl a = simp eq_refl

same_port_refl : (a : EndpointPort) → same_port a a ≡ true
unfolding same_port
same_port_refl a = simp (eq_refl, eqb_ℤ_refl)

same_omit_empty :
    (ps : List EndpointPort) → same_slice same_port (omit_empty ps) (omit_empty ps) ≡ true
unfolding same_slice
same_omit_empty [] = refl
same_omit_empty (p ∷ ps) = same_items_refl same_port (p ∷ ps) same_port_refl

stored_subsets :
    (a : EndpointAddress) (rest : List EndpointAddress) (ports : List EndpointPort)
    → map stored_subset (record { addresses = some (a ∷ rest); ports = omit_empty ports } ∷ [])
      ≡ record { addresses = some (a ∷ rest); ports = omit_empty ports } ∷ []
stored_subsets a rest [] = refl
stored_subsets a rest (p ∷ ports) = refl

module _ (sort : Sort) where
  abbrev pub HasAddress : Service → List Pod → Type 0
  HasAddress svc pods =
      (a : EndpointAddress) × (rest : List EndpointAddress) × (desired_addresses sort svc pods
        ≡ a ∷ rest)

  subsets_of-stored :
      (addrs : List EndpointAddress) (a : EndpointAddress) (rest : List EndpointAddress)
      (ports : List EndpointPort)
      → addrs ≡ a ∷ rest
      → omit_empty (map stored_subset (subsets_of sort addrs ports))
        ≡ some (subsets_of sort addrs ports)
  unfolding subsets_of
  subsets_of-stored addrs a rest ports e = rw e (ap some (stored_subsets a rest ports))

  same_subsets :
      (addrs : List EndpointAddress) (a : EndpointAddress) (rest : List EndpointAddress)
      (ports : List EndpointPort)
      → addrs ≡ a ∷ rest
      → deep_equal (some (subsets_of sort addrs ports)) (some (subsets_of sort addrs ports)) ≡ true
  unfolding deep_equal same_slice same_items same_subset subsets_of
  same_subsets addrs a rest ports e = rw e (
      ground
        (arith, same_items_refl same_address (a ∷ rest) same_address_refl, same_omit_empty ports))

  -- Endpoints with an address are the same after JSON wrote them and read them back.
  subsets-stored :
      (svc : Service) (pods : List Pod) (ep : Endpoints)
      → HasAddress svc pods
      → ep.subsets ≡ (desired_endpoints sort svc pods).subsets
      → (stored endpoints ep).subsets ≡ (desired_endpoints sort svc pods).subsets
  unfolding stored desired_endpoints subsets_of
  subsets-stored svc pods ep (a, rest, e) h =
      ap (λ s. omit_empty (map stored_subset (slice_items s))) h ∙ subsets_of-stored _ a rest _ e

  deep_equal-desired :
      (svc : Service) (pods : List Pod)
      → HasAddress svc pods
      → deep_equal
          (desired_endpoints sort svc pods).subsets
          (desired_endpoints sort svc pods).subsets
        ≡ true
  unfolding deep_equal same_slice same_items same_subset desired_endpoints subsets_of
  deep_equal-desired svc pods (a, rest, e) = same_subsets _ a rest _ e

  -- What is read back has no empty slice that is not nil.
  omit_empty_differs : (xs : List EndpointSubset) → deep_equal (omit_empty xs) (some []) ≡ false
  unfolding deep_equal same_slice same_items
  omit_empty_differs [] = refl
  omit_empty_differs (x ∷ xs) = refl

  module _ ⦃json : Json⦄ ⦃env : Env json.Bytes⦄ where
    -- If a pod backs the Service, whose name is plain, and a healthy cluster holds the Endpoints
    -- that a round for it wants, as a create or an update of them left them, then the round
    -- succeeds and changes nothing.
    pub sync_endpoints_settled :
        (svc : Service) (pods : List Pod) (w : Cluster)
        → HasAddress svc pods
        → IsHealthy w
        → IsPlainName svc.name
        → Holds endpoints svc.name
            (stored endpoints (stored endpoints (desired_endpoints sort svc pods)))
            w
        → ((sync_endpoints sort svc pods w).0 ≡ ret (success tt))
          × ((sync_endpoints sort svc pods w).1.store ≡ w.store)
    unfolding sync_endpoints apply get_endpoints
    sync_endpoints_settled svc pods w a h p d =
        let want = desired_endpoints sort svc pods in
        let once = subsets-stored svc pods want a refl in
        let twice = subsets-stored svc pods (stored endpoints want) a once in
        let thrice = subsets-stored svc pods (stored endpoints (stored endpoints want)) a twice in
        let g = get_succeeds endpoints svc.name _ w h d in
        ground (
          arith,
          get_by_name-get endpoints svc.name w p,
          g,
          thrice,
          deep_equal-desired svc pods a,
          store-get endpoints svc.name w,
        )

    apply_empty :
        (want ep : Endpoints) (o : Endpoints) (w : Cluster)
        → want.subsets ≡ some []
        → ep ≡ stored endpoints o
        → apply sort want (success (some ep)) w
          ≡ update_endpoints (record ep { subsets = some [] }) w
    unfolding apply stored
    apply_empty want ep o w e q =
        let differs = omit_empty_differs (map stored_subset (slice_items o.subsets)) in
        ground (arith, e, ap (λ (x : Endpoints). x.subsets) q, differs)

    no_subset :
        (svc : Service) (pods : List Pod)
        → desired_addresses sort svc pods ≡ []
        → (desired_endpoints sort svc pods).subsets ≡ some []
    unfolding desired_endpoints subsets_of
    no_subset svc pods e = ap (λ a. some (subsets_of sort a (map endpoint_port svc.spec.ports))) e

    -- While no pod backs a Service, whose name is plain, each round that reads its Endpoints sends
    -- an update of them, also when they have no subset, which is what the round wants.
    pub sync_endpoints_empty :
        (svc : Service) (pods : List Pod) (ep : Endpoints) (w : Cluster)
        → IsPlainName svc.name
        → desired_addresses sort svc pods ≡ []
        → (get_endpoints svc.name w).0 ≡ ret (success (some ep))
        → sync_endpoints sort svc pods w
          ≡ update_endpoints (record ep { subsets = some [] }) (get_endpoints svc.name w).1
    unfolding sync_endpoints get_endpoints
    sync_endpoints_empty svc pods ep w p e g =
        let (o, h, q) =
          get-some endpoints svc.name ep w
            (ap (λ x. x.0) (sym (get_by_name-get endpoints svc.name w p)) ∙ g) in
        ground (
          arith,
          g,
          apply_empty (desired_endpoints sort svc pods) ep o (get_endpoints svc.name w).1
              (no_subset svc pods e) q,
        )
