-- ===== src/Proxy/Routing.antt =====
-- Where handleConnection of internal/proxy/proxier.go sends a connection.
use k8s_lite.Prelude.{
  ℕ, suc, zero, ◌<◌, String, ◌≡◌, ◌⊎◌, inl, inr, refl, Option, none, some, List, [], ◌∷◌, map, Map,
  lookup, ℤ, Flow, ret, length, get_elem?, Among, arith,
}
use k8s_lite.Api.Services.{Endpoints, EndpointSubset, EndpointAddress, slice_items}
use k8s_lite.Proxy.Connection.{
  Dialer, Outcome, dropped, target_port, backend, dial, dial_at, pick, with_subset, with_subsets,
  with_endpoints, handle_connection,
}

-- The first subset, whose addresses alone are used.
abbrev pub first_subset : Option Endpoints → Option EndpointSubset
first_subset none = none
first_subset (some ep) = elim (slice_items ep.subsets) [ [] ↦ none | s ∷ _ ↦ some s ]

module _ (dialer : Dialer) where
  get_elem?-map :
      {A : Type 0} (f : A → String) (xs : List A) (i : ℕ)
      → i < length (map f xs)
      → (a : A) × Among a xs × (get_elem? (map f xs) i ≡ some (f a))
  get_elem?-map f [] i h = elim h [ ]
  get_elem?-map f (x ∷ xs) zero h = (x, inl refl, refl)
  get_elem?-map f (x ∷ xs) (suc i) h =
      let (a, m, e) = get_elem?-map f xs i (omega arith) in (a, inr m, e)

  -- The connection goes to an address of the subset, at the port.
  abbrev pub GoesTo : List EndpointAddress → ℤ → Flow Outcome → Type 0
  GoesTo addrs port r =
      (a : EndpointAddress) × Among a addrs × (r ≡ ret (dial dialer (backend dialer port a)))

  pub pick-GoesTo :
      (port : ℤ) (a : EndpointAddress) (addrs : List EndpointAddress)
      → GoesTo (a ∷ addrs) port (pick dialer (map (backend dialer port) (a ∷ addrs)))
  unfolding pick dial_at
  pick-GoesTo port a addrs =
      let all = map (backend dialer port) (a ∷ addrs) in
      let (b, m, e) =
        get_elem?-map (backend dialer port) (a ∷ addrs) (dialer.intn (length all))
          (dialer.intn_lt (length all) (omega arith)) in
      (b, m, rw e refl)

  -- What a connection to a service is for its endpoints: dropped if the first subset has no address, or
  -- sent to one of its addresses.
  abbrev pub Routed : Option EndpointSubset → Flow Outcome → Type 0
  Routed none r = r ≡ ret dropped
  Routed (some s) r =
      ((slice_items s.addresses ≡ []) × (r ≡ ret dropped))
      ⊎ GoesTo (slice_items s.addresses) (target_port (slice_items s.ports)) r

  with_subset-Routed : (s : EndpointSubset) → Routed (some s) (with_subset dialer s)
  unfolding with_subset pick
  with_subset-Routed s = routed (slice_items s.addresses)
    where
      routed :
          (addrs : List EndpointAddress)
          → ((addrs ≡ [])
              × (pick dialer (map (backend dialer (target_port (slice_items s.ports))) addrs)
                  ≡ ret dropped))
            ⊎ GoesTo addrs
                (target_port (slice_items s.ports))
                (pick dialer (map (backend dialer (target_port (slice_items s.ports))) addrs))
      routed [] = inl (refl, refl)
      routed (a ∷ addrs) = inr (pick-GoesTo (target_port (slice_items s.ports)) a addrs)

  with_endpoints-Routed : (o : Option Endpoints) → Routed (first_subset o) (with_endpoints dialer o)
  unfolding with_endpoints with_subsets
  with_endpoints-Routed none = refl
  with_endpoints-Routed (some ep) = routed (slice_items ep.subsets)
    where
      routed :
          (ss : List EndpointSubset)
          → Routed (elim ss [ [] ↦ none | s ∷ _ ↦ some s ]) (with_subsets dialer ss)
      routed [] = refl
      routed (s ∷ ss) = with_subset-Routed s

  -- A connection never makes the proxy panic: it is dropped exactly if the cached endpoints of the
  -- service have no first subset with an address, and else one of the addresses of the first subset
  -- is dialled, at the first port of the subset or 80.
  pub handle_connection-Routed :
      (endpoints : Map Endpoints) (svc_name : String)
      → Routed
          (first_subset (lookup svc_name endpoints))
          (handle_connection dialer endpoints svc_name)
  unfolding handle_connection
  handle_connection-Routed endpoints svc_name = with_endpoints-Routed (lookup svc_name endpoints)
