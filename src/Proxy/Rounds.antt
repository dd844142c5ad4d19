-- ===== src/Proxy/Rounds.antt =====
-- The listeners after a round of internal/proxy/proxier.go.
use k8s_lite.Prelude.{String, ◌≡◌, ap, sym, ◌∙◌, Option, none, List, [], ℤ, Flow, ret, ret-bind}
use k8s_lite.Api.Services.{Service}
use k8s_lite.Api.Stored.{Json}
use k8s_lite.Cluster.{Env}
use k8s_lite.Client.{Reply, success, failed, ClientError, list_services}
use k8s_lite.Proxy.Ports.{Ports, at_port, IsDistinct}
use k8s_lite.Proxy.Sync.{Host, System, on_cluster, relisten, with_services, sync, gather}
use k8s_lite.Proxy.Desired.{owner, gather-Reads, gather-Keeps}
use k8s_lite.Proxy.Listeners.{
  or_else-none, serving, listener, IsFreePort, listener-relisten, relisten-stray,
}

module _ ⦃json : Json⦄ ⦃env : Env json.Bytes⦄ (system : System) where
  -- The parts of a round: the services listed, what they desire, and the state before step 2.
  abbrev Gathered : Host → Type 0
  Gathered h =
      (services : List Service) × ((list_services h.cluster).0 ≡ ret (success services))
      × (desired : Ports String) × (IsDistinct desired)
      × ((port : ℤ) → at_port port desired ≡ owner port services)
      × (before : Host) × (before.proxier.listeners ≡ h.proxier.listeners)
      × ((sync system h).1 ≡ relisten system desired before)

  -- A round that succeeds gathered the services that the API server listed.
  sync-Gathered : (h : Host) → (sync system h).0 ≡ ret none → Gathered h
  unfolding sync with_services on_cluster at_port
  sync-Gathered h e =
      let (r, q, w) = ret-bind (on_cluster list_services) (with_services system) h e in listed r q w
    where
      listed :
          (r : Reply (List Service))
          → (on_cluster list_services h).0 ≡ ret r
          → sync system h ≡ with_services system r (on_cluster list_services h).1
          → Gathered h
      listed (failed x) q w = cc
      listed (success services) q w =
          let h1 = (on_cluster list_services h).1 in
          let (d, v, u) =
            ret-bind (gather services []) (λ desired. λ h. (ret none, relisten system desired h)) h1
              (ap (λ (x : Flow (Option ClientError) × Host). x.0) (sym w) ∙ e) in
          let reads = gather-Reads services [] d h1 v in
          (
            services,
            q,
            d,
            reads.1 tt,
            λ port. reads.0 port ∙ or_else-none (owner port services),
            (gather services [] h1).1,
            (gather-Keeps services [] h1).1,
            ap (λ (x : Flow (Option ClientError) × Host). x.1) (w ∙ u),
          )

  -- After a round that succeeds, if every port can be opened, exactly the node ports of the listed
  -- services are open. A port that was open before keeps the service it was opened for, even if it
  -- belongs to another service now, and a new one gets the last service that exposes it.
  pub sync_listeners :
      (h : Host)
      → ((port : ℤ) → IsFreePort system port)
      → (sync system h).0 ≡ ret none
      → (services : List Service) × ((list_services h.cluster).0 ≡ ret (success services))
        × ((port : ℤ)
            → listener port (sync system h).1 ≡ serving (owner port services) (listener port h))
  sync_listeners h f e =
      let (services, l, d, i, o, before, k, s) = sync-Gathered h e in
      (
        services,
        l,
        λ port. rw s (
            listener-relisten system d port before i (f port)
            ∙ ap (λ w. serving w (listener port before)) (o port)
            ∙ ap (λ m. serving (owner port services) (at_port port m)) k),
      )

  -- After a round that succeeds, no port is open that no listed service exposes, whichever ports
  -- could be opened.
  pub sync_stray :
      (h : Host)
      → (sync system h).0 ≡ ret none
      → (services : List Service) × ((list_services h.cluster).0 ≡ ret (success services))
        × ((port : ℤ) → owner port services ≡ none → listener port (sync system h).1 ≡ none)
  sync_stray h e =
      let (services, l, d, i, o, before, k, s) = sync-Gathered h e in
      (services, l, λ port n. rw s (relisten-stray system d port before (o port ∙ n)))
