-- ===== src/Examples/ProxyRuns.antt =====
-- Runs of the proxy: internal/proxy/proxier.go.
use mathlib.Core.List.Perm
use k8s_lite.Prelude.{
  false, ◌≡◌, ◌⊎◌, refl, true, none, some, List, [], ◌∷◌, map, ℤ, pos, ret, lookup, Map, eqb_ℤ,
  Bool-cases, inl, inr,
}
use k8s_lite.Api.Services.{Service, Endpoints, EndpointAddress}
use k8s_lite.Api.Objects.{services}
use k8s_lite.Api.Stored.{stored}
use k8s_lite.Registry.{key_prefix}
use k8s_lite.Storage.Memory
use k8s_lite.ApiServer.{serve, handle_list, handle_get}
use k8s_lite.Cluster.{send}
use k8s_lite.Client.{success, list_services, list, list_reply, wire_all, wire, get_endpoints, get}
use k8s_lite.Controllers.Endpoints.{desired_addresses, endpoint_port}
use k8s_lite.Proxy.Ports.{at_port}
use k8s_lite.Proxy.Sync.{Host, System, listen, sync, run}
use k8s_lite.Proxy.Desired.{owner}
use k8s_lite.Proxy.Listeners.{serving, listener}
use k8s_lite.Proxy.Rounds.{sync_listeners}
use k8s_lite.Proxy.Sockets.{Tracks, sync-Tracks, is_open, run_shut}
use k8s_lite.Proxy.Connection.{Dialer, dropped, target_port, backend, dial, handle_connection}
use k8s_lite.Proxy.Routing.{Routed, first_subset, handle_connection-Routed}
use k8s_lite.Proxy.Backends.{BackendWith, routed_to_backend}
use k8s_lite.Examples.World.{encoded, plain_json, plain_env, cluster_of}
use k8s_lite.Examples.ServiceRuns.{as_given, service, running, wanted}

abbrev free_system : System
free_system = record { listens = λ s p. true; order = λ n m. m; order_perm = λ n m. Perm.refl m }

abbrev at_node_port : Service
at_node_port = record service {
  spec = record service.spec {
    ports =
        record {
          name = "";
          protocol = "";
          port = pos 80;
          target_port = record { type = 0; int_val = pos 0; str_val = "" };
          node_port = pos 30080;
        }
        ∷ [];
  };
}

-- A proxy that serves an old service at one port and is about to see another.
abbrev proxy_host : Host
proxy_host = record {
  cluster = cluster_of (("/registry/services/web", encoded services at_node_port) ∷ []);
  proxier = record { listeners = (pos 30081, "old") ∷ []; endpoints = [] };
  calls = listen (pos 30081) ∷ [];
}

synced : (sync free_system proxy_host).0 ≡ ret none
unfolding sync list_services list send serve handle_list list_reply Memory.list key_prefix wire_all
    wire stored get_endpoints get handle_get k8s_lite.Client.get_by_name k8s_lite.Cluster.by_name
    k8s_lite.Cluster.follow
synced = refl

sync_listeners_example :
    (found : List Service) × ((list_services proxy_host.cluster).0 ≡ ret (success found))
    × ((port : ℤ)
        → listener port (sync free_system proxy_host).1
          ≡ serving (owner port found) (listener port proxy_host))
sync_listeners_example = sync_listeners free_system proxy_host (λ port s. refl) synced

tracked : Tracks free_system proxy_host
unfolding at_port
tracked port = elim (Bool-cases (eqb_ℤ (pos 30081) port)) [ inl e ↦ rw e refl | inr e ↦ rw e refl ]

sync-Tracks_example : Tracks free_system (sync free_system proxy_host).1
sync-Tracks_example = sync-Tracks free_system proxy_host tracked

abbrev first_choice : Dialer
first_choice = record {
  intn = λ n. 0;
  intn_lt = λ n h. h;
  format_int = λ n. "80";
  dials = λ b. true;
}

abbrev cache : Map Endpoints
cache = ("web", wanted) ∷ []

handle_connection-Routed_example :
    Routed first_choice
      (first_subset (lookup "web" cache))
      (handle_connection first_choice cache "web")
handle_connection-Routed_example = handle_connection-Routed first_choice cache "web"

cached : lookup "web" cache ≡ some wanted
unfolding lookup
cached = refl

routed_to_backend_example :
    ((desired_addresses as_given service running ≡ [])
      × (handle_connection first_choice cache "web" ≡ ret dropped))
    ⊎ ((a : EndpointAddress) × BackendWith service running a.ip
        × (handle_connection first_choice cache "web"
            ≡ ret (
                dial first_choice
                  (backend first_choice (target_port (map endpoint_port service.spec.ports)) a))))
routed_to_backend_example =
    routed_to_backend as_given first_choice service running cache wanted cached refl

one_round : (run free_system 1 proxy_host).0 ≡ ret tt
unfolding run list_services list send serve handle_list list_reply Memory.list key_prefix wire_all
    wire stored get_endpoints get handle_get k8s_lite.Client.get_by_name k8s_lite.Cluster.by_name
    k8s_lite.Cluster.follow
one_round = refl

run_shut_example : is_open free_system (run free_system 1 proxy_host).1.calls (pos 30081) ≡ false
run_shut_example = run_shut free_system 1 proxy_host (pos 30081) tracked one_round
