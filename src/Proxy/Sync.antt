-- ===== src/Proxy/Sync.antt =====
-- internal/proxy/proxier.go: the Proxier and its method sync, which Run calls at every tick. Whether
-- `net.Listen` succeeds and in which order `range` walks a map are parameters. The lock is held from
-- the first new listener to the last closed one, so that part is one step.
use mathlib.Core.List.{Perm}
use k8s_lite.Prelude.{
  ℕ, zero, suc, String, Bool, Option, none, some, List, [], ◌∷◌, if◌then◌else◌, Map, insert, ℤ, pos,
  eqb_ℤ, ret, Exec, pure, ◌>>=◌,
}
use k8s_lite.Api.Services.{Service, ServicePort, Endpoints}
use k8s_lite.Api.Stored.{Json}
use k8s_lite.Cluster.{Env, Cluster, World}
use k8s_lite.Client.{Reply, success, failed, ClientError, list_services, get_endpoints}
use k8s_lite.Proxy.Ports.{Ports, at_port, remove_port, set_port}

-- A listener is the name of the service that its goroutine `serve` was started with.
pub record Proxier : Type 0 where
  pub listeners : Ports String
  pub endpoints : Map Endpoints

pub data SystemCall : Type 0 where
  listen close : ℤ → SystemCall

pub record System : Type 0 where
  -- whether `net.Listen` on the port succeeds, after these calls
  pub listens : List SystemCall → ℤ → Bool
  -- the order in which `range` walks a map, in the round that starts at this count of requests
  pub order : ℕ → Ports String → Ports String
  pub order_perm : (n : ℕ) (m : Ports String) → Perm (order n m) m

pub record ProxyHost (Bytes Blob : Type 0) : Type 0 where
  pub cluster : World Bytes Blob
  pub proxier : Proxier
  pub calls : List SystemCall

abbrev pub new_proxier : Proxier
new_proxier = record { listeners = []; endpoints = [] }

unfoldable pub cache_endpoints : String → Reply (Option Endpoints) → Proxier → Proxier
cache_endpoints name (success (some ep)) p = record p { endpoints = insert name ep p.endpoints }
cache_endpoints name (success none) p = p
cache_endpoints name (failed e) p = p

module _ ⦃json : Json⦄ ⦃env : Env json.Bytes⦄ where
  abbrev pub Host : Type 0
  Host = ProxyHost json.Bytes json.Blob

  unfoldable pub on_cluster : {A : Type 0} → Exec Cluster A → Exec Host A
  on_cluster m h = let (r, w) = m h.cluster in (r, record h { cluster = w })

  unfoldable pub cache_reply : String → Reply (Option Endpoints) → Exec Host (Unit {0})
  unfolding cache_endpoints
  cache_reply name r h = (ret tt, record h { proxier = cache_endpoints name r h.proxier })

  unfoldable pub refresh : String → Exec Host (Unit {0})
  unfolding on_cluster cache_reply
  refresh name = on_cluster (get_endpoints name) >>= cache_reply name

  -- The loops of step 1, from what desiredPorts holds.
  unfoldable pub gather_ports : Service → List ServicePort → Ports String → Exec Host (Ports String)
  unfolding refresh
  gather_ports svc [] desired = pure desired
  gather_ports svc (port ∷ ports) desired =
      if eqb_ℤ port.node_port (pos 0)
      then gather_ports svc ports desired
      else (refresh svc.name >>= λ _.
          gather_ports svc ports (set_port port.node_port svc.name desired))

  unfoldable pub gather : List Service → Ports String → Exec Host (Ports String)
  unfolding gather_ports
  gather [] desired = pure desired
  gather (svc ∷ services) desired = gather_ports svc svc.spec.ports desired >>= gather services

  unfoldable pub close_unwanted : Option String → ℤ → Host → Host
  close_unwanted (some _) port h = h
  close_unwanted none port h = record h {
    proxier = record h.proxier { listeners = remove_port port h.proxier.listeners };
    calls = close port ∷ h.calls;
  }

  -- Step 3, over the entries as they are walked.
  unfoldable pub close_old : Ports String → Ports String → Host → Host
  unfolding close_unwanted
  close_old desired [] h = h
  close_old desired ((port, _) ∷ rest) h =
      close_old desired rest (close_unwanted (at_port port desired) port h)

  unfoldable pub close_each : Ports String → Host → Host
  close_each [] h = h
  close_each ((port, _) ∷ rest) h = close_each rest (record h { calls = close port ∷ h.calls })

  module _ (system : System) where
    unfoldable pub open_port : ℤ → String → Host → Host
    open_port port name h = record h {
      proxier =
          (if system.listens h.calls port
            then record h.proxier { listeners = set_port port name h.proxier.listeners }
            else h.proxier);
      calls = listen port ∷ h.calls;
    }

    unfoldable pub open_missing : Option String → ℤ → String → Host → Host
    unfolding open_port
    open_missing (some _) port name h = h
    open_missing none port name h = open_port port name h

    -- Step 2, over the entries as they are walked.
    unfoldable pub open_new : Ports String → Host → Host
    unfolding open_missing
    open_new [] h = h
    open_new ((port, name) ∷ rest) h =
        open_new rest (open_missing (at_port port h.proxier.listeners) port name h)

    unfoldable pub relisten : Ports String → Host → Host
    unfolding open_new close_old
    relisten desired h =
        let opened = open_new (system.order h.cluster.clock desired) h in
        close_old desired (system.order h.cluster.clock opened.proxier.listeners) opened

    unfoldable pub with_services : Reply (List Service) → Exec Host (Option ClientError)
    unfolding gather relisten
    with_services (failed e) = pure (some e)
    with_services (success services) =
        gather services [] >>= λ desired. λ h. (ret none, relisten desired h)

    unfoldable pub sync : Exec Host (Option ClientError)
    unfolding on_cluster with_services
    sync = on_cluster list_services >>= with_services

    -- At the end of Run.
    unfoldable pub close_all : Host → Host
    unfolding close_each
    close_all h = close_each (system.order h.cluster.clock h.proxier.listeners) h

    -- The ticks of Run, which logs the errors of its rounds.
    unfoldable pub rounds : ℕ → Exec Host (Unit {0})
    unfolding sync
    rounds zero = pure tt
    rounds (suc n) = sync >>= λ _. rounds n

    -- Run, whose context is done after n ticks.
    unfoldable pub run : ℕ → Exec Host (Unit {0})
    unfolding rounds close_all
    run n = rounds n >>= λ _. λ h. (ret tt, close_all h)
