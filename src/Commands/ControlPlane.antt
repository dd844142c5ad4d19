-- ===== src/Commands/ControlPlane.antt =====
-- The parts of cmd that work on one cluster: the controllers, the scheduler and the kubelets, whose
-- rounds come in any order. A round is one turn: the requests of two rounds are not mixed.
use k8s_lite.Prelude.{
  String, ◌≡◌, ap, ◌∙◌, some, List, [], ◌∷◌, if◌then◌else◌, str_eq, state-bind-pure,
}
use k8s_lite.Api.Meta.{Time}
use k8s_lite.Api.Objects.{pods, replicasets, endpoints}
use k8s_lite.Api.Stored.{Json}
use k8s_lite.Storage.Spec.{view}
use k8s_lite.Cluster.{Env, Cluster, World}
use k8s_lite.Client.Keeping.{register_node_kept}
use k8s_lite.Client.Apart.{IsApart}
use k8s_lite.Controllers.Endpoints.{Sort}
use k8s_lite.Controllers.Isolation.ReplicaSets.{replica_sets_reconcile_kept}
use k8s_lite.Controllers.Isolation.Deployments.{deployments_reconcile_kept}
use k8s_lite.Controllers.Isolation.Services.{sync_services_kept}
use k8s_lite.Controllers.Deployments as Ds
use k8s_lite.Controllers.Endpoints as Es
use k8s_lite.Scheduler.{Numbers, schedule_one_round}
use k8s_lite.Scheduler.Isolation.{schedule_one_round_kept}
use k8s_lite.Kubelet.Runtime.{Runtime}
use k8s_lite.Kubelet.Prober.{Prober}
use k8s_lite.Kubelet.Agent.{Walk, Kubelet, new_node, register, run_sync, on_cluster}
use k8s_lite.Kubelet.Agent.Isolation.{run_sync_kept}
use k8s_lite.Commands.Manager.{Controller, replica_sets, deployments, services, round}

-- The cluster, and each node's container engine and connections of probes.
pub record Machines (Bytes Blob S P : Type 0) : Type 0 where
  pub cluster : World Bytes Blob
  pub engines : String → S
  pub attempts : String → P

pub data Turn : Type 0 where
  controller : Controller → Turn
  scheduler : Turn
  -- A kubelet registers its node, or makes a round.
  joins : String → Time → Turn
  kubelet : String → Turn

abbrev pub update : {A : Type 0} → String → A → (String → A) → String → A
update n a f m = if str_eq n m then a else f m

module _ {S P : Type 0} (runtime : Runtime S) (prober : Prober P) (walk : Walk) (sort : Sort)
    (numbers : Numbers) ⦃json : Json⦄ ⦃env : Env json.Bytes⦄ where
  abbrev pub System : Type 0
  System = Machines json.Bytes json.Blob S P

  abbrev pub host_of : String → System → Kubelet runtime prober
  host_of n m = record { cluster = m.cluster; engine = m.engines n; attempts = m.attempts n }

  abbrev pub back : String → Kubelet runtime prober → System → System
  back n h m = record {
    cluster = h.cluster;
    engines = update n h.engine m.engines;
    attempts = update n h.attempts m.attempts;
  }

  unfoldable pub turn : Turn → System → System
  unfolding round
  turn (controller k) m = record m { cluster = (round sort k m.cluster).1 }
  turn scheduler m = record m { cluster = (schedule_one_round numbers m.cluster).1 }
  turn (joins n now) m = back n (register runtime prober n now (host_of n m)).1 m
  turn (kubelet n) m = back n (run_sync runtime prober walk n (host_of n m)).1 m

  unfoldable pub turns : List Turn → System → System
  unfolding turn
  turns [] m = m
  turns (t ∷ ts) m = turns ts (turn t m)

  turn_kept :
      (t : Turn) (m : System) (j : String) (b : json.Bytes)
      → IsApart pods j
      → IsApart replicasets j
      → IsApart endpoints j
      → view m.cluster.store j ≡ some b
      → view (turn t m).cluster.store j ≡ some b
  unfolding turn round register on_cluster
  turn_kept (controller replica_sets) m j b p r e h = replica_sets_reconcile_kept m.cluster j p ∙ h
  turn_kept (controller deployments) m j b p r e h =
      ap (λ (v : Cluster). view v.store j) (state-bind-pure Ds.reconcile (λ _. tt) m.cluster)
      ∙ deployments_reconcile_kept m.cluster j r
      ∙ h
  turn_kept (controller services) m j b p r e h =
      ap (λ (v : Cluster). view v.store j)
        (state-bind-pure (Es.sync_services sort) (λ _. tt) m.cluster)
      ∙ sync_services_kept sort m.cluster j e
      ∙ h
  turn_kept scheduler m j b p r e h = schedule_one_round_kept numbers m.cluster j p ∙ h
  turn_kept (joins n now) m j b p r e h = register_node_kept (new_node n now) m.cluster j b h
  turn_kept (kubelet n) m j b p r e h = run_sync_kept runtime prober walk n (host_of n m) j p ∙ h

  -- Whatever rounds of the controllers, the scheduler and the kubelets come, in whatever order, and
  -- whatever nodes join, and whatever the network, the engines and the probes answer, an object
  -- that exists and is neither a pod nor a ReplicaSet nor an Endpoints stays as it is.
  pub turns_kept :
      (ts : List Turn) (m : System) (j : String) (b : json.Bytes)
      → IsApart pods j
      → IsApart replicasets j
      → IsApart endpoints j
      → view m.cluster.store j ≡ some b
      → view (turns ts m).cluster.store j ≡ some b
  unfolding turns
  turns_kept [] m j b p r e h = h
  turns_kept (t ∷ ts) m j b p r e h = turns_kept ts (turn t m) j b p r e (turn_kept t m j b p r e h)
