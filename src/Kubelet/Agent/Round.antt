-- ===== src/Kubelet/Agent/Round.antt =====
-- internal/kubelet/agent.go. The loop of syncLoop calls `run_sync`; what `range` does with the map
-- of the containers left over is a parameter.
use mathlib.Core.List.{Perm}
use k8s_lite.Prelude.{
  String, Bool, true, false, ◌||◌, not, Option, none, some, List, [], ◌∷◌, ◌++◌, if◌then◌else◌,
  str_eq, starts_with, Map, lookup, insert, remove, keep, ℤ, pos, Exec, pure, ◌>>=◌, repeat, ℕ,
}
use k8s_lite.Api.Meta.{Time, zero_type_meta, zero_object_meta}
use k8s_lite.Api.Nodes.{Node, zero_node_spec, zero_node_status}
use k8s_lite.Api.Pods.{Pod, Container, Probe}
use k8s_lite.Api.Stored.{Json}
use k8s_lite.Cluster.{Env, Cluster, World}
use k8s_lite.Client.{Reply, success, failed, register_node, list_pods, update_pod_status}
use k8s_lite.Kubelet.Runtime.{Runtime, ContainerInfo, container_name}
use k8s_lite.Kubelet.Prober.{Prober}

-- The map from a pod's name to its containers, as `range` walks it.
abbrev pub Running : Type 0
Running = Map (List ContainerInfo)

pub record Walk : Type 0 where
  pub walk : Running → Running
  pub walk_perm : (m : Running) → Perm (walk m) m

unfoldable pub new_node : String → Time → Node
new_node node_name now = record {
  type_meta = zero_type_meta;
  metadata = record zero_object_meta {
    name = node_name;
    labels = ("kubernetes.io/hostname", node_name) ∷ [];
  };
  spec = zero_node_spec;
  status = record zero_node_status {
    conditions = record { type = "Ready"; status = "True"; last_heartbeat_time = now } ∷ [];
  };
}

-- `m[k]`, which is nil for a missing key
unfoldable pub containers_of : String → Running → List ContainerInfo
containers_of k m = elim (lookup k m) [ none ↦ [] | some cs ↦ cs ]

-- The loop that fills runningPods, from what it holds.
unfoldable pub group_into : Running → List ContainerInfo → Running
unfolding containers_of
group_into m [] = m
group_into m (c ∷ cs) = group_into (insert c.pod_name (containers_of c.pod_name m ++ c ∷ []) m) cs

unfoldable pub group : List ContainerInfo → Running
group = group_into []

-- The loop over the running containers, which ends at the first with the name.
unfoldable pub find_named : String → List ContainerInfo → Option ContainerInfo
find_named name [] = none
find_named name (rc ∷ rcs) = if str_eq rc.name name then some rc else find_named name rcs

unfoldable pub with_ip : Option String → Pod → Pod
with_ip none pod = pod
with_ip (some ip) pod =
    if str_eq ip "" then pod else record pod { status = record pod.status { pod_ip = ip } }

unfoldable pub new_phase : List ContainerInfo → String
new_phase [] = "Pending"
new_phase (_ ∷ _) = "Running"

unfoldable pub with_phase : String → Pod → Pod
with_phase phase pod = record pod { status = record pod.status { phase = phase } }

unfoldable pub is_mine : String → Pod → Bool
is_mine node_name pod = str_eq pod.spec.node_name node_name

-- What a kubelet acts on: the cluster, its container engine, and what its probes reach.
pub record Host (Bytes Blob S P : Type 0) : Type 0 where
  pub cluster : World Bytes Blob
  pub engine : S
  pub attempts : P

module _ {S P : Type 0} (runtime : Runtime S) (prober : Prober P) ⦃json : Json⦄
    ⦃env : Env json.Bytes⦄ where
  abbrev pub Kubelet : Type 0
  Kubelet = Host json.Bytes json.Blob S P

  unfoldable pub on_cluster : {A : Type 0} → Exec Cluster A → Exec Kubelet A
  on_cluster m h = let (r, w) = m h.cluster in (r, record h { cluster = w })

  unfoldable pub on_engine : {A : Type 0} → Exec S A → Exec Kubelet A
  on_engine m h = let (r, s) = m h.engine in (r, record h { engine = s })

  unfoldable pub on_network : {A : Type 0} → Exec P A → Exec Kubelet A
  on_network m h = let (r, s) = m h.attempts in (r, record h { attempts = s })

  unfoldable pub register : String → Time → Exec Kubelet (Reply (Unit {0}))
  unfolding on_cluster
  register node_name now = on_cluster (register_node (new_node node_name now))

  -- Stop and run again; the errors are not looked at.
  unfoldable pub restart : Pod → Container → ContainerInfo → ℤ → Exec Kubelet (Unit {0})
  unfolding on_engine
  restart pod spec rc timeout_seconds =
      on_engine (runtime.stop_container rc.id timeout_seconds) >>= λ _.
      on_engine (runtime.run_container pod spec) >>= λ _. pure tt

  unfoldable pub after_probe :
      Pod → Container → ContainerInfo → Option Bool → Exec Kubelet (Unit {0})
  after_probe pod spec rc none = pure tt
  after_probe pod spec rc (some true) = pure tt
  after_probe pod spec rc (some false) = restart pod spec rc (pos 1)

  unfoldable pub check_probe :
      Pod → Container → ContainerInfo → Option Probe → Exec Kubelet (Unit {0})
  unfolding on_network after_probe
  check_probe pod spec rc none = pure tt
  check_probe pod spec rc (some p) = on_network (prober pod spec p) >>= after_probe pod spec rc

  unfoldable pub check_running : Container → ContainerInfo → Pod → Exec Kubelet Pod
  unfolding check_probe
  check_running spec rc pod = check_probe pod spec rc spec.liveness_probe >>= λ _. pure pod

  unfoldable pub reconcile_found : Pod → Container → ContainerInfo → Exec Kubelet Pod
  unfolding on_engine restart check_running
  reconcile_found pod spec rc =
      if starts_with rc.state "Exit"
      then (restart pod spec rc (pos 0) >>= λ _. pure pod)
      else (on_engine (runtime.get_container_ip rc.id) >>= λ ip.
          check_running spec rc (with_ip ip pod))

  unfoldable pub reconcile_named : Pod → Container → Option ContainerInfo → Exec Kubelet Pod
  unfolding on_engine reconcile_found
  reconcile_named pod spec none = on_engine (runtime.run_container pod spec) >>= λ _. pure pod
  reconcile_named pod spec (some rc) = reconcile_found pod spec rc

  -- The loop over the containers of the spec; it may change the pod's IP.
  unfoldable pub reconcile_containers : List ContainerInfo → List Container → Pod → Exec Kubelet Pod
  unfolding reconcile_named
  reconcile_containers running [] pod = pure pod
  reconcile_containers running (spec ∷ specs) pod =
      reconcile_named pod spec (find_named (container_name pod spec) running)
      >>= reconcile_containers running specs

  unfoldable pub report : List ContainerInfo → Pod → Exec Kubelet (Unit {0})
  unfolding on_cluster
  report running pod =
      if not (str_eq pod.status.phase (new_phase running)) || not (str_eq pod.status.pod_ip "")
      then (on_cluster (update_pod_status (with_phase (new_phase running) pod)) >>= λ _. pure tt)
      else pure tt

  unfoldable pub reconcile_pod : Pod → List ContainerInfo → Exec Kubelet (Unit {0})
  unfolding reconcile_containers report
  reconcile_pod pod running =
      reconcile_containers running pod.spec.containers pod >>= report running

  -- Step 3.A; what is left of the map is the result.
  unfoldable pub reconcile_pods : List Pod → Running → Exec Kubelet Running
  unfolding reconcile_pod
  reconcile_pods [] running = pure running
  reconcile_pods (pod ∷ pods) running = reconcile_pod pod (containers_of pod.name running) >>= λ _.
      reconcile_pods pods (remove pod.name running)

  unfoldable pub stop_all : List ContainerInfo → Exec Kubelet (Unit {0})
  unfolding on_engine
  stop_all [] = pure tt
  stop_all (c ∷ cs) = on_engine (runtime.stop_container c.id (pos 0)) >>= λ _. stop_all cs

  -- Step 3.B, over the entries as they are walked.
  unfoldable pub clean_up : Running → Exec Kubelet (Unit {0})
  unfolding stop_all
  clean_up [] = pure tt
  clean_up ((name, cs) ∷ rest) =
      (if str_eq name "" then pure tt else stop_all cs) >>= λ _. clean_up rest

  module _ (walk : Walk) (node_name : String) where
    unfoldable pub with_containers :
        List Pod → Option (List ContainerInfo) → Exec Kubelet (Unit {0})
    unfolding reconcile_pods clean_up
    with_containers my_pods none = pure tt
    with_containers my_pods (some cs) =
        reconcile_pods my_pods (group cs) >>= λ left. clean_up (walk.walk left)

    unfoldable pub with_pods : Reply (List Pod) → Exec Kubelet (Unit {0})
    unfolding on_engine with_containers
    with_pods (failed e) = pure tt
    with_pods (success pods) =
        on_engine runtime.list_containers >>= with_containers (keep (is_mine node_name) pods)

    unfoldable pub run_sync : Exec Kubelet (Unit {0})
    unfolding on_cluster with_pods
    run_sync = on_cluster (list_pods node_name) >>= with_pods

    -- Start, whose context is done after n ticks of syncLoop; its error is that of registerNode.
    unfoldable pub sync_loop : ℕ → Exec Kubelet (Unit {0})
    unfolding repeat
    sync_loop n = repeat n run_sync

    abbrev pub after_register : ℕ → Reply (Unit {0}) → Exec Kubelet (Reply (Unit {0}))
    after_register n (failed e) = pure (failed e)
    after_register n (success _) = sync_loop n >>= λ _. pure (success tt)

    unfoldable pub start : Time → ℕ → Exec Kubelet (Reply (Unit {0}))
    unfolding register sync_loop
    start now n = register node_name now >>= after_register n
