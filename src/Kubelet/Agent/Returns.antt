-- ===== src/Kubelet/Agent/Returns.antt =====
-- A round of internal/kubelet/agent.go on a healthy cluster comes to its end.
use k8s_lite.Prelude.{
  String, ◌≡◌, refl, Bool, true, false, not, ◌||◌, Option, none, some, List, [], ◌∷◌, str_eq,
  starts_with, pos, ℤ, remove, ret, Exec, pure, ◌>>=◌, Bool-cases, inl, inr,
}
use k8s_lite.Api.Pods.{Pod, Container, Probe}
use k8s_lite.Api.Objects.{pods}
use k8s_lite.Api.Stored.{Json}
use k8s_lite.Cluster.{Env}
use k8s_lite.Client.{update_pod_status, update_pod}
use k8s_lite.Client.Progress.{IsHealthy}
use k8s_lite.Client.Named.{update_by_name_returns}
use k8s_lite.Kubelet.Runtime.{
  Docker, Command, ContainerInfo, docker_runtime, docker_run_container, docker_stop_container,
  docker_get_container_ip, container_name,
}
use k8s_lite.Kubelet.Prober.{Prober}
use k8s_lite.Kubelet.Agent.Restarts.{stop_returns}
use k8s_lite.Kubelet.Agent.Round.{
  Kubelet, Running, on_cluster, on_engine, on_network, restart, after_probe, check_probe,
  check_running, reconcile_found, reconcile_named, reconcile_containers, report, reconcile_pod,
  reconcile_pods, find_named, with_ip, with_phase, new_phase, containers_of,
}

-- The action returns from every state.
abbrev pub IsTotal : {S A : Type 0} → Exec S A → Type 0
IsTotal {S} {A} m = (s : S) → (a : A) × ((m s).0 ≡ ret a)

module _ {P : Type 0} (docker : Docker) (prober : Prober P) ⦃json : Json⦄
    ⦃env : Env json.Bytes⦄ where
  abbrev DockerHost : Type 0
  DockerHost = Kubelet (docker_runtime docker) prober

  -- On a healthy cluster the action returns, and leaves it healthy.
  abbrev pub Returns : {A : Type 0} → Exec DockerHost A → Type 0
  Returns {A} m =
      (h : DockerHost)
      → IsHealthy h.cluster
      → ((a : A) × ((m h).0 ≡ ret a)) × IsHealthy (m h).1.cluster

  Returns->>= :
      {A B : Type 0} (m : Exec DockerHost A) (f : A → Exec DockerHost B)
      → Returns m
      → ((a : A) → Returns (f a))
      → Returns (m >>= f)
  Returns->>= m f k l h g = let ((a, e), i) = k h g in rw e (l a (m h).1 i)

  on_engine-Returns :
      {A : Type 0} (m : Exec (List Command) A)
      → IsTotal m
      → Returns (on_engine (docker_runtime docker) prober m)
  unfolding on_engine
  on_engine-Returns m t h g = (t h.engine, g)

  on_network-Returns :
      {A : Type 0} (m : Exec P A)
      → IsTotal m
      → Returns (on_network (docker_runtime docker) prober m)
  unfolding on_network
  on_network-Returns m t h g = (t h.attempts, g)

  run-IsTotal : (pod : Pod) (c : Container) → IsTotal (docker_run_container docker pod c)
  unfolding docker_run_container
  run-IsTotal pod c s = (_, refl)

  ip-IsTotal : (id : String) → IsTotal (docker_get_container_ip docker id)
  unfolding docker_get_container_ip
  ip-IsTotal id s = (_, refl)

  restart-Returns :
      (pod : Pod) (spec : Container) (rc : ContainerInfo) (t : ℤ)
      → Returns (restart (docker_runtime docker) prober pod spec rc t)
  unfolding restart
  restart-Returns pod spec rc t =
      Returns->>= (on_engine (docker_runtime docker) prober (docker_stop_container docker rc.id t))
        _
        (on_engine-Returns (docker_stop_container docker rc.id t)
          (stop_returns docker prober rc.id t))
        (λ _.
          Returns->>=
            (on_engine (docker_runtime docker) prober (docker_run_container docker pod spec)) _
            (on_engine-Returns (docker_run_container docker pod spec) (run-IsTotal pod spec))
            (λ _ h g. ((tt, refl), g)))

  module _ (answers : (pod : Pod) (c : Container) (p : Probe) → IsTotal (prober pod c p)) where
    after_probe-Returns :
        (pod : Pod) (spec : Container) (rc : ContainerInfo) (r : Option Bool)
        → Returns (after_probe (docker_runtime docker) prober pod spec rc r)
    unfolding after_probe
    after_probe-Returns pod spec rc none h g = ((tt, refl), g)
    after_probe-Returns pod spec rc (some true) h g = ((tt, refl), g)
    after_probe-Returns pod spec rc (some false) h g = restart-Returns pod spec rc (pos 1) h g

    check_probe-Returns :
        (pod : Pod) (spec : Container) (rc : ContainerInfo) (p : Option Probe)
        → Returns (check_probe (docker_runtime docker) prober pod spec rc p)
    unfolding check_probe
    check_probe-Returns pod spec rc none h g = ((tt, refl), g)
    check_probe-Returns pod spec rc (some p) h g =
        Returns->>= (on_network (docker_runtime docker) prober (prober pod spec p)) _
          (on_network-Returns (prober pod spec p) (answers pod spec p))
          (after_probe-Returns pod spec rc) h g

    check_running-Returns :
        (spec : Container) (rc : ContainerInfo) (pod : Pod)
        → Returns (check_running (docker_runtime docker) prober spec rc pod)
    unfolding check_running
    check_running-Returns spec rc pod =
        Returns->>= (check_probe (docker_runtime docker) prober pod spec rc spec.liveness_probe) _
          (check_probe-Returns pod spec rc spec.liveness_probe) (λ _ h g. ((pod, refl), g))

    reconcile_found-Returns :
        (pod : Pod) (spec : Container) (rc : ContainerInfo)
        → Returns (reconcile_found (docker_runtime docker) prober pod spec rc)
    unfolding reconcile_found
    reconcile_found-Returns pod spec rc h g = elim (Bool-cases (starts_with rc.state "Exit")) [
      | inl e ↦ rw e (
          Returns->>= (restart (docker_runtime docker) prober pod spec rc (pos 0)) (λ _. pure pod)
            (restart-Returns pod spec rc (pos 0)) (λ _ h g. ((pod, refl), g)) h g)
      | inr e ↦ rw e (
          Returns->>=
            (on_engine (docker_runtime docker) prober (docker_get_container_ip docker rc.id))
            (λ ip. check_running (docker_runtime docker) prober spec rc (with_ip ip pod))
            (on_engine-Returns (docker_get_container_ip docker rc.id) (ip-IsTotal rc.id))
            (λ ip. check_running-Returns spec rc (with_ip ip pod)) h g)
    ]

    reconcile_named-Returns :
        (pod : Pod) (spec : Container) (o : Option ContainerInfo)
        → Returns (reconcile_named (docker_runtime docker) prober pod spec o)
    unfolding reconcile_named
    reconcile_named-Returns pod spec none =
        Returns->>=
          (on_engine (docker_runtime docker) prober (docker_run_container docker pod spec)) _
          (on_engine-Returns (docker_run_container docker pod spec) (run-IsTotal pod spec))
          (λ _ h g. ((pod, refl), g))
    reconcile_named-Returns pod spec (some rc) = reconcile_found-Returns pod spec rc

    reconcile_containers-Returns :
        (running : List ContainerInfo) (specs : List Container) (pod : Pod)
        → Returns (reconcile_containers (docker_runtime docker) prober running specs pod)
    unfolding reconcile_containers
    reconcile_containers-Returns running [] pod = λ h g. ((pod, refl), g)
    reconcile_containers-Returns running (spec ∷ specs) pod =
        let found = find_named (container_name pod spec) running in
        Returns->>= (reconcile_named (docker_runtime docker) prober pod spec found)
          (reconcile_containers (docker_runtime docker) prober running specs)
          (reconcile_named-Returns pod spec found) (reconcile_containers-Returns running specs)

    report-Returns :
        (running : List ContainerInfo) (pod : Pod)
        → Returns (report (docker_runtime docker) prober running pod)
    unfolding report on_cluster update_pod_status update_pod
    report-Returns running pod h g =
        elim (Bool-cases (
          not (str_eq pod.status.phase (new_phase running)) || not (str_eq pod.status.pod_ip ""))) [
            | inl e ↦
                let new = with_phase (new_phase running) pod in
                let ((r, q), v) = update_by_name_returns pods new h.cluster g in
                rw (e, q) ((tt, refl), v)
            | inr e ↦ rw e (((tt, refl), g))
          ]

    pub reconcile_pods-Returns :
        (ps : List Pod) (running : Running)
        → Returns (reconcile_pods (docker_runtime docker) prober ps running)
    unfolding reconcile_pods reconcile_pod
    reconcile_pods-Returns [] running = λ h g. ((running, refl), g)
    reconcile_pods-Returns (pod ∷ ps) running =
        let cs = containers_of pod.name running in
        Returns->>= (reconcile_pod (docker_runtime docker) prober pod cs)
          (λ _. reconcile_pods (docker_runtime docker) prober ps (remove pod.name running))
          (Returns->>=
            (reconcile_containers (docker_runtime docker) prober cs pod.spec.containers pod)
            (report (docker_runtime docker) prober cs)
            (reconcile_containers-Returns cs pod.spec.containers pod) (report-Returns cs))
          (λ _. reconcile_pods-Returns ps (remove pod.name running))
