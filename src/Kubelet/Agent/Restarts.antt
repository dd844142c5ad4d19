-- ===== src/Kubelet/Agent/Restarts.antt =====
-- The commands that a round of internal/kubelet/agent.go gives to Docker.
use k8s_lite.Prelude.{
  arith, String, ◌≡◌, inl, inr, refl, ap, ◌∙◌, Bool, true, false, Option, none, some, List, [], ◌∷◌,
  if◌then◌else◌, starts_with, ℤ, pos, Flow, ret, Exec, pure, continue, ◌>>=◌, state-bind-pure,
  ret_inj, Option-cases,
}
use k8s_lite.Api.Pods.{Pod, Container, Probe}
use k8s_lite.Api.Stored.{Json}
use k8s_lite.Cluster.{Env}
use k8s_lite.Kubelet.Runtime.{
  Docker, Command, ContainerInfo, run_args, inspect_args, stop_args, docker_runtime,
  docker_run_container, docker_stop_container, docker_get_container_ip,
}
use k8s_lite.Kubelet.Prober.{Prober}
use k8s_lite.Kubelet.Agent.Round.{
  Kubelet, reconcile_found, reconcile_containers, check_running, check_probe, restart, after_probe,
  on_network, on_engine, find_named, with_ip,
}

-- The commands that start the containers of a pod, the last one first.
abbrev pub started : Pod → List Container → List Command → List Command
started pod [] s = s
started pod (c ∷ cs) s = started pod cs (run_args pod c ∷ s)

module _ {P : Type 0} (docker : Docker) (prober : Prober P) ⦃json : Json⦄
    ⦃env : Env json.Bytes⦄ where
  abbrev DockerHost : Type 0
  DockerHost = Kubelet (docker_runtime docker) prober

  -- A container in the state "exited", as Docker names one that has ended, with no liveness probe
  -- is not started again: the test for the prefix "Exit" does not fit, and all that Docker is
  -- asked is its address.
  pub exited_left :
      (pod : Pod) (spec : Container) (rc : ContainerInfo) (h : DockerHost)
      → rc.state ≡ "exited"
      → spec.liveness_probe ≡ none
      → (reconcile_found (docker_runtime docker) prober pod spec rc h).1.engine
        ≡ inspect_args rc.id ∷ h.engine
  unfolding reconcile_found docker_get_container_ip
  exited_left pod spec rc h e n = rw (e, n) refl

  -- A pod with no container is started whole: `docker run` is called exactly once for each container
  -- of its spec, in order, also when some of these calls fail.
  pub reconcile_containers_missing :
      (specs : List Container) (pod : Pod) (h : DockerHost)
      → (reconcile_containers (docker_runtime docker) prober [] specs pod h)
        ≡ (ret pod, record h { engine = started pod specs h.engine })
  unfolding reconcile_containers docker_run_container find_named
  reconcile_containers_missing [] pod h = refl
  reconcile_containers_missing (spec ∷ specs) pod h =
      reconcile_containers_missing specs pod (record h { engine = run_args pod spec ∷ h.engine })

  pub stop_returns :
      (id : String) (t : ℤ) (s : List Command)
      → (r : Option (Unit {0})) × ((docker_stop_container docker id t s).0 ≡ ret r)
  unfolding docker_stop_container
  stop_returns id t s = elim (Option-cases (docker.output s (stop_args docker id t))) [
    | inl e ↦ (none, rw e refl)
    | inr r ↦ (some tt, rw (r.1) refl)
  ]

  engine-restart :
      (pod : Pod) (spec : Container) (rc : ContainerInfo) (t : ℤ) (h : DockerHost)
      → (restart (docker_runtime docker) prober pod spec rc t h).1.engine
        ≡ run_args pod spec ∷ (docker_stop_container docker rc.id t h.engine).1
  unfolding restart on_engine docker_run_container
  engine-restart pod spec rc t h = rw ((stop_returns rc.id t h.engine).1) refl

  engine-probe :
      (pod : Pod) (spec : Container) (rc : ContainerInfo) (h : DockerHost) (r : Flow (Option Bool))
      (passes : Bool)
      → r ≡ ret (some passes)
      → (continue r (after_probe (docker_runtime docker) prober pod spec rc) h).1.engine ≡ (
          if passes
          then h.engine
          else run_args pod spec ∷ (docker_stop_container docker rc.id (pos 1) h.engine).1)
  unfolding after_probe
  engine-probe pod spec rc h r true q = rw q refl
  engine-probe pod spec rc h r false q = rw q (engine-restart pod spec rc (pos 1) h)

  pure_kept :
      {A B : Type 0} (m : Exec DockerHost A) (b : B) (h : DockerHost)
      → ((m >>= λ _. pure b) h).1 ≡ (m h).1
  pure_kept m b h = state-bind-pure m (λ _. b) h

  engine-check_running :
      (pod : Pod) (spec : Container) (rc : ContainerInfo) (p : Probe) (h : DockerHost)
      (passes : Bool)
      → spec.liveness_probe ≡ some p
      → (prober pod spec p h.attempts).0 ≡ ret (some passes)
      → (check_running (docker_runtime docker) prober spec rc pod h).1.engine ≡ (
          if passes
          then h.engine
          else run_args pod spec ∷ (docker_stop_container docker rc.id (pos 1) h.engine).1)
  unfolding check_running check_probe on_network
  engine-check_running pod spec rc p h passes l r =
      ap (λ (x : DockerHost). x.engine)
        (pure_kept (check_probe (docker_runtime docker) prober pod spec rc spec.liveness_probe) pod
          h)
      ∙ ap (λ o. (check_probe (docker_runtime docker) prober pod spec rc o h).1.engine) l
      ∙ engine-probe pod spec rc (record h { attempts = (prober pod spec p h.attempts).1 }) _ passes
          r

  -- The commands that stop a container: `docker rm` is given only if `docker stop` succeeds.
  abbrev pub stop_commands : String → List Command → List Command
  stop_commands id s =
      let stop = stop_args docker id (pos 1) in
      elim (docker.output s stop) [ none ↦ stop ∷ s | some _ ↦ ("rm" ∷ id ∷ []) ∷ stop ∷ s ]

  engine-stop :
      (id : String) (s : List Command)
      → (docker_stop_container docker id (pos 1) s).1 ≡ stop_commands id s
  unfolding docker_stop_container
  engine-stop id s = elim (Option-cases (docker.output s (stop_args docker id (pos 1)))) [
    | inl e ↦ ground (arith, e)
    | inr (out, e) ↦ ground (arith, e)
  ]

  -- A container that is not found ended and has a liveness probe is asked for its address and
  -- probed with it. If the prober answers, nothing more is asked of Docker if the probe passes; if it
  -- fails, Docker is told to stop the container, with a grace of one second, to remove it if that
  -- succeeded, and in any case to run it anew.
  pub probe_decides :
      (pod : Pod) (spec : Container) (rc : ContainerInfo) (p : Probe) (h : DockerHost)
      (ip : Option String) (passes : Bool)
      → starts_with rc.state "Exit" ≡ false
      → spec.liveness_probe ≡ some p
      → (docker_get_container_ip docker rc.id h.engine).0 ≡ ret ip
      → (prober (with_ip ip pod) spec p h.attempts).0 ≡ ret (some passes)
      → (reconcile_found (docker_runtime docker) prober pod spec rc h).1.engine ≡ (
          if passes
          then inspect_args rc.id ∷ h.engine
          else run_args (with_ip ip pod) spec ∷ stop_commands rc.id (inspect_args rc.id ∷ h.engine))
  unfolding reconcile_found on_engine docker_get_container_ip
  probe_decides pod spec rc p h ip passes s l i r =
      let asked : DockerHost = record h { engine = inspect_args rc.id ∷ h.engine } in
      rw (s, ← engine-stop rc.id asked.engine)
        (ap
            (λ o.
              (check_running (docker_runtime docker) prober spec rc (with_ip o pod) asked).1.engine)
            (ret_inj _ _ i)
          ∙ engine-check_running (with_ip ip pod) spec rc p asked passes l r)
