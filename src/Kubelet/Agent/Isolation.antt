-- ===== src/Kubelet/Agent/Isolation.antt =====
-- What a round of internal/kubelet/agent.go does to the objects of the API server.
use k8s_lite.Prelude.{
  String, ◌≡◌, refl, ap, ◌∙◌, Bool, true, false, not, ◌||◌, Option, none, some, List, [], ◌∷◌,
  str_eq, ℤ, pos, starts_with, keep, remove, Flow, ret, blocked, panicked, Exec, pure, continue,
  ◌>>=◌, Bool-cases, inl, inr,
}
use k8s_lite.Api.Pods.{Pod, Container, Probe}
use k8s_lite.Api.Objects.{pods}
use k8s_lite.Api.Stored.{Json}
use k8s_lite.Storage.Spec.{view}
use k8s_lite.Cluster.{Env, Cluster}
use k8s_lite.Client.{Reply, success, failed, list_pods, update_pod_status, update_pod}
use k8s_lite.Client.Effects.{store-list}
use k8s_lite.Client.Named.{update_by_name_apart}
use k8s_lite.Client.Apart.{IsApart}
use k8s_lite.Kubelet.Runtime.{Runtime, ContainerInfo, container_name}
use k8s_lite.Kubelet.Prober.{Prober}
use k8s_lite.Kubelet.Agent.Round.{
  Kubelet, Walk, Running, on_cluster, on_engine, on_network, restart, after_probe, check_probe,
  check_running, reconcile_found, reconcile_named, reconcile_containers, report, reconcile_pod,
  reconcile_pods, stop_all, clean_up, with_containers, with_pods, run_sync, find_named, with_ip,
  with_phase, new_phase, containers_of, group, is_mine,
}

module _ {S P : Type 0} (runtime : Runtime S) (prober : Prober P) ⦃json : Json⦄
    ⦃env : Env json.Bytes⦄ where
  -- The action leaves the key alone, wherever it starts.
  abbrev Keeps : {A : Type 0} → String → Exec (Kubelet runtime prober) A → Type 0
  Keeps j m = (h : Kubelet runtime prober) → view (m h).1.cluster.store j ≡ view h.cluster.store j

  Keeps->>= :
      {A B : Type 0} (j : String) (m : Exec (Kubelet runtime prober) A)
      (f : A → Exec (Kubelet runtime prober) B)
      → Keeps j m
      → ((a : A) → Keeps j (f a))
      → Keeps j (m >>= f)
  Keeps->>= {A = A} j m f k l h = kept (m h).0 refl
    where
      kept :
          (r : Flow A)
          → (m h).0 ≡ r
          → view (continue r f (m h).1).1.cluster.store j ≡ view h.cluster.store j
      kept (ret a) q = l a (m h).1 ∙ k h
      kept blocked q = k h
      kept panicked q = k h

  on_engine-Keeps : {A : Type 0} (j : String) (m : Exec S A) → Keeps j (on_engine runtime prober m)
  unfolding on_engine
  on_engine-Keeps j m h = refl

  on_network-Keeps :
      {A : Type 0} (j : String) (m : Exec P A) → Keeps j (on_network runtime prober m)
  unfolding on_network
  on_network-Keeps j m h = refl

  on_cluster-Keeps :
      {A : Type 0} (j : String) (m : Exec Cluster A)
      → ((w : Cluster) → view (m w).1.store j ≡ view w.store j)
      → Keeps j (on_cluster runtime prober m)
  unfolding on_cluster
  on_cluster-Keeps j m k h = k h.cluster

  restart-Keeps :
      (j : String) (pod : Pod) (spec : Container) (rc : ContainerInfo) (t : ℤ)
      → Keeps j (restart runtime prober pod spec rc t)
  unfolding restart
  restart-Keeps j pod spec rc t =
      Keeps->>= j (on_engine runtime prober (runtime.stop_container rc.id t)) _
        (on_engine-Keeps j (runtime.stop_container rc.id t))
        (λ _.
          Keeps->>= j (on_engine runtime prober (runtime.run_container pod spec)) _
            (on_engine-Keeps j (runtime.run_container pod spec)) (λ _ h. refl))

  after_probe-Keeps :
      (j : String) (pod : Pod) (spec : Container) (rc : ContainerInfo) (r : Option Bool)
      → Keeps j (after_probe runtime prober pod spec rc r)
  unfolding after_probe
  after_probe-Keeps j pod spec rc none h = refl
  after_probe-Keeps j pod spec rc (some true) h = refl
  after_probe-Keeps j pod spec rc (some false) h = restart-Keeps j pod spec rc (pos 1) h

  check_probe-Keeps :
      (j : String) (pod : Pod) (spec : Container) (rc : ContainerInfo) (p : Option Probe)
      → Keeps j (check_probe runtime prober pod spec rc p)
  unfolding check_probe
  check_probe-Keeps j pod spec rc none h = refl
  check_probe-Keeps j pod spec rc (some p) h =
      Keeps->>= j (on_network runtime prober (prober pod spec p))
        (after_probe runtime prober pod spec rc) (on_network-Keeps j (prober pod spec p))
        (after_probe-Keeps j pod spec rc) h

  check_running-Keeps :
      (j : String) (spec : Container) (rc : ContainerInfo) (pod : Pod)
      → Keeps j (check_running runtime prober spec rc pod)
  unfolding check_running
  check_running-Keeps j spec rc pod =
      Keeps->>= j (check_probe runtime prober pod spec rc spec.liveness_probe) _
        (check_probe-Keeps j pod spec rc spec.liveness_probe) (λ _ h. refl)

  reconcile_found-Keeps :
      (j : String) (pod : Pod) (spec : Container) (rc : ContainerInfo)
      → Keeps j (reconcile_found runtime prober pod spec rc)
  unfolding reconcile_found
  reconcile_found-Keeps j pod spec rc h = elim (Bool-cases (starts_with rc.state "Exit")) [
    | inl e ↦ rw e (
        Keeps->>= j (restart runtime prober pod spec rc (pos 0)) (λ _. pure pod)
          (restart-Keeps j pod spec rc (pos 0)) (λ _ h. refl) h)
    | inr e ↦ rw e (
        Keeps->>= j (on_engine runtime prober (runtime.get_container_ip rc.id))
          (λ ip. check_running runtime prober spec rc (with_ip ip pod))
          (on_engine-Keeps j (runtime.get_container_ip rc.id))
          (λ ip. check_running-Keeps j spec rc (with_ip ip pod)) h)
  ]

  reconcile_named-Keeps :
      (j : String) (pod : Pod) (spec : Container) (found : Option ContainerInfo)
      → Keeps j (reconcile_named runtime prober pod spec found)
  unfolding reconcile_named
  reconcile_named-Keeps j pod spec none =
      Keeps->>= j (on_engine runtime prober (runtime.run_container pod spec)) _
        (on_engine-Keeps j (runtime.run_container pod spec)) (λ _ h. refl)
  reconcile_named-Keeps j pod spec (some rc) = reconcile_found-Keeps j pod spec rc

  reconcile_containers-Keeps :
      (j : String) (running : List ContainerInfo) (specs : List Container) (pod : Pod)
      → Keeps j (reconcile_containers runtime prober running specs pod)
  unfolding reconcile_containers
  reconcile_containers-Keeps j running [] pod = λ h. refl
  reconcile_containers-Keeps j running (spec ∷ specs) pod =
      let found = find_named (container_name pod spec) running in
      Keeps->>= j (reconcile_named runtime prober pod spec found)
        (reconcile_containers runtime prober running specs) (reconcile_named-Keeps j pod spec found)
        (reconcile_containers-Keeps j running specs)

  report-Keeps :
      (j : String) (running : List ContainerInfo) (pod : Pod)
      → IsApart pods j
      → Keeps j (report runtime prober running pod)
  unfolding report update_pod_status update_pod
  report-Keeps j running pod a h =
      elim (Bool-cases
        (not (str_eq pod.status.phase (new_phase running)) || not (str_eq pod.status.pod_ip ""))) [
          | inl e ↦ rw e (
              Keeps->>= j
                (on_cluster runtime prober (update_pod_status (with_phase (new_phase running) pod)))
                (λ _. pure tt)
                (on_cluster-Keeps j (update_pod_status (with_phase (new_phase running) pod))
                  (λ w. update_by_name_apart pods (with_phase (new_phase running) pod) w j a))
                (λ _ h. refl) h)
          | inr e ↦ rw e refl
        ]

  reconcile_pod-Keeps :
      (j : String) (pod : Pod) (running : List ContainerInfo)
      → IsApart pods j
      → Keeps j (reconcile_pod runtime prober pod running)
  unfolding reconcile_pod
  reconcile_pod-Keeps j pod running a =
      Keeps->>= j (reconcile_containers runtime prober running pod.spec.containers pod)
        (report runtime prober running)
        (reconcile_containers-Keeps j running pod.spec.containers pod)
        (λ p. report-Keeps j running p a)

  reconcile_pods-Keeps :
      (j : String) (ps : List Pod) (running : Running)
      → IsApart pods j
      → Keeps j (reconcile_pods runtime prober ps running)
  unfolding reconcile_pods
  reconcile_pods-Keeps j [] running a = λ h. refl
  reconcile_pods-Keeps j (p ∷ ps) running a =
      let cs = containers_of p.name running in
      Keeps->>= j (reconcile_pod runtime prober p cs) _ (reconcile_pod-Keeps j p cs a)
        (λ _. reconcile_pods-Keeps j ps (remove p.name running) a)

  stop_all-Keeps : (j : String) (cs : List ContainerInfo) → Keeps j (stop_all runtime prober cs)
  unfolding stop_all
  stop_all-Keeps j [] = λ h. refl
  stop_all-Keeps j (c ∷ cs) =
      Keeps->>= j (on_engine runtime prober (runtime.stop_container c.id (pos 0))) _
        (on_engine-Keeps j (runtime.stop_container c.id (pos 0))) (λ _. stop_all-Keeps j cs)

  clean_up-Keeps : (j : String) (left : Running) → Keeps j (clean_up runtime prober left)
  unfolding clean_up
  clean_up-Keeps j [] h = refl
  clean_up-Keeps j ((name, cs) ∷ left) h =
      let rest = clean_up-Keeps j left in
      elim (Bool-cases (str_eq name "")) [
        | inl e ↦ rw e (rest h)
        | inr e ↦ rw e (
            Keeps->>= j (stop_all runtime prober cs) (λ _. clean_up runtime prober left)
              (stop_all-Keeps j cs) (λ _. rest) h)
      ]

  module _ (walk : Walk) (node_name : String) where
    with_containers-Keeps :
        (j : String) (ps : List Pod) (found : Option (List ContainerInfo))
        → IsApart pods j
        → Keeps j (with_containers runtime prober walk node_name ps found)
    unfolding with_containers
    with_containers-Keeps j ps none a = λ h. refl
    with_containers-Keeps j ps (some cs) a =
        Keeps->>= j (reconcile_pods runtime prober ps (group cs)) _
          (reconcile_pods-Keeps j ps (group cs) a) (λ left. clean_up-Keeps j (walk.walk left))

    with_pods-Keeps :
        (j : String) (r : Reply (List Pod))
        → IsApart pods j
        → Keeps j (with_pods runtime prober walk node_name r)
    unfolding with_pods
    with_pods-Keeps j (failed e) a = λ h. refl
    with_pods-Keeps j (success ps) a =
        let mine = keep (is_mine node_name) ps in
        Keeps->>= j (on_engine runtime prober runtime.list_containers)
          (with_containers runtime prober walk node_name mine)
          (on_engine-Keeps j runtime.list_containers)
          (λ found. with_containers-Keeps j mine found a)

    -- A whole round of a kubelet changes and makes no object but pods, whatever the network, the
    -- container engine and the probes answer.
    pub run_sync_kept :
        (h : Kubelet runtime prober) (j : String)
        → IsApart pods j
        → view (run_sync runtime prober walk node_name h).1.cluster.store j ≡ view h.cluster.store j
    unfolding run_sync list_pods
    run_sync_kept h j a =
        Keeps->>= j (on_cluster runtime prober (list_pods node_name))
          (with_pods runtime prober walk node_name)
          (on_cluster-Keeps j (list_pods node_name) (λ w. ap (λ s. view s j) (store-list pods w)))
          (λ r. with_pods-Keeps j r a) h
