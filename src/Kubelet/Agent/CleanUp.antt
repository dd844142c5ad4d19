-- ===== src/Kubelet/Agent/CleanUp.antt =====
-- The containers that step 3.B of internal/kubelet/agent.go stops.
use mathlib.Core.List.{Mem}
use mathlib.Core.List.Perm
use k8s_lite.Prelude.{
  String, ◌≡◌, refl, ap, sym, ◌∙◌, subst, false, some, List, [], ◌∷◌, str_eq, pos, Flow, ret,
  lookup, remove, lookup-remove, ret-bind, All,
}
use k8s_lite.Api.Pods.{Pod, Container, Probe}
use k8s_lite.Api.Stored.{Json}
use k8s_lite.Cluster.{Env}
use k8s_lite.Kubelet.Runtime.{Docker, ContainerInfo, stop_args, docker_runtime}
use k8s_lite.Kubelet.Prober.{Prober}
use k8s_lite.Kubelet.Agent.Round.{
  Kubelet, Running, Walk, clean_up, reconcile_pod, reconcile_pods, containers_of, group,
  with_containers,
}
use k8s_lite.Kubelet.Agent.Groups.{containers_of-group}
use k8s_lite.Kubelet.Agent.Lookups.{lookup_of_containers, mem_of_lookup, mem-named_for}
use k8s_lite.Kubelet.Agent.Stops.{clean_up-stops, clean_up-Grows}
use k8s_lite.Kubelet.Agent.Returns.{IsTotal, reconcile_pods-Returns}
use k8s_lite.Client.Progress.{IsHealthy}

module _ {P : Type 0} (docker : Docker) (prober : Prober P) ⦃json : Json⦄
    ⦃env : Env json.Bytes⦄ where
  abbrev DockerHost : Type 0
  DockerHost = Kubelet (docker_runtime docker) prober

  -- The pods of the round take their names out of the map, and leave the other names.
  lookup-reconcile_pods :
      (ps : List Pod) (running left : Running) (name : String) (h : DockerHost)
      → All (λ p. str_eq p.name name ≡ false) ps
      → (reconcile_pods (docker_runtime docker) prober ps running h).0 ≡ ret left
      → lookup name left ≡ lookup name running
  unfolding reconcile_pods
  lookup-reconcile_pods [] running left name h a e = cc e
  lookup-reconcile_pods (p ∷ ps) running left name h a e =
      let cs = containers_of p.name running in
      let (r, q, s) =
        ret-bind (reconcile_pod (docker_runtime docker) prober p cs)
          (λ _. reconcile_pods (docker_runtime docker) prober ps (remove p.name running)) h e in
      lookup-reconcile_pods ps (remove p.name running) left name
        (reconcile_pod (docker_runtime docker) prober p cs h).1 a.1
        (ap (λ (x : Flow Running × DockerHost). x.0) (sym s) ∙ e)
      ∙ lookup-remove p.name name running
      ∙ rw a.0 refl

  -- If step 3 of a round runs to its end, every listed container whose label is not empty and is
  -- the name of no pod of the round has been stopped, in whichever order the map's entries are
  -- walked and whatever the network and Docker answer.
  pub with_containers_stops :
      (walk : Walk) (node_name : String) (my_pods : List Pod) (cs : List ContainerInfo)
      (c : ContainerInfo) (h : DockerHost)
      → (with_containers (docker_runtime docker) prober walk node_name my_pods (some cs) h).0
        ≡ ret tt
      → Mem c cs
      → str_eq c.pod_name "" ≡ false
      → All (λ p. str_eq p.name c.pod_name ≡ false) my_pods
      → Mem
          (stop_args docker c.id (pos 0))
          (with_containers
            (docker_runtime docker)
            prober
            walk
            node_name
            my_pods
            (some cs)
            h).1.engine
  unfolding with_containers
  with_containers_stops walk node_name my_pods cs c h e m f a =
      let name = c.pod_name in
      let (left, q, s) =
        ret-bind (reconcile_pods (docker_runtime docker) prober my_pods (group cs))
          (λ l. clean_up (docker_runtime docker) prober (walk.walk l)) h e in
      let mine = containers_of-group name cs in
      let k = subst (λ ds. Mem c ds) (sym mine) (mem-named_for name cs c m refl) in
      let found =
        lookup-reconcile_pods my_pods (group cs) left name h a q
        ∙ lookup_of_containers name (group cs) c k in
      let entry = mem_of_lookup name (containers_of name (group cs)) left found in
      rw s (
        clean_up-stops docker prober (walk.walk left) name (containers_of name (group cs)) c
          (reconcile_pods (docker_runtime docker) prober my_pods (group cs) h).1 f
          ((Perm.mem_iff (walk.walk_perm left)).1 entry) k)

  -- On a healthy cluster, with a prober that always answers, step 3 of a round comes to its end, and
  -- then every listed container whose label is not empty and is the name of no pod of the round has
  -- been stopped, whatever Docker answers and in whichever order the map's entries are walked.
  pub orphans_stopped :
      (walk : Walk) (node_name : String) (my_pods : List Pod) (cs : List ContainerInfo)
      (c : ContainerInfo) (h : DockerHost)
      → ((pod : Pod) (spec : Container) (p : Probe) → IsTotal (prober pod spec p))
      → IsHealthy h.cluster
      → Mem c cs
      → str_eq c.pod_name "" ≡ false
      → All (λ p. str_eq p.name c.pod_name ≡ false) my_pods
      → ((with_containers (docker_runtime docker) prober walk node_name my_pods (some cs) h).0
          ≡ ret tt)
        × Mem
            (stop_args docker c.id (pos 0))
            (with_containers
              (docker_runtime docker)
              prober
              walk
              node_name
              my_pods
              (some cs)
              h).1.engine
  unfolding with_containers
  orphans_stopped walk node_name my_pods cs c h answers g m f a =
      let ((left, e), i) = reconcile_pods-Returns docker prober answers my_pods (group cs) h g in
      let done : (with_containers (docker_runtime docker) prober walk node_name my_pods (some cs)
            h).0
          ≡ ret tt =
        rw e
          (clean_up-Grows docker prober (walk.walk left)
            (reconcile_pods (docker_runtime docker) prober my_pods (group cs) h).1).0 in
      (done, with_containers_stops walk node_name my_pods cs c h done m f a)
