-- ===== src/Kubelet/Agent/Stops.antt =====
-- The commands that the loops of step 3.B of internal/kubelet/agent.go give to Docker.
use mathlib.Core.Logic.Or
use mathlib.Core.List.{Mem, mem-cons, mem-cons_self, mem-cons_of_mem, not-mem-nil}
use k8s_lite.Prelude.{
  String, ◌≡◌, ◌⊎◌, inl, inr, refl, ap, subst, true, false, Option, none, some, List, [], ◌∷◌,
  str_eq, pos, Flow, ret, Exec, continue, Option-cases, Bool-cases,
}
use k8s_lite.Api.Stored.{Json}
use k8s_lite.Cluster.{Env}
use k8s_lite.Kubelet.Runtime.{
  Docker, Command, ContainerInfo, stop_args, docker_runtime, docker_stop_container,
}
use k8s_lite.Kubelet.Prober.{Prober}
use k8s_lite.Kubelet.Agent.Round.{Kubelet, Running, on_engine, stop_all, clean_up}

module _ {P : Type 0} (docker : Docker) (prober : Prober P) ⦃json : Json⦄
    ⦃env : Env json.Bytes⦄ where
  abbrev DockerHost : Type 0
  DockerHost = Kubelet (docker_runtime docker) prober

  -- What `docker stop` and `docker rm` add to the commands.
  stopped_cases :
      (id : String) (s : List Command)
      → (docker_stop_container docker id (pos 0) s ≡ (ret none, stop_args docker id (pos 0) ∷ s))
        ⊎ (docker_stop_container docker id (pos 0) s
            ≡ (ret (some tt), ("rm" ∷ id ∷ []) ∷ stop_args docker id (pos 0) ∷ s))
  unfolding docker_stop_container
  stopped_cases id s = elim (Option-cases (docker.output s (stop_args docker id (pos 0)))) [
    | inl e ↦ inl (rw e refl)
    | inr r ↦ inr (rw (r.1) refl)
  ]

  -- The action returns, and the commands grow.
  abbrev pub Grows : Exec DockerHost (Unit {0}) → Type 0
  Grows m =
      (h : DockerHost)
      → ((m h).0 ≡ ret tt) × ((x : Command) → Mem x h.engine → Mem x (m h).1.engine)

  stop_one : String → Exec DockerHost (Option (Unit {0}))
  stop_one id = on_engine (docker_runtime docker) prober (docker_stop_container docker id (pos 0))

  stop_one_lem :
      (id : String) (h : DockerHost)
      → (r : Option (Unit {0})) × (s : List Command) × (stop_one id h
          ≡ (ret r, record h { engine = s }))
        × Mem (stop_args docker id (pos 0)) s
        × ((x : Command) → Mem x h.engine → Mem x s)
  unfolding stop_one on_engine
  stop_one_lem id h = elim (stopped_cases id h.engine) [
    | inl e ↦ (
      none,
      stop_args docker id (pos 0) ∷ h.engine,
      rw e refl,
      mem-cons_self,
      λ x m. mem-cons_of_mem _ m,
    )
    | inr e ↦ (
      some tt,
      ("rm" ∷ id ∷ []) ∷ stop_args docker id (pos 0) ∷ h.engine,
      rw e refl,
      mem-cons_of_mem _ mem-cons_self,
      λ x m. mem-cons_of_mem _ (mem-cons_of_mem _ m),
    )
  ]

  stop_all-cons :
      (c : ContainerInfo) (cs : List ContainerInfo) (h : DockerHost) (r : Option (Unit {0}))
      (h' : DockerHost)
      → stop_one c.id h ≡ (ret r, h')
      → stop_all (docker_runtime docker) prober (c ∷ cs) h
        ≡ stop_all (docker_runtime docker) prober cs h'
  unfolding stop_all stop_one
  stop_all-cons c cs h r h' e =
      ap
        (λ (p : Flow (Option (Unit {0})) × DockerHost).
          continue p.0 (λ _. stop_all (docker_runtime docker) prober cs) p.1)
        e

  stop_all-Grows : (cs : List ContainerInfo) → Grows (stop_all (docker_runtime docker) prober cs)
  unfolding stop_all
  stop_all-Grows [] h = (refl, λ x m. m)
  stop_all-Grows (c ∷ cs) h =
      let (r, s, e, m, g) = stop_one_lem c.id h in
      let (a, b) = stop_all-Grows cs (record h { engine = s }) in
      rw (stop_all-cons c cs h r _ e) ((a, λ x k. b x (g x k)))

  stop_all-stops :
      (cs : List ContainerInfo) (c : ContainerInfo) (h : DockerHost)
      → Mem c cs
      → Mem (stop_args docker c.id (pos 0)) (stop_all (docker_runtime docker) prober cs h).1.engine
  stop_all-stops [] c h k = absurd (not-mem-nil k)
  stop_all-stops (d ∷ cs) c h k =
      let (r, s, e, m, g) = stop_one_lem d.id h in
      rw (stop_all-cons d cs h r _ e) (
        Or.elim (hlevel) (mem-cons.0 k)
          (λ q. (stop_all-Grows cs (record h { engine = s })).1 _ (rw q m))
          (λ q. stop_all-stops cs c (record h { engine = s }) q))

  clean_up-cons :
      (name : String) (cs : List ContainerInfo) (left : Running) (h : DockerHost)
      → str_eq name "" ≡ false
      → clean_up (docker_runtime docker) prober ((name, cs) ∷ left) h
        ≡ clean_up
            (docker_runtime docker)
            prober
            left
            (stop_all (docker_runtime docker) prober cs h).1
  unfolding clean_up
  clean_up-cons name cs left h e = rw (e, (stop_all-Grows cs h).0) refl

  clean_up-skip :
      (name : String) (cs : List ContainerInfo) (left : Running) (h : DockerHost)
      → str_eq name "" ≡ true
      → clean_up (docker_runtime docker) prober ((name, cs) ∷ left) h
        ≡ clean_up (docker_runtime docker) prober left h
  unfolding clean_up
  clean_up-skip name cs left h e = rw e refl

  pub clean_up-Grows : (left : Running) → Grows (clean_up (docker_runtime docker) prober left)
  unfolding clean_up
  clean_up-Grows [] h = (refl, λ x m. m)
  clean_up-Grows ((name, cs) ∷ left) h = elim (Bool-cases (str_eq name "")) [
    | inl e ↦ rw e (clean_up-Grows left h)
    | inr e ↦
        let (a, b) = clean_up-Grows left (stop_all (docker_runtime docker) prober cs h).1 in
        rw (clean_up-cons name cs left h e) ((a, λ x k. b x ((stop_all-Grows cs h).1 x k)))
  ]

  pub clean_up-stops :
      (left : Running) (name : String) (cs : List ContainerInfo) (c : ContainerInfo)
      (h : DockerHost)
      → str_eq name "" ≡ false
      → Mem (name, cs) left
      → Mem c cs
      → Mem
          (stop_args docker c.id (pos 0))
          (clean_up (docker_runtime docker) prober left h).1.engine
  clean_up-stops [] name cs c h e m k = absurd (not-mem-nil m)
  clean_up-stops ((n, ds) ∷ left) name cs c h e m k =
      Or.elim (hlevel) (mem-cons.0 m)
        (λ q.
          at_entry (subst (λ (p : String × List ContainerInfo). str_eq p.0 "" ≡ false) q e)
            (subst (λ (p : String × List ContainerInfo). Mem c p.1) q k))
        (λ q. later (clean_up-stops left name cs c) q)
    where
      at_entry :
          str_eq n "" ≡ false
          → Mem c ds
          → Mem
              (stop_args docker c.id (pos 0))
              (clean_up (docker_runtime docker) prober ((n, ds) ∷ left) h).1.engine
      at_entry f l = rw (clean_up-cons n ds left h f) (
          (clean_up-Grows left (stop_all (docker_runtime docker) prober ds h).1).1 _
            (stop_all-stops ds c h l))

      later :
          ((g : DockerHost)
            → str_eq name "" ≡ false
            → Mem (name, cs) left
            → Mem c cs
            → Mem
                (stop_args docker c.id (pos 0))
                (clean_up (docker_runtime docker) prober left g).1.engine)
          → Mem (name, cs) left
          → Mem
              (stop_args docker c.id (pos 0))
              (clean_up (docker_runtime docker) prober ((n, ds) ∷ left) h).1.engine
      later rec q = elim (Bool-cases (str_eq n "")) [
        | inl f ↦ rw (clean_up-skip n ds left h f) (rec h e q k)
        | inr f ↦
            rw (clean_up-cons n ds left h f)
              (rec (stop_all (docker_runtime docker) prober ds h).1 e q k)
      ]
