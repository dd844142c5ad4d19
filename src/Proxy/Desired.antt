-- ===== src/Proxy/Desired.antt =====
-- What step 1 of sync in internal/proxy/proxier.go gathers.
use k8s_lite.Prelude.{
  String, ◌≡◌, refl, ap, sym, ◌∙◌, Bool, true, false, ◌||◌, ◌&&◌, not, Option, none, some, List, [],
  ◌∷◌, if◌then◌else◌, ℤ, pos, eqb_ℤ, Flow, ret, Exec, continue, ◌>>=◌, Bool-cases, inl, inr, arith,
  ret-bind, ret_inj,
}
use k8s_lite.Api.Services.{Service, ServicePort, Endpoints}
use k8s_lite.Api.Stored.{Json}
use k8s_lite.Cluster.{Env, Cluster}
use k8s_lite.Client.{Reply, success, failed, get_endpoints}
use k8s_lite.Proxy.Ports.{
  Ports, at_port, set_port, at_port-set_port, IsDistinct, set_port-IsDistinct,
}
use k8s_lite.Proxy.Sync.{
  Host, Proxier, cache_endpoints, on_cluster, cache_reply, refresh, gather_ports, gather,
}

abbrev pub or_else : {A : Type 0} → Option A → Option A → Option A
or_else none o = o
or_else (some a) o = some a

pub or_else_assoc :
    {A : Type 0} (a b c : Option A) → or_else a (or_else b c) ≡ or_else (or_else a b) c
or_else_assoc none b c = refl
or_else_assoc (some a) b c = refl

-- Some port of the list is exposed as the node port, which is not 0.
abbrev pub exposes : ℤ → List ServicePort → Bool
exposes port [] = false
exposes port (p ∷ ps) =
    (not (eqb_ℤ p.node_port (pos 0)) && eqb_ℤ p.node_port port) || exposes port ps

abbrev pub claim : ℤ → Service → Option String
claim port svc = if exposes port svc.spec.ports then some svc.name else none

-- The last of the services that expose the node port.
abbrev pub owner : ℤ → List Service → Option String
owner port [] = none
owner port (svc ∷ services) = or_else (owner port services) (claim port svc)

cache_endpoints-listeners :
    (name : String) (r : Reply (Option Endpoints)) (p : Proxier)
    → (cache_endpoints name r p).listeners ≡ p.listeners
unfolding cache_endpoints
cache_endpoints-listeners name (success (some ep)) p = refl
cache_endpoints-listeners name (success none) p = refl
cache_endpoints-listeners name (failed e) p = refl

module _ ⦃json : Json⦄ ⦃env : Env json.Bytes⦄ where
  -- The action leaves the listeners and the calls alone, wherever it starts.
  abbrev pub Keeps : {A : Type 0} → Exec Host A → Type 0
  Keeps m =
      (h : Host) → ((m h).1.calls ≡ h.calls) × ((m h).1.proxier.listeners ≡ h.proxier.listeners)

  pub Keeps->>= :
      {A B : Type 0} (m : Exec Host A) (f : A → Exec Host B)
      → Keeps m
      → ((a : A) → Keeps (f a))
      → Keeps (m >>= f)
  Keeps->>= {A = A} m f k l h = kept (m h).0
    where
      kept :
          (r : Flow A)
          → ((continue r f (m h).1).1.calls ≡ h.calls)
            × ((continue r f (m h).1).1.proxier.listeners ≡ h.proxier.listeners)
      kept (ret a) = ((l a (m h).1).0 ∙ (k h).0, (l a (m h).1).1 ∙ (k h).1)
      kept _ = k h

  pub on_cluster-Keeps : {A : Type 0} (m : Exec Cluster A) → Keeps (on_cluster m)
  unfolding on_cluster
  on_cluster-Keeps m h = (refl, refl)

  refresh-Keeps : (name : String) → Keeps (refresh name)
  unfolding refresh cache_reply
  refresh-Keeps name =
      Keeps->>= (on_cluster (get_endpoints name)) (cache_reply name)
        (on_cluster-Keeps (get_endpoints name))
        (λ r h. (refl, cache_endpoints-listeners name r h.proxier))

  gather_ports-Keeps :
      (svc : Service) (ps : List ServicePort) (desired : Ports String)
      → Keeps (gather_ports svc ps desired)
  unfolding gather_ports
  gather_ports-Keeps svc [] desired h = (refl, refl)
  gather_ports-Keeps svc (p ∷ ps) desired h = elim (Bool-cases (eqb_ℤ p.node_port (pos 0))) [
    | inl e ↦ rw e (gather_ports-Keeps svc ps desired h)
    | inr e ↦
        let rest = gather_ports-Keeps svc ps (set_port p.node_port svc.name desired) in
        rw e (
          Keeps->>= (refresh svc.name)
            (λ _. gather_ports svc ps (set_port p.node_port svc.name desired))
            (refresh-Keeps svc.name) (λ _. rest) h)
  ]

  pub gather-Keeps :
      (services : List Service) (desired : Ports String) → Keeps (gather services desired)
  unfolding gather
  gather-Keeps [] desired = λ h. (refl, refl)
  gather-Keeps (svc ∷ services) desired =
      Keeps->>= (gather_ports svc svc.spec.ports desired) (gather services)
        (gather_ports-Keeps svc svc.spec.ports desired) (gather-Keeps services)

  -- The result of a part of step 1 reads as the given function, and is distinct if it was.
  abbrev pub Reads : Ports String → (ℤ → Option String) → Ports String → Type 0
  Reads desired read d =
      ((port : ℤ) → at_port port d ≡ or_else (read port) (at_port port desired))
      × (IsDistinct desired → IsDistinct d)

  step :
      (svc : Service) (p : ServicePort) (ps : List ServicePort) (desired d : Ports String)
      → eqb_ℤ p.node_port (pos 0) ≡ false
      → Reads
          (set_port p.node_port svc.name desired)
          (λ port. if exposes port ps then some svc.name else none)
          d
      → Reads desired (λ port. if exposes port (p ∷ ps) then some svc.name else none) d
  step svc p ps desired d e r = (
    λ port. ground (arith, e, r.0 port, at_port-set_port p.node_port port svc.name desired),
    λ q. r.1 (set_port-IsDistinct p.node_port svc.name desired q),
  )

  skip :
      (svc : Service) (p : ServicePort) (ps : List ServicePort) (desired d : Ports String)
      → eqb_ℤ p.node_port (pos 0) ≡ true
      → Reads desired (λ port. if exposes port ps then some svc.name else none) d
      → Reads desired (λ port. if exposes port (p ∷ ps) then some svc.name else none) d
  skip svc p ps desired d e r = rw e r

  gather_ports-Reads :
      (svc : Service) (ps : List ServicePort) (desired d : Ports String) (h : Host)
      → (gather_ports svc ps desired h).0 ≡ ret d
      → Reads desired (λ port. if exposes port ps then some svc.name else none) d
  unfolding gather_ports
  gather_ports-Reads svc [] desired d h q = rw (sym (ret_inj desired d q)) (λ port. refl, λ i. i)
  gather_ports-Reads svc (p ∷ ps) desired d h q = elim (Bool-cases (eqb_ℤ p.node_port (pos 0))) [
    | inl e ↦ skip svc p ps desired d e (gather_ports-Reads svc ps desired d h (rw e at q))
    | inr e ↦
        let rest = gather_ports svc ps (set_port p.node_port svc.name desired) in
        let (u, v, w) = ret-bind (refresh svc.name) (λ _. rest) h (rw e at q) in
        step svc p ps desired d e (
          gather_ports-Reads svc ps (set_port p.node_port svc.name desired) d (refresh svc.name h).1
            (ap (λ (x : Flow (Ports String) × Host). x.0) (sym w) ∙ rw e at q))
  ]

  -- The desired ports are exactly the node ports of the services, each with its owner.
  pub gather-Reads :
      (services : List Service) (desired d : Ports String) (h : Host)
      → (gather services desired h).0 ≡ ret d
      → Reads desired (λ port. owner port services) d
  unfolding gather
  gather-Reads [] desired d h q = rw (sym (ret_inj desired d q)) (λ port. refl, λ i. i)
  gather-Reads (svc ∷ services) desired d h q =
      let (first, v, w) =
        ret-bind (gather_ports svc svc.spec.ports desired) (gather services) h q in
      let a = gather_ports-Reads svc svc.spec.ports desired first h v in
      let b =
        gather-Reads services first d (gather_ports svc svc.spec.ports desired h).1
          (ap (λ (x : Flow (Ports String) × Host). x.0) (sym w) ∙ q) in
      (
        λ port.
            b.0 port
            ∙ rw (a.0 port)
                (or_else_assoc (owner port services) (claim port svc) (at_port port desired)),
        λ i. b.1 (a.1 i),
      )
