-- ===== src/Proxy/Sockets.antt =====
-- The sockets that internal/proxy/proxier.go has open, by the system calls it made.
use k8s_lite.Prelude.{
  ℕ, zero, suc, ret-bind, String, ◌≡◌, refl, ap, sym, ◌∙◌, Bool, true, false, ◌&&◌, Option, none,
  some, List, [], ◌∷◌, if◌then◌else◌, ℤ, eqb_ℤ, Flow, ret, blocked, panicked, Exec, continue, ◌>>=◌,
  Bool-cases, inl, inr, arith,
}
use k8s_lite.Api.Services.{Service}
use k8s_lite.Api.Stored.{Json}
use k8s_lite.Cluster.{Env}
use k8s_lite.Client.{Reply, success, failed, list_services}
use k8s_lite.Proxy.Ports.{Ports, at_port, at_port-set_port, at_port-remove_port, at_port-none_walk}
use k8s_lite.Proxy.Sync.{
  Host, System, SystemCall, listen, close, on_cluster, open_port, open_missing, open_new,
  close_unwanted, close_old, relisten, with_services, sync, gather, close_each, close_all, rounds,
  run,
}
use k8s_lite.Proxy.Desired.{Keeps, on_cluster-Keeps, gather-Keeps}
use k8s_lite.Proxy.Listeners.{listener}

abbrev is_some : {A : Type 0} → Option A → Bool
is_some none = false
is_some (some a) = true

module _ ⦃json : Json⦄ ⦃env : Env json.Bytes⦄ (system : System) where
  -- Whether the process has a socket open on the port after these calls.
  abbrev pub is_open : List SystemCall → ℤ → Bool
  is_open [] port = false
  is_open (listen i ∷ s) port = if eqb_ℤ i port && system.listens s i then true else is_open s port
  is_open (close i ∷ s) port = if eqb_ℤ i port then false else is_open s port

  -- The map of listeners holds exactly the open sockets.
  abbrev pub Tracks : Host → Type 0
  Tracks h = (port : ℤ) → is_open h.calls port ≡ is_some (listener port h)

  open_missing-Tracks :
      (i : ℤ) (name : String) (h : Host) (found : Option String)
      → Tracks h
      → Tracks (open_missing system found i name h)
  unfolding open_missing open_port
  open_missing-Tracks i name h (some a) t port = t port
  open_missing-Tracks i name h none t port = elim (Bool-cases (system.listens h.calls i)) [
    | inl r ↦ rw r (ground (arith, t port, at_port-set_port i port name h.proxier.listeners))
    | inr r ↦ rw r (ground (arith, t port))
  ]

  open_new-Tracks : (es : Ports String) (h : Host) → Tracks h → Tracks (open_new system es h)
  unfolding open_new
  open_new-Tracks [] h t = t
  open_new-Tracks ((i, name) ∷ rest) h t =
      open_new-Tracks rest (open_missing system (listener i h) i name h)
        (open_missing-Tracks i name h (listener i h) t)

  close_unwanted-Tracks :
      (i : ℤ) (h : Host) (wanted : Option String) → Tracks h → Tracks (close_unwanted wanted i h)
  unfolding close_unwanted
  close_unwanted-Tracks i h (some a) t port = t port
  close_unwanted-Tracks i h none t port =
      ground (arith, t port, at_port-remove_port i port h.proxier.listeners)

  close_old-Tracks :
      (desired es : Ports String) (h : Host) → Tracks h → Tracks (close_old desired es h)
  unfolding close_old
  close_old-Tracks desired [] h t = t
  close_old-Tracks desired ((i, name) ∷ rest) h t =
      close_old-Tracks desired rest (close_unwanted (at_port i desired) i h)
        (close_unwanted-Tracks i h (at_port i desired) t)

  relisten-Tracks :
      (desired : Ports String) (h : Host) → Tracks h → Tracks (relisten system desired h)
  unfolding relisten
  relisten-Tracks desired h t =
      let opened = open_new system (system.order h.cluster.clock desired) h in
      close_old-Tracks desired (system.order h.cluster.clock opened.proxier.listeners) opened
        (open_new-Tracks (system.order h.cluster.clock desired) h t)

  Keeps-Tracks : {A : Type 0} (m : Exec Host A) (h : Host) → Keeps m → Tracks h → Tracks (m h).1
  Keeps-Tracks m h k t port =
      ap (λ s. is_open s port) (k h).0 ∙ t port ∙ ap (λ m. is_some (at_port port m)) (sym (k h).1)

  Tracks->>= :
      {A B : Type 0} (m : Exec Host A) (f : A → Exec Host B) (h : Host)
      → Tracks (m h).1
      → ((a : A) (s : Host) → Tracks s → Tracks (f a s).1)
      → Tracks ((m >>= f) h).1
  Tracks->>= {A = A} m f h t k = next (m h).0
    where
      next : (r : Flow A) → Tracks (continue r f (m h).1).1
      next (ret a) = k a (m h).1 t
      next blocked = t
      next panicked = t

  with_services-Tracks :
      (r : Reply (List Service)) (h : Host) → Tracks h → Tracks (with_services system r h).1
  unfolding with_services
  with_services-Tracks (failed e) h t = t
  with_services-Tracks (success services) h t =
      Tracks->>= (gather services []) (λ desired. λ s. (ret none, relisten system desired s)) h
        (Keeps-Tracks (gather services []) h (gather-Keeps services []) t)
        (λ desired s u. relisten-Tracks desired s u)

  -- If the map of listeners holds exactly the sockets that the proxy opened and has not closed, it
  -- does so after a round, also after one that fails, and whichever ports could be opened.
  pub sync-Tracks : (h : Host) → Tracks h → Tracks (sync system h).1
  unfolding sync
  sync-Tracks h t =
      Tracks->>= (on_cluster list_services) (with_services system) h
        (Keeps-Tracks (on_cluster list_services) h (on_cluster-Keeps list_services) t)
        with_services-Tracks

  open-close_each :
      (es : Ports String) (port : ℤ) (h : Host)
      → is_open (close_each es h).calls port
        ≡ (if is_some (at_port port es) then false else is_open h.calls port)
  unfolding close_each at_port
  open-close_each [] port h = refl
  open-close_each ((i, name) ∷ rest) port h =
      ground (arith, open-close_each rest port (record h { calls = close i ∷ h.calls }))

  -- The end of Run leaves no socket open.
  pub close_all_shut :
      (h : Host) → Tracks h → (port : ℤ) → is_open (close_all system h).calls port ≡ false
  unfolding close_all
  close_all_shut h t port =
      let es = system.order h.cluster.clock h.proxier.listeners in
      open-close_each es port h
      ∙ shut (at_port port es) (t port)
          (at_port-none_walk port h.proxier.listeners es (system.order_perm _ _))
    where
      shut :
          (o : Option String)
          → is_open h.calls port ≡ is_some (listener port h)
          → (o ≡ none → listener port h ≡ none)
          → (if is_some o then false else is_open h.calls port) ≡ false
      shut none e k = e ∙ ap is_some (k refl)
      shut (some a) e k = refl

  rounds-Tracks : (n : ℕ) (h : Host) → Tracks h → Tracks (rounds system n h).1
  unfolding rounds
  rounds-Tracks zero h t = t
  rounds-Tracks (suc n) h t =
      Tracks->>= (sync system) (λ _. rounds system n) h (sync-Tracks h t)
        (λ e s u. rounds-Tracks n s u)

  -- When Run returns, after any number of ticks, whatever their rounds did, every socket that the
  -- proxy opened is closed, if its map held them all when it started.
  pub run_shut :
      (n : ℕ) (h : Host) (port : ℤ)
      → Tracks h
      → (run system n h).0 ≡ ret tt
      → is_open (run system n h).1.calls port ≡ false
  unfolding run
  run_shut n h port t e =
      let (u, v, w) = ret-bind (rounds system n) (λ _. λ s. (ret tt, close_all system s)) h e in
      rw w (close_all_shut (rounds system n h).1 (rounds-Tracks n h t) port)
