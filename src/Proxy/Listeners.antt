-- ===== src/Proxy/Listeners.antt =====
-- The listeners that steps 2 and 3 of sync leave, in internal/proxy/proxier.go.
use k8s_lite.Prelude.{
  String, ◌≡◌, refl, sym, ◌∙◌, true, false, Option, none, some, List, [], ◌∷◌, if◌then◌else◌, ℤ,
  eqb_ℤ, Bool-cases, inl, inr, arith, subst,
}
use k8s_lite.Api.Stored.{Json}
use k8s_lite.Cluster.{Env}
use k8s_lite.Proxy.Ports.{
  Ports, at_port, at_port-set_port, at_port-remove_port, eqb_eq, eqb_refl, at_port-walk,
  at_port-none_walk, IsDistinct,
}
use k8s_lite.Proxy.Sync.{
  Host, System, SystemCall, open_port, open_missing, open_new, close_unwanted, close_old, relisten,
}
use k8s_lite.Proxy.Desired.{or_else, or_else_assoc}

pub or_else-none : {A : Type 0} (a : Option A) → or_else a none ≡ a
or_else-none none = refl
or_else-none (some a) = refl

-- The listener on a port after step 3, from the service that wants the port, the entry that is walked,
-- and the listener before.
abbrev settle : Option String → Option String → Option String → Option String
settle (some _) seen before = before
settle none (some _) before = none
settle none none before = before

settle-none : (wanted before : Option String) → settle wanted none before ≡ before
settle-none none before = refl
settle-none (some w) before = refl

settle_twice :
    (wanted seen : Option String) (name : String) (before : Option String)
    → settle wanted seen (settle wanted (some "") before) ≡ settle wanted (some name) before
settle_twice none none name before = refl
settle_twice none (some s) name before = refl
settle_twice (some w) seen name before = refl

-- The service that a port serves: none if no service wants it, the service it was opened for if it was
-- open, or else the service that wants it.
abbrev pub serving : Option String → Option String → Option String
serving none before = none
serving (some name) none = some name
serving (some name) (some old) = some old

closed :
    (seen before : Option String) → (seen ≡ none → before ≡ none) → settle none seen before ≡ none
closed none before h = h refl
closed (some s) before h = refl

settled :
    (wanted seen before opened : Option String)
    → opened ≡ or_else before wanted
    → (seen ≡ none → opened ≡ none)
    → settle wanted seen opened ≡ serving wanted before
settled none seen before opened e h = closed seen opened h
settled (some w) seen none opened e h = e
settled (some w) seen (some b) opened e h = e

module _ ⦃json : Json⦄ ⦃env : Env json.Bytes⦄ where
  -- The listener on a port.
  abbrev pub listener : ℤ → Host → Option String
  listener port h = at_port port h.proxier.listeners

module _ ⦃json : Json⦄ ⦃env : Env json.Bytes⦄ (system : System) where
  -- Every `net.Listen` of the port succeeds.
  abbrev pub IsFreePort : ℤ → Type 0
  IsFreePort port = (s : List SystemCall) → system.listens s port ≡ true

  opened_same :
      (port : ℤ) (name : String) (h : Host) (found : Option String)
      → listener port h ≡ found
      → IsFreePort port
      → listener port (open_missing system found port name h) ≡ or_else found (some name)
  unfolding open_missing open_port
  opened_same port name h (some a) e f = e
  opened_same port name h none e f =
      rw (f h.calls) (at_port-set_port port port name h.proxier.listeners ∙ rw (eqb_refl port) refl)

  opened_other :
      (i port : ℤ) (name : String) (h : Host) (found : Option String)
      → eqb_ℤ i port ≡ false
      → listener port (open_missing system found i name h) ≡ listener port h
  unfolding open_missing open_port
  opened_other i port name h (some a) e = refl
  opened_other i port name h none e = elim (Bool-cases (system.listens h.calls i)) [
    | inl r ↦ rw r (at_port-set_port i port name h.proxier.listeners ∙ rw e refl)
    | inr r ↦ rw r refl
  ]

  listener-open_new :
      (es : Ports String) (port : ℤ) (h : Host)
      → IsFreePort port
      → listener port (open_new system es h) ≡ or_else (listener port h) (at_port port es)
  unfolding open_new at_port
  listener-open_new [] port h f = sym (or_else-none (listener port h))
  listener-open_new ((i, name) ∷ rest) port h f =
      let after = open_missing system (listener i h) i name h in
      listener-open_new rest port after f ∙ elim (Bool-cases (eqb_ℤ i port)) [
        | inl e ↦
            rw
              (
                e,
                subst
                    (λ j.
                      listener port (open_missing system (listener j h) j name h)
                      ≡ or_else (listener port h) (some name))
                    (sym (eqb_eq i port e)) (opened_same port name h (listener port h) refl f),
              )
              (sym (or_else_assoc (listener port h) (some name) (at_port port rest)))
        | inr e ↦ rw (e, opened_other i port name h (listener i h) e) refl
      ]

  -- A new listener is for a port that is walked.
  open_new-stray :
      (es : Ports String) (port : ℤ) (h : Host)
      → at_port port es ≡ none
      → listener port (open_new system es h) ≡ listener port h
  unfolding open_new at_port
  open_new-stray [] port h e = refl
  open_new-stray ((i, name) ∷ rest) port h e = elim (Bool-cases (eqb_ℤ i port)) [
    | inl f ↦ some_none name (sym (rw f refl) ∙ e)
    | inr f ↦
        open_new-stray rest port (open_missing system (listener i h) i name h) (sym (rw f refl) ∙ e)
        ∙ opened_other i port name h (listener i h) f
  ]
    where
      some_none : {A : Type 0} (x : String) → some x ≡ none → A
      some_none x q = cc

  listener-close_unwanted :
      (port other : ℤ) (h : Host) (wanted : Option String)
      → listener other (close_unwanted wanted port h) ≡ (
          if eqb_ℤ port other then settle wanted (some "") (listener other h) else listener other h)
  unfolding close_unwanted
  listener-close_unwanted port other h none = at_port-remove_port port other h.proxier.listeners
  listener-close_unwanted port other h (some a) = ground arith

  listener-close_old :
      (desired es : Ports String) (port : ℤ) (h : Host)
      → listener port (close_old desired es h)
        ≡ settle (at_port port desired) (at_port port es) (listener port h)
  unfolding close_old at_port
  listener-close_old desired [] port h = sym (settle-none (at_port port desired) (listener port h))
  listener-close_old desired ((i, name) ∷ rest) port h =
      listener-close_old desired rest port (close_unwanted (at_port i desired) i h)
      ∙ rw (listener-close_unwanted i port h (at_port i desired))
          (elim (Bool-cases (eqb_ℤ i port)) [
            | inl e ↦
                rw (e, eqb_eq i port e)
                  (settle_twice (at_port port desired) (at_port port rest) name (listener port h))
            | inr e ↦ rw e refl
          ])

  pub listener-relisten :
      (desired : Ports String) (port : ℤ) (h : Host)
      → IsDistinct desired
      → IsFreePort port
      → listener port (relisten system desired h) ≡ serving (at_port port desired) (listener port h)
  unfolding relisten
  listener-relisten desired port h d f =
      let es = system.order h.cluster.clock desired in
      let opened = open_new system es h in
      let walked = system.order h.cluster.clock opened.proxier.listeners in
      let new =
        listener-open_new es port h f
        ∙ rw (at_port-walk port desired es d (system.order_perm _ _)) refl in
      listener-close_old desired walked port opened
      ∙ settled (at_port port desired) (at_port port walked) (listener port h)
          (listener port opened) new
          (at_port-none_walk port opened.proxier.listeners walked (system.order_perm _ _))

  -- No port is open that is not desired, whether or not the new ones could be opened.
  pub relisten-stray :
      (desired : Ports String) (port : ℤ) (h : Host)
      → at_port port desired ≡ none
      → listener port (relisten system desired h) ≡ none
  unfolding relisten
  relisten-stray desired port h e =
      let opened = open_new system (system.order h.cluster.clock desired) h in
      let walked = system.order h.cluster.clock opened.proxier.listeners in
      listener-close_old desired walked port opened
      ∙ rw e (
          closed (at_port port walked) (listener port opened)
            (at_port-none_walk port opened.proxier.listeners walked (system.order_perm _ _)))
