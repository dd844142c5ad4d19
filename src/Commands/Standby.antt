-- ===== src/Commands/Standby.antt =====
-- A controller manager of cmd/controller-manager/main.go beside another one that leads.
use k8s_lite.Prelude.{
  ℕ, String, ◌≡◌, ◌≢◌, refl, sym, ap, subst, ◌∙◌, false, none, List, [], ◌∷◌, arith, ℤ,
}
use k8s_lite.Api.Meta.{Time}
use k8s_lite.Api.Stored.{Json}
use k8s_lite.Cluster.{Env}
use k8s_lite.Controllers.Endpoints.{Sort}
use k8s_lite.LeaderElection.{
  Config, Status, running, returned, hung, crashed, Callback, Candidate, Event, retry, cancelled,
  others, step, step_at, steps,
}
use k8s_lite.LeaderElection.Exclusion.{IsHeld}
use k8s_lite.LeaderElection.Terms.{IsGuarded, Waits, step-Waits}
use k8s_lite.Commands.Manager.{
  Controller, Phase, alone, standby, working, exited, Process, Happening, elect, tick, called,
  on_callback, on_status, run_elector, change_cluster, happen_at, happen, happen_all,
}

-- The elector waits, or the process has ended with it.
abbrev pub Stands : Phase → Status → Type 0
Stands standby s = Unit
Stands (exited n) returned = Unit
Stands (exited n) crashed = Unit
Stands p s = ⊥

called_none : (cs : List Callback) → called cs cs ≡ none
unfolding called
called_none [] = refl
called_none (c ∷ cs) = ground arith

ended-Stands : (s : Status) → Stands (on_status s standby) s
unfolding on_status
ended-Stands running = tt
ended-Stands returned = tt
ended-Stands hung = tt
ended-Stands crashed = tt

module _ ⦃json : Json⦄ ⦃env : Env json.Bytes⦄ where
  abbrev pub elections : List Happening → List Event
  elections [] = []
  elections (elect event ∷ hs) = event ∷ elections hs
  elections (tick k ∷ hs) = elections hs

  elector-Stands :
      (c : Config) (event : Event) (m : Process)
      → m.phase ≡ standby
      → (step_at m.elector.status c event m.elector).callbacks ≡ m.elector.callbacks
      → Stands (run_elector c event m).phase (run_elector c event m).elector.status
  unfolding run_elector step on_callback
  elector-Stands c event m q k =
      let e : Candidate = step_at m.elector.status c event m.elector in
      rw (k, called_none m.elector.callbacks, q) (ended-Stands e.status)

  -- After the end nothing is left but the changes of others, as for the elector.
  change_cluster-step :
      (n : ℕ) (s : Status) (c : Config) (event : Event) (m : Process)
      → m.elector.status ≡ s
      → m.phase ≡ exited n
      → Stands (exited n) s
      → ((change_cluster event m).elector ≡ step_at s c event m.elector)
        × Stands (change_cluster event m).phase (change_cluster event m).elector.status
  unfolding change_cluster step_at
  change_cluster-step n returned c (others w) m e q h = (refl, rw (e, q) tt)
  change_cluster-step n returned c (retry now) m e q h = (refl, rw (e, q) tt)
  change_cluster-step n returned c cancelled m e q h = (refl, rw (e, q) tt)
  change_cluster-step n crashed c (others w) m e q h = (refl, rw (e, q) tt)
  change_cluster-step n crashed c (retry now) m e q h = (refl, rw (e, q) tt)
  change_cluster-step n crashed c cancelled m e q h = (refl, rw (e, q) tt)
  change_cluster-step n running c event m e q h = absurd h
  change_cluster-step n hung c event m e q h = absurd h

  module _ (sort : Sort) (c : Config) (holder : String) (n : holder ≢ c.identity) where
    -- One turn of the election, from what it does to the elector.
    elect-Stands :
        (p : Phase) (event : Event) (m : Process)
        → m.phase ≡ p
        → Stands p m.elector.status
        → (step_at m.elector.status c event m.elector).callbacks ≡ m.elector.callbacks
        → let m' : Process = happen_at sort p c (elect event) m in
          (m'.elector ≡ step c event m.elector) × Stands m'.phase m'.elector.status
    unfolding happen_at step run_elector
    elect-Stands standby event m q h k = (refl, elector-Stands c event m q k)
    elect-Stands (exited x) event m q h k =
        change_cluster-step x m.elector.status c event m refl q h
    elect-Stands alone event m q h k = absurd h
    elect-Stands working event m q h k = absurd h

    tick-Stands :
        (p : Phase) (k : Controller) (m : Process)
        → Stands p m.elector.status
        → happen_at sort p c (tick k) m ≡ m
    unfolding happen_at
    tick-Stands standby k m h = refl
    tick-Stands (exited x) k m h = refl
    tick-Stands alone k m h = absurd h
    tick-Stands working k m h = absurd h

    -- As long as another candidate holds the lease, renewed in time for each attempt, a process
    -- that waits for it makes no round of a controller, whatever ticks come: its elector and the
    -- cluster fare as if there were no ticks, and it never runs the controllers.
    pub standby_follows :
        (renewed : Time) (d : ℤ) (hs : List Happening) (m : Process)
        → m.phase ≡ standby
        → m.elector.leads ≡ false
        → IsHeld c.lock_name holder renewed d m.elector.cluster
        → IsGuarded c.lock_name holder renewed d (elections hs)
        → let m' : Process = happen_all sort c hs m in
          (m'.elector ≡ steps c (elections hs) m.elector) × (m'.phase ≢ working)
    unfolding happen_all happen steps
    standby_follows renewed d hs m q l h g =
        all renewed d hs m (subst (λ p. Stands p m.elector.status) (sym q) tt) ((l, refl), h) g
      where
        never : (p : Phase) (s : Status) → Stands p s → p ≢ working
        never standby s i e = cc
        never (exited x) s i e = cc
        never alone s i e = cc
        never working s i e = i

        all :
            (at : Time) (for : ℤ) (rest : List Happening) (x : Process)
            → Stands x.phase x.elector.status
            → Waits c holder n m.elector.callbacks at for x.elector
            → IsGuarded c.lock_name holder at for (elections rest)
            → ((happen_all sort c rest x).elector ≡ steps c (elections rest) x.elector)
              × ((happen_all sort c rest x).phase ≢ working)
        all at for [] x i w b = (refl, never x.phase x.elector.status i)
        all at for (tick k ∷ rest) x i w b =
            subst
              (λ (y : Process).
                ((happen_all sort c rest y).elector ≡ steps c (elections rest) x.elector)
                × ((happen_all sort c rest y).phase ≢ working))
              (sym (tick-Stands x.phase k x i)) (all at for rest x i w b)
        all at for (elect event ∷ rest) x i w b =
            let (at', for', b', w') =
              step-Waits c holder n x.elector.status m.elector.callbacks at for event
                (elections rest) x.elector b w in
            let (e, i') = elect-Stands x.phase event x refl i (w'.0.1 ∙ sym (w.0.1)) in
            let (same, p) =
              all at' for' rest (happen_at sort x.phase c (elect event) x) i'
                (subst (Waits c holder n m.elector.callbacks at' for') (sym e) w') b' in
            (same ∙ ap (steps c (elections rest)) e, p)
