-- ===== src/LeaderElection/Ending.antt =====
-- How Run of internal/leaderelection/election.go ends with its context.
use k8s_lite.Prelude.{◌≡◌, refl, sym, subst, List, [], ◌∷◌, ◌++◌}
use k8s_lite.Api.Meta.{Time}
use k8s_lite.Api.Stored.{Json}
use k8s_lite.Cluster.{Env, Cluster}
use k8s_lite.LeaderElection.Elector.{Config}
use k8s_lite.LeaderElection.Run.{
  Candidate, Event, cancelled, running, attempt, fresh, step, steps, run,
}
use k8s_lite.LeaderElection.Terms.{HasReturned, cancelled_returns}
use k8s_lite.LeaderElection.Callbacks.{IsBalanced, run-IsBalanced}

module _ ⦃json : Json⦄ ⦃env : Env json.Bytes⦄ where
  steps-append :
      (c : Config) (before after : List Event) (e : Candidate)
      → steps c (before ++ after) e ≡ steps c after (steps c before e)
  unfolding steps
  steps-append c [] after e = refl
  steps-append c (event ∷ before) after e = steps-append c before after (step c event e)

  -- If Run is still running after any events, and its selects then choose the end of the context twice
  -- in a row, it has returned, leads no more, and each `go OnStartedLeading` of the whole run has been
  -- followed by a call of OnStoppedLeading before the next.
  pub run_cancelled :
      (c : Config) (now : Time) (events : List Event) (w : Cluster)
      → (run c now events w).status ≡ running
      → HasReturned (run c now (events ++ cancelled ∷ cancelled ∷ []) w)
        × IsBalanced (run c now (events ++ cancelled ∷ cancelled ∷ []) w)
  unfolding run
  run_cancelled c now events w s =
      let e = attempt c now (fresh w) in
      (
        subst HasReturned (sym (steps-append c events (cancelled ∷ cancelled ∷ []) e))
            (cancelled_returns c (steps c events e) s),
        run-IsBalanced c now (events ++ cancelled ∷ cancelled ∷ []) w,
      )
