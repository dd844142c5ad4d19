-- ===== src/LeaderElection/Callbacks.antt =====
-- The callbacks of Run in internal/leaderelection/election.go.
use k8s_lite.Prelude.{
  ◌≡◌, refl, Bool, true, false, List, [], ◌∷◌, Flow, ret, blocked, panicked, subst,
}
use k8s_lite.Api.Meta.{Time}
use k8s_lite.Api.Stored.{Json}
use k8s_lite.Cluster.{Env, Cluster}
use k8s_lite.Client.{Reply, success, failed}
use k8s_lite.LeaderElection.Elector.{Config, try_acquire_or_renew}
use k8s_lite.LeaderElection.Run.{
  Status, running, returned, hung, crashed, Callback, go_on_started_leading, on_stopped_leading,
  Candidate, Event, retry, cancelled, others, started, stop_leading, renewed, after_attempt,
  attempt, cancel, step_at, step, fresh, steps, run,
}

-- The callbacks take turns, from OnStartedLeading on; the flag tells whether the last one was that.
abbrev pub IsAlternating : Bool → List Callback → Type 0
IsAlternating false [] = Unit
IsAlternating true [] = ⊥
IsAlternating true (go_on_started_leading ∷ cs) = IsAlternating false cs
IsAlternating false (go_on_started_leading ∷ cs) = ⊥
IsAlternating false (on_stopped_leading ∷ cs) = IsAlternating true cs
IsAlternating true (on_stopped_leading ∷ cs) = ⊥

module _ ⦃json : Json⦄ ⦃env : Env json.Bytes⦄ where
  abbrev pub IsBalanced : Candidate → Type 0
  IsBalanced e = IsAlternating e.leads e.callbacks

  started-IsBalanced :
      (r : Flow (Reply (Unit {0}))) (e : Candidate)
      → e.leads ≡ false
      → IsBalanced e
      → IsBalanced (started r e)
  unfolding started
  started-IsBalanced (ret (success _)) e l b = subst (λ x. IsAlternating x e.callbacks) l b
  started-IsBalanced (ret (failed _)) e l b = b
  started-IsBalanced blocked e l b = b
  started-IsBalanced panicked e l b = b

  renewed-IsBalanced :
      (r : Flow (Reply (Unit {0}))) (e : Candidate)
      → e.leads ≡ true
      → IsBalanced e
      → IsBalanced (renewed r e)
  unfolding renewed stop_leading
  renewed-IsBalanced (ret (success _)) e l b = b
  renewed-IsBalanced (ret (failed _)) e l b = subst (λ x. IsAlternating x e.callbacks) l b
  renewed-IsBalanced blocked e l b = b
  renewed-IsBalanced panicked e l b = b

  after_attempt-IsBalanced :
      (leads : Bool) (r : Flow (Reply (Unit {0}))) (e : Candidate)
      → e.leads ≡ leads
      → IsBalanced e
      → IsBalanced (after_attempt leads r e)
  unfolding after_attempt
  after_attempt-IsBalanced true = renewed-IsBalanced
  after_attempt-IsBalanced false = started-IsBalanced

  attempt-IsBalanced :
      (c : Config) (now : Time) (e : Candidate) → IsBalanced e → IsBalanced (attempt c now e)
  unfolding attempt
  attempt-IsBalanced c now e =
      let (r, w) = try_acquire_or_renew c now e.cluster in
      after_attempt-IsBalanced e.leads r (record e { cluster = w }) refl

  cancel-IsBalanced :
      (leads : Bool) (e : Candidate) → e.leads ≡ leads → IsBalanced e → IsBalanced (cancel leads e)
  unfolding cancel stop_leading
  cancel-IsBalanced true e l b = subst (λ x. IsAlternating x e.callbacks) l b
  cancel-IsBalanced false e l b = b

  step_at-IsBalanced :
      (s : Status) (c : Config) (event : Event) (e : Candidate)
      → IsBalanced e
      → IsBalanced (step_at s c event e)
  unfolding step_at
  step_at-IsBalanced running c (others w) e b = b
  step_at-IsBalanced returned c (others w) e b = b
  step_at-IsBalanced hung c (others w) e b = b
  step_at-IsBalanced crashed c (others w) e b = b
  step_at-IsBalanced running c (retry now) e b = attempt-IsBalanced c now e b
  step_at-IsBalanced running c cancelled e b = cancel-IsBalanced e.leads e refl b
  step_at-IsBalanced returned c (retry now) e b = b
  step_at-IsBalanced hung c (retry now) e b = b
  step_at-IsBalanced crashed c (retry now) e b = b
  step_at-IsBalanced returned c cancelled e b = b
  step_at-IsBalanced hung c cancelled e b = b
  step_at-IsBalanced crashed c cancelled e b = b

  steps-IsBalanced :
      (c : Config) (events : List Event) (e : Candidate)
      → IsBalanced e
      → IsBalanced (steps c events e)
  unfolding steps step
  steps-IsBalanced c [] e b = b
  steps-IsBalanced c (event ∷ events) e b =
      steps-IsBalanced c events (step c event e) (step_at-IsBalanced e.status c event e b)

  -- Whatever happens to the cluster, to the requests and to the context, Run executes the statement
  -- `go OnStartedLeading` and the call of OnStoppedLeading in turns, beginning with the first, and the
  -- last one is the first of them exactly while control is in renewLoop. (When the goroutine calls
  -- OnStartedLeading is not said.)
  pub run-IsBalanced :
      (c : Config) (now : Time) (events : List Event) (w : Cluster)
      → IsBalanced (run c now events w)
  unfolding run
  run-IsBalanced c now events w =
      steps-IsBalanced c events (attempt c now (fresh w)) (attempt-IsBalanced c now (fresh w) tt)
