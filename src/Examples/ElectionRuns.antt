-- ===== src/Examples/ElectionRuns.antt =====
-- Runs of a candidate: internal/leaderelection/election.go.
use k8s_lite.Prelude.{refl, List, [], ◌∷◌, pos, map}
use k8s_lite.LeaderElection.{
  Event, retry, cancelled, others, go_on_started_leading, fresh, run, steps, before_expiry,
}
use k8s_lite.LeaderElection.Callbacks.{IsBalanced, run-IsBalanced}
use k8s_lite.LeaderElection.Terms.{IsIdle, HasReturned, steps-IsIdle}
use k8s_lite.LeaderElection.Ending.{run_cancelled}
use k8s_lite.LeaderElection.Takeover.{HasLease, IsLeader, takes_over}
use k8s_lite.Examples.World.{lease, plain_json, plain_env}
use k8s_lite.Examples.ClusterRuns.{led, candidate, led_Holds, led-IsHeld, led-IsHealthy, a_is_not}

abbrev events : List Event
events = retry 200 ∷ others led ∷ retry 300 ∷ cancelled ∷ []

run-IsBalanced_example : IsBalanced (run (candidate "b") 100 events led)
run-IsBalanced_example = run-IsBalanced (candidate "b") 100 events led

steps-IsIdle_example : IsIdle [] (steps (candidate "b") events (fresh led))
unfolding before_expiry
steps-IsIdle_example =
    steps-IsIdle (candidate "b") "a" (a_is_not "b" refl) 100 (pos 15) events (fresh led) refl
      led-IsHeld (refl, (100, pos 15, led-IsHeld, (refl, tt)))

run_cancelled_example :
    HasReturned (run (candidate "b") 100 (retry 200 ∷ cancelled ∷ cancelled ∷ []) led)
    × IsBalanced (run (candidate "b") 100 (retry 200 ∷ cancelled ∷ cancelled ∷ []) led)
unfolding run k8s_lite.LeaderElection.try_acquire_or_renew k8s_lite.Client.get_lease
    k8s_lite.Client.get k8s_lite.Cluster.send k8s_lite.ApiServer.serve k8s_lite.ApiServer.handle_get
    k8s_lite.LeaderElection.decide k8s_lite.Client.get_reply k8s_lite.Storage.Memory.get
    k8s_lite.Prelude.lookup k8s_lite.Registry.key k8s_lite.Client.wire k8s_lite.Api.Stored.stored
    before_expiry
run_cancelled_example = run_cancelled (candidate "b") 100 (retry 200 ∷ []) led refl

led-HasLease : HasLease (candidate "b") (lease "a") led
led-HasLease = record { healthy = led-IsHealthy; stored = led_Holds; named = refl }

takes_over_example :
    IsLeader
      (candidate "b")
      (go_on_started_leading ∷ [])
      (steps (candidate "b") (map retry (20_000_000_000 ∷ 21_000_000_000 ∷ [])) (fresh led))
unfolding before_expiry
takes_over_example =
    takes_over (candidate "b") 20_000_000_000 100 "a" (pos 15) (lease "a") (21_000_000_000 ∷ [])
      (fresh led) refl refl led-HasLease (refl, refl, refl) (a_is_not "b" refl) refl
