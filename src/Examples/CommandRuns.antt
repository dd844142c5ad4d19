-- ===== src/Examples/CommandRuns.antt =====
-- Runs of the processes of cmd.
use k8s_lite.Prelude.{◌≡◌, ◌≢◌, refl, true, some, List, [], ◌∷◌, pos, lookup}
use k8s_lite.Api.Objects.{replicasets, endpoints, leases, nodes}
use k8s_lite.Api.Stored.{stored}
use k8s_lite.Registry.{key, key-kind}
use k8s_lite.Storage.Spec.{view}
use k8s_lite.LeaderElection.{
  decide, step, try_acquire_or_renew, retry, cancelled, others, fresh, steps, before_expiry,
}
use k8s_lite.Client.Apart.{IsApart}
use k8s_lite.Kubelet.Runtime.{docker_runtime}
use k8s_lite.Api.Objects.{get_object_meta}
use k8s_lite.Storage.Watchers.{notify_watchers}
use k8s_lite.Storage.Memory.{create, sync, notify_and_sync}
use k8s_lite.ApiServer.{serve, handle_create, handle_get}
use k8s_lite.Cluster.{send}
use k8s_lite.Client.{register_node, register_reply, get_lease, get_reply, wire}
use k8s_lite.Kubelet.Agent.{register, start, new_node}
use k8s_lite.Kubelet.Agent.Starting.{start-registered}
use k8s_lite.Examples.KubeletRuns.{docker, nothing_alive, in_order, host}
use k8s_lite.Commands.Manager.{
  Process, Happening, elect, tick, replica_sets, deployments, services, begin, happen, happen_all,
  working,
}
use k8s_lite.Commands.Leading.{tick_idle}
use k8s_lite.Commands.Standby.{standby_follows, elections}
use k8s_lite.Commands.ControlPlane.{
  Turn, controller, scheduler, joins, kubelet, System, turns, turns_kept,
}
use k8s_lite.Examples.World.{Text, encoded, lease, plain_json, plain_env}
use k8s_lite.Examples.ClusterRuns.{led, candidate, led-IsHeld, a_is_not}
use k8s_lite.Examples.RoundRuns.{busy, lock, pods-IsApart}
use k8s_lite.Examples.ServiceRuns.{as_given}
use k8s_lite.Examples.LoopRuns.{numbers}

-- The lease is another's at the first attempt.
tick_idle_example :
    let m : Process =
      happen_all as_given (candidate "b") (elect (retry 200) ∷ []) (begin true led) in
    happen as_given (candidate "b") (tick replica_sets) m ≡ m
unfolding happen_all begin step try_acquire_or_renew get_lease k8s_lite.Client.get send serve
    handle_get k8s_lite.Storage.Memory.get lookup key stored get_reply wire before_expiry decide
tick_idle_example =
    tick_idle as_given (candidate "b") (elect (retry 200) ∷ []) led replica_sets refl

abbrev happenings : List Happening
happenings =
    elect (retry 200)
    ∷ tick replica_sets
    ∷ elect (others led)
    ∷ tick services
    ∷ elect (retry 300)
    ∷ elect cancelled
    ∷ tick deployments
    ∷ []

standby_follows_example :
    let m : Process = happen_all as_given (candidate "b") happenings (begin true led) in
    (m.elector ≡ steps (candidate "b") (elections happenings) (fresh led)) × (m.phase ≢ working)
unfolding before_expiry begin
standby_follows_example =
    standby_follows as_given (candidate "b") "a" (a_is_not "b" refl) 100 (pos 15) happenings
      (begin true led) refl refl led-IsHeld (refl, (100, pos 15, led-IsHeld, (refl, tt)))

replicasets-IsApart : IsApart replicasets lock
replicasets-IsApart name e = differ (key-kind replicasets leases name "manager" e)
  where
    differ : replicasets ≢ leases
    differ q = cc

endpoints-IsApart : IsApart endpoints lock
endpoints-IsApart name e = differ (key-kind endpoints leases name "manager" e)
  where
    differ : endpoints ≢ leases
    differ q = cc

abbrev machines : System (docker_runtime docker) nothing_alive in_order as_given numbers
machines = record { cluster = busy; engines = λ n. []; attempts = λ n. tt }

abbrev some_turns : List Turn
some_turns =
    joins "node-1" 3
    ∷ controller deployments
    ∷ scheduler
    ∷ controller replica_sets
    ∷ kubelet "node-1"
    ∷ controller services
    ∷ []

turns_kept_example :
    let after : System (docker_runtime docker) nothing_alive in_order as_given numbers =
      turns (docker_runtime docker) nothing_alive in_order as_given numbers some_turns machines in
    view after.cluster.store lock ≡ some (encoded leases (lease "a"))
unfolding key lookup
turns_kept_example =
    turns_kept (docker_runtime docker) nothing_alive in_order as_given numbers some_turns machines
      lock (encoded leases (lease "a")) pods-IsApart replicasets-IsApart endpoints-IsApart refl

start-registered_example :
    (b : Text) × (view
        (start (docker_runtime docker) nothing_alive in_order "node-1" 3 4 host).1.cluster.store
        (key nodes "node-1")
      ≡ some b)
unfolding register register_node send serve handle_create create notify_and_sync notify_watchers
    sync lookup key get_object_meta register_reply stored new_node
start-registered_example =
    start-registered (docker_runtime docker) nothing_alive in_order "node-1" 3 4 host refl
