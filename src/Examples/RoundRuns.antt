-- ===== src/Examples/RoundRuns.antt =====
-- Whole rounds of the control loops on a cluster with a lease.
use k8s_lite.Prelude.{String, ◌≢◌, [], ◌∷◌}
use k8s_lite.Api.Objects.{pods, leases}
use k8s_lite.Registry.{key, key-kind}
use k8s_lite.Cluster.{Cluster}
use k8s_lite.Client.Apart.{IsApart}
use k8s_lite.Examples.World.{encoded, lease, pod, plain_json, plain_env, cluster_of}

abbrev pub busy : Cluster
busy = cluster_of (
    ("/registry/leases/manager", encoded leases (lease "a"))
    ∷ ("/registry/pods/a", encoded pods (pod "a"))
    ∷ [])

abbrev pub lock : String
lock = key leases "manager"

pub pods-IsApart : IsApart pods lock
pods-IsApart name e = differ (key-kind pods leases name "manager" e)
  where
    differ : pods ≢ leases
    differ q = cc
