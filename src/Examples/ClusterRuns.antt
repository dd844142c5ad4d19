-- ===== src/Examples/ClusterRuns.antt =====
-- Runs of the control loops: internal/leaderelection, internal/controller and internal/scheduler.
use k8s_lite.Prelude.{
  ℕ, refl, ap, str_eq, String, Option, none, true, false, ◌≢◌, List, [], ◌∷◌, pos, ret, some, ◌≡◌,
  lookup, insert, sym, ◌∙◌, eq_iff, All,
}
use k8s_lite.Api.Leases.{Lease}
use k8s_lite.Api.Objects.{leases, get_object_meta}
use k8s_lite.Api.Stored.{stored}
use k8s_lite.Registry.{key}
use k8s_lite.Cluster.{Cluster, send}
use k8s_lite.ApiServer.{serve, handle_get, handle_update}
use k8s_lite.Storage.Watchers.{notify_watchers}
use k8s_lite.Storage.Memory
use k8s_lite.Storage.Memory.{decode, notify_and_sync, sync}
use k8s_lite.Client.{success, get_lease, get, get_reply, wire, update_lease, update, update_reply}
use k8s_lite.Client.Effects.{Holds}
use k8s_lite.Client.Progress.{IsHealthy}
use k8s_lite.LeaderElection.{Config, before_expiry, try_acquire_or_renew, decide, renewed_lease}
use k8s_lite.LeaderElection.Acquired.{IsTaken, IsNamed, acquired_IsTaken}
use k8s_lite.LeaderElection.Exclusion.{IsHeld, rivals_fail, run_attempts}
use k8s_lite.LeaderElection.Overlap.{overlap, overlap_both_lead}
use k8s_lite.Examples.World.{encoded, read-some, lease, plain_json, plain_env, cluster_of}

abbrev pub led : Cluster
led = cluster_of (("/registry/leases/manager", encoded leases (lease "a")) ∷ [])

abbrev pub candidate : String → Config
candidate id = record { lock_name = "manager"; identity = id; lease_seconds = pos 15 }

pub led_Holds : Holds leases "manager" (lease "a") led
unfolding key lookup stored
led_Holds = record { bytes = encoded leases (lease "a"); there = refl; decodes = refl }

pub led-IsHeld : IsHeld "manager" "a" 100 (pos 15) led
led-IsHeld = record { lease = lease "a"; stored = led_Holds; by = refl; at = refl; for = refl }

pub a_is_not : (id : String) → str_eq "a" id ≡ false → "a" ≢ id
a_is_not id h e = differ (sym h ∙ (eq_iff "a" id).1 e)
  where
    differ : false ≢ true
    differ q = cc

abbrev rivals : List (Config × ℕ)
rivals = (candidate "b", 200) ∷ (candidate "c", 300) ∷ []

rivals_fail_example :
    All (λ r. r ≢ ret (success tt)) (run_attempts rivals led).0
    × ((run_attempts rivals led).1.store ≡ led.store)
unfolding before_expiry
rivals_fail_example =
    rivals_fail "manager" "a" 100 (pos 15) rivals led led-IsHeld
      ((refl, a_is_not "b" refl, refl), ((refl, a_is_not "c" refl, refl), tt))

led-IsNamed : IsNamed "manager" led
unfolding key lookup stored
led-IsNamed l h = sym (
    ap (λ (x : Option Lease). elim x [ none ↦ "" | some m ↦ m.name ])
      (sym (read-some leases (lease "a") h.bytes h.there) ∙ h.decodes))

a_renews : (try_acquire_or_renew (candidate "a") 200 led).0 ≡ ret (success tt)
unfolding try_acquire_or_renew get_lease get send serve handle_get decide get_reply Memory.get
    lookup key wire stored update_lease update handle_update Memory.update get_object_meta
    update_reply before_expiry renewed_lease insert decode notify_and_sync sync notify_watchers
a_renews = refl

acquired_IsTaken_example :
    IsTaken (candidate "a") 200 led (try_acquire_or_renew (candidate "a") 200 led).1
acquired_IsTaken_example = acquired_IsTaken (candidate "a") 200 led led-IsNamed a_renews

pub led-IsHealthy : IsHealthy led
led-IsHealthy = record {
  reliable = λ n. refl;
  encodes = λ k o e. cc;
  no_file = refl;
  no_watcher = refl;
}

overlap_both_lead_example :
    (overlap (candidate "b") (candidate "c") 20_000_000_000 20_000_000_000 led).0
    ≡ ret (success tt, success tt)
unfolding before_expiry
overlap_both_lead_example =
    overlap_both_lead (candidate "b") (candidate "c") 20_000_000_000 20_000_000_000 100 "a" (pos 15)
      (lease "a") led led-IsHealthy led_Holds (refl, refl) (refl, refl, refl)
      (a_is_not "b" refl, a_is_not "c" refl) (refl, refl)
