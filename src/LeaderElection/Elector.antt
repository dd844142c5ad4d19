-- ===== src/LeaderElection/Elector.antt =====
-- internal/leaderelection/election.go. The time is an argument of each attempt; the conversion
-- `int32(LeaseDuration.Seconds())`, which goes through a float, is a field of Config.
use k8s_lite.Prelude.{
  ℕ, String, ◌+◌, ◌*◌, Bool, Option, none, some, if◌then◌else◌, ltb, str_eq, ℤ, pos_part, neg_part,
  Exec, pure, panic, ◌>>=◌,
}
use k8s_lite.Api.Meta.{Time, zero_type_meta, zero_object_meta}
use k8s_lite.Api.Leases.{Lease}
use k8s_lite.Api.Stored.{Json}
use k8s_lite.Cluster.{Env, Cluster}
use k8s_lite.Client.{Reply, success, failed, lease_held, get_lease, create_lease, update_lease}

pub record Config : Type 0 where
  pub lock_name : String
  pub identity : String
  pub lease_seconds : ℤ

-- `time.Second`, in nanoseconds
abbrev pub second : ℕ
second = 1_000_000_000

-- now.Before(renewTime.Add(d * time.Second)), for a d that may be negative
unfoldable pub before_expiry : Time → Time → ℤ → Bool
before_expiry now renewed d = ltb (now + neg_part d * second) (renewed + pos_part d * second)

unfoldable pub new_lease : Config → Time → Lease
new_lease c now = record {
  type_meta = zero_type_meta;
  metadata = record zero_object_meta { name = c.lock_name };
  spec = record {
    holder_identity = some c.identity;
    lease_duration_seconds = some c.lease_seconds;
    acquire_time = some now;
    renew_time = some now;
    lease_transitions = none;
  };
}

unfoldable pub renewed_lease : Time → Lease → Lease
renewed_lease now lease = record lease { spec = record lease.spec { renew_time = some now } }

unfoldable pub taken_lease : Config → Time → Lease → Lease
taken_lease c now lease = record lease {
  spec = record lease.spec {
    holder_identity = some c.identity;
    acquire_time = some now;
    renew_time = some now;
    lease_duration_seconds = some c.lease_seconds;
  };
}

module _ ⦃json : Json⦄ ⦃env : Env json.Bytes⦄ (c : Config) (now : Time) where
  take : Lease → Exec Cluster (Reply (Unit {0}))
  take lease = update_lease (taken_lease c now lease)

  -- `*lease.Spec.LeaseDurationSeconds` of a nil pointer panics.
  check_expiry : Lease → String → Time → Option ℤ → Exec Cluster (Reply (Unit {0}))
  unfolding take
  check_expiry lease holder renewed none = panic
  check_expiry lease holder renewed (some d) =
      if before_expiry now renewed d then pure (failed (lease_held holder)) else take lease

  contend : Lease → String → Option Time → Exec Cluster (Reply (Unit {0}))
  unfolding check_expiry
  contend lease holder none = take lease
  contend lease holder (some renewed) =
      check_expiry lease holder renewed lease.spec.lease_duration_seconds

  with_holder : Lease → Option String → Exec Cluster (Reply (Unit {0}))
  unfolding contend
  with_holder lease none = take lease
  with_holder lease (some holder) =
      if str_eq holder c.identity
      then update_lease (renewed_lease now lease)
      else contend lease holder lease.spec.renew_time

  -- What follows GetLease.
  unfoldable pub decide : Reply (Option Lease) → Exec Cluster (Reply (Unit {0}))
  unfolding with_holder
  decide (failed e) = pure (failed e)
  decide (success none) = create_lease (new_lease c now)
  decide (success (some lease)) = with_holder lease lease.spec.holder_identity

  unfoldable pub try_acquire_or_renew : Exec Cluster (Reply (Unit {0}))
  try_acquire_or_renew = get_lease c.lock_name >>= decide
