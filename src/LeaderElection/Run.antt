-- ===== src/LeaderElection/Run.antt =====
-- internal/leaderelection/election.go: Run and renewLoop as a machine whose steps are what their
-- selects wait for: the retry period or the ticker, and the end of the context. Between them other
-- processes may change the cluster.
use k8s_lite.Prelude.{Bool, true, false, List, [], ◌∷◌, Flow, ret, blocked, panicked}
use k8s_lite.Api.Meta.{Time}
use k8s_lite.Api.Stored.{Json}
use k8s_lite.Cluster.{Env, Cluster, World}
use k8s_lite.Client.{Reply, success, failed}
use k8s_lite.LeaderElection.Elector.{Config, try_acquire_or_renew}

-- `hung`: a request is never answered. `crashed`: a panic, which ends the process.
pub data Status : Type 0 where
  running returned hung crashed : Status

pub data Callback : Type 0 where
  go_on_started_leading on_stopped_leading : Callback

-- `leads` tells whether control is in renewLoop. `callbacks` are the statements executed so far that
-- start a callback, the last one first: `go OnStartedLeading(ctx)`, whose call may come later, and the
-- call of OnStoppedLeading.
pub record Elector (Bytes Blob : Type 0) : Type 0 where
  pub status : Status
  pub leads : Bool
  pub callbacks : List Callback
  pub cluster : World Bytes Blob

module _ ⦃json : Json⦄ ⦃env : Env json.Bytes⦄ where
  abbrev pub Candidate : Type 0
  Candidate = Elector json.Bytes json.Blob

  pub data Event : Type 0 where
    -- The time of the next attempt has come.
    retry : Time → Event
    -- `ctx.Done()` is chosen.
    cancelled : Event
    -- The rest of the system changed the cluster.
    others : Cluster → Event

  -- What follows an attempt outside renewLoop.
  unfoldable pub started : Flow (Reply (Unit {0})) → Candidate → Candidate
  started (ret (success _)) e = record e {
    leads = true;
    callbacks = go_on_started_leading ∷ e.callbacks;
  }
  started (ret (failed _)) e = e
  started blocked e = record e { status = hung }
  started panicked e = record e { status = crashed }

  unfoldable pub stop_leading : Candidate → Candidate
  stop_leading e = record e { leads = false; callbacks = on_stopped_leading ∷ e.callbacks }

  -- What follows an attempt in renewLoop.
  unfoldable pub renewed : Flow (Reply (Unit {0})) → Candidate → Candidate
  unfolding stop_leading
  renewed (ret (success _)) e = e
  renewed (ret (failed _)) e = stop_leading e
  renewed blocked e = record e { status = hung }
  renewed panicked e = record e { status = crashed }

  -- By whether control is in renewLoop.
  unfoldable pub after_attempt : Bool → Flow (Reply (Unit {0})) → Candidate → Candidate
  unfolding started renewed
  after_attempt true r e = renewed r e
  after_attempt false r e = started r e

  unfoldable pub attempt : Config → Time → Candidate → Candidate
  unfolding after_attempt
  attempt c now e =
      let (r, w) = try_acquire_or_renew c now e.cluster in
      after_attempt e.leads r (record e { cluster = w })

  unfoldable pub cancel : Bool → Candidate → Candidate
  unfolding stop_leading
  cancel true e = stop_leading e
  cancel false e = record e { status = returned }

  unfoldable pub step_at : Status → Config → Event → Candidate → Candidate
  unfolding attempt cancel
  step_at s c (others w) e = record e { cluster = w }
  step_at running c (retry now) e = attempt c now e
  step_at running c cancelled e = cancel e.leads e
  step_at _ c (retry now) e = e
  step_at _ c cancelled e = e

  unfoldable pub step : Config → Event → Candidate → Candidate
  unfolding step_at
  step c event e = step_at e.status c event e

  unfoldable pub steps : Config → List Event → Candidate → Candidate
  unfolding step
  steps c [] e = e
  steps c (event ∷ events) e = steps c events (step c event e)

  abbrev pub fresh : Cluster → Candidate
  fresh w = record { status = running; leads = false; callbacks = []; cluster = w }

  -- Run, whose first attempt is at once.
  unfoldable pub run : Config → Time → List Event → Cluster → Candidate
  unfolding attempt steps
  run c now events w = steps c events (attempt c now (fresh w))
