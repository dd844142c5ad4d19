-- ===== src/Commands/Manager.antt =====
-- cmd/controller-manager/main.go: a process that runs the three controllers, at once or while it
-- leads. A round of a controller, at a tick of its Start or Run, is one step; so is what the elector
-- does. A round that never ends keeps its goroutine; a panic ends the process.
use k8s_lite.Prelude.{
  ℕ, suc, Bool, true, false, Option, none, some, List, [], ◌∷◌, if◌then◌else◌, ltb, length, Flow,
  ret, blocked, panicked, Exec, pure, ◌>>=◌,
}
use k8s_lite.Api.Stored.{Json}
use k8s_lite.Cluster.{Env, Cluster}
use k8s_lite.Controllers.ReplicaSets as Rs
use k8s_lite.Controllers.Deployments as Ds
use k8s_lite.Controllers.Endpoints as Es
use k8s_lite.Controllers.Endpoints.{Sort}
use k8s_lite.LeaderElection.{Config}
use k8s_lite.LeaderElection.{
  Status, returned, crashed, Callback, go_on_started_leading, on_stopped_leading, Candidate, Event,
  retry, cancelled, others, step, fresh,
}

-- What runControllers starts.
pub data Controller : Type 0 where
  replica_sets deployments services : Controller

-- `alone`: the controllers run without an election. `exited` has the code of the process.
pub data Phase : Type 0 where
  alone standby working : Phase
  exited : ℕ → Phase

abbrev pub same_controller : Controller → Controller → Bool
same_controller replica_sets replica_sets = true
same_controller deployments deployments = true
same_controller services services = true
same_controller a b = false

-- The callback of this step, if the list has grown.
unfoldable pub called : List Callback → List Callback → Option Callback
called [] old = none
called (c ∷ cs) old = if ltb (length old) (suc (length cs)) then some c else none

-- OnStartedLeading runs the controllers, OnStoppedLeading is `log.Fatalf`.
unfoldable pub on_callback : Option Callback → Phase → Phase
on_callback none p = p
on_callback (some go_on_started_leading) p = working
on_callback (some on_stopped_leading) p = exited 1

-- main returns when RunOrDie does; a panic in it ends the process.
unfoldable pub on_status : Status → Phase → Phase
on_status returned standby = exited 0
on_status crashed p = exited 2
on_status _ p = p

module _ ⦃json : Json⦄ ⦃env : Env json.Bytes⦄ where
  pub record Process : Type 0 where
    pub elector : Candidate
    pub phase : Phase
    -- A request of the controller is never answered.
    pub stuck : Controller → Bool

  pub data Happening : Type 0 where
    elect : Event → Happening
    tick : Controller → Happening

  unfoldable pub run_elector : Config → Event → Process → Process
  unfolding on_callback on_status called
  run_elector c event m =
      let e = step c event m.elector in
      record m {
        elector = e;
        phase = on_status e.status (on_callback (called e.callbacks m.elector.callbacks) m.phase);
      }

  -- The rest of the system goes on also without the process.
  unfoldable pub change_cluster : Event → Process → Process
  change_cluster (others w) m = record m { elector = record m.elector { cluster = w } }
  change_cluster _ m = m

  -- Without an election main returns at the end of the context.
  unfoldable pub run_alone : Event → Process → Process
  unfolding change_cluster
  run_alone cancelled m = record m { phase = exited 0 }
  run_alone (retry now) m = m
  run_alone (others w) m = change_cluster (others w) m

  unfoldable pub begin : Bool → Cluster → Process
  begin leader_elect w = record {
    elector = fresh w;
    phase = if leader_elect then standby else alone;
    stuck = λ _. false;
  }

module _ (sort : Sort) ⦃json : Json⦄ ⦃env : Env json.Bytes⦄ where
  -- One round, as Start and Run make it at each tick: an error is logged.
  unfoldable pub round : Controller → Exec Cluster (Unit {0})
  round replica_sets = Rs.reconcile
  round deployments = Ds.reconcile >>= λ _. pure tt
  round services = Es.sync_services sort >>= λ _. pure tt

  unfoldable pub after_round : Controller → Flow (Unit {0}) → Process → Process
  after_round k (ret _) m = m
  after_round k blocked m = record m {
    stuck = λ j. if same_controller k j then true else m.stuck j;
  }
  after_round k panicked m = record m { phase = exited 2 }

  unfoldable pub run_round : Controller → Process → Process
  unfolding round after_round
  run_round k m =
      let (r, w) = round k m.elector.cluster in
      if m.stuck k
      then m
      else after_round k r (record m { elector = record m.elector { cluster = w } })

  unfoldable pub happen_at : Phase → Config → Happening → Process → Process
  unfolding run_round run_elector change_cluster run_alone
  happen_at alone c (elect event) m = run_alone event m
  happen_at standby c (elect event) m = run_elector c event m
  happen_at working c (elect event) m = run_elector c event m
  happen_at (exited n) c (elect event) m = change_cluster event m
  happen_at alone c (tick k) m = run_round k m
  happen_at working c (tick k) m = run_round k m
  happen_at standby c (tick k) m = m
  happen_at (exited n) c (tick k) m = m

  unfoldable pub happen : Config → Happening → Process → Process
  unfolding happen_at
  happen c h m = happen_at m.phase c h m

  unfoldable pub happen_all : Config → List Happening → Process → Process
  unfolding happen
  happen_all c [] m = m
  happen_all c (h ∷ hs) m = happen_all c hs (happen c h m)
