-- ===== src/Commands/Leading.antt =====
-- The controllers of cmd/controller-manager/main.go and the leadership of
-- internal/leaderelection/election.go.
use k8s_lite.Prelude.{
  ℕ, ◌≡◌, ◌≢◌, ◌⊎◌, inl, inr, refl, sym, subst, ◌∙◌, Bool, true, false, List, [], ◌∷◌, Flow, ret,
  blocked, panicked, Bool-cases,
}
use k8s_lite.Api.Stored.{Json}
use k8s_lite.Cluster.{Env, Cluster}
use k8s_lite.Client.{Reply, success, failed}
use k8s_lite.Controllers.Endpoints.{Sort}
use k8s_lite.LeaderElection.{
  Config, Status, running, returned, hung, crashed, Callback, go_on_started_leading,
  on_stopped_leading, Candidate, Event, retry, cancelled, others, step, step_at, attempt, cancel,
  after_attempt, started, renewed, stop_leading, try_acquire_or_renew,
}
use k8s_lite.Commands.Manager.{
  Controller, Phase, alone, standby, working, exited, Process, Happening, elect, tick, called,
  on_callback, on_status, round, after_round, run_round, run_elector, change_cluster, run_alone,
  happen_at, happen, happen_all, begin,
}

module _ ⦃json : Json⦄ ⦃env : Env json.Bytes⦄ where
  -- What a step does to the leadership: nothing, or it begins, or it ends, with the callback.
  data Turned (before after : Candidate) : Type 0 where
    same : after.leads ≡ before.leads → after.callbacks ≡ before.callbacks → Turned before after
    begun :
        before.leads ≡ false
        → after.leads ≡ true
        → after.callbacks ≡ go_on_started_leading ∷ before.callbacks
        → Turned before after
    stopped :
        before.leads ≡ true
        → after.leads ≡ false
        → after.callbacks ≡ on_stopped_leading ∷ before.callbacks
        → Turned before after

  after_attempt-Turned :
      (leads : Bool) (r : Flow (Reply (Unit {0}))) (e : Candidate) (w : Cluster)
      → e.leads ≡ leads
      → Turned e (after_attempt leads r (record e { cluster = w }))
  unfolding after_attempt started renewed stop_leading
  after_attempt-Turned true (ret (success _)) e w l = same refl refl
  after_attempt-Turned true (ret (failed _)) e w l = stopped l refl refl
  after_attempt-Turned true blocked e w l = same refl refl
  after_attempt-Turned true panicked e w l = same refl refl
  after_attempt-Turned false (ret (success _)) e w l = begun l refl refl
  after_attempt-Turned false (ret (failed _)) e w l = same refl refl
  after_attempt-Turned false blocked e w l = same refl refl
  after_attempt-Turned false panicked e w l = same refl refl

  cancel-Turned : (leads : Bool) (e : Candidate) → e.leads ≡ leads → Turned e (cancel leads e)
  unfolding cancel stop_leading
  cancel-Turned true e l = stopped l refl refl
  cancel-Turned false e l = same refl refl

  step_at-Turned :
      (s : Status) (c : Config) (event : Event) (e : Candidate) → Turned e (step_at s c event e)
  unfolding step_at attempt
  step_at-Turned s c (others w) e = same refl refl
  step_at-Turned running c (retry now) e =
      let next = try_acquire_or_renew c now e.cluster in
      after_attempt-Turned e.leads next.0 e next.1 refl
  step_at-Turned running c cancelled e = cancel-Turned e.leads e refl
  step_at-Turned returned c (retry now) e = same refl refl
  step_at-Turned hung c (retry now) e = same refl refl
  step_at-Turned crashed c (retry now) e = same refl refl
  step_at-Turned returned c cancelled e = same refl refl
  step_at-Turned hung c cancelled e = same refl refl
  step_at-Turned crashed c cancelled e = same refl refl

  -- By the phase of a process in an election: whether the elector leads, and the callbacks that it has called.
  abbrev pub InPhase : Phase → Bool → List Callback → Type 0
  InPhase alone leads cs = ⊥
  InPhase standby leads cs = (leads ≡ false) × (cs ≡ [])
  InPhase working leads cs = (leads ≡ true) × (cs ≡ go_on_started_leading ∷ [])
  InPhase (exited n) leads cs =
      (cs ≡ [])
      ⊎ ((cs ≡ go_on_started_leading ∷ [])
          ⊎ ((leads ≡ false) × (cs ≡ on_stopped_leading ∷ go_on_started_leading ∷ [])))

  abbrev pub IsManaged : Process → Type 0
  IsManaged m = InPhase m.phase m.elector.leads m.elector.callbacks

  phase-InPhase :
      (m : Process) (p : Phase)
      → m.phase ≡ p
      → IsManaged m
      → InPhase p m.elector.leads m.elector.callbacks
  phase-InPhase m p q i = subst (λ t. InPhase t m.elector.leads m.elector.callbacks) q i

  -- The process ends with the status of the elector.
  on_status-InPhase :
      (s : Status) (p : Phase) (leads : Bool) (cs : List Callback)
      → InPhase p leads cs
      → InPhase (on_status s p) leads cs
  unfolding on_status
  on_status-InPhase running alone leads cs i = i
  on_status-InPhase running standby leads cs i = i
  on_status-InPhase running working leads cs i = i
  on_status-InPhase running (exited n) leads cs i = i
  on_status-InPhase returned alone leads cs i = i
  on_status-InPhase returned standby leads cs i = inl i.1
  on_status-InPhase returned working leads cs i = i
  on_status-InPhase returned (exited n) leads cs i = i
  on_status-InPhase hung alone leads cs i = i
  on_status-InPhase hung standby leads cs i = i
  on_status-InPhase hung working leads cs i = i
  on_status-InPhase hung (exited n) leads cs i = i
  on_status-InPhase crashed alone leads cs i = absurd i
  on_status-InPhase crashed standby leads cs i = inl i.1
  on_status-InPhase crashed working leads cs i = inr (inl i.1)
  on_status-InPhase crashed (exited n) leads cs i = i

  on_callback-InPhase :
      (p : Phase) (before after : Candidate)
      → ((n : ℕ) → p ≢ exited n)
      → Turned before after
      → InPhase p before.leads before.callbacks
      → InPhase
          (on_callback (called after.callbacks before.callbacks) p)
          after.leads
          after.callbacks
  unfolding on_callback called
  on_callback-InPhase alone b a x t i = absurd i
  on_callback-InPhase (exited m) b a x t i = absurd (x m refl)
  on_callback-InPhase standby b a x (same l cs) i = rw (cs, i.1) (l ∙ i.0, refl)
  on_callback-InPhase standby b a x (begun _ l cs) i = rw (cs, i.1) (l, refl)
  on_callback-InPhase standby b a x (stopped l _ _) i = cc (l, i.0)
  on_callback-InPhase working b a x (same l cs) i = rw (cs, i.1) (l ∙ i.0, refl)
  on_callback-InPhase working b a x (begun l _ _) i = cc (l, i.0)
  on_callback-InPhase working b a x (stopped _ l cs) i = rw (cs, i.1) (inr (inr (l, refl)))

  elector-IsManaged :
      (p : Phase) (c : Config) (event : Event) (m : Process)
      → m.phase ≡ p
      → ((n : ℕ) → p ≢ exited n)
      → IsManaged m
      → IsManaged (run_elector c event m)
  unfolding run_elector step
  elector-IsManaged p c event m q x i =
      let e : Candidate = step_at m.elector.status c event m.elector in
      on_status-InPhase e.status _ e.leads e.callbacks (
        on_callback-InPhase m.phase m.elector e (λ k a. x k (sym q ∙ a))
          (step_at-Turned m.elector.status c event m.elector) i)

  change_cluster-IsManaged :
      (event : Event) (m : Process) → IsManaged m → IsManaged (change_cluster event m)
  unfolding change_cluster
  change_cluster-IsManaged (others w) m i = i
  change_cluster-IsManaged (retry now) m i = i
  change_cluster-IsManaged cancelled m i = i

  module _ (sort : Sort) where
    after_round-IsManaged :
        (p : Phase) (k : Controller) (r : Flow (Unit {0})) (m : Process)
        → m.phase ≡ p
        → IsManaged m
        → IsManaged (after_round sort k r m)
    unfolding after_round
    after_round-IsManaged p k (ret _) m q i = i
    after_round-IsManaged p k blocked m q i = i
    after_round-IsManaged alone k panicked m q i = absurd (phase-InPhase m alone q i)
    after_round-IsManaged standby k panicked m q i = inl ((phase-InPhase m standby q i).1)
    after_round-IsManaged working k panicked m q i = inr (inl ((phase-InPhase m working q i).1))
    after_round-IsManaged (exited n) k panicked m q i = phase-InPhase m (exited n) q i

    round-IsManaged : (k : Controller) (m : Process) → IsManaged m → IsManaged (run_round sort k m)
    unfolding run_round
    round-IsManaged k m i = elim (Bool-cases (m.stuck k)) [
      | inl q ↦ rw q i
      | inr q ↦
          let next = round sort k m.elector.cluster in
          rw q (
            after_round-IsManaged m.phase k next.0
              (record m { elector = record m.elector { cluster = next.1 } }) refl i)
    ]

    happen_at-IsManaged :
        (p : Phase) (c : Config) (h : Happening) (m : Process)
        → m.phase ≡ p
        → IsManaged m
        → IsManaged (happen_at sort p c h m)
    unfolding happen_at run_alone
    happen_at-IsManaged alone c (elect (others w)) m q i = i
    happen_at-IsManaged alone c (elect (retry now)) m q i = i
    happen_at-IsManaged alone c (elect cancelled) m q i = absurd (phase-InPhase m alone q i)
    happen_at-IsManaged standby c (elect event) m q i =
        elector-IsManaged standby c event m q (λ n e. cc) i
    happen_at-IsManaged working c (elect event) m q i =
        elector-IsManaged working c event m q (λ n e. cc) i
    happen_at-IsManaged (exited n) c (elect event) m q i = change_cluster-IsManaged event m i
    happen_at-IsManaged alone c (tick k) m q i = round-IsManaged k m i
    happen_at-IsManaged working c (tick k) m q i = round-IsManaged k m i
    happen_at-IsManaged standby c (tick k) m q i = i
    happen_at-IsManaged (exited n) c (tick k) m q i = i

    -- Through any happenings: a process that waits has called no callback and does not lead, one
    -- that runs the controllers in an election leads and has started OnStartedLeading once, and
    -- one that has ended had called none, or that one, or then OnStoppedLeading and does not lead.
    pub happen_all-IsManaged :
        (c : Config) (hs : List Happening) (m : Process)
        → IsManaged m
        → IsManaged (happen_all sort c hs m)
    unfolding happen_all happen
    happen_all-IsManaged c [] m i = i
    happen_all-IsManaged c (h ∷ hs) m i =
        happen_all-IsManaged c hs (happen sort c h m) (happen_at-IsManaged m.phase c h m refl i)

    tick_at :
        (p : Phase) (c : Config) (k : Controller) (m : Process)
        → m.phase ≡ p
        → IsManaged m
        → m.elector.leads ≡ false
        → happen_at sort p c (tick k) m ≡ m
    unfolding happen_at
    tick_at alone c k m q i l = absurd (phase-InPhase m alone q i)
    tick_at standby c k m q i l = refl
    tick_at (exited x) c k m q i l = refl
    tick_at working c k m q i l = cc ((phase-InPhase m working q i).0, l)

    -- A controller of a process that takes part in an election makes a round only while the
    -- process leads: at any other time a tick changes nothing.
    pub tick_idle :
        (c : Config) (hs : List Happening) (w : Cluster) (k : Controller)
        → let m : Process = happen_all sort c hs (begin true w) in
          m.elector.leads ≡ false → happen sort c (tick k) m ≡ m
    unfolding happen begin
    tick_idle c hs w k l =
        let m : Process = happen_all sort c hs (begin true w) in
        tick_at m.phase c k m refl (happen_all-IsManaged c hs (begin true w) (refl, refl)) l
