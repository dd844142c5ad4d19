-- ===== src/LeaderElection/Terms.antt =====
-- When Run of internal/leaderelection/election.go starts to lead, goes on, and returns.
use k8s_lite.Prelude.{
  String, ◌≡◌, ◌≢◌, refl, Bool, true, false, List, [], ◌∷◌, ℤ, Flow, ret, blocked, panicked, ◌⊎◌,
  inl, inr,
}
use k8s_lite.Api.Meta.{Time}
use k8s_lite.Api.Stored.{Json}
use k8s_lite.Cluster.{Env}
use k8s_lite.Client.{Reply, success, failed}
use k8s_lite.LeaderElection.Elector.{Config, before_expiry, try_acquire_or_renew}
use k8s_lite.LeaderElection.Exclusion.{IsHeld, IsHeld-store, held_excludes}
use k8s_lite.LeaderElection.Run.{
  Status, running, returned, hung, crashed, Callback, Candidate, Event, retry, cancelled, others,
  started, stop_leading, after_attempt, attempt, cancel, step_at, step, steps,
}

module _ ⦃json : Json⦄ ⦃env : Env json.Bytes⦄ where
  -- At every attempt the lease of the lock is held by another and has not run out; whenever the
  -- cluster changes it is still held.
  abbrev pub IsGuarded : String → String → Time → ℤ → List Event → Type 0
  IsGuarded lock holder renewed d [] = Unit
  IsGuarded lock holder renewed d (retry now ∷ events) =
      (before_expiry now renewed d ≡ true) × IsGuarded lock holder renewed d events
  IsGuarded lock holder renewed d (cancelled ∷ events) = IsGuarded lock holder renewed d events
  IsGuarded lock holder renewed d (others w ∷ events) =
      (at : Time) × (for : ℤ) × IsHeld lock holder at for w × IsGuarded lock holder at for events

  -- The candidate does not lead, and has called no callback since.
  abbrev pub IsIdle : List Callback → Candidate → Type 0
  IsIdle cs e = (e.leads ≡ false) × (e.callbacks ≡ cs)

  started-IsIdle :
      (cs : List Callback) (r : Flow (Reply (Unit {0}))) (e : Candidate)
      → r ≢ ret (success tt)
      → IsIdle cs e
      → IsIdle cs (started r e)
  unfolding started
  started-IsIdle cs (ret (success tt)) e n i = absurd (n refl)
  started-IsIdle cs (ret (failed x)) e n i = i
  started-IsIdle cs blocked e n i = i
  started-IsIdle cs panicked e n i = i

  cluster-started :
      (r : Flow (Reply (Unit {0}))) (e : Candidate) → (started r e).cluster ≡ e.cluster
  unfolding started
  cluster-started (ret (success tt)) e = refl
  cluster-started (ret (failed x)) e = refl
  cluster-started blocked e = refl
  cluster-started panicked e = refl

  module _ (c : Config) (holder : String) (n : holder ≢ c.identity) where
    abbrev pub Waits : List Callback → Time → ℤ → Candidate → Type 0
    Waits cs renewed d e = IsIdle cs e × IsHeld c.lock_name holder renewed d e.cluster

    after_attempt-Waits :
        (leads : Bool) (cs : List Callback) (renewed : Time) (d : ℤ) (r : Flow (Reply (Unit {0})))
        (e : Candidate)
        → leads ≡ false
        → r ≢ ret (success tt)
        → Waits cs renewed d e
        → Waits cs renewed d (after_attempt leads r e)
    unfolding after_attempt
    after_attempt-Waits true cs renewed d r e l f w = cc l
    after_attempt-Waits false cs renewed d r e l f w =
        (started-IsIdle cs r e f w.0, rw (cluster-started r e) (w.1))

    attempt-Waits :
        (cs : List Callback) (now renewed : Time) (d : ℤ) (e : Candidate)
        → before_expiry now renewed d ≡ true
        → Waits cs renewed d e
        → Waits cs renewed d (attempt c now e)
    unfolding attempt
    attempt-Waits cs now renewed d e t ((l, k), h) =
        let (f, s) = held_excludes c now renewed holder d e.cluster h n t in
        let next = try_acquire_or_renew c now e.cluster in
        after_attempt-Waits e.leads cs renewed d next.0 (record e { cluster = next.1 }) l f
          ((l, k), IsHeld-store c.lock_name holder renewed d e.cluster next.1 s h)

    cancel-Waits :
        (leads : Bool) (cs : List Callback) (renewed : Time) (d : ℤ) (e : Candidate)
        → leads ≡ false
        → Waits cs renewed d e
        → Waits cs renewed d (cancel leads e)
    unfolding cancel
    cancel-Waits true cs renewed d e l w = cc l
    cancel-Waits false cs renewed d e l w = w

    -- One step, from what the rest of the steps is guarded by.
    pub step-Waits :
        (s : Status) (cs : List Callback) (renewed : Time) (d : ℤ) (event : Event)
        (events : List Event) (e : Candidate)
        → IsGuarded c.lock_name holder renewed d (event ∷ events)
        → Waits cs renewed d e
        → (at : Time) × (for : ℤ) × IsGuarded c.lock_name holder at for events
          × Waits cs at for (step_at s c event e)
    unfolding step_at
    step-Waits s cs renewed d (others w) events e (at, for, h, g) (i, _) = (at, for, g, (i, h))
    step-Waits running cs renewed d (retry now) events e (t, g) w =
        (renewed, d, g, attempt-Waits cs now renewed d e t w)
    step-Waits returned cs renewed d (retry now) events e (t, g) w = (renewed, d, g, w)
    step-Waits hung cs renewed d (retry now) events e (t, g) w = (renewed, d, g, w)
    step-Waits crashed cs renewed d (retry now) events e (t, g) w = (renewed, d, g, w)
    step-Waits running cs renewed d cancelled events e g w =
        (renewed, d, g, cancel-Waits e.leads cs renewed d e w.0.0 w)
    step-Waits returned cs renewed d cancelled events e g w = (renewed, d, g, w)
    step-Waits hung cs renewed d cancelled events e g w = (renewed, d, g, w)
    step-Waits crashed cs renewed d cancelled events e g w = (renewed, d, g, w)

    -- As long as another candidate holds the lease, renewed in time for each attempt, a candidate
    -- that does not lead never starts to, through any number of attempts, cancellations and
    -- changes of the cluster.
    pub steps-IsIdle :
        (renewed : Time) (d : ℤ) (events : List Event) (e : Candidate)
        → e.leads ≡ false
        → IsHeld c.lock_name holder renewed d e.cluster
        → IsGuarded c.lock_name holder renewed d events
        → IsIdle e.callbacks (steps c events e)
    unfolding steps step
    steps-IsIdle renewed d events e l h g = all renewed d events e ((l, refl), h) g
      where
        all :
            (at : Time) (for : ℤ) (rest : List Event) (x : Candidate)
            → Waits e.callbacks at for x
            → IsGuarded c.lock_name holder at for rest
            → IsIdle e.callbacks (steps c rest x)
        all at for [] x w g = w.0
        all at for (event ∷ rest) x w g =
            let (at', for', g', w') = step-Waits x.status e.callbacks at for event rest x g w in
            all at' for' rest (step_at x.status c event x) w' g'

  abbrev pub HasReturned : Candidate → Type 0
  HasReturned e = (e.leads ≡ false) × (e.status ≡ returned)

  cancel_idle :
      (leads : Bool) (e : Candidate)
      → leads ≡ false
      → e.leads ≡ false
      → HasReturned (cancel leads e)
  unfolding cancel
  cancel_idle true e l k = cc l
  cancel_idle false e l k = (k, refl)

  second_cancel :
      (s : Status) (c : Config) (e : Candidate)
      → e.status ≡ s
      → (s ≡ running) ⊎ (s ≡ returned)
      → e.leads ≡ false
      → HasReturned (step_at s c cancelled e)
  unfolding step_at
  second_cancel running c e q o l = cancel_idle e.leads e l l
  second_cancel returned c e q o l = (l, q)
  second_cancel hung c e q o l = elim o [ inl x ↦ cc x | inr x ↦ cc x ]
  second_cancel crashed c e q o l = elim o [ inl x ↦ cc x | inr x ↦ cc x ]

  first_cancel :
      (leads : Bool) (e : Candidate)
      → e.leads ≡ leads
      → e.status ≡ running
      → (((cancel leads e).status ≡ running) ⊎ ((cancel leads e).status ≡ returned))
        × ((cancel leads e).leads ≡ false)
  unfolding cancel stop_leading
  first_cancel true e l s = (inl s, refl)
  first_cancel false e l s = (inr refl, l)

  cancel_running :
      (s : Status) (c : Config) (e : Candidate)
      → s ≡ running
      → step_at s c cancelled e ≡ cancel e.leads e
  unfolding step_at
  cancel_running running c e q = refl
  cancel_running returned c e q = cc q
  cancel_running hung c e q = cc q
  cancel_running crashed c e q = cc q

  -- Wherever Run is, if its selects choose the end of the context twice in a row it has returned,
  -- and it has stopped leading.
  pub cancelled_returns :
      (c : Config) (e : Candidate)
      → e.status ≡ running
      → HasReturned (steps c (cancelled ∷ cancelled ∷ []) e)
  unfolding steps step
  cancelled_returns c e s =
      let (o, l) = first_cancel e.leads e refl s in
      rw (cancel_running e.status c e s)
        (second_cancel (cancel e.leads e).status c (cancel e.leads e) refl o l)
