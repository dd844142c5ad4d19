-- ===== src/LeaderElection/Takeover.antt =====
-- A candidate for an expired lease on a healthy cluster: Run of internal/leaderelection/election.go.
use k8s_lite.Prelude.{
  String, ◌≡◌, ◌≢◌, refl, ap, sym, ◌∙◌, Bool, true, false, some, List, [], ◌∷◌, ℤ, Flow, ret,
  eq_refl, arith, map, subst, if◌then◌else◌,
}
use k8s_lite.Api.Meta.{Time}
use k8s_lite.Api.Leases.{Lease}
use k8s_lite.Api.Objects.{leases, get_object_meta}
use k8s_lite.Api.Stored.{Json, stored}
use k8s_lite.Cluster.{Env, Cluster}
use k8s_lite.Client.{Reply, success, get, get_lease, update_lease}
use k8s_lite.Client.Effects.{Holds, Holds-store, store-get, update_success}
use k8s_lite.Client.Progress.{IsHealthy, update_succeeds, get-IsHealthy, update-IsHealthy}
use k8s_lite.LeaderElection.Elector.{
  Config, before_expiry, taken_lease, renewed_lease, decide, try_acquire_or_renew,
}
use k8s_lite.LeaderElection.Overlap.{decide_expired, got}
use k8s_lite.LeaderElection.Run.{
  Status, running, returned, hung, crashed, Callback, go_on_started_leading, Candidate, retry,
  started, renewed, after_attempt, attempt, step_at, step, steps,
}

module _ ⦃json : Json⦄ ⦃env : Env json.Bytes⦄ where
  -- A healthy cluster that holds the lock's lease.
  pub record HasLease (c : Config) (lease : Lease) (w : Cluster) : Type 0 where
    pub healthy : IsHealthy w
    pub stored : Holds leases c.lock_name lease w
    pub named : lease.name ≡ c.lock_name

  wrote :
      (c : Config) (new held : Lease) (v : Cluster)
      → HasLease c held v
      → new.name ≡ c.lock_name
      → ((update_lease new v).0 ≡ ret (success tt)) × HasLease c new (update_lease new v).1
  unfolding update_lease get_object_meta stored
  wrote c new held v h n =
      let e =
        update_succeeds leases new held v h.healthy
          (subst (λ i. Holds leases i held v) (sym n) h.stored) in
      (
        e,
        record {
          healthy = update-IsHealthy leases new v h.healthy;
          stored =
              subst (λ i. Holds leases i new (update_lease new v).1) n
                (update_success leases new v e);
          named = n;
        },
      )

  -- An attempt that writes a lease of the same name succeeds.
  try_writes :
      (c : Config) (now : Time) (old new : Lease) (w : Cluster)
      → HasLease c old w
      → new.name ≡ old.name
      → ((v : Cluster) → decide c now (success (some old)) v ≡ update_lease new v)
      → ((try_acquire_or_renew c now w).0 ≡ ret (success tt))
        × HasLease c new (try_acquire_or_renew c now w).1
  unfolding try_acquire_or_renew get_lease
  try_writes c now old new w h n d =
      let w1 = (get leases c.lock_name w).1 in
      rw (got c.lock_name old w h.healthy h.stored, d w1)
        (wrote c new old w1
          (record {
            healthy = get-IsHealthy leases c.lock_name w h.healthy;
            stored =
                Holds-store leases c.lock_name old w w1 (store-get leases c.lock_name w) h.stored;
            named = h.named;
          })
          (n ∙ h.named))

  decide_own :
      (c : Config) (now : Time) (old : Lease) (v : Cluster)
      → old.spec.holder_identity ≡ some c.identity
      → decide c now (success (some old)) v ≡ update_lease (renewed_lease now old) v
  unfolding decide
  decide_own c now old v p = ground (arith, p, eq_refl c.identity)

  -- A candidate in renewLoop whose lease is stored in its name.
  pub record IsLeader (c : Config) (cs : List Callback) (e : Candidate) : Type 0 where
    pub lease : Lease
    pub has : HasLease c lease e.cluster
    pub by : lease.spec.holder_identity ≡ some c.identity
    pub runs : e.status ≡ running
    pub leads : e.leads ≡ true
    pub called : e.callbacks ≡ cs

  won : Candidate → Candidate
  won e = record e {
    leads = true;
    callbacks = if e.leads then e.callbacks else go_on_started_leading ∷ e.callbacks;
  }

  after_attempt-won :
      (leads : Bool) (r : Flow (Reply (Unit {0}))) (e : Candidate)
      → e.leads ≡ leads
      → r ≡ ret (success tt)
      → after_attempt leads r e ≡ won e
  unfolding after_attempt started renewed won
  after_attempt-won true r e l q =
      ap (λ f. renewed f e) q
      ∙ ap (λ b. record e { leads = b }) l
      ∙ ap
          (λ b. record e {
            leads = true;
            callbacks = if b then e.callbacks else go_on_started_leading ∷ e.callbacks;
          })
          (sym l)
  after_attempt-won false r e l q =
      ap (λ f. started f e) q
      ∙ ap
          (λ b. record e {
            leads = true;
            callbacks = if b then e.callbacks else go_on_started_leading ∷ e.callbacks;
          })
          (sym l)

  step_won :
      (s : Status) (c : Config) (now : Time) (e : Candidate)
      → s ≡ running
      → (try_acquire_or_renew c now e.cluster).0 ≡ ret (success tt)
      → step_at s c (retry now) e
        ≡ won (record e { cluster = (try_acquire_or_renew c now e.cluster).1 })
  unfolding step_at attempt
  step_won running c now e q h =
      after_attempt-won e.leads _ (record e { cluster = (try_acquire_or_renew c now e.cluster).1 })
        refl h
  step_won returned c now e q h = cc q
  step_won hung c now e q h = cc q
  step_won crashed c now e q h = cc q

  -- One attempt that writes the lease in the candidate's name.
  step-IsLeader :
      (c : Config) (now : Time) (old new : Lease) (cs : List Callback) (e : Candidate)
      → e.status ≡ running
      → HasLease c old e.cluster
      → new.name ≡ old.name
      → new.spec.holder_identity ≡ some c.identity
      → ((v : Cluster) → decide c now (success (some old)) v ≡ update_lease new v)
      → (if e.leads then e.callbacks else go_on_started_leading ∷ e.callbacks) ≡ cs
      → IsLeader c cs (step c (retry now) e)
  unfolding step won
  step-IsLeader c now old new cs e s h n b d k =
      let (q, l) = try_writes c now old new e.cluster h n d in
      rw (step_won e.status c now e s q)
        (record { lease = new; has = l; by = b; runs = s; leads = refl; called = k })

  renews :
      (c : Config) (cs : List Callback) (times : List Time) (e : Candidate)
      → IsLeader c cs e
      → IsLeader c cs (steps c (map retry times) e)
  unfolding steps renewed_lease
  renews c cs [] e h = h
  renews c cs (now ∷ times) e h = renews c cs times (step c (retry now) e) (
      step-IsLeader c now h.lease (renewed_lease now h.lease) cs e h.runs h.has refl h.by
        (λ v. decide_own c now h.lease v h.by) (rw (h.leads) h.called))

  -- On a healthy cluster, a candidate that tries for a lease of another that has run out starts to
  -- lead at that attempt, and goes on leading through any number of later ones if nobody else
  -- changes the cluster meanwhile: OnStartedLeading is started once, and OnStoppedLeading is not called.
  pub takes_over :
      (c : Config) (now renewed : Time) (holder : String) (d : ℤ) (old : Lease) (times : List Time)
      (e : Candidate)
      → e.status ≡ running
      → e.leads ≡ false
      → HasLease c old e.cluster
      → (old.spec.holder_identity ≡ some holder)
        × (old.spec.renew_time ≡ some renewed)
        × (old.spec.lease_duration_seconds ≡ some d)
      → holder ≢ c.identity
      → before_expiry now renewed d ≡ false
      → IsLeader c (go_on_started_leading ∷ e.callbacks) (steps c (map retry (now ∷ times)) e)
  unfolding steps taken_lease
  takes_over c now renewed holder d old times e s l h (p, q, r) n t =
      renews c (go_on_started_leading ∷ e.callbacks) times (step c (retry now) e) (
        step-IsLeader c now old (taken_lease c now old) (go_on_started_leading ∷ e.callbacks) e s h
          refl refl (λ v. decide_expired c now renewed holder d old v p q r n t) (rw l refl))
