-- ===== src/LeaderElection/Exclusion.antt =====
-- Attempts on a lease that another holds: internal/leaderelection/election.go.
use k8s_lite.Prelude.{
  String, ◌≡◌, ◌≢◌, refl, ◌∙◌, some, ℤ, true, inl, inr, eq_iff, Flow, ret, All, arith, List, [],
  ◌∷◌,
}
use k8s_lite.Api.Meta.{Time}
use k8s_lite.Api.Objects.{leases}
use k8s_lite.Api.Leases.{Lease}
use k8s_lite.Api.Stored.{Json, stored}
use k8s_lite.Cluster.{Env, Cluster}
use k8s_lite.Client.{ClientError, get, Reply, success, failed, lease_held, get_lease}
use k8s_lite.Client.Effects.{Holds, Holds-store, get_present, store-get}
use k8s_lite.LeaderElection.Elector.{Config, before_expiry, decide, try_acquire_or_renew}

module _ ⦃json : Json⦄ ⦃env : Env json.Bytes⦄ where
  -- The lock's lease names a holder, renewed at a time, for some seconds.
  pub record IsHeld (lock holder : String) (renewed : Time) (d : ℤ) (w : Cluster) : Type 0 where
    pub lease : Lease
    pub stored : Holds leases lock lease w
    pub by : lease.spec.holder_identity ≡ some holder
    pub at : lease.spec.renew_time ≡ some renewed
    pub for : lease.spec.lease_duration_seconds ≡ some d

  decide_held :
      (c : Config) (now renewed : Time) (holder : String) (d : ℤ) (lease : Lease) (w : Cluster)
      → lease.spec.holder_identity ≡ some holder
      → lease.spec.renew_time ≡ some renewed
      → lease.spec.lease_duration_seconds ≡ some d
      → holder ≢ c.identity
      → before_expiry now renewed d ≡ true
      → decide c now (success (some lease)) w ≡ (ret (failed (lease_held holder)), w)
  unfolding decide
  decide_held c now renewed holder d lease w p q r n t = ground (arith, eq_iff holder c.identity)

  pub decide_failed :
      (c : Config) (now : Time) (e : ClientError) (w : Cluster)
      → decide c now (failed e) w ≡ (ret (failed e), w)
  unfolding decide
  decide_failed c now e w = refl

  pub stored-lease : (l : Lease) → stored leases l ≡ l
  unfolding stored
  stored-lease l = refl

  -- While another's lease has not run out, an attempt does not succeed, and does not touch the store.
  pub held_excludes :
      (c : Config) (now renewed : Time) (holder : String) (d : ℤ) (w : Cluster)
      → IsHeld c.lock_name holder renewed d w
      → holder ≢ c.identity
      → before_expiry now renewed d ≡ true
      → ((try_acquire_or_renew c now w).0 ≢ ret (success tt))
        × ((try_acquire_or_renew c now w).1.store ≡ w.store)
  unfolding try_acquire_or_renew get_lease
  held_excludes c now renewed holder d w h n t =
      elim (get_present leases c.lock_name h.lease w h.stored) [
        | inl (e, f) ↦ ground (
          arith,
          f,
          store-get leases c.lock_name w,
          decide_failed c now e (get leases c.lock_name w).1,
        )
        | inr f ↦ ground (
          arith,
          f,
          store-get leases c.lock_name w,
          stored-lease h.lease,
          decide_held c now renewed holder d h.lease (get leases c.lock_name w).1 h.by h.at h.for n
              t,
        )
      ]

  unfoldable pub run_attempts :
      List (Config × Time) → Cluster → List (Flow (Reply (Unit {0}))) × Cluster
  run_attempts [] w = ([], w)
  run_attempts ((c, now) ∷ rest) w =
      let (r, w') = try_acquire_or_renew c now w in
      let (rs, v) = run_attempts rest w' in (r ∷ rs, v)

  -- An attempt of another candidate for the same lock, before the lease runs out.
  abbrev pub IsRival : String → String → Time → ℤ → Config × Time → Type 0
  IsRival lock holder renewed d (c, now) =
      (c.lock_name ≡ lock) × (holder ≢ c.identity) × (before_expiry now renewed d ≡ true)

  pub IsHeld-store :
      (lock holder : String) (renewed : Time) (d : ℤ) (w v : Cluster)
      → v.store ≡ w.store
      → IsHeld lock holder renewed d w
      → IsHeld lock holder renewed d v
  IsHeld-store lock holder renewed d w v e h = record {
    lease = h.lease;
    stored = Holds-store leases lock h.lease w v e h.stored;
    by = h.by;
    at = h.at;
    for = h.for;
  }

  -- While a lease has not run out, no number of attempts of other candidates for its lock, one
  -- after another, each made before the lease runs out, succeeds, and the store is left as it was.
  pub rivals_fail :
      (lock holder : String) (renewed : Time) (d : ℤ) (rivals : List (Config × Time)) (w : Cluster)
      → IsHeld lock holder renewed d w
      → All (IsRival lock holder renewed d) rivals
      → All (λ r. r ≢ ret (success tt)) (run_attempts rivals w).0
        × ((run_attempts rivals w).1.store ≡ w.store)
  unfolding run_attempts
  rivals_fail lock holder renewed d [] w h a = (tt, refl)
  rivals_fail lock holder renewed d ((c, now) ∷ rest) w h ((l, n, t), a) =
      let (f, s) = held_excludes c now renewed holder d w (rw l h) n t in
      let (g, e) =
        rivals_fail lock holder renewed d rest (try_acquire_or_renew c now w).1
          (IsHeld-store lock holder renewed d w _ s h) a in
      ((f, g), e ∙ s)
