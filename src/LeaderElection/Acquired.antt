-- ===== src/LeaderElection/Acquired.antt =====
-- What an attempt of internal/leaderelection/election.go that reports success has left.
use k8s_lite.Prelude.{
  String, ◌≡◌, ◌⊎◌, refl, sym, ap, subst, ◌∙◌, Option, none, some, inl, inr, eq_iff, Flow, ret,
  ret-bind, arith,
}
use k8s_lite.Api.Meta.{Time}
use k8s_lite.Api.Objects.{leases, get_object_meta}
use k8s_lite.Api.Leases.{Lease}
use k8s_lite.Api.Stored.{Json, stored}
use k8s_lite.Cluster.{Env, Cluster}
use k8s_lite.Client.{get, Reply, success, failed, get_lease, create_lease, update_lease}
use k8s_lite.Client.Effects.{create_success, update_success, Holds, get-some}
use k8s_lite.LeaderElection.Elector.{
  Config, new_lease, renewed_lease, taken_lease, decide, try_acquire_or_renew,
}
use k8s_lite.LeaderElection.Exclusion.{decide_failed, stored-lease}

module _ ⦃json : Json⦄ ⦃env : Env json.Bytes⦄ where
  -- What the lock's lease is after an attempt that succeeded.
  pub record IsTaken (c : Config) (now : Time) (w v : Cluster) : Type 0 where
    pub lease : Lease
    pub stored : Holds leases c.lock_name lease v
    pub by : lease.spec.holder_identity ≡ some c.identity
    pub at : lease.spec.renew_time ≡ some now
    pub for :
        (lease.spec.lease_duration_seconds ≡ some c.lease_seconds)
        ⊎ ((old : Lease) × Holds leases c.lock_name old w
            × (old.spec.holder_identity ≡ some c.identity)
            × (lease.spec.lease_duration_seconds ≡ old.spec.lease_duration_seconds))

  decide_fresh :
      (c : Config) (now : Time) (w v : Cluster)
      → (decide c now (success none) v).0 ≡ ret (success tt)
      → IsTaken c now w (decide c now (success none) v).1
  unfolding decide create_lease new_lease get_object_meta stored
  decide_fresh c now w v h = record {
    lease = new_lease c now;
    stored = create_success leases (new_lease c now) v h;
    by = refl;
    at = refl;
    for = inl refl;
  }

  put_lease :
      (lease : Lease) (v : Cluster)
      → (update_lease lease v).0 ≡ ret (success tt)
      → Holds leases lease.name lease (update_lease lease v).1
  unfolding update_lease get_object_meta stored
  put_lease lease v h = update_success leases lease v h

  -- An attempt that succeeded on a lease that it found took it over, or renewed its own.
  decide-some :
      (c : Config) (now : Time) (old : Lease) (v : Cluster)
      → (decide c now (success (some old)) v).0 ≡ ret (success tt)
      → (decide c now (success (some old)) v ≡ update_lease (taken_lease c now old) v)
        ⊎ ((old.spec.holder_identity ≡ some c.identity)
            × (decide c now (success (some old)) v ≡ update_lease (renewed_lease now old) v))
  unfolding decide
  decide-some c now old v h = grind (arith, eq_iff)

  taken_lease-IsTaken :
      (c : Config) (now : Time) (old : Lease) (w v : Cluster)
      → old.name ≡ c.lock_name
      → (update_lease (taken_lease c now old) v).0 ≡ ret (success tt)
      → IsTaken c now w (update_lease (taken_lease c now old) v).1
  unfolding taken_lease
  taken_lease-IsTaken c now old w v n h = record {
    lease = taken_lease c now old;
    stored =
        subst
          (λ m. Holds leases m (taken_lease c now old) (update_lease (taken_lease c now old) v).1) n
          (put_lease (taken_lease c now old) v h);
    by = refl;
    at = refl;
    for = inl refl;
  }

  renewed_IsTaken :
      (c : Config) (now : Time) (old : Lease) (w v : Cluster)
      → old.name ≡ c.lock_name
      → Holds leases c.lock_name old w
      → old.spec.holder_identity ≡ some c.identity
      → (update_lease (renewed_lease now old) v).0 ≡ ret (success tt)
      → IsTaken c now w (update_lease (renewed_lease now old) v).1
  unfolding renewed_lease
  renewed_IsTaken c now old w v n o p h = record {
    lease = renewed_lease now old;
    stored =
        subst
          (λ m. Holds leases m (renewed_lease now old) (update_lease (renewed_lease now old) v).1) n
          (put_lease (renewed_lease now old) v h);
    by = p;
    at = refl;
    for = inr (old, o, p, refl);
  }

  -- The lease at the lock carries the lock's name. (A PUT does not check this.)
  abbrev pub IsNamed : String → Cluster → Type 0
  IsNamed lock w = (l : Lease) → Holds leases lock l w → l.name ≡ lock

  decide-IsTaken :
      (c : Config) (now : Time) (r : Reply (Option Lease)) (w v : Cluster)
      → IsNamed c.lock_name w
      → ((l : Lease) → r ≡ success (some l) → Holds leases c.lock_name l w)
      → (decide c now r v).0 ≡ ret (success tt)
      → IsTaken c now w (decide c now r v).1
  decide-IsTaken c now (failed e) w v n o h = absurd (cc (h, decide_failed c now e v))
  decide-IsTaken c now (success none) w v n o h = decide_fresh c now w v h
  decide-IsTaken c now (success (some old)) w v n o h =
      let held : Holds leases c.lock_name old w = o old refl in
      elim (decide-some c now old v h) [
        | inl e ↦ rw e (taken_lease-IsTaken c now old w v (n old held) (rw e at h))
        | inr (p, e) ↦ rw e (renewed_IsTaken c now old w v (n old held) held p (rw e at h))
      ]

  -- An attempt that reports success, whatever the network lost on the way, has left the lease of
  -- the lock in the caller's name, renewed at the time of the attempt; its duration is the
  -- caller's, or, for a renewal, what it was. The lease that is stored under the lock's name, if
  -- any, is taken to bear that name.
  pub acquired_IsTaken :
      (c : Config) (now : Time) (w : Cluster)
      → IsNamed c.lock_name w
      → (try_acquire_or_renew c now w).0 ≡ ret (success tt)
      → IsTaken c now w (try_acquire_or_renew c now w).1
  unfolding try_acquire_or_renew get_lease
  acquired_IsTaken c now w n h =
      let (r, e, q) = ret-bind (get leases c.lock_name) (decide c now) w h in
      rw q (
        decide-IsTaken c now r w (get leases c.lock_name w).1 n
          (λ l p. found l (e ∙ ap (λ (x : Reply (Option Lease)). ret x) p))
          (sym (ap (λ (x : Flow (Reply (Unit {0})) × Cluster). x.0) q) ∙ h))
    where
      found :
          (l : Lease)
          → (get leases c.lock_name w).0 ≡ ret (success (some l))
          → Holds leases c.lock_name l w
      found l g =
          let (o, held, p) = get-some leases c.lock_name l w g in rw (p ∙ stored-lease o) held
