-- ===== src/LeaderElection/Overlap.antt =====
-- Two candidates whose attempts overlap, each reading the lease before the other has written it:
-- internal/leaderelection/election.go.
use k8s_lite.Prelude.{String, ◌≡◌, ◌≢◌, some, false, eq_iff, Exec, ret, pure, ◌>>=◌, ℤ, arith}
use k8s_lite.Api.Meta.{Time}
use k8s_lite.Api.Objects.{leases, get_object_meta}
use k8s_lite.Api.Leases.{Lease}
use k8s_lite.Api.Stored.{Json, stored}
use k8s_lite.Cluster.{Env, Cluster}
use k8s_lite.Client.{Reply, success, get, get_lease, update_lease}
use k8s_lite.Client.Effects.{Holds, Holds-store, store-get, update_success}
use k8s_lite.Client.Progress.{
  IsHealthy, get_succeeds, update_succeeds, get-IsHealthy, update-IsHealthy,
}
use k8s_lite.LeaderElection.Elector.{Config, before_expiry, taken_lease, decide}

module _ ⦃json : Json⦄ ⦃env : Env json.Bytes⦄ where
  -- The attempts of a and b, run in the order GetLease, GetLease, UpdateLease, UpdateLease.
  unfoldable pub overlap :
      Config → Config → Time → Time → Exec Cluster (Reply (Unit {0}) × Reply (Unit {0}))
  overlap a b at bt = do
    ra ← get_lease a.lock_name
    rb ← get_lease b.lock_name
    x ← decide a at ra
    y ← decide b bt rb
    pure (x, y)

  pub decide_expired :
      (c : Config) (now renewed : Time) (holder : String) (d : ℤ) (old : Lease) (v : Cluster)
      → old.spec.holder_identity ≡ some holder
      → old.spec.renew_time ≡ some renewed
      → old.spec.lease_duration_seconds ≡ some d
      → holder ≢ c.identity
      → before_expiry now renewed d ≡ false
      → decide c now (success (some old)) v ≡ update_lease (taken_lease c now old) v
  unfolding decide
  decide_expired c now renewed holder d old v p q r n t = ground (arith, eq_iff holder c.identity)

  pub got :
      (lock : String) (o : Lease) (w : Cluster)
      → IsHealthy w
      → Holds leases lock o w
      → (get leases lock w).0 ≡ ret (success (some o))
  unfolding stored
  got lock o w h g = get_succeeds leases lock o w h g

  took :
      (c : Config) (now : Time) (old held : Lease) (v : Cluster)
      → IsHealthy v
      → Holds leases old.name held v
      → ((update_lease (taken_lease c now old) v).0 ≡ ret (success tt))
        × Holds leases old.name (taken_lease c now old) (update_lease (taken_lease c now old) v).1
        × IsHealthy (update_lease (taken_lease c now old) v).1
  unfolding update_lease taken_lease get_object_meta stored
  took c now old held v h g =
      let e = update_succeeds leases (taken_lease c now old) held v h g in
      (
        e,
        update_success leases (taken_lease c now old) v e,
        update-IsHealthy leases (taken_lease c now old) v h,
      )

  -- If a healthy cluster holds a lease of a third party that has run out for both of two candidates,
  -- and both read it before either writes it, then both report that they lead.
  pub overlap_both_lead :
      (a b : Config) (at bt renewed : Time) (holder : String) (d : ℤ) (old : Lease) (w : Cluster)
      → IsHealthy w
      → Holds leases old.name old w
      → (a.lock_name ≡ old.name) × (b.lock_name ≡ old.name)
      → (old.spec.holder_identity ≡ some holder)
        × (old.spec.renew_time ≡ some renewed)
        × (old.spec.lease_duration_seconds ≡ some d)
      → (holder ≢ a.identity) × (holder ≢ b.identity)
      → (before_expiry at renewed d ≡ false) × (before_expiry bt renewed d ≡ false)
      → (overlap a b at bt w).0 ≡ ret (success tt, success tt)
  unfolding overlap get_lease
  overlap_both_lead a b at bt renewed holder d old w h g (la, lb) (p, q, r) (na, nb) (ta, tb) =
      let w1 = (get leases old.name w).1 in
      let h1 = get-IsHealthy leases old.name w h in
      let g1 = Holds-store leases old.name old w w1 (store-get leases old.name w) g in
      let w2 = (get leases old.name w1).1 in
      let h2 = get-IsHealthy leases old.name w1 h1 in
      let g2 = Holds-store leases old.name old w1 w2 (store-get leases old.name w1) g1 in
      let (ea, g3, h3) = took a at old old w2 h2 g2 in
      let w3 = (update_lease (taken_lease a at old) w2).1 in
      let (eb, g4, h4) = took b bt old (taken_lease a at old) w3 h3 g3 in
      rw la (
        rw lb (
          ground (
            arith,
            got old.name old w h g,
            got old.name old w1 h1 g1,
            decide_expired a at renewed holder d old w2 p q r na ta,
            decide_expired b bt renewed holder d old w3 p q r nb tb,
            ea,
            eb,
          )))
