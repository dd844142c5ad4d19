-- ===== src/Controllers/Deployments/Rolling.antt =====
-- What a round of internal/controller/deployment/controller.go leads to on a healthy cluster.
use Prim.Native.String.{len, slice}
use k8s_lite.Prelude.{
  String, ◌≡◌, ◌≢◌, refl, sym, ap, ◌∙◌, true, false, none, some, List, [], ◌∷◌, ◌++◌, Flow,
  continue, subst, ◌>>=◌, pure, All, str_eq, eq_iff, ltb, Bool-cases, Option-cases, inl, inr, ret,
  arith, lookup, insert, lookup-insert, append-ne-empty, some_inj, ltb,
}
use k8s_lite.Api.Workloads.{ReplicaSet, Deployment}
use k8s_lite.Api.Objects.{replicasets, get_object_meta}
use k8s_lite.Api.Stored.{Json, stored}
use k8s_lite.Registry.{key}
use k8s_lite.Cluster.{Env, Cluster}
use k8s_lite.Client.{Reply, success, create_replica_set}
use k8s_lite.Client.Progress.{IsHealthy}
use k8s_lite.Client.Applying.{create_applies, with_table, with_table-IsHealthy}
use k8s_lite.Controllers.Deployments.Sync.{
  scale_up, scale_down, old_sets, owned_sets, find_new, roll, desired_replicas, sync_listed,
  with_new, new_replica_set, has_revision, label_at, revision, create_new_replica_set, after_create,
  created,
}
use k8s_lite.Urls.{IsPlainName}
use k8s_lite.Controllers.Deployments.Turning.{
  mark, IsAt, IsOff, Leaves, IsFollowed, apart, scale_up_turns, scale_down_turns,
}

module _ ⦃json : Json⦄ ⦃env : Env json.Bytes⦄ where
  -- Stored under its name, which is plain, with the number and the hash that it is listed with.
  abbrev pub IsListed : Cluster → ReplicaSet → Type 0
  IsListed w rs = IsPlainName rs.name × IsAt w rs.name (mark rs)

  -- Writing the new ReplicaSet leaves the old ones as they are listed.
  old_sets-IsFollowed :
      (new : ReplicaSet) (owned : List ReplicaSet) (w v : Cluster)
      → Leaves new.name w v
      → All (IsListed w) owned
      → All (IsFollowed v) (old_sets new owned)
        × All (λ rs. new.name ≢ rs.name) (old_sets new owned)
  unfolding old_sets
  old_sets-IsFollowed new [] w v l a = (tt, tt)
  old_sets-IsFollowed new (rs ∷ rss) w v l ((p, a), b) =
      let (f, d) = old_sets-IsFollowed new rss w v l b in
      elim (Bool-cases (str_eq rs.name new.name)) [
        | inl q ↦ rw q (f, d)
        | inr q ↦
            let n = apart rs.name new.name q in
            rw q (((p, (mark rs, l.others rs.name (mark rs) n a, λ e. e)), f), (λ e. n (sym e), d))
      ]

  -- What a round comes to, for the ReplicaSet of the current template and the old ones.
  pub record Rolled (d : Deployment) (new : ReplicaSet) (owned : List ReplicaSet)
      (r : Flow (Reply (Unit {0})) × Cluster) : Type 0 where
    returns : r.0 ≡ ret (success tt)
    scaled : IsAt r.1 new.name (some (desired_replicas d), env.template_hash d.spec.template)
    off : All (λ rs. IsOff r.1 rs.name) (old_sets new owned)

  roll_rolls :
      (d : Deployment) (new : ReplicaSet) (owned : List ReplicaSet) (w : Cluster)
      → IsHealthy w
      → IsListed w new
      → All (IsListed w) owned
      → label_at revision new.annotations ≡ env.template_hash d.spec.template
      → Rolled d new owned (roll d new owned w)
  unfolding roll
  roll_rolls d new owned w h (p, a) b q =
      let (e, at, l) = scale_up_turns new (desired_replicas d) w h p a in
      let v = (scale_up new (desired_replicas d) w).1 in
      let (f, n) = old_sets-IsFollowed new owned w v l b in
      let t = scale_down_turns (old_sets new owned) v l.healthy f in
      let u = scale_down (old_sets new owned) v in
      let step : roll d new owned w ≡ (ret (success tt), u.1) =
        ap (λ x. continue x (λ _. scale_down (old_sets new owned) >>= λ _. pure (success tt)) v) e
        ∙ ap (λ x. continue x (λ _. pure (success tt)) u.1) t.returns in
      subst (Rolled d new owned) (sym step) (record {
        returns = refl;
        scaled =
            subst (λ s. IsAt u.1 new.name (some (desired_replicas d), s)) q
              (t.kept new.name (some (desired_replicas d), label_at revision new.annotations) n at);
        off = t.off;
      })

  find_new-IsListed :
      (hash : String) (rss : List ReplicaSet) (w : Cluster) (new : ReplicaSet)
      → find_new hash rss ≡ some new
      → All (IsListed w) rss
      → IsListed w new × (has_revision hash new ≡ true)
  unfolding find_new
  find_new-IsListed hash [] w new e a = cc
  find_new-IsListed hash (rs ∷ rss) w new e (a, b) = elim (Bool-cases (has_revision hash rs)) [
    | inl q ↦
        subst (λ o. IsListed w o × (has_revision hash o ≡ true)) (some_inj rs new (rw q at e))
          (a, q)
    | inr q ↦ find_new-IsListed hash rss w new (rw q at e) b
  ]

  old_sets_front :
      (P : ReplicaSet → Type 0) (new : ReplicaSet) (owned more : List ReplicaSet)
      → All P (old_sets new (owned ++ more))
      → All P (old_sets new owned)
  unfolding old_sets
  old_sets_front P new [] more a = tt
  old_sets_front P new (rs ∷ rss) more a = elim (Bool-cases (str_eq rs.name new.name)) [
    | inl q ↦ rw q (old_sets_front P new rss more (rw q at a))
    | inr q ↦ let (x, y) = rw q at a in rw q (x, old_sets_front P new rss more y)
  ]

  append-IsListed :
      (rss : List ReplicaSet) (new : ReplicaSet) (w : Cluster)
      → All (IsListed w) rss
      → IsListed w new
      → All (IsListed w) (rss ++ new ∷ [])
  append-IsListed [] new w a b = (b, tt)
  append-IsListed (rs ∷ rss) new w (a, c) b = (a, append-IsListed rss new w c b)

  -- A ReplicaSet that is made leaves those that are listed as they are.
  insert_keeps :
      (i : String) (b : json.Bytes) (w : Cluster) (rss : List ReplicaSet)
      → lookup i w.store.table ≡ none
      → All (IsListed w) rss
      → All (IsListed (with_table (insert i b w.store.table) w)) rss
  insert_keeps i b w [] n a = tt
  insert_keeps i b w (rs ∷ rss) n ((p, (o, t, q)), a) =
      let j = key replicasets rs.name in
      let there : lookup j w.store.table ≡ some t.bytes = t.there in
      let still : lookup j (insert i b w.store.table) ≡ some t.bytes =
        ground (arith, lookup-insert i j b w.store.table, eq_iff i j, n, there) in
      (
        (p, (o, record { bytes = t.bytes; there = still; decodes = t.decodes }, q)),
        insert_keeps i b w rss n a,
      )

  create_rolls :
      (d : Deployment) (owned : List ReplicaSet) (w : Cluster)
      → let hash = env.template_hash d.spec.template in
        IsHealthy w
        → IsPlainName (new_replica_set d hash).name
        → All (IsListed w) owned
        → ltb (len hash) 10 ≡ false
        → lookup (key replicasets (new_replica_set d hash).name) w.store.table ≡ none
        → Rolled d (new_replica_set d hash) owned (with_new d hash owned none w)
  unfolding with_new create_new_replica_set create_replica_set after_create created get_object_meta
      new_replica_set stored label_at lookup
  create_rolls d owned w h p a t n =
      let hash = env.template_hash d.spec.template in
      let new = new_replica_set d hash in
      let i = key replicasets new.name in
      let (b, m, e) =
        create_applies replicasets new w h (append-ne-empty d.name (slice hash 0 10)) n in
      let v = with_table (insert i b w.store.table) w in
      let there : lookup i v.store.table ≡ some b =
        ground (arith, lookup-insert i i b w.store.table, eq_iff i i) in
      let reads = json.round_trip replicasets (stored replicasets new) b m in
      let at : IsListed v new = (
        p,
        (
          stored replicasets (stored replicasets new),
          record { bytes = b; there = there; decodes = reads },
          refl,
        ),
      ) in
      let r =
        roll_rolls d new (owned ++ new ∷ []) v (with_table-IsHealthy _ w h) at
          (append-IsListed owned new v (insert_keeps i b w owned n a) at) refl in
      let step : with_new d hash owned none w ≡ roll d new (owned ++ new ∷ []) v =
        ground (arith, t, e) in
      subst (Rolled d new owned) (sym step) (record {
        returns = r.returns;
        scaled = r.scaled;
        off = old_sets_front _ new owned (new ∷ []) r.off;
      })

  -- Cluster reachable and able to store, every ReplicaSet that the Deployment owns is stored with
  -- the number and the hash it is listed with, under a plain name, and, when none of them has the
  -- hash of the current template, that hash is at least ten long and the name made of it is plain and
  -- free. Then the round's work returns without an error, and one ReplicaSet is stored with that hash
  -- in its annotations and the number of pods that the Deployment wants, and every one that it owns
  -- under another name is stored with no positive number.
  pub sync_listed_rolls :
      (d : Deployment) (all_rs : List ReplicaSet) (w : Cluster)
      → IsHealthy w
      → All (IsListed w) (owned_sets d all_rs)
      → (find_new (env.template_hash d.spec.template) (owned_sets d all_rs) ≡ none
          → ltb (len (env.template_hash d.spec.template)) 10 ≡ false)
      → (find_new (env.template_hash d.spec.template) (owned_sets d all_rs) ≡ none
          → IsPlainName (new_replica_set d (env.template_hash d.spec.template)).name)
      → (find_new (env.template_hash d.spec.template) (owned_sets d all_rs) ≡ none
          → lookup
              (key replicasets (new_replica_set d (env.template_hash d.spec.template)).name)
              w.store.table
            ≡ none)
      → (new : ReplicaSet) × Rolled d new (owned_sets d all_rs) (sync_listed d all_rs w)
  unfolding sync_listed with_new has_revision new_replica_set label_at lookup
  sync_listed_rolls d all_rs w h a long plain free =
      let hash = env.template_hash d.spec.template in
      let owned = owned_sets d all_rs in
      elim (Option-cases (find_new hash owned)) [
        | inl e ↦
            (new_replica_set d hash, rw e (create_rolls d owned w h (plain e) a (long e) (free e)))
        | inr (new, e) ↦
            let (l, q) = find_new-IsListed hash owned w new e a in
            (new, rw e (roll_rolls d new owned w h l a ((eq_iff _ _).0 q)))
      ]
