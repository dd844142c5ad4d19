-- ===== src/Controllers/Deployments/Rollout.antt =====
-- What one round of internal/controller/deployment/controller.go does to the ReplicaSets.
use k8s_lite.Prelude.{
  some_inj, Option-cases, Flow, String, Bool, true, false, none, some, List, [], ◌∷◌, ◌++◌, ◌≡◌,
  ◌≢◌, inl, inr, refl, ap, sym, ◌∙◌, keep, All, ℤ, pos, ret, arith, Bool-cases, state-bind-pure,
  ret-bind-pure, ltb, subst,
}
use Prim.Native.String.{len}
use k8s_lite.Api.Workloads.{Deployment, ReplicaSet}
use k8s_lite.Api.Objects.{replicasets, get_object_meta}
use k8s_lite.Api.Stored.{Json}
use k8s_lite.Registry.{key}
use k8s_lite.Storage.Spec.{view}
use k8s_lite.Cluster.{Env, Cluster}
use k8s_lite.Client.{Reply, success, failed, create, create_replica_set, update_replica_set}
use k8s_lite.Client.Effects.{view-create, view-update}
use k8s_lite.Client.Keeping.{then_kept}
use k8s_lite.Client.Named.{update_by_name-update}
use k8s_lite.Urls.{IsPlainName}
use k8s_lite.Controllers.Deployments.Sync.{
  labels_match, find_new, has_revision, owned_sets, old_sets, desired_replicas, new_replica_set,
  with_replicas, is_replicas, is_positive, create_new_replica_set, created, with_new, after_create,
  scale_up, scale_one, scale_down, roll, sync_listed,
}

-- A Deployment with an empty selector owns every ReplicaSet that is listed.
pub owned_sets_no_selector :
    (d : Deployment) (all_rs : List ReplicaSet)
    → d.spec.selector.match_labels ≡ []
    → owned_sets d all_rs ≡ all_rs
unfolding owned_sets labels_match
owned_sets_no_selector d [] e = refl
owned_sets_no_selector d (rs ∷ rss) e = ground (arith, e, owned_sets_no_selector d rss e)

-- The ReplicaSet that has the current template is one of those that the Deployment owns.
All-find_new :
    (P : ReplicaSet → Type 0) (hash : String) (rss : List ReplicaSet) (new : ReplicaSet)
    → find_new hash rss ≡ some new
    → All P rss
    → P new
unfolding find_new
All-find_new P hash [] new e a = cc
All-find_new P hash (rs ∷ rss) new e (a, b) = elim (Bool-cases (has_revision hash rs)) [
  | inl q ↦ subst P (some_inj rs new (rw q at e)) a
  | inr q ↦ All-find_new P hash rss new (rw q at e) b
]

All-keep :
    (P : ReplicaSet → Type 0) (p : ReplicaSet → Bool) (rss : List ReplicaSet)
    → All P rss
    → All P (keep p rss)
All-keep P p [] a = tt
All-keep P p (rs ∷ rss) (a, b) = elim (Bool-cases (p rs)) [
  | inl e ↦ rw e (a, All-keep P p rss b)
  | inr e ↦ rw e (All-keep P p rss b)
]

All-behind :
    (P : ReplicaSet → Type 0) (rss : List ReplicaSet) (rs : ReplicaSet)
    → All P rss
    → P rs
    → All P (rss ++ rs ∷ [])
All-behind P [] rs a b = (b, tt)
All-behind P (x ∷ rss) rs (c, a) b = (c, All-behind P rss rs a b)

module _ ⦃json : Json⦄ ⦃env : Env json.Bytes⦄ where
  scale_down_settled :
      (olds : List ReplicaSet) (w : Cluster)
      → All (λ rs. is_positive rs.spec.replicas ≡ false) olds
      → scale_down olds w ≡ (ret tt, w)
  unfolding scale_down
  scale_down_settled [] w h = refl
  scale_down_settled (rs ∷ rss) w h = ground (arith, scale_down_settled rss w h.1)

  -- If the ReplicaSet of the current template exists with the desired number, and no other one
  -- that the Deployment owns wants a pod, then a round's work on the listed ReplicaSets sends
  -- nothing and changes nothing.
  sync_listed_settled :
      (d : Deployment) (all_rs : List ReplicaSet) (new : ReplicaSet) (w : Cluster)
      → find_new (env.template_hash d.spec.template) (owned_sets d all_rs) ≡ some new
      → is_replicas (desired_replicas d) new.spec.replicas ≡ true
      → All (λ rs. is_positive rs.spec.replicas ≡ false) (old_sets new (owned_sets d all_rs))
      → sync_listed d all_rs w ≡ (ret (success tt), w)
  unfolding sync_listed roll scale_up
  sync_listed_settled d all_rs new w e r h =
      ground (arith, e, scale_down_settled (old_sets new (owned_sets d all_rs)) w h)

  -- An update of the ReplicaSet, with any number, leaves the key as it is.
  abbrev pub Spares : String → ReplicaSet → Type 0
  Spares j rs =
      (n : ℤ) (w : Cluster)
      → view (update_replica_set (with_replicas n rs) w).1.store j ≡ view w.store j

  scale_up_kept :
      (new : ReplicaSet) (n : ℤ) (w : Cluster) (j : String)
      → Spares j new
      → view (scale_up new n w).1.store j ≡ view w.store j
  unfolding scale_up
  scale_up_kept new n w j k =
      ground
        (arith, k n w, state-bind-pure (update_replica_set (with_replicas n new)) (λ _. tt {0}) w)

  scale_one_kept :
      (old : ReplicaSet) (w : Cluster) (j : String)
      → Spares j old
      → view (scale_one old w).1.store j ≡ view w.store j
  unfolding scale_one
  scale_one_kept old w j k = ground (
    arith,
    k (pos 0) w,
    state-bind-pure (update_replica_set (with_replicas (pos 0) old)) (λ _. tt {0}) w,
  )

  scale_down_kept :
      (olds : List ReplicaSet) (w : Cluster) (j : String)
      → All (Spares j) olds
      → view (scale_down olds w).1.store j ≡ view w.store j
  unfolding scale_down
  scale_down_kept [] w j k = refl
  scale_down_kept (rs ∷ rss) w j (a, b) =
      ground (arith, scale_one_kept rs w j a, scale_down_kept rss (scale_one rs w).1 j b)

  roll_kept :
      (d : Deployment) (new : ReplicaSet) (owned : List ReplicaSet) (w : Cluster) (j : String)
      → Spares j new
      → All (Spares j) owned
      → view (roll d new owned w).1.store j ≡ view w.store j
  unfolding roll old_sets
  roll_kept d new owned w j n k =
      let u = scale_up new (desired_replicas d) w in
      ground (
        arith,
        scale_up_kept new (desired_replicas d) w j n,
        scale_down_kept (old_sets new owned) u.1 j (All-keep (Spares j) _ owned k),
      )

  create_new_kept :
      (d : Deployment) (hash : String) (w : Cluster) (j : String)
      → key replicasets (new_replica_set d hash).name ≢ j
      → view (create_new_replica_set d hash w).1.store j ≡ view w.store j
  unfolding create_new_replica_set create_replica_set get_object_meta
  create_new_kept d hash w j n = ground (
    arith,
    view-create replicasets (new_replica_set d hash) w j n,
    state-bind-pure (create replicasets (new_replica_set d hash)) (created (new_replica_set d hash))
        w,
  )

  -- What is given is the ReplicaSet that was sent.
  created_new :
      (d : Deployment) (hash : String) (w : Cluster) (new : ReplicaSet)
      → (create_new_replica_set d hash w).0 ≡ ret (success new)
      → new ≡ new_replica_set d hash
  unfolding create_new_replica_set created
  created_new d hash w new e = elim (Bool-cases (ltb (len hash) 10)) [
    | inl q ↦ ground (arith, e, q)
    | inr q ↦
        let rs = new_replica_set d hash in
        let r =
          ret-bind-pure (create_replica_set rs) (created rs) w {b = success new}
            (ground (arith, e, q)) in
        of_reply r.0 rs r.2
  ]
    where
      of_reply : (r : Reply (Unit {0})) (rs : ReplicaSet) → created rs r ≡ success new → new ≡ rs
      of_reply (failed x) rs q = cc
      of_reply (success x) rs q = cc

  with_created_kept :
      (d : Deployment) (hash : String) (owned : List ReplicaSet) (w : Cluster) (j : String)
      → key replicasets (new_replica_set d hash).name ≢ j
      → Spares j (new_replica_set d hash)
      → All (Spares j) owned
      → view (with_new d hash owned none w).1.store j ≡ view w.store j
  unfolding with_new after_create
  with_created_kept d hash owned w j n m k =
      then_kept (create_new_replica_set d hash) (after_create d owned) w j
        (create_new_kept d hash w j n) rest
    where
      rest :
          (r : Reply ReplicaSet)
          → (create_new_replica_set d hash w).0 ≡ ret r
          → view (after_create d owned r (create_new_replica_set d hash w).1).1.store j
            ≡ view (create_new_replica_set d hash w).1.store j
      rest (failed x) q = refl
      rest (success new) q =
          let s : Spares j new = subst (Spares j) (sym (created_new d hash w new q)) m in
          roll_kept d new (owned ++ new ∷ []) (create_new_replica_set d hash w).1 j s
            (All-behind (Spares j) owned new k s)

  -- A key that no update of an owned ReplicaSet touches.
  pub sync_listed-Spares :
      (d : Deployment) (all_rs : List ReplicaSet) (w : Cluster) (j : String)
      → All (Spares j) (owned_sets d all_rs)
      → Spares j (new_replica_set d (env.template_hash d.spec.template))
      → key replicasets (new_replica_set d (env.template_hash d.spec.template)).name ≢ j
      → view (sync_listed d all_rs w).1.store j ≡ view w.store j
  unfolding sync_listed with_new
  sync_listed-Spares d all_rs w j k m n =
      let hash = env.template_hash d.spec.template in
      let owned = owned_sets d all_rs in
      elim (Option-cases (find_new hash owned)) [
        | inl e ↦ rw e (with_created_kept d hash owned w j n m k)
        | inr (new, e) ↦
            rw e (roll_kept d new owned w j (All-find_new (Spares j) hash owned new e k) k)
      ]

  plain-Spares :
      (j : String) (rs : ReplicaSet)
      → IsPlainName rs.name
      → key replicasets rs.name ≢ j
      → Spares j rs
  unfolding update_replica_set get_object_meta
  plain-Spares j rs p d n w =
      ap (λ (x : Flow (Reply (Unit {0})) × Cluster). view x.1.store j)
        (update_by_name-update replicasets (with_replicas n rs) w p)
      ∙ view-update replicasets (with_replicas n rs) w j d

  All-Spares :
      (j : String) (rss : List ReplicaSet)
      → All (λ rs. IsPlainName rs.name × (key replicasets rs.name ≢ j)) rss
      → All (Spares j) rss
  All-Spares j [] a = tt
  All-Spares j (rs ∷ rss) ((p, d), a) = (plain-Spares j rs p d, All-Spares j rss a)

  -- If the names of the ReplicaSets that the Deployment owns, and the one made of the hash of its
  -- current template, are plain, a round for the Deployment changes and makes no object but those of
  -- these names, however the requests come out.
  pub sync_listed_kept :
      (d : Deployment) (all_rs : List ReplicaSet) (w : Cluster) (j : String)
      → All (λ rs. IsPlainName rs.name × (key replicasets rs.name ≢ j)) (owned_sets d all_rs)
      → IsPlainName (new_replica_set d (env.template_hash d.spec.template)).name
      → key replicasets (new_replica_set d (env.template_hash d.spec.template)).name ≢ j
      → view (sync_listed d all_rs w).1.store j ≡ view w.store j
  sync_listed_kept d all_rs w j k p n =
      let new = new_replica_set d (env.template_hash d.spec.template) in
      sync_listed-Spares d all_rs w j (All-Spares j (owned_sets d all_rs) k)
        (plain-Spares j new p n) n
