-- ===== src/Controllers/Deployments/Turning.antt =====
-- What scaleUp and scaleDown of internal/controller/deployment/controller.go do on a healthy
-- cluster: the numbers of replicas that are then stored.
use mathlib.Core.Bool.{true≢false}
use k8s_lite.Prelude.{
  String, ◌≡◌, ◌≢◌, refl, sym, ap, ◌∙◌, true, false, Option, none, some, List, [], ◌∷◌, Flow,
  continue, subst, lookup, ℤ, pos, negsuc, All, str_eq, eq_iff, Bool-cases, inl, inr, ret, arith,
  eqb_ℤ,
}
use k8s_lite.Api.Workloads.{ReplicaSet}
use k8s_lite.Api.Objects.{replicasets, get_object_meta}
use k8s_lite.Api.Stored.{Json, stored}
use k8s_lite.Registry.{key, key-name}
use k8s_lite.Cluster.{Env, Cluster}
use k8s_lite.Client.{success, update, update_replica_set}
use k8s_lite.Client.Named.{update_by_name-update}
use k8s_lite.Urls.{IsPlainName}
use k8s_lite.Client.Effects.{Holds, view-update, update_success}
use k8s_lite.Client.Progress.{IsHealthy, update_succeeds, update-IsHealthy}
use k8s_lite.Controllers.Deployments.Sync.{
  label_at, revision, with_replicas, is_replicas, is_positive, scale_up, scale_one, scale_down,
}

pub apart : (a b : String) → str_eq a b ≡ false → a ≢ b
apart a b q e = true≢false (sym ((eq_iff a b).1 e) ∙ q)

eqb_same : (r n : ℤ) → eqb_ℤ r n ≡ true → r ≡ n
eqb_same (pos a) (pos b) e = ground (arith, e)
eqb_same (pos a) (negsuc b) e = absurd (true≢false (sym e))
eqb_same (negsuc a) (pos b) e = absurd (true≢false (sym e))
eqb_same (negsuc a) (negsuc b) e = ground (arith, e)

is_replicas_same : (n : ℤ) (r : Option ℤ) → is_replicas n r ≡ true → r ≡ some n
unfolding is_replicas
is_replicas_same n none e = absurd (true≢false (sym e))
is_replicas_same n (some r) e = ap some (eqb_same r n e)

abbrev pub Mark : Type 0
Mark = Option ℤ × String

-- The number of replicas and the hash in the annotations.
abbrev pub mark : ReplicaSet → Mark
mark rs = (rs.spec.replicas, label_at revision rs.annotations)

module _ ⦃json : Json⦄ ⦃env : Env json.Bytes⦄ where
  -- A ReplicaSet is stored under the name, with this number of replicas and this hash.
  abbrev pub IsAt : Cluster → String → Mark → Type 0
  IsAt w name n = (o : ReplicaSet) × Holds replicasets name o w × (mark o ≡ n)

  abbrev pub IsOff : Cluster → String → Type 0
  IsOff w name = (n : Mark) × IsAt w name n × (is_positive n.0 ≡ false)

  -- What a write under one name does: the cluster stays healthy, and other names keep their mark.
  pub record Leaves (name : String) (w v : Cluster) : Type 0 where
    pub healthy : IsHealthy v
    pub others : (other : String) (n : Mark) → other ≢ name → IsAt w other n → IsAt v other n

  update_scales :
      (rs : ReplicaSet) (n : ℤ) (m : Mark) (w : Cluster)
      → IsHealthy w
      → IsPlainName rs.name
      → IsAt w rs.name m
      → let v : Cluster = (update_replica_set (with_replicas n rs) w).1 in
        ((update_replica_set (with_replicas n rs) w).0 ≡ ret (success tt))
        × IsAt v rs.name (some n, label_at revision rs.annotations)
        × Leaves rs.name w v
  unfolding update_replica_set get_object_meta stored label_at lookup
  update_scales rs n m w h plain (o, there, _) =
      rw (update_by_name-update replicasets (with_replicas n rs) w plain) (
        let e : (update replicasets (with_replicas n rs) w).0 ≡ ret (success tt) =
          update_succeeds replicasets (with_replicas n rs) o w h there in
        (
          e,
          (
            stored replicasets (stored replicasets (with_replicas n rs)),
            update_success replicasets (with_replicas n rs) w e,
            refl,
          ),
          record {
            healthy = update-IsHealthy replicasets (with_replicas n rs) w h;
            others = λ other k d (p, t, q). (
              p,
              record {
                bytes = t.bytes;
                there =
                    view-update replicasets (with_replicas n rs) w (key replicasets other)
                      (λ x. d (sym (key-name replicasets rs.name other x)))
                    ∙ t.there;
                decodes = t.decodes;
              },
              q,
            );
          },
        ))

  -- One of the names may have been turned off.
  abbrev pub IsFollowed : Cluster → ReplicaSet → Type 0
  IsFollowed w rs =
      IsPlainName rs.name
      × ((n : Mark) × IsAt w rs.name n
          × (is_positive rs.spec.replicas ≡ false → is_positive n.0 ≡ false))

  keeps-IsOff :
      (name other : String) (w v : Cluster)
      → Leaves name w v
      → IsOff v name
      → IsOff w other
      → IsOff v other
  keeps-IsOff name other w v l off (n, a, e) = elim (Bool-cases (str_eq other name)) [
    | inl q ↦ rw ((eq_iff other name).0 q) off
    | inr q ↦ (n, l.others other n (apart other name q) a, e)
  ]

  keeps-IsFollowed :
      (name : String) (rs : ReplicaSet) (w v : Cluster)
      → Leaves name w v
      → IsOff v name
      → IsFollowed w rs
      → IsFollowed v rs
  keeps-IsFollowed name rs w v l off (plain, (n, a, f)) = elim (Bool-cases (str_eq rs.name name)) [
    | inl q ↦ let (m, b, e) = off in (plain, (m, rw ((eq_iff rs.name name).0 q) b, λ x. e))
    | inr q ↦ (plain, (n, l.others rs.name n (apart rs.name name q) a, f))
  ]

  scale_one_turns :
      (old : ReplicaSet) (w : Cluster)
      → IsHealthy w
      → IsFollowed w old
      → let v : Cluster = (scale_one old w).1 in
        ((scale_one old w).0 ≡ ret tt) × IsOff v old.name × Leaves old.name w v
  unfolding scale_one
  scale_one_turns old w h (plain, (n, a, f)) = elim (Bool-cases (is_positive old.spec.replicas)) [
    | inl q ↦
        let (e, at, l) = update_scales old (pos 0) n w h plain a in
        rw q (rw e (refl, ((some (pos 0), label_at revision old.annotations), at, refl), l))
    | inr q ↦ rw q (refl, (n, a, f q), record { healthy = h; others = λ other m d b. b })
  ]

  All-IsFollowed :
      (name : String) (rss : List ReplicaSet) (w v : Cluster)
      → Leaves name w v
      → IsOff v name
      → All (IsFollowed w) rss
      → All (IsFollowed v) rss
  All-IsFollowed name [] w v l off a = tt
  All-IsFollowed name (rs ∷ rss) w v l off (a, b) =
      (keeps-IsFollowed name rs w v l off a, All-IsFollowed name rss w v l off b)

  -- What turning a list of ReplicaSets off comes to.
  pub record Turned (olds : List ReplicaSet) (w : Cluster) (r : Flow (Unit {0}) × Cluster)
      : Type 0 where
    pub returns : r.0 ≡ ret tt
    pub off : All (λ rs. IsOff r.1 rs.name) olds
    kept_off : (name : String) → IsOff w name → IsOff r.1 name
    pub kept :
        (name : String) (n : Mark)
        → All (λ rs. name ≢ rs.name) olds
        → IsAt w name n
        → IsAt r.1 name n

  pub scale_down_turns :
      (olds : List ReplicaSet) (w : Cluster)
      → IsHealthy w
      → All (IsFollowed w) olds
      → Turned olds w (scale_down olds w)
  unfolding scale_down
  scale_down_turns [] w h a = record {
    returns = refl;
    off = tt;
    kept_off = λ name o. o;
    kept = λ name n d o. o;
  }
  scale_down_turns (old ∷ rest) w h (a, b) =
      let (e, off, l) = scale_one_turns old w h a in
      let v = (scale_one old w).1 in
      let t = scale_down_turns rest v l.healthy (All-IsFollowed old.name rest w v l off b) in
      let step : scale_down (old ∷ rest) w ≡ scale_down rest v =
        ap (λ x. continue x (λ _. scale_down rest) v) e in
      subst (Turned (old ∷ rest) w) (sym step) (record {
        returns = t.returns;
        off = (t.kept_off old.name off, t.off);
        kept_off = λ name o. t.kept_off name (keeps-IsOff old.name name w v l off o);
        kept = λ name n (d, ds) o. t.kept name n ds (l.others name n d o);
      })

  pub scale_up_turns :
      (new : ReplicaSet) (n : ℤ) (w : Cluster)
      → IsHealthy w
      → IsPlainName new.name
      → IsAt w new.name (mark new)
      → let v : Cluster = (scale_up new n w).1 in
        ((scale_up new n w).0 ≡ ret tt)
        × IsAt v new.name (some n, label_at revision new.annotations)
        × Leaves new.name w v
  unfolding scale_up
  scale_up_turns new n w h plain a = elim (Bool-cases (is_replicas n new.spec.replicas)) [
    | inl q ↦
        let b : IsAt w new.name (some n, label_at revision new.annotations) =
          rw (is_replicas_same n new.spec.replicas q) at a in
        rw q (refl, b, record { healthy = h; others = λ other m d c. c })
    | inr q ↦
        let (e, at, l) = update_scales new n (mark new) w h plain a in rw q (rw e (refl, at, l))
  ]
