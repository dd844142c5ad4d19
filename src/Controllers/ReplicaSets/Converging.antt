-- ===== src/Controllers/ReplicaSets/Converging.antt =====
-- Rounds of internal/controller/replicaset/controller.go on a healthy cluster.
use text.Mathlib.TextLemmas.{append_cancel_left}
use k8s_lite.Prelude.{
  ℕ, zero, suc, ◌+◌, ◌-◌, ◌<◌, ◌≤◌, String, ◌+s+◌, ◌≡◌, ◌≢◌, refl, sym, subst, ◌∙◌, true, none,
  append-ne-empty, some, List, [], ◌∷◌, Map, All, lookup, insert, remove, lookup-insert,
  lookup-remove, eq_iff, length, ltb, Bool-cases, inl, inr, ret, arith, str_eq, pos, false_of_not,
}
use k8s_lite.Api.Pods.{Pod}
use k8s_lite.Api.Workloads.{ReplicaSet}
use k8s_lite.Api.Objects.{pods, get_object_meta}
use k8s_lite.Api.Stored.{Json, stored}
use k8s_lite.Registry.{key, key-name, key_prefix_own}
use k8s_lite.Storage.Listing.{entry_object}
use k8s_lite.ApiServer.WellFormed.{Unique, insert-Unique, remove-Unique}
use k8s_lite.Cluster.{Env, Cluster}
use k8s_lite.Client.{success, create_pod, delete_pod}
use k8s_lite.Client.Progress.{IsHealthy}
use k8s_lite.Client.Named.{delete_pod-delete}
use k8s_lite.Urls.{IsPlainName}
use k8s_lite.Client.Applying.{with_table, create_applies, delete_applies, with_table-IsHealthy}
use k8s_lite.Controllers.ReplicaSets.Reconcile.{
  labels_match, owned_pods, new_pod, create_pod_of, create_pods, delete_pods, reconcile_rs,
}
use k8s_lite.Controllers.ReplicaSets.Scaling.{reconcile_rs_plan}
use k8s_lite.Controllers.ReplicaSets.Counting.{
  owns, owned_count, owned_count-insert, owned_count-remove,
}

unfoldable pub pod_key : ReplicaSet → String → String
pod_key rs suffix = key pods (rs.name +s+ ("-" +s+ suffix))

pod_key_injective : (rs : ReplicaSet) (s t : String) → pod_key rs s ≡ pod_key rs t → s ≡ t
unfolding pod_key
pod_key_injective rs s t e =
    append_cancel_left _ _ _ (append_cancel_left _ _ _ (key-name pods _ _ e))

module _ ⦃json : Json⦄ ⦃env : Env json.Bytes⦄ (rs : ReplicaSet) where
  -- The names of the next pods are not taken, and differ.
  pub record IsFresh (clock n : ℕ) (m : Map json.Bytes) : Type 0 where
    pub free : (i : ℕ) → clock ≤ i → i < clock + n → lookup (pod_key rs (env.uuid i)) m ≡ none
    pub distinct : (i j : ℕ) → clock ≤ i → i < j → j < clock + n → env.uuid i ≢ env.uuid j

  -- A healthy cluster in which no key occurs twice, with a number of owned pods.
  pub record Owns (c : ℕ) (w : Cluster) : Type 0 where
    pub healthy : IsHealthy w
    pub unique : Unique w.store.table
    pub count : owned_count rs w.store.table ≡ c

  -- The pod is stored under its name, and owned.
  abbrev pub IsStored : Map json.Bytes → Pod → Type 0
  IsStored m p =
      (b : json.Bytes) × (lookup (key pods p.name) m ≡ some b)
      × (owns rs (key pods p.name, b) ≡ true)

  abbrev pub AreStored : Map json.Bytes → List Pod → Type 0
  AreStored m [] = Unit
  AreStored m (p ∷ ps) = IsStored m p × All (λ (q : Pod). q.name ≢ p.name) ps × AreStored m ps

  IsStored-remove :
      (m : Map json.Bytes) (name : String) (q : Pod)
      → q.name ≢ name
      → IsStored m q
      → IsStored (remove (key pods name) m) q
  IsStored-remove m name q n (b, l, o) = (
    b,
    lookup-remove (key pods name) (key pods q.name) m
        ∙ rw
            (false_of_not (str_eq (key pods name) (key pods q.name))
              (λ e. n (sym (key-name pods name q.name ((eq_iff _ _).0 e)))))
            l,
    o,
  )

  AreStored-remove :
      (m : Map json.Bytes) (name : String) (ps : List Pod)
      → All (λ (q : Pod). q.name ≢ name) ps
      → AreStored m ps
      → AreStored (remove (key pods name) m) ps
  AreStored-remove m name [] d h = tt
  AreStored-remove m name (p ∷ ps) d h =
      (IsStored-remove m name p d.0 h.0, h.1, AreStored-remove m name ps d.1 h.2)

  delete_one :
      (p : Pod) (c : ℕ) (w : Cluster)
      → Owns (suc c) w
      → IsStored w.store.table p
      → IsPlainName p.name
      → (delete_pod p.name w
          ≡ (ret (success tt), with_table (remove (key pods p.name) w.store.table) w))
        × Owns c (with_table (remove (key pods p.name) w.store.table) w)
  delete_one p c w h (b, l, o) q = (
    delete_pod-delete p.name w q ∙ delete_applies p.name b w h.healthy l,
    record {
      healthy = with_table-IsHealthy _ w h.healthy;
      unique = remove-Unique _ w.store.table h.unique;
      count = omega (arith, owned_count-remove rs _ b w.store.table h.unique l o, h.count);
    },
  )

  -- The loop that scales down comes to its end and takes one pod off the count each time.
  delete_pods-Owns :
      (n c : ℕ) (ps : List Pod) (w : Cluster)
      → n ≤ length ps
      → Owns (c + n) w
      → AreStored w.store.table ps
      → All (λ (q : Pod). IsPlainName q.name) ps
      → ((delete_pods n ps w).0 ≡ ret tt) × Owns c (delete_pods n ps w).1
  unfolding delete_pods
  delete_pods-Owns zero c ps w l h s t = (refl, subst (λ k. Owns k w) (omega arith) h)
  delete_pods-Owns (suc n) c [] w l h s t = absurd (omega arith)
  delete_pods-Owns (suc n) c (p ∷ ps) w l h (s, d, ss) (t, ts) =
      let (e, h') = delete_one p (c + n) w (subst (λ k. Owns k w) (omega arith) h) s t in
      rw e (
        delete_pods-Owns n c ps _ (omega arith) h' (AreStored-remove w.store.table p.name ps d ss)
          ts)

  abbrev pub MatchesTemplate : Type 0
  MatchesTemplate =
      labels_match rs.spec.selector.match_labels rs.spec.template.metadata.labels ≡ true

  new_pod_owned :
      (suffix : String) (b : json.Bytes)
      → MatchesTemplate
      → json.marshal pods (stored pods (new_pod rs suffix)) ≡ some b
      → owns rs (pod_key rs suffix, b) ≡ true
  unfolding owns entry_object new_pod stored pod_key
  new_pod_owned suffix b t m =
      rw
        (
          key_prefix_own pods (rs.name +s+ ("-" +s+ suffix)),
          json.round_trip pods (stored pods (new_pod rs suffix)) b m,
        )
        t

  IsFresh-insert :
      (clock n : ℕ) (b : json.Bytes) (m : Map json.Bytes)
      → IsFresh clock (suc n) m
      → IsFresh (suc clock) n (insert (pod_key rs (env.uuid clock)) b m)
  IsFresh-insert clock n b m f = record {
    free = λ i lo hi.
        lookup-insert (pod_key rs (env.uuid clock)) (pod_key rs (env.uuid i)) b m
        ∙ rw
            (false_of_not (str_eq (pod_key rs (env.uuid clock)) (pod_key rs (env.uuid i))) (λ e.
              f.distinct clock i (omega arith) (omega arith) (omega arith)
                (pod_key_injective rs _ _ ((eq_iff _ _).0 e))))
            (f.free i (omega arith) (omega arith));
    distinct = λ i j lo lt hi. f.distinct i j (omega arith) lt (omega arith);
  }

  create_one :
      (n c : ℕ) (w : Cluster)
      → MatchesTemplate
      → Owns c w
      → IsFresh w.clock (suc n) w.store.table
      → (w' : Cluster) × (create_pod_of rs w ≡ (ret (success tt), w'))
        × Owns (suc c) w'
        × IsFresh w'.clock n w'.store.table
  unfolding create_pod_of create_pod get_object_meta new_pod pod_key
  create_one n c w t h f =
      let pod : Pod = new_pod rs (env.uuid w.clock) in
      let free : lookup (key pods pod.name) w.store.table ≡ none =
        f.free w.clock (omega arith) (omega arith) in
      let (b, m, e) =
        create_applies pods pod w h.healthy (append-ne-empty rs.name (env.uuid w.clock)) free in
      let o : owns rs (key pods pod.name, b) ≡ true = new_pod_owned (env.uuid w.clock) b t m in
      (
        with_table (insert (key pods pod.name) b w.store.table) w,
        e,
        record {
          healthy = with_table-IsHealthy _ w h.healthy;
          unique = insert-Unique (key pods pod.name) b w.store.table h.unique;
          count =
              omega
                (arith, owned_count-insert rs (key pods pod.name) b w.store.table free o, h.count);
        },
        IsFresh-insert w.clock n b w.store.table f,
      )

  -- The loop that scales up adds one pod to the count each time.
  create_pods-Owns :
      (n c : ℕ) (w : Cluster)
      → MatchesTemplate
      → Owns c w
      → IsFresh w.clock n w.store.table
      → ((create_pods n rs w).0 ≡ ret tt) × Owns (c + n) (create_pods n rs w).1
  unfolding create_pods
  create_pods-Owns zero c w t h f = (refl, subst (λ k. Owns k w) (omega arith) h)
  create_pods-Owns (suc n) c w t h f =
      let (w', e, h', f') = create_one n c w t h f in
      let (r, k) = create_pods-Owns n (suc c) w' t h' f' in
      rw e (r, subst (λ x. Owns x (create_pods n rs w').1) (omega arith) k)

  -- A round for a ReplicaSet with a desired number d, on a healthy cluster on which no key occurs
  -- twice, returns and leaves exactly d pods that the ReplicaSet owns, if the listed pods that it
  -- owns are as many as the stored ones and each is stored under its name, all names different
  -- and plain, the labels of its template match its selector, the names of the pods that are to be made are
  -- not taken and differ, and d and the number of owned pods are below 2^31.
  pub reconcile_rs-Owns :
      (all_pods : List Pod) (d : ℕ) (w : Cluster)
      → rs.spec.replicas ≡ some (pos d)
      → length (owned_pods rs all_pods) < 0x8000_0000
      → d < 0x8000_0000
      → MatchesTemplate
      → Owns (length (owned_pods rs all_pods)) w
      → AreStored w.store.table (owned_pods rs all_pods)
      → All (λ (p : Pod). IsPlainName p.name) (owned_pods rs all_pods)
      → IsFresh w.clock (d - length (owned_pods rs all_pods)) w.store.table
      → ((reconcile_rs rs all_pods w).0 ≡ ret tt) × Owns d (reconcile_rs rs all_pods w).1
  reconcile_rs-Owns all_pods d w e l k t h s n f =
      let len = length (owned_pods rs all_pods) in
      rw (reconcile_rs_plan rs all_pods d w e l k) (elim (Bool-cases (ltb len d)) [
        | inl q ↦
            let (r, o) = create_pods-Owns (d - len) len w t h f in
            rw q (r, subst (λ x. Owns x (create_pods (d - len) rs w).1) (ground arith) o)
        | inr q ↦ rw q (
            delete_pods-Owns (len - d) d (owned_pods rs all_pods) w (omega arith)
              (subst (λ x. Owns x w) (ground arith) h) s n)
      ])
