-- ===== src/Client/Named.antt =====
-- Methods of internal/client/client.go whose URL ends in a name: with a plain name they come to the
-- object of the name, and with any other they touch no other kind of object.
use mathlib.Core.Option.{some-injective}
use k8s_lite.Prelude.{
  String, suc, ◌≡◌, ◌≢◌, refl, ap, sym, subst, Flow, Option, ◌∙◌, none, some, inl, inr, ret, arith,
  Exec, Option-cases, lookup, state-bind-pure,
}
use k8s_lite.Api.Objects.{Kind, Obj, pods, get_object_meta}
use k8s_lite.Api.Stored.{Json, stored}
use k8s_lite.Registry.{key}
use k8s_lite.Storage.Memory
use k8s_lite.Storage.Spec.{view}
use k8s_lite.ApiServer
use k8s_lite.ApiServer.{Request, Response, serve, put}
use k8s_lite.ApiServer.Replies.{target, serve-isolated}
use k8s_lite.Urls.{NamePath, bad_url, elsewhere, names, IsPlainName}
use k8s_lite.Cluster.{Env, Cluster, send, by_name, follow, received}
use k8s_lite.Client.Methods.{
  Reply, success, failed, api_failed, get, get_reply, put_by_name, put_encoded, update, get_by_name,
  update_by_name, update_reply, delete, delete_pod, delete_reply,
}
use k8s_lite.Client.Effects.{store-send, store-get}
use k8s_lite.Client.Progress.{
  IsHealthy, encoded, update_missing, update_writes, handle_update_quiet,
}
use k8s_lite.Client.Apart.{IsApart}
use k8s_lite.Client.Keeping.{view-delete}

module _ ⦃json : Json⦄ ⦃env : Env json.Bytes⦄ where
  by_name_plain :
      {A : Type 0} (reply : Option Response → A) (name : String) (f : String → Exec Cluster A)
      (w : Cluster)
      → IsPlainName name
      → by_name reply name f w ≡ f name w
  unfolding by_name
  by_name_plain reply name f w p = rw (env.name_path_plain w.clock name p) refl

  pub get_by_name-get :
      (k : Kind) (name : String) (w : Cluster)
      → IsPlainName name
      → get_by_name k name w ≡ get k name w
  unfolding get_by_name
  get_by_name-get k name w p = by_name_plain _ name (get k) w p

  pub update_by_name-update :
      (k : Kind) (obj : Obj k) (w : Cluster)
      → IsPlainName (get_object_meta k obj).name
      → update_by_name k obj w ≡ update k obj w
  unfolding update_by_name put_by_name update
  update_by_name-update k obj w p = elim (Option-cases (json.marshal k obj)) [
    | inl e ↦ rw e refl
    | inr (body, e) ↦ rw e (by_name_plain update_reply (get_object_meta k obj).name _ w p)
  ]

  pub delete_pod-delete :
      (name : String) (w : Cluster) → IsPlainName name → delete_pod name w ≡ delete pods name w
  unfolding delete_pod
  delete_pod-delete name w p = by_name_plain delete_reply name (delete pods) w p

  -- What holds of the call with every name, and stays if another page answers.
  by_name_all :
      {A : Type 0} (P : Flow A × Cluster → Type 0) (reply : Option Response → A) (name : String)
      (f : String → Exec Cluster A) (w : Cluster)
      → ((a : Option Response) → P (ret (reply a), w))
      → ((a : Option Response) → P (ret (reply a), record w { clock = suc w.clock }))
      → ((n : String) → P (f n w))
      → P (by_name reply name f w)
  unfolding by_name follow
  by_name_all P reply name f w b e h = led (env.name_path w.clock name)
    where
      led : (p : NamePath) → P (follow reply f p w)
      led bad_url = b none
      led (elsewhere a) = e (received a (env.fault w.clock))
      led (names n) = h n

  by_name_kept :
      {A : Type 0} (reply : Option Response → A) (name : String) (f : String → Exec Cluster A)
      (w : Cluster) (j : String)
      → ((n : String) → view (f n w).1.store j ≡ view w.store j)
      → view (by_name reply name f w).1.store j ≡ view w.store j
  by_name_kept reply name f w j h =
      by_name_all (λ r. view r.1.store j ≡ view w.store j) reply name f w (λ a. refl) (λ a. refl) h

  pub store-get_by_name :
      (k : Kind) (name : String) (w : Cluster) → (get_by_name k name w).1.store ≡ w.store
  unfolding get_by_name
  store-get_by_name k name w =
      by_name_all (λ r. r.1.store ≡ w.store) (get_reply k) name (get k) w (λ a. refl) (λ a. refl)
        (λ n. store-get k n w)

  view-put :
      (k : Kind) (n : String) (body : json.Bytes) (w : Cluster) (j : String)
      → key k n ≢ j
      → view (put_encoded k n (some body) w).1.store j ≡ view w.store j
  unfolding put_encoded target
  view-put k n body w j d = elim (store-send (put k n body) w) [
    | inl e ↦
        ap (λ (v : Cluster). view v.store j) (state-bind-pure (send (put k n body)) update_reply w)
        ∙ ap (λ s. view s j) e
    | inr e ↦
        ap (λ (v : Cluster). view v.store j) (state-bind-pure (send (put k n body)) update_reply w)
        ∙ ap (λ s. view s j) e
        ∙ serve-isolated (env.order w.clock) (put k n body) w.store j
            (λ q. d (some-injective _ _ q))
  ]

  -- An update, however it ends and whatever name it has, changes no other kind of object.
  pub update_by_name_apart :
      (k : Kind) (obj : Obj k) (w : Cluster) (j : String)
      → IsApart k j
      → view (update_by_name k obj w).1.store j ≡ view w.store j
  unfolding update_by_name put_by_name
  update_by_name_apart k obj w j a = elim (Option-cases (json.marshal k obj)) [
    | inl e ↦ rw e refl
    | inr (body, e) ↦ rw e (
        by_name_kept update_reply (get_object_meta k obj).name _ w j
          (λ n. view-put k n body w j (a n)))
  ]

  pub delete_pod_apart :
      (name : String) (w : Cluster) (j : String)
      → IsApart pods j
      → view (delete_pod name w).1.store j ≡ view w.store j
  unfolding delete_pod
  delete_pod_apart name w j a =
      by_name_kept delete_reply name (delete pods) w j (λ n. view-delete pods n w j (a n))

  put_quiet :
      (k : Kind) (n : String) (body : json.Bytes) (w : Cluster)
      → IsHealthy w
      → IsHealthy (put_encoded k n (some body) w).1
  unfolding put_encoded serve
  put_quiet k n body w h =
      let q = state-bind-pure (send (put k n body)) update_reply w in
      subst IsHealthy (sym q) (elim (store-send (put k n body) w) [
        | inl e ↦ record {
          reliable = h.reliable;
          encodes = h.encodes;
          no_file = rw e h.no_file;
          no_watcher = rw e h.no_watcher;
        }
        | inr e ↦
            let u = handle_update_quiet k n body w.store h.no_file h.no_watcher in
            record {
              reliable = h.reliable;
              encodes = h.encodes;
              no_file = rw e (u.0);
              no_watcher = rw e (u.1);
            }
      ])

  put_returns :
      (k : Kind) (n : String) (obj : Obj k) (body : json.Bytes) (w : Cluster)
      → IsHealthy w
      → json.marshal k obj ≡ some body
      → (r : Reply (Unit {0})) × ((put_encoded k n (some body) w).0 ≡ ret r)
  unfolding put_encoded update_reply send serve ApiServer.handle_update
  put_returns k n obj body w h e =
      let (b, m) = encoded w h k (stored k obj) in
      let d : json.unmarshal k body ≡ some (stored k obj) = json.round_trip k obj body e in
      elim (Option-cases (lookup (key k n) w.store.table)) [
        | inl q ↦
            let u : (Memory.update (key k n) k (stored k obj) w.store).0
                ≡ ret (Memory.err Memory.not_found) =
              update_missing (key k n) k (stored k obj) w.store q in
            (failed (api_failed 404), ground (arith, h.reliable w.clock, d, u))
        | inr (old, o) ↦
            let u : (Memory.update (key k n) k (stored k obj) w.store).0 ≡ ret (Memory.ok tt) =
              update_writes _ k (stored k obj) w.store old b h.no_file h.no_watcher o m in
            (success tt, ground (arith, h.reliable w.clock, d, u))
      ]

  -- An update on a healthy cluster returns, whatever name it has, and leaves the cluster healthy.
  pub update_by_name_returns :
      (k : Kind) (obj : Obj k) (w : Cluster)
      → IsHealthy w
      → ((r : Reply (Unit {0})) × ((update_by_name k obj w).0 ≡ ret r))
        × IsHealthy (update_by_name k obj w).1
  unfolding update_by_name put_by_name
  update_by_name_returns k obj w h =
      let (body, e) = encoded w h k obj in
      rw e (
        by_name_all (λ x. ((r : Reply (Unit {0})) × (x.0 ≡ ret r)) × IsHealthy x.1) update_reply
          (get_object_meta k obj).name (λ n. put_encoded k n (some body)) w
          (λ a. ((update_reply a, refl), h)) (λ a. ((update_reply a, refl), later h))
          (λ n. (put_returns k n obj body w h e, put_quiet k n body w h)))
    where
      later : IsHealthy w → IsHealthy (record w { clock = suc w.clock })
      later h = record {
        reliable = h.reliable;
        encodes = h.encodes;
        no_file = h.no_file;
        no_watcher = h.no_watcher;
      }
