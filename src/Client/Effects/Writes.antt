-- ===== src/Client/Effects/Writes.antt =====
-- What the creates and updates of internal/client/client.go do to the store.
use mathlib.Core.Option.{some-injective}
use k8s_lite.Prelude.{
  String, ◌≡◌, ◌≢◌, ◌<◌, ◌⊎◌, inl, inr, some, arith, ret, state-bind-pure, Option-cases,
}
use k8s_lite.Api.Objects.{Kind, Obj, get_object_meta}
use k8s_lite.Api.Stored.{Json, stored}
use k8s_lite.Registry.{key}
use k8s_lite.Storage.Spec.{view}
use k8s_lite.ApiServer.{Response, serve, post, put}
use k8s_lite.ApiServer.Replies.{
  target, serve-isolated, created_only, create_ok, updated_only, update_ok,
}
use k8s_lite.Cluster.{Env, Cluster, send}
use k8s_lite.Client.Methods.{success, create, update, create_reply, update_reply}
use k8s_lite.Client.Effects.Reach.{send_ok, served, store-send, meta-stored, Holds}

module _ ⦃json : Json⦄ ⦃env : Env json.Bytes⦄ where
  posted :
      (k : Kind) (obj : Obj k) (w : Cluster)
      → (create k obj w).0 ≡ ret (success tt)
      → (body : json.Bytes) × (a : Response) × (json.marshal k obj ≡ some body)
        × ((send (post k body) w).0 ≡ ret (some a))
        × (a.status < 400)
        × ((create k obj w).1 ≡ (send (post k body) w).1)
  unfolding create create_reply
  posted k obj w h = ground arith

  putted :
      (k : Kind) (obj : Obj k) (w : Cluster)
      → (update k obj w).0 ≡ ret (success tt)
      → (body : json.Bytes) × (a : Response) × (json.marshal k obj ≡ some body)
        × ((send (put k (get_object_meta k obj).name body) w).0 ≡ ret (some a))
        × (a.status < 400)
        × ((update k obj w).1 ≡ (send (put k (get_object_meta k obj).name body) w).1)
  unfolding update update_reply
  putted k obj w h = ground arith

  -- A create that reports success has put the object at its name, as JSON writes it and reads it
  -- back on both sides of the network.
  pub create_success :
      (k : Kind) (obj : Obj k) (w : Cluster)
      → (create k obj w).0 ≡ ret (success tt)
      → Holds k (get_object_meta k obj).name (stored k (stored k obj)) (create k obj w).1
  unfolding serve
  create_success k obj w h =
      let (body, a, m, e, lo, q) = posted k obj w h in
      let (r, t) = send_ok (post k body) w a e (omega arith) in
      let d : json.unmarshal k body ≡ some (stored k obj) = json.round_trip k obj body m in
      let (o, u) = created_only k body (stored k obj) w.store a d r lo in
      let (b, n, v) = create_ok _ k (stored k obj) w.store o in
      record {
        bytes = b;
        there = rw q (rw t (rw u (rw (← meta-stored k obj) v)));
        decodes = json.round_trip k (stored k obj) b n;
      }

  -- So has an update that reports success.
  pub update_success :
      (k : Kind) (obj : Obj k) (w : Cluster)
      → (update k obj w).0 ≡ ret (success tt)
      → Holds k (get_object_meta k obj).name (stored k (stored k obj)) (update k obj w).1
  unfolding serve
  update_success k obj w h =
      let (body, a, m, e, lo, q) = putted k obj w h in
      let name = (get_object_meta k obj).name in
      let (r, t) = send_ok (put k name body) w a e (omega arith) in
      let d : json.unmarshal k body ≡ some (stored k obj) = json.round_trip k obj body m in
      let (o, u) = updated_only k name body (stored k obj) w.store a d r lo in
      let (b, n, v) = update_ok _ k (stored k obj) w.store o in
      record {
        bytes = b;
        there = rw q (rw t (rw u v));
        decodes = json.round_trip k (stored k obj) b n;
      }

  -- A write reaches the store as one request, or not at all.
  pub store-create :
      (k : Kind) (obj : Obj k) (w : Cluster)
      → ((create k obj w).1.store ≡ w.store)
        ⊎ ((body : json.Bytes) × (json.marshal k obj ≡ some body)
            × ((create k obj w).1.store ≡ served (post k body) w))
  unfolding create
  store-create k obj w = elim (Option-cases (json.marshal k obj)) [
    | inl e ↦ inl (ground (arith, e))
    | inr (body, e) ↦
        ground (
          arith,
          e,
          state-bind-pure (send (post k body)) create_reply w,
          store-send (post k body) w,
        )
  ]

  pub store-update :
      (k : Kind) (obj : Obj k) (w : Cluster)
      → ((update k obj w).1.store ≡ w.store)
        ⊎ ((body : json.Bytes) × (json.marshal k obj ≡ some body)
            × ((update k obj w).1.store ≡ served (put k (get_object_meta k obj).name body) w))
  unfolding update
  store-update k obj w = elim (Option-cases (json.marshal k obj)) [
    | inl e ↦ inl (ground (arith, e))
    | inr (body, e) ↦ ground (
      arith,
      e,
      state-bind-pure (send (put k (get_object_meta k obj).name body)) update_reply w,
      store-send (put k (get_object_meta k obj).name body) w,
    )
  ]

  -- A create or an update, however it ends, leaves every key but that of its object.
  pub view-create :
      (k : Kind) (obj : Obj k) (w : Cluster) (j : String)
      → key k (get_object_meta k obj).name ≢ j
      → view (create k obj w).1.store j ≡ view w.store j
  unfolding target
  view-create k obj w j n = elim (store-create k obj w) [
    | inl e ↦ rw e
    | inr (body, m, e) ↦ rw e (
        serve-isolated (env.order w.clock) (post k body) w.store j
          (ground (arith, json.round_trip k obj body m, meta-stored k obj)))
  ]

  pub view-update :
      (k : Kind) (obj : Obj k) (w : Cluster) (j : String)
      → key k (get_object_meta k obj).name ≢ j
      → view (update k obj w).1.store j ≡ view w.store j
  unfolding target
  view-update k obj w j n = elim (store-update k obj w) [
    | inl e ↦ rw e
    | inr (body, m, e) ↦ rw e (
        serve-isolated (env.order w.clock) (put k (get_object_meta k obj).name body) w.store j
          (λ q. n (some-injective _ _ q)))
  ]
