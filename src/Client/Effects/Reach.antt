-- ===== src/Client/Effects/Reach.antt =====
-- How one request of internal/client/client.go reaches the store, and what a name holds.
use k8s_lite.Prelude.{
  suc, String, ◌≡◌, ◌≢◌, ◌⊎◌, inl, inr, refl, Option, none, some, arith, Flow, ret, blocked,
  panicked, state-bind-pure,
}
use k8s_lite.Api.Objects.{
  Kind, Obj, get_object_meta, pods, nodes, replicasets, deployments, services, endpoints, leases,
}
use k8s_lite.Api.Stored.{Json, stored}
use k8s_lite.Registry.{key}
use k8s_lite.Storage.Memory.{Store}
use k8s_lite.Storage.Spec.{view}
use k8s_lite.ApiServer
use k8s_lite.ApiServer.{Request, Response, serve, post, put, get_list, render_json, object}
use k8s_lite.Cluster.{Env, Cluster, send}
use k8s_lite.Client.Methods.{Reply, success, failed, ClientError, list, get, get_reply, list_reply}

pub meta-stored : (k : Kind) (o : Obj k) → get_object_meta k (stored k o) ≡ get_object_meta k o
unfolding get_object_meta stored
meta-stored pods o = refl
meta-stored nodes o = refl
meta-stored replicasets o = refl
meta-stored deployments o = refl
meta-stored services o = refl
meta-stored endpoints o = refl
meta-stored leases o = refl

pub answers :
    {A : Type 0} (f : Flow (Reply (Option A)))
    → f ≢ blocked
    → f ≢ panicked
    → f ≢ ret (success none)
    → ((e : ClientError) × (f ≡ ret (failed e))) ⊎ ((a : A) × (f ≡ ret (success (some a))))
answers blocked b p n = absurd (b refl)
answers panicked b p n = absurd (p refl)
answers (ret (failed e)) b p n = inl (e, refl)
answers (ret (success none)) b p n = absurd (n refl)
answers (ret (success (some a))) b p n = inr (a, refl)

module _ ⦃json : Json⦄ ⦃env : Env json.Bytes⦄ where
  -- What the server makes of a request that reaches it now.
  abbrev pub served : Request json.Bytes → Cluster → Store
  served r w = (serve (env.order w.clock) r w.store).1

  pub send_ok :
      (r : Request json.Bytes) (w : Cluster) (a : Response)
      → (send r w).0 ≡ ret (some a)
      → a.status ≢ 500
      → ((serve (env.order w.clock) r w.store).0 ≡ ret a) × ((send r w).1.store ≡ served r w)
  unfolding send
  send_ok r w a h n = ground arith

  -- A request changes the store as the server does, or not at all.
  pub store-send :
      (r : Request json.Bytes) (w : Cluster)
      → ((send r w).1.store ≡ w.store) ⊎ ((send r w).1.store ≡ served r w)
  unfolding send
  store-send r w = ground arith

  pub clock-send : (r : Request json.Bytes) (w : Cluster) → (send r w).1.clock ≡ suc w.clock
  unfolding send
  clock-send r w = ground arith

  -- The object at a name of the registry.
  pub record Holds (k : Kind) (name : String) (o : Obj k) (w : Cluster) : Type 0 where
    pub bytes : json.Bytes
    pub there : view w.store (key k name) ≡ some bytes
    pub decodes : json.unmarshal k bytes ≡ some o

  pub Holds-store :
      (k : Kind) (name : String) (o : Obj k) (w v : Cluster)
      → v.store ≡ w.store
      → Holds k name o w
      → Holds k name o v
  Holds-store k name o w v e h = record {
    bytes = h.bytes;
    there = rw e h.there;
    decodes = h.decodes;
  }

  -- A read changes nothing.
  pub store-get : (k : Kind) (name : String) (w : Cluster) → (get k name w).1.store ≡ w.store
  unfolding get serve ApiServer.handle_get
  store-get k name w = ground (
    arith,
    state-bind-pure (send (ApiServer.get k name)) (get_reply k) w,
    store-send (ApiServer.get k name) w,
  )

  pub store-list : (k : Kind) (w : Cluster) → (list k w).1.store ≡ w.store
  unfolding list serve ApiServer.handle_list
  store-list k w =
      ground
        (arith, state-bind-pure (send (get_list k)) (list_reply k) w, store-send (get_list k) w)
