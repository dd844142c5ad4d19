-- ===== src/Client/Effects/Reads.antt =====
-- What the answers of GetLease and GetEndpoints of internal/client/client.go say of the store.
use k8s_lite.Prelude.{
  String, ◌≡◌, ◌≢◌, ◌⊎◌, inl, inr, sym, ap, ◌∙◌, none, some, arith, ret, blocked, panicked,
}
use k8s_lite.Api.Objects.{Kind, Obj}
use k8s_lite.Api.Stored.{Json, stored}
use k8s_lite.Registry.{key}
use k8s_lite.Storage.Memory
use k8s_lite.Storage.Memory.{Store}
use k8s_lite.Storage.Spec.{view}
use k8s_lite.ApiServer
use k8s_lite.ApiServer.{Request, Response, serve, post, put, get_list, render_json, object}
use k8s_lite.Cluster.{Env, Cluster, send}
use k8s_lite.Client.Methods.{success, failed, ClientError, wire, get, get_reply}
use k8s_lite.Client.Effects.Reach.{answers, Holds}

module _ ⦃json : Json⦄ ⦃env : Env json.Bytes⦄ where
  -- GET of a name that is answered with nothing: there is no such key.
  pub get-none :
      (k : Kind) (name : String) (w : Cluster)
      → (get k name w).0 ≡ ret (success none)
      → view w.store (key k name) ≡ none
  unfolding get get_reply wire send serve ApiServer.handle_get Memory.get
  get-none k name w h = ground arith

  get_steps :
      (k : Kind) (name : String) (o : Obj k) (w : Cluster)
      → (get k name w).0 ≡ ret (success (some o))
      → (b : json.Bytes) × (o' : Obj k) × (b' : json.Bytes) × (view w.store (key k name) ≡ some b)
        × (json.unmarshal k b ≡ some o')
        × (json.marshal k o' ≡ some b')
        × (json.unmarshal k b' ≡ some o)
  unfolding get get_reply wire send serve ApiServer.handle_get Memory.get
  get_steps k name o w h = ground arith

  -- A GET that gives an object: the object is at the name, up to what JSON makes of it.
  pub get-some :
      (k : Kind) (name : String) (o : Obj k) (w : Cluster)
      → (get k name w).0 ≡ ret (success (some o))
      → (o' : Obj k) × Holds k name o' w × (o ≡ stored k o')
  get-some k name o w h =
      let (b, o', b', v, d, m, u) = get_steps k name o w h in
      (o', record { bytes = b; there = v; decodes = d }, cc (u, json.round_trip k o' b' m))

  get_returns :
      (k : Kind) (name : String) (o : Obj k) (w : Cluster)
      → Holds k name o w
      → ((get k name w).0 ≢ blocked)
        × ((get k name w).0 ≢ panicked)
        × ((get k name w).0 ≢ ret (success none))
  unfolding get get_reply wire send serve ApiServer.handle_get Memory.get
  get_returns k name o w h = ground (arith, h.there, h.decodes)

  get_answered :
      (k : Kind) (name : String) (o : Obj k) (w : Cluster)
      → Holds k name o w
      → ((e : ClientError) × ((get k name w).0 ≡ ret (failed e)))
        ⊎ ((o' : Obj k) × ((get k name w).0 ≡ ret (success (some o'))))
  get_answered k name o w h =
      let (b, p, n) = get_returns k name o w h in answers (get k name w).0 b p n

  Holds-unique :
      (k : Kind) (name : String) (o p : Obj k) (w : Cluster)
      → Holds k name o w
      → Holds k name p w
      → o ≡ p
  Holds-unique k name o p w h g =
      let e : h.bytes ≡ g.bytes = cc (h.there, g.there) in
      cc (h.decodes, g.decodes, ap (json.unmarshal k) e)

  -- A GET of a name that holds an object fails, or gives what JSON makes of the object.
  pub get_present :
      (k : Kind) (name : String) (o : Obj k) (w : Cluster)
      → Holds k name o w
      → ((e : ClientError) × ((get k name w).0 ≡ ret (failed e)))
        ⊎ ((get k name w).0 ≡ ret (success (some (stored k o))))
  get_present k name o w h = elim (get_answered k name o w h) [
    | inl f ↦ inl f
    | inr (o', e) ↦
        let (p, g, q) = get-some k name o' w e in
        let s : o ≡ p = Holds-unique k name o p w h g in
        inr (rw e (ap (λ (x : Obj k). ret (success (some x))) (q ∙ ap (stored k) (sym s))))
  ]
