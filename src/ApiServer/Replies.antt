-- ===== src/ApiServer/Replies.antt =====
-- What a client of the REST routes of internal/apiserver/server.go sees of requests, its own or not.
use k8s_lite.Prelude.{
  String, ◌≡◌, ◌≢◌, ◌≤◌, ◌<◌, refl, Option, none, some, Map, ret, state-bind-pure, lookup-insert,
  lookup-remove, eq_refl, eq_iff, arith,
}
use k8s_lite.Api.Objects.{Kind, Obj, get_object_meta}
use k8s_lite.Api.Stored.{Json, stored}
use k8s_lite.Registry.{key}
use k8s_lite.Storage.Memory
use k8s_lite.Storage.Memory.{Store, Try, ok, err}
use k8s_lite.Storage.Spec.{view}
use k8s_lite.Storage.Refinement.{table-notify_and_sync, notify_and_sync_error}
use k8s_lite.ApiServer.Handlers.{
  Request, get_list, post, get, delete, put, Response, object, render_json, render_error,
  err_not_found, serve, handle_get, handle_create, handle_update, handle_delete, handle_list,
}

module _ ⦃json : Json⦄ where
  -- The key that a request may change.
  created_key : (k : Kind) → Option (Obj k) → Option String
  created_key k none = none
  created_key k (some obj) = some (key k (get_object_meta k obj).name)

  unfoldable pub target : Request json.Bytes → Option String
  unfolding created_key
  target (get_list k) = none
  target (post k body) = created_key k (json.unmarshal k body)
  target (get k name) = none
  target (delete k name) = some (key k name)
  target (put k name body) = some (key k name)

  view-create :
      (i : String) (k : Kind) (obj : Obj k) (s : Store) (j : String)
      → i ≢ j
      → view (Memory.create i k obj s).1 j ≡ view s j
  unfolding Memory.create
  view-create i k obj s j h = grind (arith, table-notify_and_sync, lookup-insert, eq_iff i j)

  view-update :
      (i : String) (k : Kind) (obj : Obj k) (s : Store) (j : String)
      → i ≢ j
      → view (Memory.update i k obj s).1 j ≡ view s j
  unfolding Memory.update
  view-update i k obj s j h = grind (arith, table-notify_and_sync, lookup-insert, eq_iff i j)

  pub view-delete :
      (i : String) (s : Store) (j : String) → i ≢ j → view (Memory.delete i s).1 j ≡ view s j
  unfolding Memory.delete
  view-delete i s j h = grind (arith, table-notify_and_sync, lookup-remove, eq_iff i j)

  view-delete_self : (i : String) (s : Store) → view (Memory.delete i s).1 i ≡ none
  unfolding Memory.delete
  view-delete_self i s = grind (arith, table-notify_and_sync, lookup-remove, eq_refl i)

  -- Whatever a request does and however it ends, the map keeps its value at every key but the key
  -- that the request is about; a listing and a GET change no key.
  pub serve-isolated :
      (order : Map json.Bytes → Map json.Bytes) (r : Request json.Bytes) (s : Store) (j : String)
      → target r ≢ some j
      → view (serve order r s).1 j ≡ view s j
  unfolding serve target handle_list handle_create handle_get handle_delete handle_update
  serve-isolated order (get_list k) s j h = refl
  serve-isolated order (post k body) s j h = grind (arith, view-create, state-bind-pure)
  serve-isolated order (get k name) s j h = refl
  serve-isolated order (delete k name) s j h = grind (arith, view-delete, state-bind-pure)
  serve-isolated order (put k name body) s j h = grind (arith, view-update, state-bind-pure)

  -- After a DELETE that was answered, with whatever status, a GET of the name is answered 404 and
  -- changes nothing.
  pub get-delete :
      (order : Map json.Bytes → Map json.Bytes) (k : Kind) (name : String) (s : Store)
      (r : Response)
      → (serve order (delete k name) s).0 ≡ ret r
      → let s' : Store = (serve order (delete k name) s).1 in
        serve order (get k name) s' ≡ (ret (render_error err_not_found), s')
  unfolding serve handle_delete handle_get Memory.get
  get-delete order k name s r h =
      ground
        (arith, view-delete_self (key k name) s, state-bind-pure (Memory.delete (key k name)) _ s)

  pub create_ok :
      (i : String) (k : Kind) (obj : Obj k) (s : Store)
      → (Memory.create i k obj s).0 ≡ ret (ok tt)
      → (b : json.Bytes) × (json.marshal k obj ≡ some b)
        × (view (Memory.create i k obj s).1 i ≡ some b)
  unfolding Memory.create
  create_ok i k obj s h = grind (arith, table-notify_and_sync, lookup-insert, eq_refl)

  pub update_ok :
      (i : String) (k : Kind) (obj : Obj k) (s : Store)
      → (Memory.update i k obj s).0 ≡ ret (ok tt)
      → (b : json.Bytes) × (json.marshal k obj ≡ some b)
        × (view (Memory.update i k obj s).1 i ≡ some b)
  unfolding Memory.update
  update_ok i k obj s h = grind (arith, table-notify_and_sync, lookup-insert, eq_refl)

  get_stored :
      (order : Map json.Bytes → Map json.Bytes) (k : Kind) (name : String) (obj : Obj k) (s : Store)
      (b : json.Bytes)
      → json.marshal k obj ≡ some b
      → view s (key k name) ≡ some b
      → serve order (get k name) s ≡ (ret (render_json 200 (object k (stored k obj))), s)
  unfolding serve handle_get Memory.get
  get_stored order k name obj s b m v = ground (arith, json.round_trip k obj b)

  pub created_only :
      (k : Kind) (body : json.Bytes) (obj : Obj k) (s : Store) (r : Response)
      → json.unmarshal k body ≡ some obj
      → (handle_create k body s).0 ≡ ret r
      → r.status < 400
      → let i = key k (get_object_meta k obj).name in
        ((Memory.create i k obj s).0 ≡ ret (ok tt))
        × ((handle_create k body s).1 ≡ (Memory.create i k obj s).1)
  unfolding handle_create
  created_only k body obj s r d h e = ground arith

  -- If a POST whose body decodes to an object is answered 201, then a GET of the name of the
  -- object is answered 200 with the object, as JSON writes it and reads it back, and changes
  -- nothing.
  pub get-post :
      (order : Map json.Bytes → Map json.Bytes) (k : Kind) (body : json.Bytes) (obj : Obj k)
      (s : Store) (r : Response)
      → json.unmarshal k body ≡ some obj
      → (serve order (post k body) s).0 ≡ ret r
      → r.status ≡ 201
      → let s' : Store = (serve order (post k body) s).1 in
        serve order (get k (get_object_meta k obj).name) s'
        ≡ (ret (render_json 200 (object k (stored k obj))), s')
  unfolding serve
  get-post order k body obj s r d h e =
      let (o, q) = created_only k body obj s r d h (omega arith) in
      let (b, m, v) = create_ok (key k (get_object_meta k obj).name) k obj s o in
      get_stored order k _ obj _ b m (rw q v)

  pub updated_only :
      (k : Kind) (name : String) (body : json.Bytes) (obj : Obj k) (s : Store) (r : Response)
      → json.unmarshal k body ≡ some obj
      → (handle_update k name body s).0 ≡ ret r
      → r.status < 400
      → ((Memory.update (key k name) k obj s).0 ≡ ret (ok tt))
        × ((handle_update k name body s).1 ≡ (Memory.update (key k name) k obj s).1)
  unfolding handle_update
  updated_only k name body obj s r d h e = ground arith

  -- If a PUT whose body decodes to an object is answered 200, then a GET of the name in its path
  -- is answered 200 with the object, as JSON writes it and reads it back, and changes nothing.
  pub get-put :
      (order : Map json.Bytes → Map json.Bytes) (k : Kind) (name : String) (body : json.Bytes)
      (obj : Obj k) (s : Store) (r : Response)
      → json.unmarshal k body ≡ some obj
      → (serve order (put k name body) s).0 ≡ ret r
      → r.status ≡ 200
      → let s' : Store = (serve order (put k name body) s).1 in
        serve order (get k name) s' ≡ (ret (render_json 200 (object k (stored k obj))), s')
  unfolding serve
  get-put order k name body obj s r d h e =
      let (o, q) = updated_only k name body obj s r d h (omega arith) in
      let (b, m, v) = update_ok (key k name) k obj s o in get_stored order k name obj _ b m (rw q v)

  -- A request that is answered with a status from 400 to 499 has changed nothing: no object, no
  -- watcher, no file.
  pub serve_refused :
      (order : Map json.Bytes → Map json.Bytes) (r : Request json.Bytes) (s : Store) (a : Response)
      → (serve order r s).0 ≡ ret a
      → 400 ≤ a.status
      → a.status < 500
      → (serve order r s).1 ≡ s
  unfolding serve handle_list handle_create handle_get handle_delete handle_update Memory.create
      Memory.update Memory.delete
  serve_refused order (get_list k) s a h lo hi = refl
  serve_refused order (post k body) s a h lo hi = grind (arith, notify_and_sync_error)
  serve_refused order (get k name) s a h lo hi = refl
  serve_refused order (delete k name) s a h lo hi = grind (arith, notify_and_sync_error)
  serve_refused order (put k name body) s a h lo hi = grind (arith, notify_and_sync_error)
