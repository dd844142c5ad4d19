-- ===== src/ApiServer/Handlers.antt =====
-- internal/apiserver/server.go: registerResourceRoutes and the handlers that it registers.
use k8s_lite.Prelude.{
  ℕ, String, none, some, List, Map, if◌then◌else◌, str_eq, ret, Exec, pure, ◌>>=◌,
}
use k8s_lite.Api.Objects.{Kind, Obj, get_object_meta}
use k8s_lite.Api.Stored.{Json}
use k8s_lite.Registry.{key, key_prefix}
use k8s_lite.Storage.Memory
use k8s_lite.Storage.Memory.{Store, StoreError, not_found, conflict, Try, ok, err}

-- `none` stands for no error at hand, as in the global ErrNotFound.
pub data Cause : Type 0 where
  no_cause bad_body name_required : Cause
  store_error : StoreError → Cause

pub record ErrResponse : Type 0 where
  pub cause : Cause
  pub http_status_code : ℕ
  pub status_text : String

pub data Body : Type 0 where
  object : (k : Kind) → Obj k → Body
  objects : (k : Kind) → List (Obj k) → Body
  deleted : Body
  failure : ErrResponse → Body

pub record Response : Type 0 where
  pub status : ℕ
  pub body : Body

abbrev pub err_invalid_request : Cause → ErrResponse
err_invalid_request e = record {
  cause = e;
  http_status_code = 400;
  status_text = "Invalid request";
}

abbrev pub err_conflict : Cause → ErrResponse
err_conflict e = record {
  cause = e;
  http_status_code = 409;
  status_text = "Resource already exists";
}

abbrev pub err_not_found : ErrResponse
err_not_found = record {
  cause = no_cause;
  http_status_code = 404;
  status_text = "Resource not found";
}

abbrev pub err_internal : Cause → ErrResponse
err_internal e = record { cause = e; http_status_code = 500; status_text = "Internal server error" }

-- `render.Render(w, r, e)`: Render sets the status, and the response is the JSON of `e`.
abbrev pub render_error : ErrResponse → Response
render_error e = record { status = e.http_status_code; body = failure e }

abbrev pub render_json : ℕ → Body → Response
render_json status body = record { status = status; body = body }

-- What the routes of one resource accept.
pub data Request (Bytes : Type 0) : Type 0 where
  get_list : Kind → Request Bytes
  post : Kind → Bytes → Request Bytes
  get : Kind → String → Request Bytes
  delete : Kind → String → Request Bytes
  put : Kind → String → Bytes → Request Bytes

module _ ⦃json : Json⦄ where
  update_response : (k : Kind) → Obj k → Try (Unit {0}) → Response
  update_response k obj (ok _) = render_json 200 (object k obj)
  update_response k obj (err not_found) = render_error err_not_found
  update_response k obj (err e) = render_error (err_internal (store_error e))

  unfoldable pub handle_update : Kind → String → json.Bytes → Exec Store Response
  unfolding update_response
  handle_update k name body s = elim (json.unmarshal k body) [
    | none ↦ (ret (render_error (err_invalid_request bad_body)), s)
    | some obj ↦ (Memory.update (key k name) k obj >>= λ r. pure (update_response k obj r)) s
  ]

  list_response : (k : Kind) → Try (List (Obj k)) → Response
  list_response k (ok items) = render_json 200 (objects k items)
  list_response k (err e) = render_error (err_internal (store_error e))

  unfoldable pub handle_list : (Map json.Bytes → Map json.Bytes) → Kind → Exec Store Response
  unfolding list_response
  handle_list order k s = (ret (list_response k (Memory.list order (key_prefix k) k s)), s)

  create_response : (k : Kind) → Obj k → Try (Unit {0}) → Response
  create_response k obj (ok _) = render_json 201 (object k obj)
  create_response k obj (err conflict) = render_error (err_conflict (store_error conflict))
  create_response k obj (err e) = render_error (err_internal (store_error e))

  unfoldable pub handle_create : Kind → json.Bytes → Exec Store Response
  unfolding create_response
  handle_create k body s = elim (json.unmarshal k body) [
    | none ↦ (ret (render_error (err_invalid_request bad_body)), s)
    | some obj ↦
        let meta = get_object_meta k obj in
        if str_eq meta.name ""
        then (ret (render_error (err_invalid_request name_required)), s)
        else (Memory.create (key k meta.name) k obj >>= λ r. pure (create_response k obj r)) s
  ]

  get_response : (k : Kind) → Try (Obj k) → Response
  get_response k (ok obj) = render_json 200 (object k obj)
  get_response k (err not_found) = render_error err_not_found
  get_response k (err e) = render_error (err_internal (store_error e))

  unfoldable pub handle_get : Kind → String → Exec Store Response
  unfolding get_response
  handle_get k name s = (ret (get_response k (Memory.get (key k name) k s)), s)

  delete_response : Try (Unit {0}) → Response
  delete_response (ok _) = render_json 200 deleted
  delete_response (err not_found) = render_error err_not_found
  delete_response (err e) = render_error (err_internal (store_error e))

  unfoldable pub handle_delete : Kind → String → Exec Store Response
  unfolding delete_response
  handle_delete k name = Memory.delete (key k name) >>= λ r. pure (delete_response r)

  -- The routes of registerResourceRoutes; `order` is the order of the map in a listing.
  unfoldable pub serve :
      (Map json.Bytes → Map json.Bytes) → Request json.Bytes → Exec Store Response
  serve order (get_list k) = handle_list order k
  serve order (post k body) = handle_create k body
  serve order (get k name) = handle_get k name
  serve order (delete k name) = handle_delete k name
  serve order (put k name body) = handle_update k name body
