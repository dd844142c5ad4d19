-- ===== src/Client/Paths.antt =====
-- internal/client/client.go: the method and the URL of each of its requests, and where the routes of
-- internal/apiserver/server.go take them. How net/url reads a URL is the parameter Urls.
use Prim.Native.Char.{code}
use text.Mathlib.TextLemmas.{nil-append, cons-append}
use k8s_lite.Prelude.{
  Map, ret, String, ◌+s+◌, ◌≡◌, ◌≢◌, refl, ap, ◌∙◌, true, false, ◌||◌, Option, none, some, List, [],
  ◌∷◌, ◌==◌, split, split-free, split-append_any, ◌++◌, IsFree, arith, some_inj,
}
use k8s_lite.Api.Objects.{Kind, pods, nodes, replicasets, deployments, services, endpoints, leases}
use k8s_lite.Api.Objects.{Obj, get_object_meta}
use k8s_lite.Api.Stored.{Json, stored}
use k8s_lite.Storage.Memory.{Store}
use k8s_lite.ApiServer.{Request, Response, serve, render_json, object}
use k8s_lite.ApiServer.Replies.{get-post}
use k8s_lite.Urls.{is_unreserved, IsPlain, IsPlainName}
use k8s_lite.ApiServer.Routes.{
  Method, get, post, put, delete, Mux, Match, HttpRequest, rest, routes, candidates, dispatch,
  handle_match, handle_found, lists, creates, gets, deletes, updates,
}

slash : (n : String) → "/" +s+ n ≡ String.◌∷◌ "/" n
slash n = cons-append "/" String.[] n ∙ ap (String.◌∷◌ "/") (nil-append n)

abbrev pub IsPath : String → Type 0
IsPath String.[] = Unit
IsPath (String.◌∷◌ c s) = (is_unreserved (code c) || code c == b'/' ≡ true) × IsPath s

abbrev pub HasPlainName : Option String → Type 0
HasPlainName none = Unit
HasPlainName (some n) = IsPlainName n

-- The path of a URL: that of BaseURL with a path of plain characters after it is this path.
pub record Urls : Type 0 where
  pub base_url : String
  pub path_of : String → Option String
  pub path_of_plain : (p : String) → IsPath p → path_of (base_url +s+ p) ≡ some p

-- The formats of the URLs, after "%s".
abbrev pub collection_path : Kind → String
collection_path pods = "/api/v1/pods"
collection_path nodes = "/api/v1/nodes"
collection_path replicasets = "/apis/apps/v1/replicasets"
collection_path deployments = "/apis/apps/v1/deployments"
collection_path services = "/api/v1/services"
collection_path endpoints = "/api/v1/endpoints"
collection_path leases = "/api/v1/leases"

unfoldable pub item_path : Kind → String → String
item_path k name = collection_path k +s+ ("/" +s+ name)

module _ {Bytes : Type 0} where
  -- The body of a request with none is `nothing`.
  abbrev pub method_of : Request Bytes → Method
  method_of (Request.get_list k) = get
  method_of (Request.post k b) = post
  method_of (Request.get k n) = get
  method_of (Request.delete k n) = delete
  method_of (Request.put k n b) = put

  abbrev pub path_for : Request Bytes → String
  path_for (Request.get_list k) = collection_path k
  path_for (Request.post k b) = collection_path k
  path_for (Request.get k n) = item_path k n
  path_for (Request.delete k n) = item_path k n
  path_for (Request.put k n b) = item_path k n

  abbrev pub body_of : Bytes → Request Bytes → Bytes
  body_of nothing (Request.post k b) = b
  body_of nothing (Request.put k n b) = b
  body_of nothing _ = nothing

  abbrev pub name_in : Request Bytes → Option String
  name_in (Request.get k n) = some n
  name_in (Request.delete k n) = some n
  name_in (Request.put k n b) = some n
  name_in _ = none

  abbrev pub make_request : Bytes → Request Bytes → String → HttpRequest Bytes
  make_request nothing r p = record {
    method = method_of r;
    path = p;
    watch = false;
    body = body_of nothing r;
  }

  -- `http.NewRequestWithContext(ctx, method, fmt.Sprintf(…, c.BaseURL, …), body)`
  unfoldable pub http_request : Urls → Bytes → Request Bytes → Option (HttpRequest Bytes)
  http_request urls nothing r = elim (urls.path_of (urls.base_url +s+ path_for r)) [
    | none ↦ none
    | some p ↦ some (make_request nothing r p)
  ]

plain-IsFree : (s : String) → IsPlain s → IsFree b'/' s
plain-IsFree String.[] h = tt
plain-IsFree (String.◌∷◌ c s) h = (ground (arith, h.0), plain-IsFree s h.1)

parts : Kind → List String
parts pods = "" ∷ "api" ∷ "v1" ∷ "pods" ∷ []
parts nodes = "" ∷ "api" ∷ "v1" ∷ "nodes" ∷ []
parts replicasets = "" ∷ "apis" ∷ "apps" ∷ "v1" ∷ "replicasets" ∷ []
parts deployments = "" ∷ "apis" ∷ "apps" ∷ "v1" ∷ "deployments" ∷ []
parts services = "" ∷ "api" ∷ "v1" ∷ "services" ∷ []
parts endpoints = "" ∷ "api" ∷ "v1" ∷ "endpoints" ∷ []
parts leases = "" ∷ "api" ∷ "v1" ∷ "leases" ∷ []

split-collection_path : (k : Kind) → split b'/' (collection_path k) ≡ parts k
unfolding split parts
split-collection_path pods = refl
split-collection_path nodes = refl
split-collection_path replicasets = refl
split-collection_path deployments = refl
split-collection_path services = refl
split-collection_path endpoints = refl
split-collection_path leases = refl

split-item_path :
    (k : Kind) (n : String) → IsPlain n → split b'/' (item_path k n) ≡ parts k ++ n ∷ []
unfolding item_path
split-item_path k n h =
    ap (λ t. split b'/' (collection_path k +s+ t)) (slash n)
    ∙ split-append_any b'/' (collection_path k) n _ refl
    ∙ rw (split-collection_path k, split-free b'/' n (plain-IsFree n h))

candidates-items :
    (k : Kind) (n : String)
    → (candidates routes get (parts k ++ n ∷ []) ≡ record { handler = gets k; param = some n } ∷ [])
      × (candidates routes delete (parts k ++ n ∷ [])
          ≡ record { handler = deletes k; param = some n } ∷ [])
      × (candidates routes put (parts k ++ n ∷ [])
          ≡ record { handler = updates k; param = some n } ∷ [])
unfolding candidates routes parts
candidates-items pods n = (refl, refl, refl)
candidates-items nodes n = (refl, refl, refl)
candidates-items replicasets n = (refl, refl, refl)
candidates-items deployments n = (refl, refl, refl)
candidates-items services n = (refl, refl, refl)
candidates-items endpoints n = (refl, refl, refl)
candidates-items leases n = (refl, refl, refl)

candidates-collections :
    (k : Kind)
    → (candidates routes get (parts k) ≡ record { handler = lists k; param = none } ∷ [])
      × (candidates routes post (parts k) ≡ record { handler = creates k; param = none } ∷ [])
unfolding candidates routes parts
candidates-collections pods = (refl, refl)
candidates-collections nodes = (refl, refl)
candidates-collections replicasets = (refl, refl)
candidates-collections deployments = (refl, refl)
candidates-collections services = (refl, refl)
candidates-collections endpoints = (refl, refl)
candidates-collections leases = (refl, refl)

IsPath-append : (s t : String) → IsPath s → IsPath t → IsPath (s +s+ t)
IsPath-append String.[] t h k = rw (nil-append t) k
IsPath-append (String.◌∷◌ c s) t h k = rw (cons-append c s t) (h.0, IsPath-append s t h.1 k)

plain-IsPath : (s : String) → IsPlain s → IsPath s
plain-IsPath String.[] h = tt
plain-IsPath (String.◌∷◌ c s) h = (rw (h.0), plain-IsPath s h.1)

collection-IsPath : (k : Kind) → IsPath (collection_path k)
collection-IsPath pods = ground arith
collection-IsPath nodes = ground arith
collection-IsPath replicasets = ground arith
collection-IsPath deployments = ground arith
collection-IsPath services = ground arith
collection-IsPath endpoints = ground arith
collection-IsPath leases = ground arith

item-IsPath : (k : Kind) (n : String) → IsPlain n → IsPath (item_path k n)
unfolding item_path
item-IsPath k n h =
    IsPath-append (collection_path k) _ (collection-IsPath k)
      (IsPath-append "/" n (refl, tt) (plain-IsPath n h))

module _ {Bytes : Type 0} (mux : Mux) (urls : Urls) (nothing : Bytes) where
  -- A path that only one route fits goes to its handler.
  sent_to :
      (r : Request Bytes) (c : Match)
      → IsPath (path_for r)
      → candidates routes (method_of r) (split b'/' (path_for r)) ≡ c ∷ []
      → c.param ≢ some ""
      → handle_match c (make_request nothing r (path_for r)) ≡ rest r
      → (h : HttpRequest Bytes) × (http_request urls nothing r ≡ some h) × (dispatch mux h ≡ rest r)
  unfolding http_request dispatch handle_found
  sent_to r c p e q m =
      let sent : HttpRequest Bytes = make_request nothing r (path_for r) in
      (
        sent,
        rw (urls.path_of_plain (path_for r) p, http_request),
        rw (mux.only_fit routes (method_of r) (path_for r) c e q, handle_found) m,
      )

  -- Each request of the client, if the name in its path, if any, is a text of unreserved
  -- characters that is not empty, is sent, and comes to the handler of its kind, with its name and
  -- its body.
  pub dispatch-http_request :
      (r : Request Bytes)
      → HasPlainName (name_in r)
      → (h : HttpRequest Bytes) × (http_request urls nothing r ≡ some h) × (dispatch mux h ≡ rest r)
  unfolding handle_match
  dispatch-http_request (Request.get_list k) p =
      sent_to (Request.get_list k) _ (collection-IsPath k)
        (ap (candidates routes get) (split-collection_path k) ∙ (candidates-collections k).0)
        (λ e. cc) refl
  dispatch-http_request (Request.post k b) p =
      sent_to (Request.post k b) _ (collection-IsPath k)
        (ap (candidates routes post) (split-collection_path k) ∙ (candidates-collections k).1)
        (λ e. cc) refl
  dispatch-http_request (Request.get k n) p =
      sent_to (Request.get k n) _ (item-IsPath k n p.1)
        (ap (candidates routes get) (split-item_path k n p.1) ∙ (candidates-items k n).0)
        (λ e. p.0 (some_inj n "" e)) refl
  dispatch-http_request (Request.delete k n) p =
      sent_to (Request.delete k n) _ (item-IsPath k n p.1)
        (ap (candidates routes delete) (split-item_path k n p.1) ∙ (candidates-items k n).1)
        (λ e. p.0 (some_inj n "" e)) refl
  dispatch-http_request (Request.put k n b) p =
      sent_to (Request.put k n b) _ (item-IsPath k n p.1)
        (ap (candidates routes put) (split-item_path k n p.1) ∙ (candidates-items k n).2)
        (λ e. p.0 (some_inj n "" e)) refl

  -- If a POST whose body decodes to an object with a plain name is answered 201, then the URL that the
  -- client makes of the name for a GET leads, by the routes, to the handler that answers 200 with the
  -- object, as JSON writes it and reads it back, and changes nothing.
  pub dispatch-created :
      ⦃json : Json⦄ (order : Map json.Bytes → Map json.Bytes) (k : Kind) (body : json.Bytes)
      (obj : Obj k) (s : Store) (r : Response)
      → IsPlainName (get_object_meta k obj).name
      → json.unmarshal k body ≡ some obj
      → (serve order (Request.post k body) s).0 ≡ ret r
      → r.status ≡ 201
      → let s' : Store = (serve order (Request.post k body) s).1 in
        let name = (get_object_meta k obj).name in
        (h : HttpRequest Bytes) × (http_request urls nothing (Request.get k name) ≡ some h)
        × (dispatch mux h ≡ rest (Request.get k name))
        × (serve order (Request.get k name) s'
            ≡ (ret (render_json 200 (object k (stored k obj))), s'))
  dispatch-created order k body obj s r p d e q =
      let (h, a, b) = dispatch-http_request (Request.get k (get_object_meta k obj).name) p in
      (h, a, b, get-post order k body obj s r d e q)
