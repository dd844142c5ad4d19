-- ===== src/ApiServer/Routes.antt =====
-- internal/apiserver/server.go: routes and registerResourceRoutes, as the table of routes that they
-- register, and what the server does with a request of a method and a path. The table is read by
-- chi, which is a parameter: Mux says what it documents of patterns.
use k8s_lite.Prelude.{
  String, ◌+s+◌, ◌≡◌, ◌≢◌, ◌⊎◌, Bool, true, false, Option, none, some, List, [], ◌∷◌, ◌++◌, map,
  if◌then◌else◌, str_eq, Map, Among, split,
}
use k8s_lite.Api.Objects.{
  Kind, pods, nodes, replicasets, deployments, services, endpoints, leases, resource,
}
use k8s_lite.Api.Stored.{Json}
use k8s_lite.Registry.{key_prefix}
use k8s_lite.Storage.Memory
use k8s_lite.Storage.Memory.{Store}
use k8s_lite.ApiServer.Handlers.{Request, serve}

pub data Method : Type 0 where
  get post put delete other : Method

pub data Handler : Type 0 where
  home metrics : Handler
  lists creates gets updates deletes : Kind → Handler

-- A part of a pattern: a text, or "{name}".
pub data Segment : Type 0 where
  text : String → Segment
  name : Segment

-- `none` stands for every method, as in `Router.Handle`.
pub record Route : Type 0 where
  pub method : Option Method
  pub pattern : List Segment
  pub handler : Handler

-- A handler with the value of "{name}", if its pattern has one.
pub record Match : Type 0 where
  pub handler : Handler
  pub param : Option String

abbrev pub route : Method → List Segment → Handler → Route
route m p h = record { method = some m; pattern = p; handler = h }

unfoldable pub register_resource_routes : String → Kind → List Route
unfolding split
register_resource_routes prefix k =
    let base = map text (split b'/' (prefix +s+ ("/" +s+ resource k))) in
    let item = base ++ name ∷ [] in
    route get base (lists k)
    ∷ route post base (creates k)
    ∷ route get item (gets k)
    ∷ route delete item (deletes k)
    ∷ route put item (updates k)
    ∷ []

unfoldable pub routes : List Route
unfolding register_resource_routes split
routes =
    route get (map text (split b'/' "/")) home
    ∷ record { method = none; pattern = map text (split b'/' "/metrics"); handler = metrics }
    ∷ (register_resource_routes "/api/v1" pods
        ++ (register_resource_routes "/api/v1" nodes
            ++ (register_resource_routes "/apis/apps/v1" replicasets
                ++ (register_resource_routes "/apis/apps/v1" deployments
                    ++ (register_resource_routes "/api/v1" services
                        ++ (register_resource_routes "/api/v1" endpoints
                            ++ register_resource_routes "/api/v1" leases))))))

-- A pattern fits a path part by part, and "{name}" fits any part.
unfoldable pub fits : List Segment → List String → Option (Option String)
fits [] [] = some none
fits [] (s ∷ ss) = none
fits (text t ∷ ps) [] = none
fits (name ∷ ps) [] = none
fits (text t ∷ ps) (s ∷ ss) = let rest = fits ps ss in if str_eq t s then rest else none
fits (name ∷ ps) (s ∷ ss) = elim (fits ps ss) [ none ↦ none | some _ ↦ some (some s) ]

abbrev pub same_method : Method → Method → Bool
same_method get get = true
same_method post post = true
same_method put put = true
same_method delete delete = true
same_method other other = true
same_method m n = false

abbrev pub accepts : Option Method → Method → Bool
accepts none m = true
accepts (some n) m = same_method n m

abbrev pub add_match : Handler → Option (Option String) → List Match → List Match
add_match h none rest = rest
add_match h (some v) rest = record { handler = h; param = v } ∷ rest

unfoldable pub candidates : List Route → Method → List String → List Match
unfolding fits
candidates [] m path = []
candidates (r ∷ rs) m path =
    let rest = candidates rs m path in
    if accepts r.method m then add_match r.handler (fits r.pattern path) rest else rest

-- chi's Mux: the only route that fits is found, unless the text for "{name}" is empty, and a route
-- that is found fits the path, or the path without a slash at its end.
pub record Mux : Type 0 where
  pub find_route : List Route → Method → String → Option Match
  pub only_fit :
      (rs : List Route) (m : Method) (path : String) (c : Match)
      → candidates rs m (split b'/' path) ≡ c ∷ []
      → c.param ≢ some ""
      → find_route rs m path ≡ some c
  pub found_fits :
      (rs : List Route) (m : Method) (path : String) (c : Match)
      → find_route rs m path ≡ some c
      → Among c (candidates rs m (split b'/' path))
        ⊎ ((shorter : String) × (path ≡ shorter +s+ "/")
            × Among c (candidates rs m (split b'/' shorter)))

pub record HttpRequest (Bytes : Type 0) : Type 0 where
  pub method : Method
  pub path : String
  -- the query has `watch=true`
  pub watch : Bool
  pub body : Bytes

-- What a request comes to: a fixed page, a stream of events, a request of a resource, or chi's
-- answer that there is no such route.
pub data Page (Bytes : Type 0) : Type 0 where
  home_page metrics_page no_route : Page Bytes
  stream : Kind → Page Bytes
  rest : Request Bytes → Page Bytes

-- `chi.URLParam(r, "name")`
abbrev pub url_param : Option String → String
url_param none = ""
url_param (some s) = s

module _ {Bytes : Type 0} where
  unfoldable pub handle_match : Match → HttpRequest Bytes → Page Bytes
  handle_match c r = elim c.handler [
    | home ↦ home_page
    | metrics ↦ metrics_page
    | lists k ↦ if r.watch then stream k else rest (Request.get_list k)
    | creates k ↦ rest (Request.post k r.body)
    | gets k ↦ rest (Request.get k (url_param c.param))
    | deletes k ↦ rest (Request.delete k (url_param c.param))
    | updates k ↦ rest (Request.put k (url_param c.param) r.body)
  ]

  unfoldable pub handle_found : Option Match → HttpRequest Bytes → Page Bytes
  unfolding handle_match
  handle_found none r = no_route
  handle_found (some c) r = handle_match c r

  unfoldable pub dispatch : Mux → HttpRequest Bytes → Page Bytes
  unfolding handle_found
  dispatch mux r = handle_found (mux.find_route routes r.method r.path) r

module _ ⦃json : Json⦄ where
  -- The store after a request. A stream begins with a watch of the store.
  unfoldable pub visit_page : (Map json.Bytes → Map json.Bytes) → Page json.Bytes → Store → Store
  visit_page order (rest q) s = (serve order q s).1
  visit_page order (stream k) s = (Memory.watch (key_prefix k) s).1
  visit_page order _ s = s

  unfoldable pub visit_all :
      Mux → List ((Map json.Bytes → Map json.Bytes) × HttpRequest json.Bytes) → Store → Store
  unfolding visit_page
  visit_all mux [] s = s
  visit_all mux ((order, r) ∷ rs) s = visit_all mux rs (visit_page order (dispatch mux r) s)
