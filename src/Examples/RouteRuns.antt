-- ===== src/Examples/RouteRuns.antt =====
-- Requests on their way through the routes and the middlewares of internal/apiserver/server.go.
use text.Mathlib.TextLemmas.{cons-append, nil-append}
use k8s_lite.Prelude.{
  ℕ, ◌+◌, String, ◌+s+◌, ◌≡◌, ◌≢◌, refl, sym, ap, ◌∙◌, false, Option, none, some, some_inj, List,
  [], ◌∷◌, Among, inl, if◌then◌else◌, split, false_of_not, arith, ret, lookup,
}
use k8s_lite.Api.Objects.{pods, get_object_meta}
use k8s_lite.Api.Stored.{stored}
use k8s_lite.Storage.Watchers.{notify_watchers}
use k8s_lite.Registry.{key}
use k8s_lite.Storage.Memory.{Store, create, sync, notify_and_sync}
use k8s_lite.Storage.Spec.{view}
use k8s_lite.ApiServer.{Request, serve, handle_create, render_json, object}
use k8s_lite.ApiServer.Routes.{
  delete, Match, Mux, HttpRequest, candidates, dispatch, rest, visit_all,
}
use k8s_lite.ApiServer.Addressing.{visit_all-slashed}
use k8s_lite.ApiServer.Middleware.{
  Labels, Vectors, Incoming, HttpHandler, same_labels, same_labels_self, same_labels-eq,
  serve_measured, serve_plain, answers_with, serve_measured_lem,
}
use k8s_lite.Client.Paths.{Urls, http_request, dispatch-http_request, dispatch-created}
use k8s_lite.Examples.World.{Text, encoded, pod, plain_json, store_of}

abbrev first_of : List Match → Option Match
first_of [] = none
first_of (c ∷ cs) = some c

first_of-Among : (cs : List Match) (c : Match) → first_of cs ≡ some c → Among c cs
first_of-Among [] c e = cc
first_of-Among (d ∷ ds) c e = inl (sym (some_inj d c e))

-- The first route that fits the path as it is.
abbrev first_mux : Mux
first_mux = record {
  find_route = λ rs m path. first_of (candidates rs m (split b'/' path));
  only_fit = λ rs m path c e h. ap first_of e;
  found_fits = λ rs m path c e. inl (first_of-Among _ c e);
}

strip : String → String → String
strip String.[] t = t
strip (String.◌∷◌ c s) String.[] = String.[]
strip (String.◌∷◌ c s) (String.◌∷◌ d t) = strip s t

strip-append : (s p : String) → strip s (s +s+ p) ≡ p
unfolding strip
strip-append String.[] p = nil-append p
strip-append (String.◌∷◌ c s) p = ap (strip (String.◌∷◌ c s)) (cons-append c s p) ∙ strip-append s p

abbrev local_urls : Urls
local_urls = record {
  base_url = "http://localhost:8080";
  path_of = λ url. some (strip "http://localhost:8080" url);
  path_of_plain = λ p h. ap some (strip-append "http://localhost:8080" p);
}

abbrev text_of : Text
text_of = encoded pods (pod "web-1")

abbrev web_1 : String
web_1 = "web-1"

not_empty : web_1 ≢ ""
not_empty e = cc e

dispatch-http_request_example :
    (h : HttpRequest Text) × (http_request local_urls text_of (Request.put pods "web-1" text_of)
      ≡ some h)
    × (dispatch first_mux h ≡ rest (Request.put pods "web-1" text_of))
dispatch-http_request_example =
    dispatch-http_request first_mux local_urls text_of (Request.put pods "web-1" text_of)
      (not_empty, ground arith)

abbrev empty_store : Store
empty_store = store_of "" []

dispatch-created_example :
    let s : Store = (serve (λ m. m) (Request.post pods text_of) empty_store).1 in
    (h : HttpRequest Text) × (http_request local_urls text_of (Request.get pods "web-1") ≡ some h)
    × (dispatch first_mux h ≡ rest (Request.get pods "web-1"))
    × (serve (λ m. m) (Request.get pods "web-1") s
        ≡ (ret (render_json 200 (object pods (stored pods (stored pods (pod "web-1"))))), s))
unfolding serve handle_create create notify_and_sync notify_watchers sync lookup key get_object_meta
    stored
dispatch-created_example =
    dispatch-created first_mux local_urls text_of (λ m. m) pods text_of (stored pods (pod "web-1"))
      empty_store (render_json 201 (object pods (stored pods (pod "web-1"))))
      (not_empty, ground arith) refl refl refl

abbrev slashed : Store
slashed = store_of "" (("/registry/pods/a/b", encoded pods (pod "a/b")) ∷ [])

abbrev delete_slashed : HttpRequest Text
delete_slashed = record {
  method = delete;
  path = "/api/v1/pods/a/b";
  watch = false;
  body = text_of;
}

visit_all-slashed_example :
    view (visit_all first_mux (((λ m. m), delete_slashed) ∷ []) slashed) (key pods "a/b")
    ≡ some (encoded pods (pod "a/b"))
unfolding key lookup
visit_all-slashed_example =
    visit_all-slashed first_mux (((λ m. m), delete_slashed) ∷ []) pods "a/b"
      (encoded pods (pod "a/b")) slashed (λ h. cc (h.1.0)) refl

bump : Labels → (Labels → ℕ) → Labels → ℕ
bump l m k = if same_labels l k then m k + 1 else m k

bump_self : (l : Labels) (m : Labels → ℕ) → bump l m l ≡ m l + 1
unfolding bump
bump_self l m = rw (same_labels_self l)

bump_other : (l k : Labels) (m : Labels → ℕ) → l ≢ k → bump k m l ≡ m l
unfolding bump
bump_other l k m h = rw (false_of_not (same_labels k l) (λ e. h (sym (same_labels-eq k l e))))

-- Counters as a function of the labels; the durations are not kept.
abbrev counts : Vectors
counts = record {
  Metrics = Labels → ℕ;
  total = λ l m. m l;
  inc = bump;
  observe = λ h p d m. m;
  total-inc_self = bump_self;
  total-inc_other = bump_other;
  total-observe = λ l h p d m. refl;
}

-- Each request adds one to the state and is answered 200.
abbrev counting : HttpHandler Text ℕ
counting r s = (ret 200, s + 1)

abbrev incoming : Incoming Text
incoming = record { request = delete_slashed; has_certificate = false; start = 3; finish = 5 }

abbrev ok_labels : Labels
ok_labels = record { method = delete; path = "/api/v1/pods/a/b"; status = 200 }

serve_measured_lem_example :
    let after = serve_measured counts counting (incoming ∷ incoming ∷ []) (0, λ l. 0) in
    (after.0 ≡ (serve_plain counting (incoming ∷ incoming ∷ []) 0).0)
    × (after.1.0 ≡ (serve_plain counting (incoming ∷ incoming ∷ []) 0).1)
    × (after.1.1 ok_labels ≡ 0 + answers_with ok_labels counting (incoming ∷ incoming ∷ []) 0)
serve_measured_lem_example =
    serve_measured_lem counts counting (incoming ∷ incoming ∷ []) 0 (λ l. 0) ok_labels
