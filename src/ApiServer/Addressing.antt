-- ===== src/ApiServer/Addressing.antt =====
-- internal/apiserver/server.go: which names the routes can speak of. A POST takes any name of an
-- object that is not empty, and "{name}" fits one part of a path.
use k8s_lite.Prelude.{
  String, ◌≡◌, refl, sym, subst, ◌∙◌, Option, none, some, some_inj, List, [], ◌∷◌, All, Among, inl,
  inr, split, split-IsFree, IsFree, Map, arith, Bool-cases, Option-cases, str_eq, state-bind-pure,
  lookup-insert, eq_iff,
}
use k8s_lite.Api.Objects.{Kind, Obj}
use k8s_lite.Api.Stored.{Json}
use k8s_lite.Registry.{key, key-kind, key-name}
use k8s_lite.Storage.Memory
use k8s_lite.Storage.Memory.{Store}
use k8s_lite.Storage.Spec.{view}
use k8s_lite.Storage.Refinement.{table-notify_and_sync}
use k8s_lite.ApiServer.Handlers.{Request, serve, handle_create}
use k8s_lite.ApiServer.Replies.{target, serve-isolated}
use k8s_lite.ApiServer.Routes.{
  Method, Handler, Segment, text, name, Route, Match, Mux, HttpRequest, Page, home_page,
  metrics_page, no_route, stream, rest, routes, fits, candidates, accepts, add_match, url_param,
  handle_match, handle_found, dispatch, visit_page, visit_all, home, metrics, lists, creates, gets,
  deletes, updates,
}

-- What "{name}" stands for holds no slash.
abbrev IsSegment : Option String → Type 0
IsSegment none = Unit
IsSegment (some n) = IsFree b'/' n

fits-IsSegment :
    (ps : List Segment) (ss : List String)
    → All (IsFree b'/') ss
    → (v : Option String) → fits ps ss ≡ some v
    → IsSegment v
unfolding fits
fits-IsSegment [] [] h v e = subst IsSegment (some_inj none v e) tt
fits-IsSegment [] (s ∷ ss) h v e = cc
fits-IsSegment (text t ∷ ps) [] h v e = cc
fits-IsSegment (name ∷ ps) [] h v e = cc
fits-IsSegment (text t ∷ ps) (s ∷ ss) h v e = elim (Bool-cases (str_eq t s)) [
  | inl q ↦ fits-IsSegment ps ss h.1 v (rw q at e)
  | inr q ↦ absurd (ground arith)
]
fits-IsSegment (name ∷ ps) (s ∷ ss) h v e = elim (Option-cases (fits ps ss)) [
  | inl q ↦ absurd (ground arith)
  | inr (w, q) ↦ subst IsSegment (some_inj (some s) v (rw q at e)) h.0
]

-- The first candidate is this one, or the others are candidates without it.
added-IsSegment :
    (h : Handler) (f : Option (Option String)) (others : List Match) (c : Match)
    → ((v : Option String) → f ≡ some v → IsSegment v)
    → (Among c others → IsSegment c.param)
    → Among c (add_match h f others)
    → IsSegment c.param
added-IsSegment h none others c g k b = k b
added-IsSegment h (some v) others c g k (inl e) =
    subst (λ (d : Match). IsSegment d.param) (sym e) (g v refl)
added-IsSegment h (some v) others c g k (inr b) = k b

candidates-IsSegment :
    (rs : List Route) (m : Method) (ss : List String) (c : Match)
    → All (IsFree b'/') ss
    → Among c (candidates rs m ss)
    → IsSegment c.param
unfolding candidates
candidates-IsSegment [] m ss c h a = absurd a
candidates-IsSegment (r ∷ rs) m ss c h a = elim (Bool-cases (accepts r.method m)) [
  | inl q ↦
      added-IsSegment r.handler (fits r.pattern ss) (candidates rs m ss) c
        (fits-IsSegment r.pattern ss h) (candidates-IsSegment rs m ss c h) (rw q at a)
  | inr q ↦ candidates-IsSegment rs m ss c h (rw q at a)
]

found-IsSegment :
    (mux : Mux) (rs : List Route) (m : Method) (path : String) (c : Match)
    → mux.find_route rs m path ≡ some c
    → IsSegment c.param
found-IsSegment mux rs m path c e = elim (mux.found_fits rs m path c e) [
  | inl a ↦ candidates-IsSegment rs m (split b'/' path) c (split-IsFree b'/' path) a
  | inr (shorter, _, a) ↦
      candidates-IsSegment rs m (split b'/' shorter) c (split-IsFree b'/' shorter) a
]

url_param-IsFree : (v : Option String) → IsSegment v → IsFree b'/' (url_param v)
url_param-IsFree none h = tt
url_param-IsFree (some n) h = h

module _ {Bytes : Type 0} where
  -- A page that writes under a name in its path has one part as the name.
  abbrev WritesSegment : Page Bytes → Type 0
  WritesSegment (rest (Request.delete k n)) = IsFree b'/' n
  WritesSegment (rest (Request.put k n b)) = IsFree b'/' n
  WritesSegment p = Unit

  match-WritesSegment :
      (h : Handler) (v : Option String) (r : HttpRequest Bytes)
      → IsSegment v
      → WritesSegment (handle_match (record { handler = h; param = v }) r)
  unfolding handle_match
  match-WritesSegment home v r s = tt
  match-WritesSegment metrics v r s = tt
  match-WritesSegment (lists k) v r s = elim (Bool-cases r.watch) [
    | inl q ↦ rw q tt
    | inr q ↦ rw q tt
  ]
  match-WritesSegment (creates k) v r s = tt
  match-WritesSegment (gets k) v r s = tt
  match-WritesSegment (deletes k) v r s = url_param-IsFree v s
  match-WritesSegment (updates k) v r s = url_param-IsFree v s

  dispatch-WritesSegment : (mux : Mux) (r : HttpRequest Bytes) → WritesSegment (dispatch mux r)
  unfolding dispatch handle_found
  dispatch-WritesSegment mux r = elim (Option-cases (mux.find_route routes r.method r.path)) [
    | inl e ↦ rw e tt
    | inr (c, e) ↦
        rw e
          (match-WritesSegment c.handler c.param r (found-IsSegment mux routes r.method r.path c e))
  ]

key-name_any : (k j : Kind) (n m : String) → key k n ≡ key j m → n ≡ m
key-name_any k j n m e =
    key-name j n m (subst (λ (i : Kind). key i n ≡ key j m) (key-kind k j n m e) e)

module _ ⦃json : Json⦄ where
  -- A POST leaves what is stored under any key.
  view-create_stored :
      (i : String) (k : Kind) (obj : Obj k) (s : Store) (j : String) (b : json.Bytes)
      → view s j ≡ some b
      → view (Memory.create i k obj s).1 j ≡ some b
  unfolding Memory.create
  view-create_stored i k obj s j b h =
      grind (arith, table-notify_and_sync, lookup-insert, eq_iff i j)

  pub post_kept :
      (k : Kind) (body : json.Bytes) (s : Store) (j : String) (b : json.Bytes)
      → view s j ≡ some b
      → view (handle_create k body s).1 j ≡ some b
  unfolding handle_create
  post_kept k body s j b h = grind (arith, view-create_stored, state-bind-pure)

  page_kept :
      (order : Map json.Bytes → Map json.Bytes) (p : Page json.Bytes) (s : Store) (k : Kind)
      (n : String) (b : json.Bytes)
      → (IsFree b'/' n → ⊥)
      → WritesSegment p
      → view s (key k n) ≡ some b
      → view (visit_page order p s) (key k n) ≡ some b
  unfolding visit_page serve target Memory.watch
  page_kept order home_page s k n b h w e = e
  page_kept order metrics_page s k n b h w e = e
  page_kept order no_route s k n b h w e = e
  page_kept order (stream j) s k n b h w e = e
  page_kept order (rest (Request.get_list j)) s k n b h w e =
      serve-isolated order (Request.get_list j) s (key k n) (λ q. cc) ∙ e
  page_kept order (rest (Request.get j m)) s k n b h w e =
      serve-isolated order (Request.get j m) s (key k n) (λ q. cc) ∙ e
  page_kept order (rest (Request.post j body)) s k n b h w e = post_kept j body s (key k n) b e
  page_kept order (rest (Request.delete j m)) s k n b h w e =
      serve-isolated order (Request.delete j m) s (key k n)
        (λ q. h (subst (IsFree b'/') (key-name_any j k m n (some_inj _ _ q)) w))
      ∙ e
  page_kept order (rest (Request.put j m body)) s k n b h w e =
      serve-isolated order (Request.put j m body) s (key k n)
        (λ q. h (subst (IsFree b'/') (key-name_any j k m n (some_inj _ _ q)) w))
      ∙ e

  -- What is stored under a name that holds a slash stays as it is, whatever requests come.
  pub visit_all-slashed :
      (mux : Mux) (rs : List ((Map json.Bytes → Map json.Bytes) × HttpRequest json.Bytes))
      (k : Kind) (n : String) (b : json.Bytes) (s : Store)
      → (IsFree b'/' n → ⊥)
      → view s (key k n) ≡ some b
      → view (visit_all mux rs s) (key k n) ≡ some b
  unfolding visit_all
  visit_all-slashed mux [] k n b s h e = e
  visit_all-slashed mux ((order, r) ∷ rs) k n b s h e =
      visit_all-slashed mux rs k n b _ h
        (page_kept order (dispatch mux r) s k n b h (dispatch-WritesSegment mux r) e)
