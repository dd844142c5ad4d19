-- ===== src/ApiServer/Middleware.antt =====
-- internal/apiserver/server.go: prometheusMiddleware and authMiddleware, in the order in which
-- routes puts them around the handlers. The vectors of Prometheus are the parameter Vectors. Times
-- are those of the clock before and after a request.
use k8s_lite.Prelude.{
  ℕ, ◌+◌, ◌-◌, String, ◌≡◌, ◌≢◌, refl, ap, subst, ◌∙◌, Bool, true, ◌&&◌, List, [], ◌∷◌, inl, inr,
  ◌↔◌, if◌then◌else◌, str_eq, ◌==◌, ==_iff, eq_iff, eq_refl, Bool-cases, Flow, ret, blocked,
  panicked, Exec, arith,
}
use k8s_lite.ApiServer.Routes.{Method, same_method, HttpRequest}

-- `http_requests_total` and `http_request_duration_seconds`.
pub record Labels : Type 0 where
  pub method : Method
  pub path : String
  pub status : ℕ

-- A counter for each labels, and a histogram for each method and path, of which the number of
-- observations is read.
pub record Vectors : Type 1 where
  pub Metrics : Type 0
  pub total : Labels → Metrics → ℕ
  pub inc : Labels → Metrics → Metrics
  pub observe : Method → String → ℕ → Metrics → Metrics
  pub total-inc_self : (l : Labels) (m : Metrics) → total l (inc l m) ≡ total l m + 1
  pub total-inc_other : (l k : Labels) (m : Metrics) → l ≢ k → total l (inc k m) ≡ total l m
  pub total-observe :
      (l : Labels) (h : Method) (p : String) (d : ℕ) (m : Metrics)
      → total l (observe h p d m) ≡ total l m

-- A request with what its connection says: `r.TLS != nil && len(r.TLS.PeerCertificates) > 0`.
pub record Incoming (Bytes : Type 0) : Type 0 where
  pub request : HttpRequest Bytes
  pub has_certificate : Bool
  pub start : ℕ
  pub finish : ℕ

abbrev pub labels_of : {Bytes : Type 0} → Incoming Bytes → ℕ → Labels
labels_of r status = record { method = r.request.method; path = r.request.path; status = status }

abbrev pub same_labels : Labels → Labels → Bool
same_labels l k = same_method l.method k.method && (str_eq l.path k.path && l.status == k.status)

unfoldable pub measured :
    {Bytes : Type 0} (vectors : Vectors)
    → Incoming Bytes
    → Flow ℕ
    → vectors.Metrics
    → vectors.Metrics
measured vectors r (ret status) m =
    vectors.observe r.request.method r.request.path (r.finish - r.start)
      (vectors.inc (labels_of r status) m)
measured vectors r blocked m = m
measured vectors r panicked m = m

-- 1 for an answer with these labels.
abbrev pub hits : {Bytes : Type 0} → Labels → Incoming Bytes → Flow ℕ → ℕ
hits l r (ret status) = if same_labels (labels_of r status) l then 1 else 0
hits l r blocked = 0
hits l r panicked = 0

same_method_iff : (m n : Method) → (same_method m n ≡ true) ↔ (m ≡ n)
same_method_iff m n = ground arith

pub same_labels-eq : (l k : Labels) → same_labels l k ≡ true → l ≡ k
same_labels-eq l k h =
    ground
      (arith, same_method_iff l.method k.method, eq_iff l.path k.path, ==_iff l.status k.status)

pub same_labels_self : (l : Labels) → same_labels l l ≡ true
same_labels_self l =
    rw (
      (same_method_iff l.method l.method).1 refl,
      eq_refl l.path,
      (==_iff l.status l.status).1 refl,
    )

total-measured :
    {Bytes : Type 0} (vectors : Vectors) (l : Labels) (r : Incoming Bytes) (f : Flow ℕ)
    (m : vectors.Metrics)
    → vectors.total l (measured vectors r f m) ≡ vectors.total l m + hits l r f
unfolding measured
total-measured vectors l r (ret status) m = elim (Bool-cases (same_labels (labels_of r status) l)) [
  | inl q ↦ rw q (
      vectors.total-observe _ _ _ _ _
      ∙ ap (λ (k : Labels). vectors.total l (vectors.inc k m)) (same_labels-eq _ _ q)
      ∙ vectors.total-inc_self l m)
  | inr q ↦ rw q (
      vectors.total-observe _ _ _ _ _
      ∙ vectors.total-inc_other l (labels_of r status) m
          (λ e. cc (subst (λ (k : Labels). same_labels k l ≡ true) e (same_labels_self l)))
      ∙ omega arith)
]
total-measured vectors l r blocked m = omega arith
total-measured vectors l r panicked m = omega arith

module _ (Bytes S : Type 0) where
  -- An `http.Handler`; its value is the status that it wrote, `ww.Status()`.
  abbrev pub HttpHandler : Type 0
  HttpHandler = Incoming Bytes → Exec S ℕ

module _ {Bytes S : Type 0} where
  unfoldable pub auth_middleware : HttpHandler Bytes S → HttpHandler Bytes S
  auth_middleware next r = if r.has_certificate then next r else next r

  -- Straight to the handler, one request after another.
  unfoldable pub serve_plain : HttpHandler Bytes S → List (Incoming Bytes) → S → List (Flow ℕ) × S
  serve_plain next [] s = ([], s)
  serve_plain next (r ∷ rs) s =
      let rest = serve_plain next rs (next r s).1 in ((next r s).0 ∷ rest.0, rest.1)

  unfoldable pub answers_with : Labels → HttpHandler Bytes S → List (Incoming Bytes) → S → ℕ
  answers_with l next [] s = 0
  answers_with l next (r ∷ rs) s = hits l r (next r s).0 + answers_with l next rs (next r s).1

  auth_middleware_same :
      (next : HttpHandler Bytes S) (r : Incoming Bytes) (s : S)
      → auth_middleware next r s ≡ next r s
  unfolding auth_middleware
  auth_middleware_same next r s = elim (Bool-cases r.has_certificate) [
    | inl q ↦ rw q
    | inr q ↦ rw q
  ]

module _ {Bytes S : Type 0} (vectors : Vectors) where
  unfoldable pub prometheus_middleware :
      HttpHandler Bytes S → Incoming Bytes → Exec (S × vectors.Metrics) ℕ
  unfolding measured
  prometheus_middleware next r (s, m) = let (f, s') = next r s in (f, (s', measured vectors r f m))

  -- One request after another through both: how each ends, and the state then.
  unfoldable pub serve_measured :
      HttpHandler Bytes S
      → List (Incoming Bytes)
      → S × vectors.Metrics
      → List (Flow ℕ) × (S × vectors.Metrics)
  unfolding prometheus_middleware auth_middleware
  serve_measured next [] sm = ([], sm)
  serve_measured next (r ∷ rs) sm =
      let now = prometheus_middleware (auth_middleware next) r sm in
      let rest = serve_measured next rs now.1 in (now.0 ∷ rest.0, rest.1)

  -- Through the middlewares, with a certificate or without, each request ends as the handler alone
  -- ends it, with the same status if it is answered, and the handler's state is the same; the counter
  -- of any labels grows by the number of requests that were answered with them, and one that is not
  -- answered, or panics, is not counted.
  pub serve_measured_lem :
      (next : HttpHandler Bytes S) (rs : List (Incoming Bytes)) (s : S) (m : vectors.Metrics)
      (l : Labels)
      → ((serve_measured next rs (s, m)).0 ≡ (serve_plain next rs s).0)
        × ((serve_measured next rs (s, m)).1.0 ≡ (serve_plain next rs s).1)
        × (vectors.total l (serve_measured next rs (s, m)).1.1
            ≡ vectors.total l m + answers_with l next rs s)
  unfolding serve_measured prometheus_middleware serve_plain answers_with
  serve_measured_lem next [] s m l = (refl, refl, omega arith)
  serve_measured_lem next (r ∷ rs) s m l =
      let (ends, same, counts) =
        serve_measured_lem next rs (next r s).1 (measured vectors r (next r s).0 m) l in
      rw
        (
          auth_middleware_same next r s,
          serve_measured,
          prometheus_middleware,
          serve_plain,
          answers_with,
        )
        (
          ap (λ fs. (next r s).0 ∷ fs) ends,
          same,
          omega (arith, counts, total-measured vectors l r (next r s).0 m),
        )
