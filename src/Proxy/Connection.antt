-- ===== src/Proxy/Connection.antt =====
-- internal/proxy/proxier.go: how handleConnection picks a backend. The random choice, `%d`, and whether
-- a backend can be dialled are parameters. What is piped afterwards is not modelled.
use k8s_lite.Prelude.{
  ℕ, ◌<◌, String, ◌+s+◌, Bool, Option, none, some, List, [], ◌∷◌, map, if◌then◌else◌, Map, lookup,
  ℤ, pos, Flow, ret, panicked, length, get_elem?,
}
use k8s_lite.Api.Services.{Endpoints, EndpointSubset, EndpointAddress, EndpointPort, slice_items}

pub record Dialer : Type 0 where
  -- `rand.Intn(n)`
  pub intn : ℕ → ℕ
  pub intn_lt : (n : ℕ) → 0 < n → intn n < n
  -- `fmt.Sprintf("%d", n)`
  pub format_int : ℤ → String
  -- whether a connection to an address is made within two seconds
  pub dials : String → Bool

-- What becomes of an accepted connection: closed at once, closed since the backend is not reached, or
-- joined to the backend.
pub data Outcome : Type 0 where
  dropped : Outcome
  unreached piped : String → Outcome

unfoldable pub target_port : List EndpointPort → ℤ
target_port [] = pos 80
target_port (p ∷ _) = p.port

module _ (dialer : Dialer) where
  unfoldable pub backend : ℤ → EndpointAddress → String
  backend port addr = addr.ip +s+ (":" +s+ dialer.format_int port)

  unfoldable pub dial : String → Outcome
  dial b = if dialer.dials b then piped b else unreached b

  -- `backends[i]`
  unfoldable pub dial_at : Option String → Flow Outcome
  unfolding dial
  dial_at none = panicked
  dial_at (some b) = ret (dial b)

  unfoldable pub pick : List String → Flow Outcome
  unfolding dial_at
  pick [] = ret dropped
  pick (b ∷ bs) = dial_at (get_elem? (b ∷ bs) (dialer.intn (length (b ∷ bs))))

  unfoldable pub with_subset : EndpointSubset → Flow Outcome
  unfolding backend target_port pick
  with_subset subset =
      pick (map (backend (target_port (slice_items subset.ports))) (slice_items subset.addresses))

  unfoldable pub with_subsets : List EndpointSubset → Flow Outcome
  unfolding with_subset
  with_subsets [] = ret dropped
  with_subsets (subset ∷ _) = with_subset subset

  unfoldable pub with_endpoints : Option Endpoints → Flow Outcome
  unfolding with_subsets
  with_endpoints none = ret dropped
  with_endpoints (some ep) = with_subsets (slice_items ep.subsets)

  unfoldable pub handle_connection : Map Endpoints → String → Flow Outcome
  unfolding with_endpoints
  handle_connection endpoints svc_name = with_endpoints (lookup svc_name endpoints)
