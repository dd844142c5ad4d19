-- ===== src/Kubelet/Prober.antt =====
-- internal/kubelet/prober.go: the interface Prober and DefaultProber. The two kinds of connection are
-- parameters, whose answers may depend on all probes before; the state is these probes.
use k8s_lite.Prelude.{
  ℕ, String, ◌+s+◌, ◌≡◌, refl, Bool, true, false, ◌&&◌, Option, none, some, List, ◌∷◌,
  if◌then◌else◌, str_eq, leb, ltb, Exec, pure, ret,
}
use text.Mathlib.Text.{find?}
use k8s_lite.Api.Pods.{Pod, Container, Probe, HttpGetAction, TcpSocketAction}
use k8s_lite.Api.Port.{ScalarJson, to_string}

-- The result with `none` for an error.
abbrev pub Prober : Type 0 → Type 0
Prober S = Pod → Container → Probe → Exec S (Option Bool)

pub data Attempt : Type 0 where
  http tcp : String → Attempt

pub record Network : Type 0 where
  -- the status of the answer to a GET within two seconds, or `none`
  pub status : List Attempt → String → Option ℕ
  -- whether a TCP connection to an address is made within two seconds
  pub connects : List Attempt → String → Bool

-- The pod's IP, or "localhost".
unfoldable pub host_of : Pod → String
host_of pod = if str_eq pod.status.pod_ip "" then "localhost" else pod.status.pod_ip

-- net.JoinHostPort
unfoldable pub join_host_port : String → String → String
join_host_port host port = elim (find? host ":") [
  | none ↦ host +s+ (":" +s+ port)
  | some _ ↦ "[" +s+ (host +s+ ("]:" +s+ port))
]

module _ (json : ScalarJson) (net : Network) where
  unfoldable pub probe_url : Pod → HttpGetAction → String
  unfolding host_of
  probe_url pod w = "http://" +s+ (host_of pod +s+ (":" +s+ (to_string json w.port +s+ w.path)))

  unfoldable pub is_success : Option ℕ → Bool
  is_success none = false
  is_success (some code) = leb 200 code && ltb code 400

  unfoldable pub probe_http : Pod → HttpGetAction → Exec (List Attempt) (Option Bool)
  unfolding probe_url is_success
  probe_http pod w s =
      let url = probe_url pod w in (ret (some (is_success (net.status s url))), http url ∷ s)

  unfoldable pub probe_tcp : Pod → TcpSocketAction → Exec (List Attempt) (Option Bool)
  unfolding host_of join_host_port
  probe_tcp pod t s =
      let address = join_host_port (host_of pod) (to_string json t.port) in
      (ret (some (net.connects s address)), tcp address ∷ s)

  probe_socket : Pod → Option TcpSocketAction → Exec (List Attempt) (Option Bool)
  unfolding probe_tcp
  probe_socket pod none = pure (some true)
  probe_socket pod (some t) = probe_tcp pod t

  probe_action :
      Pod → Option HttpGetAction → Option TcpSocketAction → Exec (List Attempt) (Option Bool)
  unfolding probe_http probe_socket
  probe_action pod (some w) t = probe_http pod w
  probe_action pod none t = probe_socket pod t

  -- `Probe` of DefaultProber.
  unfoldable pub default_prober : Prober (List Attempt)
  unfolding probe_action
  default_prober pod c p = probe_action pod p.http_get p.tcp_socket

  action_answers :
      (pod : Pod) (w : Option HttpGetAction) (t : Option TcpSocketAction) (s : List Attempt)
      → (b : Bool) × ((probe_action pod w t s).0 ≡ ret (some b))
  unfolding probe_action probe_socket probe_http probe_tcp
  action_answers pod (some w) t s = (is_success (net.status s (probe_url pod w)), refl)
  action_answers pod none (some t) s =
      (net.connects s (join_host_port (host_of pod) (to_string json t.port)), refl)
  action_answers pod none none s = (true, refl)

  -- A probe always answers, and never with an error.
  pub default_prober_answers :
      (pod : Pod) (c : Container) (p : Probe) (s : List Attempt)
      → (b : Bool) × ((default_prober pod c p s).0 ≡ ret (some b))
  unfolding default_prober
  default_prober_answers pod c p s = action_answers pod p.http_get p.tcp_socket s
