-- ===== src/Commands/Transport.antt =====
-- The settings of TLS: New of internal/client/client.go, ServeTLS of internal/apiserver/server.go,
-- and what the main functions in cmd make of their flags. Files and sockets are the parameter Host.
use k8s_lite.Prelude.{String, ◌+s+◌, Bool, not, ◌&&◌, if◌then◌else◌, str_eq}

-- `flag.String("tls-cert", …)` and its two companions
pub record TlsFlags : Type 0 where
  pub cert : String
  pub key : String
  pub ca : String

abbrev pub is_set : String → Bool
is_set s = not (str_eq s "")

-- `tlsCert != "" && tlsKey != "" && tlsCA != ""`
unfoldable pub all_given : TlsFlags → Bool
all_given f = is_set f.cert && (is_set f.key && is_set f.ca)

pub record Host : Type 0 where
  -- `tls.LoadX509KeyPair(cert, key)` succeeds.
  pub key_pair : String → String → Bool
  pub readable : String → Bool
  -- The address can be listened on.
  pub listens : String → Bool
  pub hostname : String

-- `log.Fatalf` ends the process.
pub data Started (A : Type 0) : Type 0 where
  started : A → Started A
  fatal : Started A

-- `none_loaded`: the Transport of a new http.Client is the default one.
pub data TlsConfig : Type 0 where
  none_loaded : TlsConfig
  loaded : TlsFlags → TlsConfig

pub record ApiClient : Type 0 where
  pub base_url : String
  pub tls : TlsConfig

pub data Listener : Type 0 where
  -- `http.ListenAndServe`
  insecure : String → Listener
  -- `ListenAndServeTLS`, with RequireAndVerifyClientCert
  mtls : String → TlsFlags → Listener

module _ (host : Host) where
  unfoldable pub new : String → TlsFlags → Started ApiClient
  new base_url f =
      if all_given f
      then (if host.key_pair f.cert f.key
          then (if host.readable f.ca
              then started (record { base_url = base_url; tls = loaded f })
              else fatal)
          else fatal)
      else started (record { base_url = base_url; tls = none_loaded })

  unfoldable pub serve_tls : String → TlsFlags → Started Listener
  serve_tls addr f =
      if host.readable f.ca
      then (if host.key_pair f.cert f.key && host.listens addr
          then started (mtls addr f)
          else fatal)
      else fatal

  -- `port` is the variable PORT of the environment.
  unfoldable pub start_apiserver : String → TlsFlags → Started Listener
  unfolding serve_tls
  start_apiserver port f =
      let addr = ":" +s+ (if str_eq port "" then "8080" else port) in
      if all_given f
      then serve_tls addr f
      else (if host.listens addr then started (insecure addr) else fatal)

  -- cmd/controller-manager and cmd/proxy: `client.New(*apiURL, *tlsCert, *tlsKey, *tlsCA)`.
  unfoldable pub start_client : String → TlsFlags → Started ApiClient
  unfolding new
  start_client api_url f = new api_url f

  -- New of internal/scheduler/scheduler.go
  unfoldable pub new_scheduler : String → Started ApiClient
  unfolding new
  new_scheduler api_url = new api_url (record { cert = ""; key = ""; ca = "" })

  -- cmd/scheduler
  unfoldable pub start_scheduler : String → Started ApiClient
  unfolding new_scheduler
  start_scheduler api_url = new_scheduler api_url

  abbrev pub with_name : String → Started ApiClient → Started (String × ApiClient)
  with_name n (started c) = started (n, c)
  with_name n fatal = fatal

  -- NewAgent of internal/kubelet/agent.go, with the name of its node
  unfoldable pub new_agent : String → String → TlsFlags → Started (String × ApiClient)
  unfolding new
  new_agent node_name api_url f = with_name node_name (new api_url f)

  -- cmd/kubelet
  unfoldable pub start_kubelet : String → String → TlsFlags → Started (String × ApiClient)
  unfolding new_agent
  start_kubelet node_name api_url f =
      new_agent (if str_eq node_name "" then host.hostname else node_name) api_url f
