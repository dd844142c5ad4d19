-- ===== src/Cluster.antt =====
-- The world that the components share: the API server's store behind an unreliable network. What the
-- program does not compute itself (failing requests, the order of a map, random choices, hashes) is
-- the record Env, read at the count of the requests sent so far.
use mathlib.Core.List.{Perm}
use k8s_lite.Prelude.{
  ℕ, suc, ◌<◌, ◌≡◌, String, Option, none, some, Map, Flow, ret, blocked, panicked, Exec,
}
use k8s_lite.Api.Pods.{PodTemplateSpec}
use k8s_lite.Api.Stored.{Json}
use k8s_lite.Storage.Memory.{MemoryStore}
use k8s_lite.ApiServer.{Request, Response, serve, no_cause, render_error, err_internal}
use k8s_lite.Urls.{NamePath, bad_url, elsewhere, names, IsPlainName}

-- What happens to one request on its way: it arrives and is answered, it is lost, or its answer is.
pub data Fault : Type 0 where
  fine lost_request lost_answer : Fault

pub record Env (Bytes : Type 0) : Type 1 where
  pub fault : ℕ → Fault
  -- the order in which `range` walks the store's map
  pub order : ℕ → Map Bytes → Map Bytes
  pub order_perm : (n : ℕ) (m : Map Bytes) → Perm (order n m) m
  -- `rand.Intn(len)`
  pub intn : ℕ → ℕ → ℕ
  pub intn_lt : (n len : ℕ) → 0 < len → intn n len < len
  -- `uuid.New().String()[:5]`
  pub uuid : ℕ → String
  -- `hex(sha256(json(template)))`
  pub template_hash : PodTemplateSpec → String
  -- where a request leads whose URL ends in a name
  pub name_path : ℕ → String → NamePath
  pub name_path_plain : (n : ℕ) (name : String) → IsPlainName name → name_path n name ≡ names name

pub record World (Bytes Blob : Type 0) : Type 0 where
  pub store : MemoryStore Bytes Blob
  pub clock : ℕ

module _ ⦃json : Json⦄ ⦃env : Env json.Bytes⦄ where
  abbrev pub Cluster : Type 0
  Cluster = World json.Bytes json.Blob

  -- The answer that a handler's run gives; chi's Recoverer turns a panic into a 500.
  answer : Flow Response → Flow (Option Response)
  answer (ret a) = ret (some a)
  answer blocked = blocked
  answer panicked = ret (some (render_error (err_internal no_cause)))

  lose : Flow (Option Response) → Flow (Option Response)
  lose (ret _) = ret none
  lose blocked = blocked
  lose panicked = panicked

  arrive : Request json.Bytes → Cluster → Flow (Option Response) × Cluster
  unfolding answer
  arrive r w =
      let (a, s) = serve (env.order w.clock) r w.store in
      (answer a, record w { store = s; clock = suc w.clock })

  -- `c.HTTP.Do(req)`; `none` is its error.
  unfoldable pub send : Request json.Bytes → Exec Cluster (Option Response)
  unfolding arrive lose
  send r w = elim (env.fault w.clock) [
    | fine ↦ arrive r w
    | lost_request ↦ (ret none, record w { clock = suc w.clock })
    | lost_answer ↦ (lose (arrive r w).0, (arrive r w).1)
  ]

  unfoldable pub received : Response → Fault → Option Response
  received a fine = some a
  received a lost_request = none
  received a lost_answer = none

  -- A request whose URL ends in a name, which NewRequest may refuse, and what is made of its answer.
  unfoldable pub follow :
      {A : Type 0} → (Option Response → A) → (String → Exec Cluster A) → NamePath → Exec Cluster A
  follow reply f bad_url w = (ret (reply none), w)
  follow reply f (elsewhere a) w =
      (ret (reply (received a (env.fault w.clock))), record w { clock = suc w.clock })
  follow reply f (names n) w = f n w

  unfoldable pub by_name :
      {A : Type 0} → (Option Response → A) → String → (String → Exec Cluster A) → Exec Cluster A
  unfolding follow
  by_name reply name f w = follow reply f (env.name_path w.clock name) w
