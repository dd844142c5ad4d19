-- ===== src/Kubelet/Runtime.antt =====
-- internal/kubelet/runtime.go: the interface Runtime and DockerRuntime. What `docker` answers to a
-- command line is a parameter, which may depend on all commands before it; the state is these
-- commands, the last one first.
pub mod Listing
use k8s_lite.Prelude.{
  ℕ, String, ◌+s+◌, Bool, true, false, Option, none, some, List, [], ◌∷◌, ◌++◌, if◌then◌else◌,
  str_eq, split, trim_space, ℤ, pos, ltb_ℤ, Exec, pure, ◌>>=◌, ret, continue,
}
use k8s_lite.Api.Pods.{Pod, Container}

pub record ContainerInfo : Type 0 where
  pub id : String
  pub name : String
  pub image : String
  pub state : String
  pub pod_name : String
  pub pod_namespace : String

-- An action that may return an error: `none`.
pub record Runtime (S : Type 0) : Type 0 where
  pub run_container : Pod → Container → Exec S (Option String)
  pub stop_container : String → ℤ → Exec S (Option (Unit {0}))
  pub list_containers : Exec S (Option (List ContainerInfo))
  pub get_container_ip : String → Exec S (Option String)

-- The arguments of one call of `docker`.
abbrev pub Command : Type 0
Command = List String

pub record Docker : Type 0 where
  -- `CombinedOutput`, or `none` if the command fails
  pub output : List Command → Command → Option String
  -- `fmt.Sprintf("%d", n)`
  pub format_int : ℤ → String

unfoldable pub container_name : Pod → Container → String
container_name pod c = "k8s-lite-" +s+ (pod.name +s+ ("-" +s+ c.name))

unfoldable pub run_args : Pod → Container → Command
run_args pod c =
    "run"
    ∷ "-d"
    ∷ "--name"
    ∷ container_name pod c
    ∷ "--label"
    ∷ ("k8s.pod.name=" +s+ pod.name)
    ∷ "--label"
    ∷ ("k8s.pod.namespace=" +s+ pod.namespace)
    ∷ c.image
    ∷ c.command

abbrev pub ps_args : Command
ps_args =
    "ps" ∷ "-a" ∷ "--format"
    ∷ "{{.ID}}|{{.Names}}|{{.Image}}|{{.State}}|{{.Label \"k8s.pod.name\"}}|{{.Label \"k8s.pod.namespace\"}}"
    ∷ []

abbrev pub inspect_args : String → Command
inspect_args id =
    "inspect" ∷ "-f" ∷ "{{range .NetworkSettings.Networks}}{{.IPAddress}}{{end}}" ∷ id ∷ []

-- The parts of one line of `docker ps`; more than six are cut.
container_of : List String → Option ContainerInfo
container_of (id ∷ name ∷ image ∷ state ∷ pod_name ∷ pod_namespace ∷ _) =
    if str_eq pod_name ""
    then none
    else some (record {
      id = id;
      name = name;
      image = image;
      state = state;
      pod_name = pod_name;
      pod_namespace = pod_namespace;
    })
container_of parts = none

unfoldable pub parse_line : String → Option ContainerInfo
unfolding container_of
parse_line line = if str_eq (trim_space line) "" then none else container_of (split b'|' line)

unfoldable pub parse_lines : List String → List ContainerInfo
parse_lines [] = []
parse_lines (line ∷ lines) = elim (parse_line line) [
  | none ↦ parse_lines lines
  | some c ↦ c ∷ parse_lines lines
]

unfoldable pub parse_containers : String → List ContainerInfo
parse_containers out = parse_lines (split b'\n' out)

module _ (docker : Docker) where
  unfoldable pub run_docker : Command → Exec (List Command) (Option String)
  run_docker args s = (ret (docker.output s args), args ∷ s)

  trimmed : Option String → Option String
  trimmed none = none
  trimmed (some out) = some (trim_space out)

  unfoldable pub stop_args : String → ℤ → Command
  stop_args id timeout_seconds =
      "stop"
      ∷ (if ltb_ℤ (pos 0) timeout_seconds
          then "-t" ∷ docker.format_int timeout_seconds ∷ id ∷ []
          else id ∷ [])

  -- What follows `docker stop`; whether `docker rm` succeeds is not looked at.
  after_stop : String → Option String → Exec (List Command) (Option (Unit {0}))
  after_stop id none = pure none
  after_stop id (some _) = run_docker ("rm" ∷ id ∷ []) >>= λ _. pure (some tt)

  listed : Option String → Option (List ContainerInfo)
  listed none = none
  listed (some out) = some (parse_containers out)

  unfoldable pub docker_run_container : Pod → Container → Exec (List Command) (Option String)
  unfolding run_docker trimmed
  docker_run_container pod c = run_docker (run_args pod c) >>= λ out. pure (trimmed out)

  unfoldable pub docker_stop_container : String → ℤ → Exec (List Command) (Option (Unit {0}))
  unfolding run_docker after_stop
  docker_stop_container id timeout_seconds =
      run_docker (stop_args id timeout_seconds) >>= after_stop id

  unfoldable pub docker_list_containers : Exec (List Command) (Option (List ContainerInfo))
  unfolding run_docker listed
  docker_list_containers = run_docker ps_args >>= λ out. pure (listed out)

  unfoldable pub docker_get_container_ip : String → Exec (List Command) (Option String)
  unfolding run_docker trimmed
  docker_get_container_ip id = run_docker (inspect_args id) >>= λ out. pure (trimmed out)

  abbrev pub docker_runtime : Runtime (List Command)
  docker_runtime = record {
    run_container = docker_run_container;
    stop_container = docker_stop_container;
    list_containers = docker_list_containers;
    get_container_ip = docker_get_container_ip;
  }
