-- ===== src/Examples/KubeletRuns.antt =====
-- Runs of the kubelet: internal/kubelet.
use mathlib.Core.List.{Mem, mem-cons_self, mem-cons_of_mem}
use mathlib.Core.List.Perm
use Prim.Native.Char.{code}
use mathlib.Core.Bool.{true≢false}
use k8s_lite.Prelude.{
  String, ◌+s+◌, ◌≡◌, refl, true, false, Bool, Option, none, some, List, [], ◌∷◌, if◌then◌else◌,
  str_eq, pos, ret, trim_space, is_space, IsFree, ℕ, ◌==◌, Bool-cases, inl, inr, sym, ◌∙◌,
}
use k8s_lite.Api.Pods.{Pod, Container, Probe, zero_pod_status}
use k8s_lite.Kubelet.Runtime.{
  ContainerInfo, Docker, docker_runtime, docker_get_container_ip, inspect_args, run_args, stop_args,
  parse_containers,
}
use k8s_lite.Kubelet.Runtime.Listing.{format_table, IsPlain, parse_containers-format_table}
use k8s_lite.Kubelet.Prober.{Prober}
use k8s_lite.Kubelet.Agent.{Kubelet, Walk, with_containers, reconcile_found, with_ip}
use k8s_lite.Kubelet.Agent.Restarts.{probe_decides, stop_commands}
use k8s_lite.Kubelet.Agent.CleanUp.{orphans_stopped}
use k8s_lite.Client.Progress.{IsHealthy}
use k8s_lite.Examples.World.{pod, plain_json, plain_env}
use k8s_lite.Examples.RoundRuns.{busy}

abbrev container_in : String → String → ContainerInfo
container_in name state = record {
  id = "4f5e";
  name = "k8s-lite-" +s+ (name +s+ "-web");
  image = "nginx";
  state = state;
  pod_name = name;
  pod_namespace = "";
}

abbrev listed : List ContainerInfo
listed = container_in "a" "running" ∷ container_in "gone" "running" ∷ []

-- Docker with these containers, where each command succeeds.
abbrev pub docker : Docker
docker = record {
  output = λ s c. elim c [
    | [] ↦ none
    | w ∷ _ ↦ if str_eq w "ps" then some (format_table listed) else some "172.17.0.2"
  ];
  format_int = λ n. "1";
}

-- A prober to which no container is alive.
abbrev pub nothing_alive : Prober (Unit {0})
nothing_alive pod c p s = (ret (some false), s)

abbrev pub in_order : Walk
in_order = record { walk = λ m. m; walk_perm = λ m. Perm.refl m }

abbrev pub host : Kubelet (docker_runtime docker) nothing_alive
host = record { cluster = busy; engine = []; attempts = tt }

abbrev liveness : Probe
liveness = record {
  http_get = none;
  tcp_socket = none;
  initial_delay_seconds = pos 0;
  period_seconds = pos 10;
}

abbrev container : Option Probe → Container
container p = record {
  name = "web";
  image = "nginx";
  command = [];
  args = [];
  ports = [];
  resources = record { requests = []; limits = [] };
  liveness_probe = p;
  readiness_probe = none;
}

abbrev is_free : ℕ → String → Bool
is_free sep String.[] = true
is_free sep (String.◌∷◌ c s) = if code c == sep then false else is_free sep s

IsFree-is_free : (sep : ℕ) (s : String) → is_free sep s ≡ true → IsFree sep s
IsFree-is_free sep String.[] e = tt
IsFree-is_free sep (String.◌∷◌ c s) e = elim (Bool-cases (code c == sep)) [
  | inl q ↦ absurd (true≢false (sym e ∙ rw q refl))
  | inr q ↦ (q, IsFree-is_free sep s (sym (rw q refl) ∙ e))
]

running-IsPlain :
    (name : String)
    → str_eq name "" ≡ false
    → is_free b'|' name ≡ true
    → is_free b'\n' name ≡ true
    → is_free b'|' ("k8s-lite-" +s+ (name +s+ "-web")) ≡ true
    → is_free b'\n' ("k8s-lite-" +s+ (name +s+ "-web")) ≡ true
    → IsPlain (container_in name "running")
running-IsPlain name e a b c d = record {
  labelled = e;
  no_bar = (
    IsFree-is_free b'|' "4f5e" refl,
    IsFree-is_free b'|' ("k8s-lite-" +s+ (name +s+ "-web")) c,
    IsFree-is_free b'|' "nginx" refl,
    IsFree-is_free b'|' "running" refl,
    IsFree-is_free b'|' name a,
    IsFree-is_free b'|' "" refl,
  );
  one_line = (
    IsFree-is_free b'\n' "4f5e" refl,
    IsFree-is_free b'\n' ("k8s-lite-" +s+ (name +s+ "-web")) d,
    IsFree-is_free b'\n' "nginx" refl,
    IsFree-is_free b'\n' "running" refl,
    IsFree-is_free b'\n' name b,
    IsFree-is_free b'\n' "" refl,
  );
}

parse_containers-format_table_example : parse_containers (format_table listed) ≡ listed
parse_containers-format_table_example = parse_containers-format_table listed (
  running-IsPlain "a" refl refl refl refl refl,
  (running-IsPlain "gone" refl refl refl refl refl, tt),
)

address_known : (docker_get_container_ip docker "4f5e" []).0 ≡ ret (some "172.17.0.2")
unfolding docker_get_container_ip trim_space is_space
address_known = refl

probe_decides_example :
    (reconcile_found
      (docker_runtime docker)
      nothing_alive
      (pod "a")
      (container (some liveness))
      (container_in "a" "running")
      host).1.engine
    ≡ run_args (with_ip (some "172.17.0.2") (pod "a")) (container (some liveness))
      ∷ stop_commands docker nothing_alive "4f5e" (inspect_args "4f5e" ∷ [])
probe_decides_example =
    probe_decides docker nothing_alive (pod "a") (container (some liveness))
      (container_in "a" "running") liveness host (some "172.17.0.2") false refl refl address_known
      refl

abbrev mine : List Pod
mine = record (pod "a") { status = record zero_pod_status { phase = "Running" } } ∷ []

busy-IsHealthy : IsHealthy busy
busy-IsHealthy = record {
  reliable = λ n. refl;
  encodes = λ k o e. cc;
  no_file = refl;
  no_watcher = refl;
}

orphans_stopped_example :
    ((with_containers
        (docker_runtime docker)
        nothing_alive
        in_order
        "node-1"
        mine
        (some listed)
        host).0
      ≡ ret tt)
    × Mem
        (stop_args docker "4f5e" (pos 0))
        (with_containers
          (docker_runtime docker)
          nothing_alive
          in_order
          "node-1"
          mine
          (some listed)
          host).1.engine
orphans_stopped_example =
    orphans_stopped docker nothing_alive in_order "node-1" mine listed
      (container_in "gone" "running") host (λ pod spec p s. (some false, refl)) busy-IsHealthy
      (mem-cons_of_mem _ mem-cons_self) refl (refl, tt)
