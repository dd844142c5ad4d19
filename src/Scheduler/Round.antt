-- ===== src/Scheduler/Round.antt =====
-- internal/scheduler/scheduler.go: one round of the scheduler. The number parsers of strconv are
-- parameters, the second with the factor 1000 and the conversion to int64 that follow it.
use k8s_lite.Prelude.{
  String, Bool, true, false, ◌&&◌, not, Option, none, some, List, [], ◌∷◌, Map, lookup,
  if◌then◌else◌, str_eq, length, keep, get_elem?, ℤ, pos, ltb_ℤ, Exec, pure, panic, ◌>>=◌, ret, ◌≡◌,
  repeat, ℕ,
}
use Prim.Native.String.{len, slice}
use Prim.Native.Nat.{◌-◌}
use k8s_lite.Api.Pods.{Pod, Container}
use k8s_lite.Api.Nodes.{Node, NodeCondition}
use k8s_lite.Api.Stored.{Json}
use k8s_lite.Cluster.{Env, Cluster}
use k8s_lite.Client.{Reply, success, failed, list_pods, list_nodes, update_pod}

-- The value that strconv.ParseInt(s, 10, 64) returns beside its error, and int64(f * 1000) for the f
-- that strconv.ParseFloat(s, 64) returns.
pub record Numbers : Type 0 where
  pub parse_int : String → ℤ
  pub parse_milli : String → ℤ
  pub parse_milli_zero : parse_milli "0" ≡ pos 0

-- `m[k]`, which is "" for a missing key
unfoldable pub text_at : String → Map String → String
text_at k m = elim (lookup k m) [ none ↦ "" | some v ↦ v ]

first_request : List Container → String → String
first_request [] resource_name = "0"
first_request (c ∷ cs) resource_name = "0"

unfoldable pub get_request : Pod → String → String
unfolding first_request
get_request pod resource_name = first_request pod.spec.containers resource_name

has_suffix_m : String → Bool
has_suffix_m s = if str_eq s "" then false else str_eq (slice s (len s - 1) (len s)) "m"

unfoldable pub is_ready : List NodeCondition → Bool
is_ready [] = false
is_ready (cond ∷ conds) =
    if str_eq cond.type "Ready" && str_eq cond.status "True" then true else is_ready conds

module _ (numbers : Numbers) where
  unfoldable pub parse_cpu : String → ℤ
  unfolding has_suffix_m
  parse_cpu val =
      if str_eq val ""
      then pos 0
      else if has_suffix_m val
      then numbers.parse_int (slice val 0 (len val - 1))
      else numbers.parse_milli val

  unfoldable pub pod_fits_resources : Pod → Node → Bool
  unfolding is_ready text_at
  pod_fits_resources pod node =
      if not (is_ready node.status.conditions)
      then false
      else if ltb_ℤ (parse_cpu (text_at "cpu" node.status.capacity))
          (parse_cpu (get_request pod "cpu"))
      then false
      else true

  unfoldable pub feasible : Pod → List Node → List Node
  feasible pod = keep (pod_fits_resources pod)

  module _ ⦃json : Json⦄ ⦃env : Env json.Bytes⦄ where
    -- `feasible[rand.Intn(len(feasible))]`; an index past the end panics.
    chosen : Option Node → Exec Cluster String
    chosen none = panic
    chosen (some node) = pure node.name

    choose : List Node → Exec Cluster String
    unfolding chosen
    choose [] w = (ret "", w)
    choose (n ∷ ns) w = chosen (get_elem? (n ∷ ns) (env.intn w.clock (length (n ∷ ns)))) w

    unfoldable pub select_node : Pod → List Node → Exec Cluster String
    unfolding choose
    select_node pod nodes = choose (feasible pod nodes)

    unfoldable pub bind : Pod → String → Exec Cluster (Reply (Unit {0}))
    bind pod node_name =
        update_pod (record pod { spec = record pod.spec { node_name = node_name } })

    bind_if_any : Pod → String → Exec Cluster (Unit {0})
    bind_if_any pod node = if str_eq node "" then pure tt else (bind pod node >>= λ _. pure tt)

    unfoldable pub schedule_each : List Pod → List Node → Exec Cluster (Unit {0})
    unfolding bind_if_any
    schedule_each [] nodes = pure tt
    schedule_each (pod ∷ pods) nodes =
        select_node pod nodes >>= λ node. bind_if_any pod node >>= λ _. schedule_each pods nodes

    abbrev pub is_unscheduled : Pod → Bool
    is_unscheduled pod = str_eq pod.spec.node_name ""

    unfoldable pub with_nodes : List Pod → Reply (List Node) → Exec Cluster (Unit {0})
    with_nodes pods (failed e) = pure tt
    with_nodes pods (success []) = pure tt
    with_nodes pods (success (n ∷ ns)) = schedule_each pods (n ∷ ns)

    unfoldable pub with_unscheduled : List Pod → Exec Cluster (Unit {0})
    unfolding with_nodes
    with_unscheduled [] = pure tt
    with_unscheduled (p ∷ ps) = list_nodes >>= with_nodes (p ∷ ps)

    unfoldable pub with_pods : Reply (List Pod) → Exec Cluster (Unit {0})
    unfolding with_unscheduled
    with_pods (failed e) = pure tt
    with_pods (success pods) = with_unscheduled (keep is_unscheduled pods)

    unfoldable pub schedule_one_round : Exec Cluster (Unit {0})
    unfolding with_pods
    schedule_one_round = list_pods "" >>= with_pods

    -- Start, whose context is done after n ticks.
    unfoldable pub start : ℕ → Exec Cluster (Unit {0})
    unfolding repeat
    start n = repeat n schedule_one_round
