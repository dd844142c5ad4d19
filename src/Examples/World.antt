-- ===== src/Examples/World.antt =====
-- A JSON whose texts are the values themselves, a network that loses nothing, and sample objects.
use mathlib.Core.List.Perm
use k8s_lite.Prelude.{
  String, ◌≡◌, refl, ap, sym, ◌∙◌, Option, none, some, [], ◌∷◌, Map, lookup, ℤ, pos, true,
}
use k8s_lite.Api.Meta.{zero_type_meta, zero_object_meta, ObjectMeta, LabelSelector}
use k8s_lite.Api.Pods.{Pod, PodTemplateSpec, zero_pod_spec, zero_pod_status}
use k8s_lite.Api.Nodes.{Node, zero_node_spec, zero_node_status}
use k8s_lite.Api.Workloads.{ReplicaSet, Deployment, zero_replica_set_status}
use k8s_lite.Api.Leases.{Lease}
use k8s_lite.Api.Objects.{
  Kind, Obj, pods, nodes, replicasets, deployments, services, endpoints, leases,
}
use k8s_lite.Api.Stored.{Json, stored}
use k8s_lite.Storage.Memory.{MemoryStore, File}
use k8s_lite.Urls.{names}
use k8s_lite.Cluster.{Env, Cluster, fine}

pub data Text : Type 0 where
  encoded : (k : Kind) → Obj k → Text

abbrev pub read : (k : Kind) → Text → Option (Obj k)
read pods (encoded pods o) = some (stored pods o)
read nodes (encoded nodes o) = some (stored nodes o)
read replicasets (encoded replicasets o) = some (stored replicasets o)
read deployments (encoded deployments o) = some (stored deployments o)
read services (encoded services o) = some (stored services o)
read endpoints (encoded endpoints o) = some (stored endpoints o)
read leases (encoded leases o) = some (stored leases o)
read k b = none

read-encoded : (k : Kind) (o : Obj k) → read k (encoded k o) ≡ some (stored k o)
read-encoded pods o = refl
read-encoded nodes o = refl
read-encoded replicasets o = refl
read-encoded deployments o = refl
read-encoded services o = refl
read-encoded endpoints o = refl
read-encoded leases o = refl

pub read-some :
    (k : Kind) (o : Obj k) (b : Text) → some (encoded k o) ≡ some b → read k b ≡ some (stored k o)
read-some k o b h = sym (ap (λ x. elim x [ none ↦ none | some t ↦ read k t ]) h) ∙ read-encoded k o

pub same_map :
    (m n t : Map Text) (key : String)
    → some m ≡ some t
    → some t ≡ some n
    → lookup key n ≡ lookup key m
same_map m n t key h i = sym (ap (λ x. elim x [ none ↦ none | some l ↦ lookup key l ]) (h ∙ i))

instance abbrev pub plain_json : Json
plain_json = record {
  Bytes = Text;
  Blob = Map Text;
  marshal = λ k o. some (encoded k o);
  unmarshal = read;
  round_trip = read-some;
  marshal_map = λ m. some m;
  unmarshal_map = λ m. some m;
  map_round_trip = same_map;
  map_readable = λ m t h. (t, refl);
}

instance abbrev pub plain_env : Env Text
plain_env = record {
  fault = λ _. fine;
  order = λ _ m. m;
  order_perm = λ _ m. Perm.refl m;
  intn = λ _ _. 0;
  intn_lt = λ n len h. h;
  uuid = λ _. "a1b2c";
  template_hash = λ _. "0123456789abcdef";
  name_path = λ _ name. names name;
  name_path_plain = λ n name p. refl;
}

abbrev pub named : String → ObjectMeta
named n = record zero_object_meta { name = n; labels = ("app", "web") ∷ [] }

abbrev pub pod : String → Pod
pod n = record {
  type_meta = zero_type_meta;
  metadata = named n;
  spec = zero_pod_spec;
  status = zero_pod_status;
}

abbrev pub node : Node
node = record {
  type_meta = zero_type_meta;
  metadata = named "node-1";
  spec = zero_node_spec;
  status = record zero_node_status {
    conditions = record { type = "Ready"; status = "True"; last_heartbeat_time = 5 } ∷ [];
  };
}

abbrev pub web : LabelSelector
web = record { match_labels = ("app", "web") ∷ [] }

abbrev pub template : PodTemplateSpec
template = record { metadata = named ""; spec = zero_pod_spec }

abbrev pub replica_set : String → ℤ → ReplicaSet
replica_set n r = record {
  type_meta = zero_type_meta;
  metadata = record (named n) {
    annotations = ("deployment.kubernetes.io/revision", "0123456789abcdef") ∷ [];
  };
  spec = record { replicas = some r; selector = web; template = template };
  status = zero_replica_set_status;
}

abbrev pub deployment : Deployment
deployment = record {
  type_meta = zero_type_meta;
  metadata = named "web";
  spec = record {
    replicas = some (pos 2);
    selector = web;
    template = template;
    strategy = record { type = ""; rolling_update = none };
  };
  status = record {
    observed_generation = pos 0;
    replicas = pos 0;
    updated_replicas = pos 0;
    ready_replicas = pos 0;
    available_replicas = pos 0;
    unavailable_replicas = pos 0;
  };
}

abbrev pub lease : String → Lease
lease holder = record {
  type_meta = zero_type_meta;
  metadata = record zero_object_meta { name = "manager" };
  spec = record {
    holder_identity = some holder;
    lease_duration_seconds = some (pos 15);
    acquire_time = some 100;
    renew_time = some 100;
    lease_transitions = none;
  };
}

abbrev pub no_file : File (Map Text)
no_file = record { content = none; readable = true; writable = true; torn = none }

abbrev pub store_of : String → Map Text → MemoryStore Text (Map Text)
store_of path m = record {
  table = m;
  watchers = [];
  file_path = path;
  file = no_file;
  next_id = 0;
  closed = [];
}

abbrev pub cluster_of : Map Text → Cluster
cluster_of m = record { store = store_of "" m; clock = 0 }
