-- ===== src/Api/Objects.antt =====
-- The kinds of resource that internal/apiserver/server.go routes, the Go type that each `switch
-- resource` decodes into, and the keys of the registry.
use k8s_lite.Prelude.{String}
use k8s_lite.Api.Meta.{ObjectMeta}
use k8s_lite.Api.Pods.{Pod}
use k8s_lite.Api.Nodes.{Node}
use k8s_lite.Api.Workloads.{ReplicaSet, Deployment}
use k8s_lite.Api.Services.{Service, Endpoints}
use k8s_lite.Api.Leases.{Lease}

pub data Kind : Type 0 where
  pods nodes replicasets deployments services endpoints leases : Kind

pub Kind-discrete : Discrete Kind
Kind-discrete = hlevel

-- `var obj interface{}; switch resource { … }`
abbrev pub Obj : Kind → Type 0
Obj pods = Pod
Obj nodes = Node
Obj replicasets = ReplicaSet
Obj deployments = Deployment
Obj services = Service
Obj endpoints = Endpoints
Obj leases = Lease

-- The names under which `routes` registers them.
abbrev pub resource : Kind → String
resource pods = "pods"
resource nodes = "nodes"
resource replicasets = "replicasets"
resource deployments = "deployments"
resource services = "services"
resource endpoints = "endpoints"
resource leases = "leases"

unfoldable pub get_object_meta : (k : Kind) → Obj k → ObjectMeta
get_object_meta pods v = v.metadata
get_object_meta nodes v = v.metadata
get_object_meta replicasets v = v.metadata
get_object_meta deployments v = v.metadata
get_object_meta services v = v.metadata
get_object_meta endpoints v = v.metadata
get_object_meta leases v = v.metadata
