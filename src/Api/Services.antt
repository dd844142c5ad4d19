-- ===== src/Api/Services.antt =====
-- internal/api/types.go: Service and Endpoints. The slices of Endpoints are compared by
-- `reflect.DeepEqual`, which tells a nil slice from an empty one, so here a slice is an `Option`.
use k8s_lite.Prelude.{String, Option, none, some, List, [], Map, ℤ}
use k8s_lite.Api.Meta.{TypeMeta, ObjectMeta, ListMeta}
use k8s_lite.Api.Port.{IntOrString}

pub record ServicePort : Type 0 where
  pub name : String
  pub protocol : String
  pub port : ℤ
  pub target_port : IntOrString
  pub node_port : ℤ

pub record ServiceSpec : Type 0 where
  pub selector : Map String
  pub ports : List ServicePort
  pub type : String
  pub cluster_ip : String

pub record LoadBalancerIngress : Type 0 where
  pub ip : String
  pub hostname : String

pub record LoadBalancerStatus : Type 0 where
  pub ingress : List LoadBalancerIngress

pub record ServiceStatus : Type 0 where
  pub load_balancer : LoadBalancerStatus

pub record Service : Type 0 where
  pub type_meta : TypeMeta
  pub metadata : ObjectMeta
  pub open metadata use *
  pub spec : ServiceSpec
  pub status : ServiceStatus

pub record ServiceList : Type 0 where
  pub type_meta : TypeMeta
  pub list_meta : ListMeta
  pub items : List Service

-- A slice that may be nil.
abbrev pub Slice : Type 0 → Type 0
Slice A = Option (List A)

-- The items that `range` and `len` see.
abbrev pub slice_items : {A : Type 0} → Slice A → List A
slice_items none = []
slice_items (some xs) = xs

pub record EndpointAddress : Type 0 where
  pub ip : String
  pub node_name : String

pub record EndpointPort : Type 0 where
  pub name : String
  pub port : ℤ
  pub protocol : String

pub record EndpointSubset : Type 0 where
  pub addresses : Slice EndpointAddress
  pub ports : Slice EndpointPort

pub record Endpoints : Type 0 where
  pub type_meta : TypeMeta
  pub metadata : ObjectMeta
  pub open metadata use *
  pub subsets : Slice EndpointSubset

pub record EndpointsList : Type 0 where
  pub type_meta : TypeMeta
  pub list_meta : ListMeta
  pub items : List Endpoints
