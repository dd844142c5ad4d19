-- ===== src/Api/Nodes.antt =====
-- internal/api/types.go: Node and what it is made of.
use k8s_lite.Prelude.{String, Bool, List, [], false}
use k8s_lite.Api.Meta.{Time, TypeMeta, ObjectMeta, ListMeta}
use k8s_lite.Api.Pods.{ResourceList}

pub record NodeSpec : Type 0 where
  pub unschedulable : Bool
  pub pod_cidr : String

pub record NodeCondition : Type 0 where
  pub type : String
  pub status : String
  pub last_heartbeat_time : Time

pub record NodeAddress : Type 0 where
  pub type : String
  pub address : String

pub record NodeSystemInfo : Type 0 where
  pub machine_id : String
  pub system_uuid : String
  pub boot_id : String
  pub kernel_version : String
  pub os_image : String
  pub container_runtime_version : String
  pub kubelet_version : String
  pub operating_system : String
  pub architecture : String

pub record NodeStatus : Type 0 where
  pub capacity : ResourceList
  pub allocatable : ResourceList
  pub conditions : List NodeCondition
  pub addresses : List NodeAddress
  pub node_info : NodeSystemInfo

pub record Node : Type 0 where
  pub type_meta : TypeMeta
  pub metadata : ObjectMeta
  pub open metadata use *
  pub spec : NodeSpec
  pub status : NodeStatus

pub record NodeList : Type 0 where
  pub type_meta : TypeMeta
  pub list_meta : ListMeta
  pub items : List Node

abbrev pub zero_node_spec : NodeSpec
zero_node_spec = record { unschedulable = false; pod_cidr = "" }

abbrev pub zero_node_system_info : NodeSystemInfo
zero_node_system_info = record {
  machine_id = "";
  system_uuid = "";
  boot_id = "";
  kernel_version = "";
  os_image = "";
  container_runtime_version = "";
  kubelet_version = "";
  operating_system = "";
  architecture = "";
}

abbrev pub zero_node_status : NodeStatus
zero_node_status = record {
  capacity = [];
  allocatable = [];
  conditions = [];
  addresses = [];
  node_info = zero_node_system_info;
}
