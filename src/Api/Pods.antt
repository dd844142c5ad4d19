-- ===== src/Api/Pods.antt =====
-- internal/api/types.go: Pod and what it is made of.
use k8s_lite.Prelude.{String, Option, Bool, List, [], Map, ℤ}
use k8s_lite.Api.Meta.{Time, TypeMeta, ObjectMeta, ListMeta}
use k8s_lite.Api.Port.{IntOrString}

pub record ContainerPort : Type 0 where
  pub name : String
  pub container_port : ℤ
  pub protocol : String

abbrev pub ResourceList : Type 0
ResourceList = Map String

pub record ResourceRequirements : Type 0 where
  pub requests : ResourceList
  pub limits : ResourceList

pub record HttpGetAction : Type 0 where
  pub path : String
  pub port : IntOrString

pub record TcpSocketAction : Type 0 where
  pub port : IntOrString

pub record Probe : Type 0 where
  pub http_get : Option HttpGetAction
  pub tcp_socket : Option TcpSocketAction
  pub initial_delay_seconds : ℤ
  pub period_seconds : ℤ

pub record Container : Type 0 where
  pub name : String
  pub image : String
  pub command : List String
  pub args : List String
  pub ports : List ContainerPort
  pub resources : ResourceRequirements
  pub liveness_probe : Option Probe
  pub readiness_probe : Option Probe

pub record PodSpec : Type 0 where
  pub containers : List Container
  pub node_name : String
  pub restart_policy : String

pub record PodCondition : Type 0 where
  pub type : String
  pub status : String

pub record ContainerStateRunning : Type 0 where
  pub started_at : Time

pub record ContainerStateTerminated : Type 0 where
  pub exit_code : ℤ
  pub reason : String
  pub message : String
  pub started_at : Time
  pub finished_at : Time

pub record ContainerStateWaiting : Type 0 where
  pub reason : String
  pub message : String

pub record ContainerState : Type 0 where
  pub running : Option ContainerStateRunning
  pub terminated : Option ContainerStateTerminated
  pub waiting : Option ContainerStateWaiting

pub record ContainerStatus : Type 0 where
  pub name : String
  pub state : ContainerState
  pub ready : Bool
  pub restart_count : ℤ
  pub image : String
  pub container_id : String

pub record PodStatus : Type 0 where
  pub phase : String
  pub conditions : List PodCondition
  pub host_ip : String
  pub pod_ip : String
  pub container_statuses : List ContainerStatus

pub record Pod : Type 0 where
  pub type_meta : TypeMeta
  pub metadata : ObjectMeta
  pub open metadata use *
  pub spec : PodSpec
  pub status : PodStatus

pub record PodTemplateSpec : Type 0 where
  pub metadata : ObjectMeta
  pub open metadata use *
  pub spec : PodSpec

pub record PodList : Type 0 where
  pub type_meta : TypeMeta
  pub list_meta : ListMeta
  pub items : List Pod

abbrev pub zero_pod_spec : PodSpec
zero_pod_spec = record { containers = []; node_name = ""; restart_policy = "" }

abbrev pub zero_pod_status : PodStatus
zero_pod_status = record {
  phase = "";
  conditions = [];
  host_ip = "";
  pod_ip = "";
  container_statuses = [];
}
