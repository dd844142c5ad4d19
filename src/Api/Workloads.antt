-- ===== src/Api/Workloads.antt =====
-- internal/api/types.go: ReplicaSet and Deployment.
use k8s_lite.Prelude.{String, Option, List, ℤ, pos}
use k8s_lite.Api.Meta.{TypeMeta, ObjectMeta, ListMeta, LabelSelector}
use k8s_lite.Api.Port.{IntOrString}
use k8s_lite.Api.Pods.{PodTemplateSpec}

pub record ReplicaSetSpec : Type 0 where
  pub replicas : Option ℤ
  pub selector : LabelSelector
  pub template : PodTemplateSpec

pub record ReplicaSetStatus : Type 0 where
  pub replicas : ℤ
  pub fully_labeled_replicas : ℤ
  pub ready_replicas : ℤ
  pub available_replicas : ℤ

pub record ReplicaSet : Type 0 where
  pub type_meta : TypeMeta
  pub metadata : ObjectMeta
  pub open metadata use *
  pub spec : ReplicaSetSpec
  pub status : ReplicaSetStatus

pub record ReplicaSetList : Type 0 where
  pub type_meta : TypeMeta
  pub list_meta : ListMeta
  pub items : List ReplicaSet

pub record RollingUpdateDeployment : Type 0 where
  pub max_unavailable : Option IntOrString
  pub max_surge : Option IntOrString

pub record DeploymentStrategy : Type 0 where
  pub type : String
  pub rolling_update : Option RollingUpdateDeployment

pub record DeploymentSpec : Type 0 where
  pub replicas : Option ℤ
  pub selector : LabelSelector
  pub template : PodTemplateSpec
  pub strategy : DeploymentStrategy

pub record DeploymentStatus : Type 0 where
  pub observed_generation : ℤ
  pub replicas : ℤ
  pub updated_replicas : ℤ
  pub ready_replicas : ℤ
  pub available_replicas : ℤ
  pub unavailable_replicas : ℤ

pub record Deployment : Type 0 where
  pub type_meta : TypeMeta
  pub metadata : ObjectMeta
  pub open metadata use *
  pub spec : DeploymentSpec
  pub status : DeploymentStatus

pub record DeploymentList : Type 0 where
  pub type_meta : TypeMeta
  pub items : List Deployment

abbrev pub zero_replica_set_status : ReplicaSetStatus
zero_replica_set_status = record {
  replicas = pos 0;
  fully_labeled_replicas = pos 0;
  ready_replicas = pos 0;
  available_replicas = pos 0;
}
