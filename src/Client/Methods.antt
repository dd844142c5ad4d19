-- ===== src/Client/Methods.antt =====
-- internal/client/client.go. The methods of one verb differ in the path and the Go type alone, which
-- the kind stands for.
use k8s_lite.Prelude.{
  ℕ, String, ◌||◌, Option, none, some, List, [], ◌∷◌, if◌then◌else◌, ◌==◌, Exec, pure, ◌>>=◌, ret,
}
use k8s_lite.Api.Pods.{Pod}
use k8s_lite.Api.Nodes.{Node}
use k8s_lite.Api.Workloads.{ReplicaSet, Deployment}
use k8s_lite.Api.Services.{Service, Endpoints}
use k8s_lite.Api.Leases.{Lease}
use k8s_lite.Api.Objects.{
  Kind, Obj, get_object_meta, pods, nodes, replicasets, deployments, services, endpoints, leases,
}
use k8s_lite.Api.Stored.{Json}
use k8s_lite.ApiServer
use k8s_lite.ApiServer.{Body, Response, get_list, post, put}
use k8s_lite.Cluster.{Env, Cluster, send, by_name}

-- The errors of net/http, of encoding/json, and of an unexpected status; and of the callers.
pub data ClientError : Type 0 where
  transport encode_failed decode_failed : ClientError
  api_failed : ℕ → ClientError
  lease_held : String → ClientError

pub data Reply {ℓ} (A : Type ℓ) : Type ℓ where
  success : A → Reply A
  failed : ClientError → Reply A

module _ ⦃json : Json⦄ where
  -- An object written by the server and read by the client.
  unfoldable pub wire : (j k : Kind) → Obj j → Option (Obj k)
  wire j k o = elim (json.marshal j o) [ none ↦ none | some b ↦ json.unmarshal k b ]

  cons_item : (k : Kind) → Option (Obj k) → Reply (List (Obj k)) → Reply (List (Obj k))
  cons_item k none r = failed decode_failed
  cons_item k (some o) (success os) = success (o ∷ os)
  cons_item k (some o) (failed e) = failed e

  unfoldable pub wire_all : (j k : Kind) → List (Obj j) → Reply (List (Obj k))
  unfolding cons_item
  wire_all j k [] = success []
  wire_all j k (o ∷ os) = cons_item k (wire j k o) (wire_all j k os)

  decode_items : (k : Kind) → Body → Reply (List (Obj k))
  decode_items k (ApiServer.objects j os) = wire_all j k os
  decode_items k _ = failed decode_failed

  decode_item : (k : Kind) → Option (Obj k) → Reply (Option (Obj k))
  decode_item k none = failed decode_failed
  decode_item k (some o) = success (some o)

  decode_object : (k : Kind) → Body → Reply (Option (Obj k))
  unfolding decode_item
  decode_object k (ApiServer.object j o) = decode_item k (wire j k o)
  decode_object k _ = failed decode_failed

  unfoldable pub list_reply : (k : Kind) → Option Response → Reply (List (Obj k))
  unfolding decode_items
  list_reply k none = failed transport
  list_reply k (some a) =
      if a.status == 200 then decode_items k a.body else failed (api_failed a.status)

  -- A 404 is no error.
  unfoldable pub get_reply : (k : Kind) → Option Response → Reply (Option (Obj k))
  unfolding decode_object
  get_reply k none = failed transport
  get_reply k (some a) =
      if a.status == 200
      then decode_object k a.body
      else if a.status == 404
      then success none
      else failed (api_failed a.status)

  unfoldable pub create_reply : Option Response → Reply (Unit {0})
  create_reply none = failed transport
  create_reply (some a) =
      if a.status == 201 || a.status == 200 then success tt else failed (api_failed a.status)

  unfoldable pub update_reply : Option Response → Reply (Unit {0})
  update_reply none = failed transport
  update_reply (some a) = if a.status == 200 then success tt else failed (api_failed a.status)

  unfoldable pub delete_reply : Option Response → Reply (Unit {0})
  delete_reply none = failed transport
  delete_reply (some a) =
      if a.status == 200 || a.status == 204
      then success tt
      else if a.status == 404
      then success tt
      else failed (api_failed a.status)

  unfoldable pub register_reply : Option Response → Reply (Unit {0})
  register_reply none = failed transport
  register_reply (some a) =
      if a.status == 409
      then success tt
      else if a.status == 201 || a.status == 200
      then success tt
      else failed (api_failed a.status)

module _ ⦃json : Json⦄ ⦃env : Env json.Bytes⦄ where
  unfoldable pub list : (k : Kind) → Exec Cluster (Reply (List (Obj k)))
  list k = send (get_list k) >>= λ a. pure (list_reply k a)

  unfoldable pub get : (k : Kind) → String → Exec Cluster (Reply (Option (Obj k)))
  get k name = send (ApiServer.get k name) >>= λ a. pure (get_reply k a)

  post_encoded :
      (Option Response → Reply (Unit {0}))
      → Kind
      → Option json.Bytes
      → Exec Cluster (Reply (Unit {0}))
  post_encoded reply k none w = (ret (failed encode_failed), w)
  post_encoded reply k (some body) w = (send (post k body) >>= λ a. pure (reply a)) w

  unfoldable pub create : (k : Kind) → Obj k → Exec Cluster (Reply (Unit {0}))
  unfolding post_encoded
  create k obj = post_encoded create_reply k (json.marshal k obj)

  unfoldable pub put_encoded :
      (k : Kind) → String → Option json.Bytes → Exec Cluster (Reply (Unit {0}))
  put_encoded k name none w = (ret (failed encode_failed), w)
  put_encoded k name (some body) w = (send (put k name body) >>= λ a. pure (update_reply a)) w

  unfoldable pub update : (k : Kind) → Obj k → Exec Cluster (Reply (Unit {0}))
  unfolding put_encoded
  update k obj = put_encoded k (get_object_meta k obj).name (json.marshal k obj)

  -- The same with a name that need not be a plain part of a path.
  unfoldable pub get_by_name : (k : Kind) → String → Exec Cluster (Reply (Option (Obj k)))
  get_by_name k name = by_name (get_reply k) name (get k)

  unfoldable pub put_by_name :
      (k : Kind) → String → Option json.Bytes → Exec Cluster (Reply (Unit {0}))
  put_by_name k name none w = (ret (failed encode_failed), w)
  put_by_name k name (some body) w = by_name update_reply name (λ n. put_encoded k n (some body)) w

  unfoldable pub update_by_name : (k : Kind) → Obj k → Exec Cluster (Reply (Unit {0}))
  unfolding put_by_name
  update_by_name k obj = put_by_name k (get_object_meta k obj).name (json.marshal k obj)

  unfoldable pub delete : (k : Kind) → String → Exec Cluster (Reply (Unit {0}))
  delete k name = send (ApiServer.delete k name) >>= λ a. pure (delete_reply a)

  -- The methods, by the names of the source. ListPods ignores its nodeName.
  unfoldable pub list_pods : String → Exec Cluster (Reply (List Pod))
  list_pods node_name = list pods

  unfoldable pub update_pod : Pod → Exec Cluster (Reply (Unit {0}))
  update_pod pod = update_by_name pods pod

  unfoldable pub update_pod_status : Pod → Exec Cluster (Reply (Unit {0}))
  unfolding update_pod
  update_pod_status pod = update_pod pod

  unfoldable pub create_pod : Pod → Exec Cluster (Reply (Unit {0}))
  create_pod pod = create pods pod

  unfoldable pub delete_pod : String → Exec Cluster (Reply (Unit {0}))
  delete_pod name = by_name delete_reply name (delete pods)

  unfoldable pub register_node : Node → Exec Cluster (Reply (Unit {0}))
  unfolding post_encoded
  register_node node = post_encoded register_reply nodes (json.marshal nodes node)

  unfoldable pub list_nodes : Exec Cluster (Reply (List Node))
  list_nodes = list nodes

  unfoldable pub list_replica_sets : Exec Cluster (Reply (List ReplicaSet))
  list_replica_sets = list replicasets

  unfoldable pub create_replica_set : ReplicaSet → Exec Cluster (Reply (Unit {0}))
  create_replica_set rs = create replicasets rs

  unfoldable pub update_replica_set : ReplicaSet → Exec Cluster (Reply (Unit {0}))
  update_replica_set rs = update_by_name replicasets rs

  unfoldable pub list_deployments : Exec Cluster (Reply (List Deployment))
  list_deployments = list deployments

  unfoldable pub update_deployment : Deployment → Exec Cluster (Reply (Unit {0}))
  update_deployment deploy = update_by_name deployments deploy

  unfoldable pub create_deployment : Deployment → Exec Cluster (Reply (Unit {0}))
  create_deployment deploy = create deployments deploy

  unfoldable pub list_services : Exec Cluster (Reply (List Service))
  list_services = list services

  unfoldable pub create_service : Service → Exec Cluster (Reply (Unit {0}))
  create_service svc = create services svc

  unfoldable pub get_endpoints : String → Exec Cluster (Reply (Option Endpoints))
  get_endpoints name = get_by_name endpoints name

  unfoldable pub create_endpoints : Endpoints → Exec Cluster (Reply (Unit {0}))
  create_endpoints ep = create endpoints ep

  unfoldable pub update_endpoints : Endpoints → Exec Cluster (Reply (Unit {0}))
  update_endpoints ep = update_by_name endpoints ep

  -- The name of a lease is a constant of the commands, of plain characters.
  unfoldable pub get_lease : String → Exec Cluster (Reply (Option Lease))
  get_lease name = get leases name

  unfoldable pub create_lease : Lease → Exec Cluster (Reply (Unit {0}))
  create_lease lease = create leases lease

  unfoldable pub update_lease : Lease → Exec Cluster (Reply (Unit {0}))
  update_lease lease = update leases lease
