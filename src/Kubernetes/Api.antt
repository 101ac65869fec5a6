-- ===== src/Kubernetes/Api.antt =====
-- What internal/kubernetes/kubernetes.go reads from a cluster through client-go, which is a
-- parameter, and the records that it makes of it.
use o2_ims_worker.Prelude.{ℕ, String, Bool, Option, List}
use o2_ims_worker.Prelude.Int.{ℤ}
use o2_ims_worker.Prelude.Dict.{Dict}
use o2_ims_worker.World.{ClusterNode}

-- A value beside a nil error, or the error's text.
pub data Result {ℓ} (A : Type ℓ) : Type ℓ where
  failed : String → Result A
  given : A → Result A

-- The fields of `corev1.Node` that the code reads. A quantity is its text.
pub record CoreNode : Type 0 where
  pub name : String
  pub conditions : List (String × String)
  pub labels : Dict String
  pub addresses : List (String × String)
  pub operating_system : String
  pub kernel_version : String
  pub container_runtime : String
  pub architecture : String
  pub cpu_capacity : String
  pub memory_capacity : String
  pub cpu_allocatable : String
  pub memory_allocatable : String

-- The fields of `corev1.Pod` that the code reads, with the images of its containers.
pub record CorePod : Type 0 where
  pub name : String
  pub namespace : String
  pub phase : String
  pub node_name : String
  pub pod_ip : String
  pub images : List String

pub record NodeInfo : Type 0 where
  pub name : String
  pub status : String
  pub roles : List String
  pub os : String
  pub kernel_version : String
  pub container_runtime : String
  pub architecture : String
  pub cpu_capacity : String
  pub memory_capacity : String
  pub cpu_allocatable : String
  pub memory_allocatable : String
  pub internal_ip : String
  pub labels : Dict String

pub record PodInfo : Type 0 where
  pub name : String
  pub namespace : String
  pub status : String
  pub node : String
  pub ip : String
  pub images : List String

-- `EventInfo`, which has the fields of `corev1.Event` that the code reads, under their names.
pub record EventInfo : Type 0 where
  pub namespace : String
  pub name : String
  pub reason : String
  pub message : String
  pub count : ℤ
  pub type : String

-- The fields of `corev1.ServicePort` and `corev1.Service` that the code reads.
pub record CorePort : Type 0 where
  pub port : ℤ
  pub protocol : String

pub record CoreService : Type 0 where
  pub name : String
  pub namespace : String
  pub type : String
  pub cluster_ip : String
  pub ports : List CorePort

pub record ServiceInfo : Type 0 where
  pub name : String
  pub namespace : String
  pub type : String
  pub cluster_ip : String
  pub ports : List String

-- What a connected cluster answers: the lists of nodes, of the namespaces' names, the version, by
-- namespace the pods, the events and the services, and a node by its name.
pub record ClusterAnswers : Type 0 where
  pub nodes : Result (List CoreNode)
  pub namespaces : Result (List String)
  pub version : Result String
  pub pods : String → Result (List CorePod)
  pub events : String → Result (List EventInfo)
  pub services : String → Result (List CoreService)
  pub node : String → Result CoreNode

-- `ClusterInfo`; the code leaves `ClusterID` empty.
pub record ClusterInfo : Type 0 where
  pub cluster_id : String
  pub node_count : ℕ
  pub namespaces : List String
  pub server_version : String
  pub events : List EventInfo
  pub pods : List PodInfo
  pub nodes : List NodeInfo

pub record Cluster : Type 0 where
  pub id : String
  pub kube_config : String
  pub token : String
  pub api_endpoint : String
  pub info : Option ClusterInfo
  pub ready : Bool
  pub nodes : List ClusterNode
