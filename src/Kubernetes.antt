-- ===== src/Kubernetes.antt =====
-- internal/kubernetes/kubernetes.go: the table of clusters, and what is fetched from each of them.
mod Api
pub mod Table
pub mod Nodes
pub mod Endpoint
pub mod Services
pub mod Order
pub use Api.*
use o2_ims_worker.Prelude.{
  ℕ, String, ◌<>◌, ◌==◌, ◌&&◌, Bool, true, false, Option, none, some, List, [], ◌∷◌, ◌++◌, map,
  if◌then◌else◌,
}
use o2_ims_worker.Prelude.Lists.{any, length}
use o2_ims_worker.Prelude.Dict.{Dict, insert}
use o2_ims_worker.Prelude.Exec.{Exec, pure, panic}
use o2_ims_worker.World.{ClusterNode}
use o2_ims_worker.Inventory.{mac_as_id}
use o2_ims_worker.Strconv.{itoa}

-- `PtrClusterMap`, `none` where it is nil.
abbrev pub Kube : Type 0 → Type 0
Kube = Exec (Option (Dict Cluster))

-- `&Cluster{ID: id, Nodes: *nodes, KubeConfig: …}`
abbrev pub new_cluster : (id kube_config : String) → List ClusterNode → Cluster
new_cluster id kube_config nodes = record {
  id = id;
  kube_config = kube_config;
  token = "";
  api_endpoint = "";
  info = none;
  ready = false;
  nodes = nodes;
}

abbrev pub file_pattern : ClusterNode → String
file_pattern n = "kubeconfig-" <> mac_as_id n.node <> ".yaml"

-- The loop of `InitCluster`. `join` is `filepath.Join(cwd, "assets", "ansible", ·)`.
unfoldable pub init_nodes :
    (join : String → String) (id : String)
    → (all nodes : List ClusterNode) → Dict Cluster
    → Dict Cluster
init_nodes join id all [] table = table
init_nodes join id all (n ∷ nodes) table = init_nodes join id all nodes (
    if n.role == "master"
    then insert id (new_cluster id (join (file_pattern n)) all) table
    else table)

abbrev pub table_of : Option (Dict Cluster) → Dict Cluster
table_of none = []
table_of (some table) = table

-- `InitCluster`; there is no `join` where `os.Getwd` fails.
unfoldable pub init_cluster :
    Option (String → String) → (id : String) → List ClusterNode → Kube Unit
init_cluster none id nodes s = pure tt s
init_cluster (some join) id nodes s = pure tt (some (init_nodes join id nodes nodes (table_of s)))

-- The loop over the conditions: the last step that sets the status makes it "Ready".
abbrev pub status_of : List (String × String) → String
status_of conditions =
    if any (λ c. c.0 == "Ready" && c.1 == "True") conditions then "Ready" else "NotReady"

abbrev label_roles : String → List String
label_roles label =
    if label == "node-role.kubernetes.io/control-plane"
    then "control-plane" ∷ []
    else if label == "node-role.kubernetes.io/worker"
    then "worker" ∷ []
    else []

unfoldable pub roles_in : Dict String → List String
roles_in [] = []
roles_in ((label, value) ∷ labels) = label_roles label ++ roles_in labels

abbrev pub or_worker : List String → List String
or_worker [] = "worker" ∷ []
or_worker (role ∷ roles) = role ∷ roles

-- The loop over the addresses: a later internal address replaces an earlier one.
unfoldable pub internal_ip_of : String → List (String × String) → String
internal_ip_of ip [] = ip
internal_ip_of ip ((kind, address) ∷ rest) =
    internal_ip_of (if kind == "InternalIP" then address else ip) rest

-- `parseNode`
unfoldable pub parse_node : CoreNode → NodeInfo
parse_node n = record {
  name = n.name;
  status = status_of n.conditions;
  roles = or_worker (roles_in n.labels);
  os = n.operating_system;
  kernel_version = n.kernel_version;
  container_runtime = n.container_runtime;
  architecture = n.architecture;
  cpu_capacity = n.cpu_capacity;
  memory_capacity = n.memory_capacity;
  cpu_allocatable = n.cpu_allocatable;
  memory_allocatable = n.memory_allocatable;
  internal_ip = internal_ip_of "" n.addresses;
  labels = n.labels;
}

abbrev pub pod_info : CorePod → PodInfo
pod_info p = record {
  name = p.name;
  namespace = p.namespace;
  status = p.phase;
  node = p.node_name;
  ip = p.pod_ip;
  images = p.images;
}

module _ {ℓ κ} {A : Type ℓ} {B : Type κ} where
  -- `if err != nil { return nil, fmt.Errorf("…: %w", err) }`, and the code after it.
  abbrev pub and_then : String → Result A → (A → Result B) → Result B
  and_then what (failed message) f = failed (what <> message)
  and_then what (given a) f = f a

-- The loops of `ClusterInfo` over the namespaces: the first error ends them.
unfoldable pub collect {ℓ} :
    {A : Type ℓ} → (String → Result (List A)) → List String → Result (List A)
collect f [] = given []
collect f (ns ∷ rest) =
    let others = collect f rest in
    and_then "" (f ns) λ items. and_then "" others λ more. given (items ++ more)

-- `fmt.Sprintf("%d/%s", p.Port, p.Protocol)`
abbrev pub port_text : CorePort → String
port_text p = itoa p.port <> "/" <> p.protocol

abbrev pub service_info : CoreService → ServiceInfo
service_info s = record {
  name = s.name;
  namespace = s.namespace;
  type = s.type;
  cluster_ip = s.cluster_ip;
  ports = map port_text s.ports;
}

module _ (api : ClusterAnswers) where
  -- `Nodes`
  unfoldable pub nodes : Result (List NodeInfo)
  nodes = and_then "[FAIL] list nodes: " api.nodes λ items. given (map parse_node items)

  -- `Node`
  unfoldable pub node : String → Result NodeInfo
  node name =
      and_then ("[FAIL] get node " <> name <> ": ") (api.node name) λ n. given (parse_node n)

  -- `Services`
  unfoldable pub services : String → Result (List ServiceInfo)
  services ns =
      and_then "[FAIL] list services: " (api.services ns) λ items. given (map service_info items)

  -- `Pods`
  unfoldable pub pods : String → Result (List PodInfo)
  pods ns = and_then "[FAIL] list pods: " (api.pods ns) λ items. given (map pod_info items)

  -- `Events`
  unfoldable pub events : String → Result (List EventInfo)
  events ns = and_then "[FAIL] list events: " (api.events ns) given

  -- `(*Client).ClusterInfo`
  unfoldable pub cluster_info : Result ClusterInfo
  cluster_info = and_then "[FAIL] list nodes: " api.nodes λ items.
      and_then "[FAIL] list namespaces: " api.namespaces λ namespaces.
        and_then "[FAIL] server version: " api.version λ version.
          and_then "" (collect pods namespaces) λ all_pods.
            and_then "" (collect events namespaces) λ all_events. given (record {
              cluster_id = "";
              node_count = length items;
              namespaces = namespaces;
              server_version = version;
              events = all_events;
              pods = all_pods;
              nodes = map parse_node items;
            })

-- `connect` is `New`: a client for a kubeconfig, `none` where it cannot be made.
module _ (connect : String → Option ClusterAnswers) where
  -- The entry of a cluster that can be connected to, by what it answers.
  abbrev pub with_info : Result ClusterInfo → Cluster → Cluster
  with_info (failed message) c = record c { ready = true }
  with_info (given info) c = record c { ready = true; info = some info }

  -- An entry after its turn of the loop of `GetClusters`, and the error that ends the loop there.
  abbrev pub refreshed : Option ClusterAnswers → Cluster → Cluster
  refreshed none c = record c { ready = false }
  refreshed (some api) c = with_info (cluster_info api) c

  abbrev pub error_of : Result ClusterInfo → Option String
  error_of (failed message) = some message
  error_of (given info) = none

  abbrev pub failure : Option ClusterAnswers → Option String
  failure none = none
  failure (some api) = error_of (cluster_info api)

  -- The loop of `GetClusters`, in the order of the entries.
  unfoldable pub refresh : Dict Cluster → Dict Cluster × Option String
  refresh [] = ([], none)
  refresh ((key, c) ∷ rest) =
      let others = refresh rest in
      elim (failure (connect c.kube_config)) [
        | none ↦ ((key, refreshed (connect c.kube_config) c) ∷ others.0, others.1)
        | some message ↦ ((key, refreshed (connect c.kube_config) c) ∷ rest, some message)
      ]

  abbrev pub fetched : Dict Cluster → Option String → Result (Dict Cluster)
  fetched table none = given table
  fetched table (some message) = failed message

  -- `GetClusters`
  unfoldable pub get_clusters : Kube (Result (Dict Cluster))
  get_clusters none = panic "nil pointer dereference" none
  get_clusters (some table) =
      pure (fetched (refresh table).0 (refresh table).1) (some (refresh table).0)
