-- ===== src/Tests/Clusters.antt =====
-- The table of clusters, with one cluster that answers, one that fails, and one without a client.
use o2_ims_worker.Prelude.{
  String, ◌<>◌, ◌==◌, ◌≡◌, ◌≢◌, ◌↔◌, refl, Option, none, some, List, [], ◌∷◌, true, if◌then◌else◌,
}
use o2_ims_worker.Prelude.Lists.{All}
use o2_ims_worker.Prelude.Dict.{Dict, lookup}
use o2_ims_worker.Prelude.Exec.{returns}
use o2_ims_worker.World.{ClusterNode}
use o2_ims_worker.Filedata.{node_of}
use o2_ims_worker.Kubernetes.{
  CoreNode, ClusterInfo, ClusterAnswers, Cluster, failed, given, new_cluster, init_cluster,
  table_of, parse_node, cluster_info, collect, pods, events, internal_ip_of, roles_in, get_clusters,
}
use o2_ims_worker.Kubernetes.Table.{
  last_master, master_or, init_cluster-lookup, AllAnswer, nobody, answers, IsRefreshed,
  get_clusters-refreshes, get_clusters-fails,
}
use o2_ims_worker.Kubernetes.Endpoint.{
  error_page, clusters_list, handle_kubernetes, handle_kubernetes-fails,
}
use o2_ims_worker.Kubernetes.Nodes.{IsRole, HasReady, parse_node-IsRole}
use o2_ims_worker.Tests.World.{first_row, second_row}

abbrev pub join : String → String
join name = "/srv/assets/ansible/" <> name

abbrev pub members : List ClusterNode
members = node_of first_row ∷ node_of second_row ∷ []

abbrev pub edge : Cluster
edge = new_cluster "edge" "edge.yaml" members

abbrev pub broken : Cluster
broken = new_cluster "broken" "broken.yaml" []

abbrev pub absent : Cluster
absent = new_cluster "absent" "absent.yaml" []

abbrev pub core_node : CoreNode
core_node = record {
  name = "n1";
  conditions = ("MemoryPressure", "False") ∷ ("Ready", "True") ∷ [];
  labels = ("kubernetes.io/os", "linux") ∷ ("node-role.kubernetes.io/control-plane", "true") ∷ [];
  addresses = ("InternalIP", "192.168.99.10") ∷ ("Hostname", "n1") ∷ [];
  operating_system = "linux";
  kernel_version = "6.1";
  container_runtime = "containerd";
  architecture = "amd64";
  cpu_capacity = "4";
  memory_capacity = "8Gi";
  cpu_allocatable = "4";
  memory_allocatable = "7Gi";
}

abbrev pub healthy : ClusterAnswers
healthy = record {
  nodes = given (core_node ∷ []);
  namespaces = given ("default" ∷ []);
  version = given "v1.30";
  pods = λ ns. given [];
  events = λ ns. given [];
  services = λ ns. given [];
  node = λ name. given core_node;
}

abbrev pub unhealthy : ClusterAnswers
unhealthy = record healthy { version = failed "timeout" }

abbrev pub connect : String → Option ClusterAnswers
connect path =
    if path == "edge.yaml"
    then some healthy
    else if path == "broken.yaml"
    then some unhealthy
    else none

abbrev pub info : ClusterInfo
info = record {
  cluster_id = "";
  node_count = 1;
  namespaces = "default" ∷ [];
  server_version = "v1.30";
  events = [];
  pods = [];
  nodes = parse_node core_node ∷ [];
}

pub healthy_info : cluster_info healthy ≡ given info
unfolding cluster_info collect pods events
healthy_info = refl

pub unhealthy_info : cluster_info unhealthy ≡ failed "[FAIL] server version: timeout"
unfolding cluster_info
unhealthy_info = refl

node_test :
    ((parse_node core_node).roles ≡ "control-plane" ∷ [])
    × ((parse_node core_node).internal_ip ≡ "192.168.99.10")
unfolding parse_node roles_in internal_ip_of
node_test = (refl, refl)

pub no_failure : AllAnswer connect (("edge", edge) ∷ ("absent", absent) ∷ [])
unfolding cluster_info collect pods events
no_failure = answers refl (answers refl nobody)

init_cluster-lookup_example :
    ((init_cluster (some join) "edge" members none).0 ≡ returns tt)
    × ((c : String)
        → lookup c (table_of (init_cluster (some join) "edge" members none).1) ≡ (
            if "edge" == c
            then master_or join "edge" members (last_master members) (lookup c [])
            else lookup c []))
init_cluster-lookup_example = init_cluster-lookup join "edge" members none

get_clusters-refreshes_example :
    (table' : Dict Cluster) × (get_clusters connect
        (some (("edge", edge) ∷ ("absent", absent) ∷ []))
      ≡ (returns (given table'), some table'))
    × ((id : String) (c : Cluster)
        → lookup id (("edge", edge) ∷ ("absent", absent) ∷ []) ≡ some c
        → (c' : Cluster) × (lookup id table' ≡ some c') × IsRefreshed connect c c')
    × ((id : String)
        → lookup id (("edge", edge) ∷ ("absent", absent) ∷ []) ≡ none
        → lookup id table' ≡ none)
get_clusters-refreshes_example =
    get_clusters-refreshes connect (("edge", edge) ∷ ("absent", absent) ∷ []) no_failure

get_clusters-fails_example :
    get_clusters connect (some (("absent", absent) ∷ ("broken", broken) ∷ ("edge", edge) ∷ [])) ≡ (
      returns (failed "[FAIL] server version: timeout"),
      some (("absent", absent) ∷ ("broken", record broken { ready = true }) ∷ ("edge", edge) ∷ []),
    )
get_clusters-fails_example =
    get_clusters-fails connect (("absent", absent) ∷ []) "broken" broken (("edge", edge) ∷ [])
      unhealthy "[FAIL] server version: timeout" (answers refl nobody) refl unhealthy_info

parse_node-IsRole_example :
    ((parse_node core_node).roles ≢ [])
    × All IsRole (parse_node core_node).roles
    × (((parse_node core_node).status ≡ "Ready") ↔ HasReady core_node.conditions)
parse_node-IsRole_example = parse_node-IsRole core_node

handle_kubernetes-fails_example :
    ((handle_kubernetes connect "clusters" true (some (("broken", broken) ∷ []))).0
      ≡ returns (error_page 500 "Error Detected[FAIL] server version: timeout"))
    × ((item : String)
        → item ≢ "clusters"
        → (handle_kubernetes connect item true (some (("broken", broken) ∷ []))).0
          ≡ returns (clusters_list none))
handle_kubernetes-fails_example =
    handle_kubernetes-fails connect [] "broken" broken [] unhealthy "[FAIL] server version: timeout"
      nobody refl unhealthy_info
