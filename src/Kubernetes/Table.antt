-- ===== src/Kubernetes/Table.antt =====
-- What `InitCluster` and `GetClusters` do to the table of clusters.
use o2_ims_worker.Prelude.{
  String, ◌==◌, ◌≡◌, ◌≢◌, ◌↔◌, refl, true, Option, none, some, List, [], ◌∷◌, ◌++◌, arith,
  if◌then◌else◌, Option-cases, Bool-cases, inl, inr, map,
}
use mathlib.Core.Option
use o2_ims_worker.Prelude.Dict.{Dict, lookup, insert, lookup-insert}
use o2_ims_worker.Prelude.Exec.{returns}
use o2_ims_worker.World.{ClusterNode}
use o2_ims_worker.Kubernetes.{
  Cluster, ClusterInfo, ClusterAnswers, failed, given, new_cluster, file_pattern, init_nodes,
  init_cluster, table_of, refreshed, failure, refresh, get_clusters, cluster_info,
}

-- The last node of the role master.
unfoldable pub last_master : List ClusterNode → Option ClusterNode
last_master [] = none
last_master (n ∷ ns) = elim (last_master ns) [
  | some m ↦ some m
  | none ↦ if n.role == "master" then some n else none
]

-- The cluster of its last master, or what was there where it has none.
abbrev pub master_or :
    (String → String)
    → String
    → List ClusterNode
    → Option ClusterNode
    → Option Cluster
    → Option Cluster
master_or join id all none old = old
master_or join id all (some n) old = some (new_cluster id (join (file_pattern n)) all)

init_nodes-lookup :
    (join : String → String) (id c : String) (all nodes : List ClusterNode) (table : Dict Cluster)
    → lookup c (init_nodes join id all nodes table) ≡ (
        if id == c
        then master_or join id all (last_master nodes) (lookup c table)
        else lookup c table)
unfolding init_nodes last_master
init_nodes-lookup join id c all [] table = ground arith
init_nodes-lookup join id c all (n ∷ ns) table = elim (Bool-cases (n.role == "master")) [
  | inl e ↦ ground (
    arith,
    e,
    init_nodes-lookup join id c all ns
        (insert id (new_cluster id (join (file_pattern n)) all) table),
    lookup-insert id c (new_cluster id (join (file_pattern n)) all) table,
  )
  | inr e ↦ ground (arith, e, init_nodes-lookup join id c all ns table)
]

-- Where the working directory is known, `InitCluster` returns and touches one entry at most: a
-- cluster with a master has all its nodes there, and the kubeconfig of its last master; a cluster
-- without one keeps the entry that it had.
pub init_cluster-lookup :
    (join : String → String) (id : String) (nodes : List ClusterNode) (s : Option (Dict Cluster))
    → ((init_cluster (some join) id nodes s).0 ≡ returns tt)
      × ((c : String)
          → lookup c (table_of (init_cluster (some join) id nodes s).1) ≡ (
              if id == c
              then master_or join id nodes (last_master nodes) (lookup c (table_of s))
              else lookup c (table_of s)))
unfolding init_cluster
init_cluster-lookup join id nodes s =
    (refl, λ c. init_nodes-lookup join id c nodes nodes (table_of s))

module _ (connect : String → Option ClusterAnswers) where
  abbrev turn : Cluster → Cluster
  turn c = refreshed connect (connect c.kube_config) c

  -- No cluster that can be connected to fails to answer.
  pub data AllAnswer : Dict Cluster → Type 0 where
    nobody : AllAnswer []
    answers :
        {key : String} {c : Cluster} {rest : Dict Cluster}
        → failure connect (connect c.kube_config) ≡ none
        → AllAnswer rest
        → AllAnswer ((key, c) ∷ rest)

  refresh-AllAnswer :
      (table : Dict Cluster)
      → AllAnswer table
      → refresh connect table ≡ (map (λ e. (e.0, turn e.1)) table, none)
  unfolding refresh
  refresh-AllAnswer table nobody = refl
  refresh-AllAnswer ((key, c) ∷ rest) (answers e a) =
      rw (e, refresh) (rw (refresh-AllAnswer rest a) refl)

  lookup-turn :
      (id : String) (table : Dict Cluster)
      → lookup id (map (λ e. (e.0, turn e.1)) table) ≡ Option.map turn (lookup id table)
  unfolding lookup
  lookup-turn id [] = refl
  lookup-turn id ((key, c) ∷ rest) = elim (Bool-cases (key == id)) [
    | inl e ↦ rw e refl
    | inr e ↦ rw e (lookup-turn id rest)
  ]

  -- What one entry becomes.
  pub record IsRefreshed (c c' : Cluster) : Type 0 where
    pub ready_iff : (c'.ready ≡ true) ↔ (connect c.kube_config ≢ none)
    pub answered :
        (a : ClusterAnswers) (info : ClusterInfo)
        → connect c.kube_config ≡ some a
        → cluster_info a ≡ given info
        → c'.info ≡ some info
    pub unanswered : connect c.kube_config ≡ none → c'.info ≡ c.info
    pub same_nodes : c'.nodes ≡ c.nodes
    pub same_token : c'.token ≡ c.token

  turn-IsRefreshed : (c : Cluster) → IsRefreshed c (turn c)
  turn-IsRefreshed c = elim (Option-cases (connect c.kube_config)) [
    | inl e ↦ record {
      ready_iff = ground (arith, e);
      answered = λ a info f g. ground (arith, e);
      unanswered = λ f. ground (arith, e);
      same_nodes = ground (arith, e);
      same_token = ground (arith, e);
    }
    | inr (a, e) ↦ record {
      ready_iff = ground (arith, e);
      answered = λ b info f g. ground (arith, e);
      unanswered = λ f. ground (arith, e);
      same_nodes = ground (arith, e);
      same_token = ground (arith, e);
    }
  ]

  -- Where every cluster that can be connected to answers, `GetClusters` returns the table with the
  -- same entries. An entry counts as ready exactly if its kubeconfig makes a client; it then has
  -- what its cluster answers, and else what it had, and its nodes and its token stay.
  pub get_clusters-refreshes :
      (table : Dict Cluster)
      → AllAnswer table
      → (table' : Dict Cluster) × (get_clusters connect (some table)
          ≡ (returns (given table'), some table'))
        × ((id : String) (c : Cluster)
            → lookup id table ≡ some c
            → (c' : Cluster) × (lookup id table' ≡ some c') × IsRefreshed c c')
        × ((id : String) → lookup id table ≡ none → lookup id table' ≡ none)
  unfolding get_clusters
  get_clusters-refreshes table a = (
    map (λ e. (e.0, turn e.1)) table,
    rw (refresh-AllAnswer table a) refl,
    λ id c e. (turn c, rw (lookup-turn id table) (rw e refl), turn-IsRefreshed c),
    λ id e. rw (lookup-turn id table) (rw e refl),
  )

  refresh-fails :
      (before : Dict Cluster) (key : String) (c : Cluster) (rest : Dict Cluster) (message : String)
      → AllAnswer before
      → failure connect (connect c.kube_config) ≡ some message
      → refresh connect (before ++ (key, c) ∷ rest)
        ≡ (map (λ e. (e.0, turn e.1)) before ++ (key, turn c) ∷ rest, some message)
  unfolding refresh
  refresh-fails [] key c rest message nobody f = rw (f, refresh) refl
  refresh-fails ((k, d) ∷ before) key c rest message (answers e a) f =
      rw (e, refresh) (rw (refresh-fails before key c rest message a f) refl)

  -- The first cluster that can be connected to and fails to answer ends `GetClusters` with its
  -- error: the entries before it have been refreshed, its own counts as ready with the information
  -- that it had, and those after it are as before.
  pub get_clusters-fails :
      (before : Dict Cluster) (key : String) (c : Cluster) (rest : Dict Cluster)
      (a : ClusterAnswers) (message : String)
      → AllAnswer before
      → connect c.kube_config ≡ some a
      → cluster_info a ≡ failed message
      → get_clusters connect (some (before ++ (key, c) ∷ rest)) ≡ (
        returns (failed message),
        some (map (λ e. (e.0, turn e.1)) before ++ (key, record c { ready = true }) ∷ rest),
      )
  unfolding get_clusters
  get_clusters-fails before key c rest a message all e f =
      rw (refresh-fails before key c rest message all (ground (arith, e, f))) (rw e (rw f refl))
