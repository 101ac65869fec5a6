-- ===== src/System/Sound.antt =====
-- What holds of the table of clusters in between the operations that write it.
use o2_ims_worker.Prelude.{
  String, ◌==◌, ◌≡◌, ◌∙◌, refl, sym, Option, none, some, List, [], ◌∷◌, ◌++◌, arith, eq_iff,
  Option-cases, Bool-cases, inl, inr,
}
use mathlib.Core.List.{append_assoc}
use o2_ims_worker.Prelude.Dict.{Dict, Each, Each-insert}
use o2_ims_worker.Prelude.Keeps.{Keeps}
use o2_ims_worker.World.{ClusterNode}
use o2_ims_worker.System.Fetched.{IsFetchStable}
use o2_ims_worker.Kubernetes.{
  Cluster, ClusterInfo, ClusterAnswers, with_info, Result, failed, given, new_cluster, file_pattern,
  init_nodes, init_cluster, table_of, refreshed, failure, refresh, cluster_info,
}
use o2_ims_worker.Ansible.{Creds, has_node, with_token, assign_token}

-- A cluster that `InitCluster` has made: it stands under its name, its kubeconfig is that of a
-- master among its nodes, and the one named "unclaimed" has no token.
pub record IsSound (o : Option (String → String)) (key : String) (c : Cluster) : Type 0 where
  pub named : c.id ≡ key
  pub join : String → String
  pub joins : o ≡ some join
  pub before : List ClusterNode
  pub master : ClusterNode
  pub after : List ClusterNode
  pub in_nodes : c.nodes ≡ before ++ master ∷ after
  pub is_master : master.role ≡ "master"
  pub config : c.kube_config ≡ join (file_pattern master)
  pub unclaimed : key ≡ "unclaimed" → c.token ≡ ""

module _ (o : Option (String → String)) where
  -- Every cluster of the table.
  abbrev pub AllSound : Option (Dict Cluster) → Type 0
  AllSound s = Each (IsSound o) (table_of s)

  same-IsSound :
      (key : String) (c c' : Cluster)
      → c'.id ≡ c.id
      → c'.nodes ≡ c.nodes
      → c'.kube_config ≡ c.kube_config
      → (key ≡ "unclaimed" → c'.token ≡ c.token)
      → IsSound o key c
      → IsSound o key c'
  same-IsSound key c c' id nodes config token h = record {
    named = id ∙ h.named;
    join = h.join;
    joins = h.joins;
    before = h.before;
    master = h.master;
    after = h.after;
    in_nodes = nodes ∙ h.in_nodes;
    is_master = h.is_master;
    config = config ∙ h.config;
    unclaimed = λ e. token e ∙ h.unclaimed e;
  }

  module _ (join : String → String) (joins : o ≡ some join) (id : String) where
    new_cluster-IsSound :
        (before : List ClusterNode) (n : ClusterNode) (after : List ClusterNode)
        → n.role ≡ "master"
        → IsSound o id (new_cluster id (join (file_pattern n)) (before ++ n ∷ after))
    new_cluster-IsSound before n after m = record {
      named = refl;
      join = join;
      joins = joins;
      before = before;
      master = n;
      after = after;
      in_nodes = refl;
      is_master = m;
      config = refl;
      unclaimed = λ e. refl;
    }

    init_nodes-AllSound :
        (all before nodes : List ClusterNode) (table : Dict Cluster)
        → all ≡ before ++ nodes
        → Each (IsSound o) table
        → Each (IsSound o) (init_nodes join id all nodes table)
    unfolding init_nodes
    init_nodes-AllSound all before [] table e h = h
    init_nodes-AllSound all before (n ∷ nodes) table e h =
        let e' = e ∙ sym (append_assoc before (n ∷ []) nodes) in
        elim (Bool-cases (n.role == "master")) [
          | inl m ↦
              rw (m, init_nodes)
                (init_nodes-AllSound all (before ++ n ∷ []) nodes _ e' (
                  Each-insert (IsSound o) id (new_cluster id (join (file_pattern n)) all) table
                    (rw e
                      (new_cluster-IsSound before n nodes (ground (arith, eq_iff n.role "master"))))
                    h))
          | inr m ↦ rw (m, init_nodes) (init_nodes-AllSound all (before ++ n ∷ []) nodes table e' h)
        ]

  init_cluster-AllSound :
      (o₁ : Option (String → String)) (id : String) (nodes : List ClusterNode)
      (s : Option (Dict Cluster))
      → o ≡ o₁
      → AllSound s
      → AllSound (init_cluster o₁ id nodes s).1
  unfolding init_cluster
  init_cluster-AllSound none id nodes s e h = h
  init_cluster-AllSound (some join) id nodes s e h =
      init_nodes-AllSound join e id nodes [] nodes (table_of s) refl h

  pub init_cluster-Keeps :
      (id : String) (nodes : List ClusterNode) → Keeps AllSound (init_cluster o id nodes)
  init_cluster-Keeps id nodes = record { at = λ s h. init_cluster-AllSound o id nodes s refl h }

  module _ (connect : String → Option ClusterAnswers) where
    with_info-IsSound :
        (key : String) (c : Cluster) (info : Result ClusterInfo)
        → IsSound o key c
        → IsSound o key (with_info connect info c)
    with_info-IsSound key c (failed message) h = same-IsSound key c _ refl refl refl (λ e. refl) h
    with_info-IsSound key c (given info) h = same-IsSound key c _ refl refl refl (λ e. refl) h

    refreshed-IsSound :
        (key : String) (c : Cluster) (a : Option ClusterAnswers)
        → IsSound o key c
        → IsSound o key (refreshed connect a c)
    refreshed-IsSound key c none h = same-IsSound key c _ refl refl refl (λ e. refl) h
    refreshed-IsSound key c (some a) h = with_info-IsSound key c (cluster_info a) h

    refresh-AllSound :
        (table : Dict Cluster) → Each (IsSound o) table → Each (IsSound o) (refresh connect table).0
    unfolding refresh
    refresh-AllSound [] h = tt
    refresh-AllSound ((key, c) ∷ rest) h =
        elim (Option-cases (failure connect (connect c.kube_config))) [
          | inl e ↦
              rw (e, refresh)
                (refreshed-IsSound key c (connect c.kube_config) h.0, refresh-AllSound rest h.1)
          | inr (message, e) ↦
              rw (e, refresh) (refreshed-IsSound key c (connect c.kube_config) h.0, h.1)
        ]

  module _ (mac : String) (creds : Creds) where
    with_token-IsSound :
        (key : String) (c : Cluster) → IsSound o key c → IsSound o key (with_token mac creds key c)
    with_token-IsSound key c h = elim (Bool-cases (key == "unclaimed")) [
      | inl e ↦ rw e h
      | inr e ↦ elim (Bool-cases (has_node mac c.nodes)) [
        | inl f ↦ rw e (
            rw f (
              same-IsSound key c _ refl refl refl
                (λ q. absurd (ground (arith, eq_iff key "unclaimed"))) h))
        | inr f ↦ rw e (rw f h)
      ]
    ]

    assign_token-AllSound :
        (table : Dict Cluster)
        → Each (IsSound o) table
        → Each (IsSound o) (assign_token mac creds table)
    unfolding assign_token
    assign_token-AllSound [] h = tt
    assign_token-AllSound ((key, c) ∷ rest) h =
        (with_token-IsSound key c h.0, assign_token-AllSound rest h.1)

  pub AllSound-IsFetchStable :
      (connect : String → Option ClusterAnswers) → IsFetchStable connect AllSound
  AllSound-IsFetchStable connect = record {
    refreshes = refresh-AllSound connect;
    assigns = λ mac creds table h. assign_token-AllSound mac creds table h;
  }
