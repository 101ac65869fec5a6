-- ===== src/System/Entries.antt =====
-- The entries of the table of clusters: none is lost, and `InitCluster` makes one for a cluster with
-- a master. Which clusters the loops of `Populate` have still to visit.
use o2_ims_worker.Prelude.{
  String, ◌==◌, ◌≡◌, ◌≢◌, ◌⊎◌, Bool, true, Option, none, some, List, [], ◌∷◌, ◌++◌, arith, eq_iff,
  Option-cases, Bool-cases, inl, inr,
}
use o2_ims_worker.Prelude.Lists.{any}
use o2_ims_worker.Prelude.Dict.{Dict, lookup}
use o2_ims_worker.World.{ClusterNode}
use o2_ims_worker.Kubernetes.{Cluster, ClusterAnswers, table_of, failure, refresh, init_cluster}
use o2_ims_worker.Kubernetes.Table.{last_master, init_cluster-lookup}
use o2_ims_worker.Ansible.{Creds, assign_token}
use o2_ims_worker.Ansible.Playbook.{Runner}
use o2_ims_worker.System.{System}
use o2_ims_worker.System.Fetched.{IsFetchStable, get_clusters-Keeps, use_results-Keeps}
use o2_ims_worker.System.Frame.{IsStable}
use o2_ims_worker.System.Background.{Loops, loop_work, loops_work}

-- The table has an entry under the name.
abbrev pub HasEntry : String → Option (Dict Cluster) → Type 0
HasEntry id s = lookup id (table_of s) ≢ none

refresh-HasEntry :
    (connect : String → Option ClusterAnswers) (id : String) (table : Dict Cluster)
    → HasEntry id (some table)
    → HasEntry id (some (refresh connect table).0)
unfolding refresh lookup
refresh-HasEntry connect id [] h = h
refresh-HasEntry connect id ((key, c) ∷ rest) h =
    elim (Option-cases (failure connect (connect c.kube_config))) [
      | inl e ↦ elim (Bool-cases (key == id)) [
        | inl k ↦ rw (e, refresh) (rw (k, lookup) (λ n. cc))
        | inr k ↦
            rw (e, refresh)
              (rw (k, lookup) (refresh-HasEntry connect id rest (λ n. h (rw (k, lookup) n))))
      ]
      | inr (message, e) ↦ elim (Bool-cases (key == id)) [
        | inl k ↦ rw (e, refresh) (rw (k, lookup) (λ n. cc))
        | inr k ↦ rw (e, refresh) (rw (k, lookup) (λ n. h (rw (k, lookup) n)))
      ]
    ]

assign_token-HasEntry :
    (mac : String) (creds : Creds) (id : String) (table : Dict Cluster)
    → HasEntry id (some table)
    → HasEntry id (some (assign_token mac creds table))
unfolding assign_token lookup
assign_token-HasEntry mac creds id [] h = h
assign_token-HasEntry mac creds id ((key, c) ∷ rest) h = elim (Bool-cases (key == id)) [
  | inl k ↦ rw (k, lookup) (λ n. cc)
  | inr k ↦ rw (k, lookup) (assign_token-HasEntry mac creds id rest (λ n. h (rw (k, lookup) n)))
]

HasEntry-IsFetchStable :
    (connect : String → Option ClusterAnswers) (id : String) → IsFetchStable connect (HasEntry id)
HasEntry-IsFetchStable connect id = record {
  refreshes = refresh-HasEntry connect id;
  assigns = λ mac creds table h. assign_token-HasEntry mac creds id table h;
}

pub HasEntry-IsStable :
    (r : Runner) (id : String) → IsStable r (λ (s : System). HasEntry id s.clusters)
HasEntry-IsStable r id = record {
  files = λ fs s h. h;
  variables = λ env s h. h;
  tokens = λ mac results. record {
    at = λ s h.
        (use_results-Keeps r.connect (HasEntry id) (HasEntry-IsFetchStable r.connect id)
            r.parse_creds mac results).at
          s.clusters h;
  };
  clusters = record {
    at = λ s h.
        (get_clusters-Keeps r.connect (HasEntry id) (HasEntry-IsFetchStable r.connect id)).at
          s.clusters h;
  };
}

abbrev pub has_master : List ClusterNode → Bool
has_master nodes = any (λ n. n.role == "master") nodes

last_master-some : (nodes : List ClusterNode) → has_master nodes ≡ true → last_master nodes ≢ none
unfolding last_master
last_master-some [] h = absurd (cc)
last_master-some (n ∷ nodes) h = elim (Option-cases (last_master nodes)) [
  | inl e ↦ ground (arith, e, last_master-some nodes)
  | inr (m, e) ↦ ground (arith, e)
]

module _ (join : String → String) (id : String) (nodes : List ClusterNode)
    (s : Option (Dict Cluster)) where
  pub init_cluster-HasEntry :
      (c : String) → HasEntry c s → HasEntry c (init_cluster (some join) id nodes s).1
  init_cluster-HasEntry c h = elim (Option-cases (last_master nodes)) [
    | inl e ↦ ground (arith, e, (init_cluster-lookup join id nodes s).1 c)
    | inr (m, e) ↦ ground (arith, e, (init_cluster-lookup join id nodes s).1 c)
  ]

  pub init_cluster-registers :
      has_master nodes ≡ true → HasEntry id (init_cluster (some join) id nodes s).1
  init_cluster-registers h = elim (Option-cases (last_master nodes)) [
    | inl e ↦ absurd (last_master-some nodes h e)
    | inr (m, e) ↦ ground (arith, e, eq_iff id id, (init_cluster-lookup join id nodes s).1 id)
  ]

-- A cluster of that name with a master that a loop has still to visit.
abbrev pub IsIn : String → Dict (List ClusterNode) → Type 0
IsIn id [] = ⊥
IsIn id ((key, nodes) ∷ rest) = ((key ≡ id) × (has_master nodes ≡ true)) ⊎ IsIn id rest

abbrev pub IsWaiting : String → Loops → Type 0
IsWaiting id [] = ⊥
IsWaiting id (first ∷ loops) = IsIn id first ⊎ IsWaiting id loops

pub taken :
    (id key : String) (nodes : List ClusterNode) (rest : Dict (List ClusterNode))
    (before after : Loops)
    → IsWaiting id (before ++ ((key, nodes) ∷ rest) ∷ after)
    → ((key ≡ id) × (has_master nodes ≡ true)) ⊎ IsWaiting id (before ++ rest ∷ after)
taken id key nodes rest [] after (inl (inl h)) = inl h
taken id key nodes rest [] after (inl (inr w)) = inr (inl w)
taken id key nodes rest [] after (inr w) = inr (inr w)
taken id key nodes rest (first ∷ before) after (inl w) = inr (inl w)
taken id key nodes rest (first ∷ before) after (inr w) =
    elim (taken id key nodes rest before after w) [ inl h ↦ inl h | inr v ↦ inr (inr v) ]

pub IsIn-work : (id : String) (l : Dict (List ClusterNode)) → IsIn id l → loop_work l ≢ 0
unfolding loop_work
IsIn-work id [] w = elim w [ ]
IsIn-work id ((key, nodes) ∷ rest) w = omega arith

pub IsWaiting-work : (id : String) (loops : Loops) → IsWaiting id loops → loops_work loops ≢ 0
unfolding loops_work
IsWaiting-work id [] w = elim w [ ]
IsWaiting-work id (first ∷ loops) (inl w) = omega (arith, IsIn-work id first w)
IsWaiting-work id (first ∷ loops) (inr w) = omega (arith, IsWaiting-work id loops w)
