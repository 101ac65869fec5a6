-- ===== src/Ansible/Tokens.antt =====
-- Which clusters `FetchToken` gives a token to, and what a cluster that does not answer does to it.
use o2_ims_worker.Prelude.{
  String, ◌==◌, ◌≡◌, ◌∙◌, ap, ◌≢◌, ◌⊎◌, refl, true, false, Option, none, some, List, [], ◌∷◌, ◌++◌,
  arith, eq_iff, Bool-cases, inl, inr,
}
use mathlib.Core.Option
use o2_ims_worker.Prelude.Dict.{Dict, lookup}
use o2_ims_worker.Prelude.Exec.{returns, panics}
use o2_ims_worker.Kubernetes.{
  Cluster, ClusterAnswers, Result, failed, given, table_of, cluster_info, get_clusters,
}
use o2_ims_worker.Kubernetes.Table.{
  AllAnswer, IsRefreshed, get_clusters-refreshes, get_clusters-fails,
}
use o2_ims_worker.Ansible.{
  Creds, Play, has_node, with_token, assign_token, store_token, extract_creds, use_results,
}
use o2_ims_worker.System.{System}
use o2_ims_worker.Ansible.Playbook.{
  Runner, Ran, playbook_file, files_of, execute, after_run, fetch_token,
}
use o2_ims_worker.Ansible.Temps.{Temps, token_ran, fetch_token-run}

lookup-assign_token :
    (mac : String) (creds : Creds) (id : String) (table : Dict Cluster)
    → lookup id (assign_token mac creds table)
      ≡ Option.map (with_token mac creds id) (lookup id table)
unfolding lookup assign_token
lookup-assign_token mac creds id [] = refl
lookup-assign_token mac creds id ((key, c) ∷ rest) = elim (Bool-cases (key == id)) [
  | inl e ↦ ground (arith, e, eq_iff key id)
  | inr e ↦ ground (arith, e, lookup-assign_token mac creds id rest)
]

-- What `FetchToken` leaves in the place of a cluster.
pub record IsGiven (mac : String) (creds : Creds) (id : String) (c c' : Cluster) : Type 0 where
  pub chosen :
      id ≢ "unclaimed"
      → has_node mac c.nodes ≡ true
      → (c'.token ≡ creds.token) × (c'.api_endpoint ≡ creds.server)
  pub passed_over : (id ≡ "unclaimed") ⊎ (has_node mac c.nodes ≡ false) → c'.token ≡ c.token

module _ (connect : String → Option ClusterAnswers) (parse : String → Option Creds) (mac : String)
    (results : List Play) (creds : Creds) where
  use_results-run :
      (s s' : Option (Dict Cluster)) (r : Result (Dict Cluster))
      → extract_creds parse results ≡ some creds
      → get_clusters connect s ≡ (returns r, s')
      → use_results connect parse mac (some results) s ≡ store_token mac creds r s'
  unfolding use_results
  use_results-run s s' r e g = rw (e, use_results) (rw g refl)

  with_token-IsGiven :
      (id : String) (c c' : Cluster)
      → IsRefreshed connect c c'
      → IsGiven mac creds id c (with_token mac creds id c')
  with_token-IsGiven id c c' r = record {
    chosen = λ claimed node. ground (arith, eq_iff id "unclaimed", r.same_nodes, claimed, node);
    passed_over = λ why. elim why [
      | inl e ↦ ground (arith, eq_iff id "unclaimed", r.same_token, e)
      | inr e ↦ ground (arith, eq_iff id "unclaimed", r.same_nodes, r.same_token, e)
    ];
  }

module _ (r : Runner) where
  -- A call of `FetchToken` that reads its playbook, makes its temporary files, runs ansible without
  -- an error and has results.
  pub record IsRun (target_ip user mac : String) (s : System) (results : List Play) : Type 0 where
    pub playbook : String
    pub found : lookup playbook_file (files_of s) ≡ some playbook
    pub temps : Temps r s playbook
    pub ran : Ran
    pub ends : token_ran r target_ip user mac s playbook temps ≡ some ran
    pub succeeds : ran.error ≡ none
    pub parses : r.parse_results ran.output ≡ some results

module _ (r : Runner) (target_ip user mac : String) (s : System) (results : List Play)
    (creds : Creds) (run : IsRun r target_ip user mac s results) where
  fetch_token-stores :
      (clusters' : Option (Dict Cluster)) (fetched : Result (Dict Cluster))
      → extract_creds r.parse_creds results ≡ some creds
      → get_clusters r.connect s.clusters ≡ (returns fetched, clusters')
      → ((fetch_token r target_ip user mac s).0 ≡ (store_token mac creds fetched clusters').0)
        × ((fetch_token r target_ip user mac s).1.clusters
            ≡ (store_token mac creds fetched clusters').1)
  unfolding execute after_run
  fetch_token-stores clusters' fetched e g =
      let stored =
        use_results-run r.connect r.parse_creds mac results creds s.clusters clusters' fetched e
          g in
      rw (fetch_token-run r target_ip user mac s run.playbook run.temps run.ran run.ends run.found)
        (rw run.succeeds (rw run.parses (rw stored (refl, refl))))

  -- Where ansible runs and its results have credentials, and every cluster that can be connected to
  -- answers: `FetchToken` returns the credentials. Every cluster with the node then has the token
  -- and the server, but for the one named "unclaimed"; all other clusters keep their token.
  pub fetch_token-assigns :
      (table : Dict Cluster)
      → s.clusters ≡ some table
      → AllAnswer r.connect table
      → extract_creds r.parse_creds results ≡ some creds
      → ((fetch_token r target_ip user mac s).0 ≡ returns (given creds))
        × ((id : String) (c : Cluster)
            → lookup id table ≡ some c
            → (c' : Cluster) × (lookup id (table_of (fetch_token r target_ip user mac s).1.clusters)
                ≡ some c')
              × IsGiven mac creds id c c')
  unfolding store_token
  fetch_token-assigns table here a e =
      let (fresh, ran, kept, missing) = get_clusters-refreshes r.connect table a in
      let (ended, stored) = fetch_token-stores (some fresh) (given fresh) e (rw here ran) in
      (
        ended,
        λ id c found.
            let (c', found', refreshed) = kept id c found in
            (
              with_token mac creds id c',
              rw stored (rw (lookup-assign_token mac creds id fresh) (rw found' refl)),
              with_token-IsGiven r.connect r.parse_creds mac results creds id c c' refreshed,
            ),
      )

  -- Where ansible runs and its results have credentials, but one cluster that can be connected to
  -- fails to answer, `FetchToken` panics at a nil pointer.
  pub fetch_token-panics :
      (before : Dict Cluster) (key : String) (c : Cluster) (rest : Dict Cluster)
      (a : ClusterAnswers) (message : String)
      → s.clusters ≡ some (before ++ (key, c) ∷ rest)
      → AllAnswer r.connect before
      → r.connect c.kube_config ≡ some a
      → cluster_info a ≡ failed message
      → extract_creds r.parse_creds results ≡ some creds
      → (fetch_token r target_ip user mac s).0 ≡ panics "nil pointer dereference"
  unfolding store_token
  fetch_token-panics before key c rest a message here all e f g =
      (fetch_token-stores _ (failed message) g (
        ap (get_clusters r.connect) here
        ∙ get_clusters-fails r.connect before key c rest a message all e f)).0
