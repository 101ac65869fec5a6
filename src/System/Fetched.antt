-- ===== src/System/Fetched.antt =====
-- What the operations on an existing table of clusters keep: `GetClusters`, and `FetchToken` from the
-- results of its run on.
use o2_ims_worker.Prelude.{String, Option, none, some, List, Option-cases, inl, inr}
use o2_ims_worker.Prelude.Dict.{Dict}
use o2_ims_worker.Prelude.Exec.{◌>>=◌}
use o2_ims_worker.Prelude.Keeps.{Keeps}
use o2_ims_worker.Kubernetes.{Cluster, ClusterAnswers, refresh, get_clusters}
use o2_ims_worker.Ansible.{Creds, Play, assign_token, store_token, extract_creds, use_results}

pub record IsFetchStable (connect : String → Option ClusterAnswers)
    (P : Option (Dict Cluster) → Type 0) : Type 0 where
  pub refreshes : (table : Dict Cluster) → P (some table) → P (some (refresh connect table).0)
  pub assigns :
      (mac : String) (creds : Creds) (table : Dict Cluster)
      → P (some table)
      → P (some (assign_token mac creds table))

module _ (connect : String → Option ClusterAnswers) (P : Option (Dict Cluster) → Type 0)
    (k : IsFetchStable connect P) where
  get_clusters-keeps : (s : Option (Dict Cluster)) → P s → P (get_clusters connect s).1
  unfolding get_clusters
  get_clusters-keeps none h = h
  get_clusters-keeps (some table) h = k.refreshes table h

  pub get_clusters-Keeps : Keeps P (get_clusters connect)
  get_clusters-Keeps = record { at = get_clusters-keeps }

  stored-keeps :
      (mac : String) (creds : Creds) (s : Option (Dict Cluster))
      → P s
      → P ((get_clusters connect >>= store_token mac creds) s).1
  unfolding get_clusters store_token
  stored-keeps mac creds none h = h
  stored-keeps mac creds (some table) h = elim (Option-cases (refresh connect table).1) [
    | inl e ↦ rw e (k.assigns mac creds (refresh connect table).0 (k.refreshes table h))
    | inr (message, e) ↦ rw e (k.refreshes table h)
  ]

  use_results-keeps :
      (parse : String → Option Creds) (mac : String) (results : Option (List Play))
      (s : Option (Dict Cluster))
      → P s
      → P (use_results connect parse mac results s).1
  unfolding use_results
  use_results-keeps parse mac none s h = h
  use_results-keeps parse mac (some results) s h =
      elim (Option-cases (extract_creds parse results)) [
        | inl e ↦ rw (e, use_results) h
        | inr (creds, e) ↦ rw (e, use_results) (stored-keeps mac creds s h)
      ]

  pub use_results-Keeps :
      (parse : String → Option Creds) (mac : String) (results : Option (List Play))
      → Keeps P (use_results connect parse mac results)
  use_results-Keeps parse mac results = record { at = use_results-keeps parse mac results }
