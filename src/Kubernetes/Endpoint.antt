-- ===== src/Kubernetes/Endpoint.antt =====
-- internal/http/server.go, `handleKubernetes`: the endpoint /kubernetes.
use o2_ims_worker.Prelude.{
  ℕ, String, ◌<>◌, ◌==◌, ◌≡◌, ◌≢◌, refl, Bool, true, Option, none, some, ◌∷◌, ◌++◌, arith, eq_iff,
  if◌then◌else◌,
}
use o2_ims_worker.Prelude.Dict.{Dict}
use o2_ims_worker.Prelude.Exec.{returns, pure, ◌>>=◌}
use o2_ims_worker.Kubernetes.{
  Cluster, ClusterAnswers, Result, failed, given, Kube, cluster_info, get_clusters,
}
use o2_ims_worker.Kubernetes.Table.{AllAnswer, get_clusters-fails}

-- What the handler writes: `http.Error`, the table, or a list of one pointer to the table.
pub data Page : Type 0 where
  error_page : (status : ℕ) → String → Page
  clusters_json : Dict Cluster → Page
  clusters_list : Option (Dict Cluster) → Page

-- The answer for the item "clusters".
abbrev pub table_page : Bool → Result (Dict Cluster) → Page
table_page encodes (failed message) = error_page 500 ("Error Detected" <> message)
table_page encodes (given table) =
    if encodes then clusters_json table else error_page 500 "Error Detected"

-- The pointer beside an error is nil.
abbrev pub value_of : Result (Dict Cluster) → Option (Dict Cluster)
value_of (failed message) = none
value_of (given table) = some table

-- The answer for every other item; the error of `GetClusters` is overwritten unread.
abbrev pub list_page : Bool → Result (Dict Cluster) → Page
list_page encodes r =
    if encodes then clusters_list (value_of r) else error_page 500 "Error Detected"

module _ (connect : String → Option ClusterAnswers) where
  -- `handleKubernetes`; `encodes` tells whether encoding the answer succeeds.
  unfoldable pub handle_kubernetes : (item : String) → Bool → Kube Page
  handle_kubernetes item encodes = do
    r ← get_clusters connect
    pure (if item == "clusters" then table_page encodes r else list_page encodes r)

  -- Where a cluster that can be connected to fails to answer, a request for the clusters gets
  -- status 500 with its error, and a request for any other item gets a list of a nil table and no
  -- error.
  pub handle_kubernetes-fails :
      (before : Dict Cluster) (key : String) (c : Cluster) (rest : Dict Cluster)
      (a : ClusterAnswers) (message : String)
      → AllAnswer connect before
      → connect c.kube_config ≡ some a
      → cluster_info a ≡ failed message
      → ((handle_kubernetes "clusters" true (some (before ++ (key, c) ∷ rest))).0
          ≡ returns (error_page 500 ("Error Detected" <> message)))
        × ((item : String)
            → item ≢ "clusters"
            → (handle_kubernetes item true (some (before ++ (key, c) ∷ rest))).0
              ≡ returns (clusters_list none))
  unfolding handle_kubernetes
  handle_kubernetes-fails before key c rest a message all e f =
      let run = get_clusters-fails connect before key c rest a message all e f in
      (rw run refl, λ item other. rw run (ground (arith, eq_iff item "clusters")))
