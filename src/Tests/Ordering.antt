-- ===== src/Tests/Ordering.antt =====
-- Two clusters in either order.
use o2_ims_worker.Prelude.{String, ◌≡◌, refl, arith, eq_iff, some, none, List, [], ◌∷◌}
use o2_ims_worker.Prelude.Dict.{Dict, lookup}
use o2_ims_worker.World.{ClusterNode}
use o2_ims_worker.Filedata.{node_of}
use o2_ims_worker.Kubernetes.{table_of}
use o2_ims_worker.Kubernetes.Order.{init_clusters, SameMap, init_clusters-SameMap}
use o2_ims_worker.Tests.World.{first_row, second_row}
use o2_ims_worker.Tests.Clusters.{join}

abbrev forwards : Dict (List ClusterNode)
forwards = ("edge", node_of first_row ∷ []) ∷ ("core", node_of second_row ∷ []) ∷ []

abbrev backwards : Dict (List ClusterNode)
backwards = ("core", node_of second_row ∷ []) ∷ ("edge", node_of first_row ∷ []) ∷ []

swapped : SameMap forwards backwards
unfolding lookup
swapped key = ground (arith, eq_iff "edge" key, eq_iff "core" key, eq_iff "edge" "core")

absent_key : lookup "edge" (("core", node_of second_row ∷ []) ∷ []) ≡ none
unfolding lookup
absent_key = refl

absent_other : lookup "core" (("edge", node_of first_row ∷ []) ∷ []) ≡ none
unfolding lookup
absent_other = refl

no_key : (key : String) → lookup {V = List ClusterNode} key [] ≡ none
unfolding lookup
no_key key = refl

init_clusters-SameMap_example :
    SameMap
      (table_of (init_clusters (some join) forwards none).1)
      (table_of (init_clusters (some join) backwards none).1)
init_clusters-SameMap_example =
    init_clusters-SameMap join forwards backwards none none (absent_key, (no_key "core", tt))
      (absent_other, (no_key "edge", tt)) swapped (λ key. refl)
