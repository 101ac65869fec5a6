-- ===== src/Kubernetes/Order.antt =====
-- internal/db/file.go lines 220-224, the calls of `InitCluster` by one loop over a map, and the order
-- of the range, which Go does not fix.
use o2_ims_worker.Prelude.{
  String, ◌==◌, ◌≡◌, ◌∙◌, refl, sym, ap, Option, none, some, List, [], ◌∷◌, arith, eq_iff,
  Bool-cases, inl, inr,
}
use mathlib.Core.Path.{subst}
use text.Mathlib.TextPositions.{eq_refl}
use o2_ims_worker.Prelude.Dict.{Dict, lookup}
use o2_ims_worker.Prelude.Exec.{pure, ◌>>◌}
use o2_ims_worker.World.{ClusterNode}
use o2_ims_worker.Kubernetes.{Cluster, Kube, table_of, init_cluster}
use o2_ims_worker.Kubernetes.Table.{last_master, master_or, init_cluster-lookup}

-- The loop over the clusters, without the goroutines that it starts.
unfoldable pub init_clusters : Option (String → String) → Dict (List ClusterNode) → Kube Unit
init_clusters o [] = pure tt
init_clusters o ((id, nodes) ∷ rest) = do init_cluster o id nodes; init_clusters o rest

-- A list of entries that can stand for a map: no key is there twice.
abbrev pub IsMap {ℓ} : {V : Type ℓ} → Dict V → Type ℓ
IsMap [] = Unit
IsMap ((key, v) ∷ rest) = (lookup key rest ≡ none) × IsMap rest

-- The same map, whatever the order of the entries.
abbrev pub SameMap {ℓ} : {V : Type ℓ} → Dict V → Dict V → Type ℓ
SameMap d e = (key : String) → lookup key d ≡ lookup key e

abbrev visited :
    (String → String) → String → Option (List ClusterNode) → Option Cluster → Option Cluster
visited join id none old = old
visited join id (some nodes) old = master_or join id nodes (last_master nodes) old

module _ (join : String → String) where
  init_cluster-hit :
      (id : String) (nodes : List ClusterNode) (s : Option (Dict Cluster))
      → lookup id (table_of (init_cluster (some join) id nodes s).1)
        ≡ master_or join id nodes (last_master nodes) (lookup id (table_of s))
  init_cluster-hit id nodes s =
      ground (arith, (init_cluster-lookup join id nodes s).1 id, eq_iff id id)

  init_clusters-lookup :
      (l : Dict (List ClusterNode)) (s : Option (Dict Cluster)) (c : String)
      → IsMap l
      → lookup c (table_of (init_clusters (some join) l s).1)
        ≡ visited join c (lookup c l) (lookup c (table_of s))
  unfolding init_clusters lookup init_cluster
  init_clusters-lookup [] s c m = refl
  init_clusters-lookup ((id, nodes) ∷ rest) s c m =
      let later = init_clusters-lookup rest (init_cluster (some join) id nodes s).1 in
      elim (Bool-cases (id == c)) [
        | inl e ↦
            let same : id ≡ c = ground (arith, eq_iff id c, e) in
            subst
              (λ x.
                lookup x (table_of (init_clusters (some join) ((id, nodes) ∷ rest) s).1)
                ≡ visited join x (lookup x ((id, nodes) ∷ rest)) (lookup x (table_of s)))
              same
              (rw (eq_refl id) (
                later id m.1
                ∙ ap
                    (λ o.
                      visited join id o
                        (lookup id (table_of (init_cluster (some join) id nodes s).1)))
                    m.0
                ∙ init_cluster-hit id nodes s))
        | inr e ↦ rw e (
            later c m.1
            ∙ ap (visited join c (lookup c rest))
                ((init_cluster-lookup join id nodes s).1 c ∙ rw e refl))
      ]

  -- Two lists of clusters that stand for one map, and two tables that do: the calls of `InitCluster`
  -- for either list, in its order, leave tables that stand for one map.
  pub init_clusters-SameMap :
      (l k : Dict (List ClusterNode)) (s t : Option (Dict Cluster))
      → IsMap l
      → IsMap k
      → SameMap l k
      → SameMap (table_of s) (table_of t)
      → SameMap
          (table_of (init_clusters (some join) l s).1)
          (table_of (init_clusters (some join) k t).1)
  init_clusters-SameMap l k s t ml mk same tables c =
      init_clusters-lookup l s c ml
      ∙ rw (same c) (rw (tables c) refl)
      ∙ sym (init_clusters-lookup k t c mk)
