-- ===== src/Filedata/Clusters.antt =====
-- The clusters that `Populate` hands to the background work.
use mathlib.Core.List.{append_assoc, append-nil}
use o2_ims_worker.Prelude.{
  String, ◌==◌, ◌≡◌, ◌≢◌, ◌∙◌, refl, some, List, [], ◌∷◌, ◌++◌, arith, eq_iff, if◌then◌else◌,
}
use o2_ims_worker.Prelude.Dict.{Dict, lookup, lookup-nil, lookup-insert}
use o2_ims_worker.Prelude.Text.{split_on}
use o2_ims_worker.World.{Host, World, Row, ClusterNode}
use o2_ims_worker.Seeds.Works.{Works}
use o2_ims_worker.Filedata.{
  clients_csv, row_of, node_of, nodes_in, add_node, add_row, Tables, no_tables, data_lines,
  populate,
}
use o2_ims_worker.Filedata.Loaded.{AreRows, machine_for, tables_of, populate-returns}

-- The nodes of the rows that name a cluster, in the order of the rows.
unfoldable pub members : String → List Row → List ClusterNode
members c [] = []
members c (r ∷ rs) = let rest = members c rs in if r.cluster == c then node_of r ∷ rest else rest

nodes_in-add_node :
    (c : String) (r : Row) (clusters : Dict (List ClusterNode))
    → nodes_in (lookup c (add_node r clusters)) ≡ (
        if r.cluster == c
        then nodes_in (lookup c clusters) ++ node_of r ∷ []
        else nodes_in (lookup c clusters))
unfolding add_node
nodes_in-add_node c r clusters = ground (
  arith,
  lookup-insert r.cluster c (nodes_in (lookup r.cluster clusters) ++ node_of r ∷ []) clusters,
  eq_iff r.cluster c,
)

nodes_in-tables_of :
    (c : String) (rows : List Row) (t : Tables)
    → nodes_in (lookup c (tables_of rows t).clusters)
      ≡ nodes_in (lookup c t.clusters) ++ members c rows
unfolding tables_of members
nodes_in-tables_of c [] t = ground (arith, append-nil (nodes_in (lookup c t.clusters)))
nodes_in-tables_of c (r ∷ rs) t = ground (
  arith,
  nodes_in-tables_of c rs (add_row r (machine_for r) t),
  nodes_in-add_node c r t.clusters,
  append_assoc (nodes_in (lookup c t.clusters)) (node_of r ∷ []) (members c rs),
)

row-claimed : (parts : List String) (r : Row) → row_of parts ≡ some r → r.cluster ≢ ""
unfolding row_of
row-claimed (ip ∷ mac ∷ file_url ∷ os ∷ cluster ∷ template ∷ role ∷ rest) r e =
    ground (arith, eq_iff cluster "", eq_iff "unclaimed" "")
row-claimed _ r e = absurd (cc)

-- No row is in the cluster without a name.
members-unnamed :
    (lines : List String) (rows : List Row) → AreRows lines rows → members "" rows ≡ []
unfolding members
members-unnamed [] [] e = refl
members-unnamed [] (r ∷ rows) e = absurd (cc)
members-unnamed (line ∷ lines) [] e = refl
members-unnamed (line ∷ lines) (r ∷ rows) e = ground (
  arith,
  members-unnamed lines rows (cc),
  row-claimed (split_on b',' line) r (cc),
  eq_iff r.cluster "",
)

-- On a host where nothing fails, a file whose lines below the first one are all rows: `Populate`
-- hands one table of clusters to the background work. Under each name it has the nodes of the rows
-- that name that cluster, in the order of the file, and there is no cluster without a name.
pub populate-clusters :
    (h : Host)
    → Works h
    → (w : World) (rows : List Row) → AreRows (data_lines (lookup clients_csv w.fs.files)) rows
    → (clusters : Dict (List ClusterNode)) × ((populate h w).1.background
        ≡ w.background ++ clusters ∷ [])
      × ((c : String) → nodes_in (lookup c clusters) ≡ members c rows)
      × (nodes_in (lookup "" clusters) ≡ [])
populate-clusters h k w rows given =
    let collected : (c : String)
        → nodes_in (lookup c (tables_of rows no_tables).clusters) ≡ members c rows =
      λ c.
        ground (arith, nodes_in-tables_of c rows no_tables, lookup-nil {V = List ClusterNode} c) in
    (
      (tables_of rows no_tables).clusters,
      (populate-returns h k w rows given).2,
      collected,
      collected "" ∙ members-unnamed _ rows given,
    )
