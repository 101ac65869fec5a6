-- ===== src/Tests/Loading.antt =====
-- `Populate` on the input file, and on one with a short line.
use o2_ims_worker.Prelude.{String, ◌≡◌, refl, map, List, none, some, [], ◌∷◌, arith}
use o2_ims_worker.Prelude.Dict.{Dict, lookup}
use o2_ims_worker.Prelude.Exec.{returns, Returns}
use o2_ims_worker.Prelude.Text.{split_on}
use o2_ims_worker.World.{ClusterNode, World}
use o2_ims_worker.Inventory.View.{machine_at, installed_at, fresh}
use o2_ims_worker.Filedata.{clients_csv, row_of, data_lines, nodes_in, no_tables, populate}
use o2_ims_worker.Filedata.Malformed.{populate-fails}
use o2_ims_worker.Filedata.Loaded.{
  AreRows, machine_for, client_for, last_row, entry_or, tables_of, register_all, populate-returns,
}
use o2_ims_worker.Filedata.Agreement.{populate-last_row}
use o2_ims_worker.Filedata.Clusters.{members, populate-clusters}
use o2_ims_worker.Worker.{boot}
use o2_ims_worker.Tests.World.{host, works, rows, third_row, start}

pub rows_given : AreRows (data_lines (lookup clients_csv start.fs.files)) rows
unfolding data_lines row_of split_on lookup
rows_given = refl

last_of_first : last_row "aa:bb" rows ≡ some third_row
unfolding last_row
last_of_first = refl

no_row : last_row "ee:ff" rows ≡ none
unfolding last_row
no_row = refl

populate-returns_example :
    ((populate host start).0 ≡ returns tt)
    × ((populate host start).1.clients ≡ some (tables_of rows no_tables).clients)
    × ((populate host start).1.background ≡ (tables_of rows no_tables).clusters ∷ [])
    × ((populate host start).1.inventory ≡ register_all rows (fresh []))
populate-returns_example = populate-returns host works start rows rows_given

populate-last_row_example :
    (lookup "aa:bb" (tables_of rows no_tables).clients
      ≡ entry_or client_for (last_row "aa:bb" rows) none)
    × (machine_at "aa:bb" (populate host start).1.inventory
        ≡ entry_or machine_for (last_row "aa:bb" rows) none)
    × (installed_at "aa:bb" (populate host start).1.inventory ≡ none)
populate-last_row_example =
    populate-last_row host works start rows rows_given (tables_of rows no_tables).clients
      (populate-returns host works start rows rows_given).1 "aa:bb"

-- The line that a registration writes, in the middle of the file.
abbrev short_text : String
short_text = "IP,MAC,File,OS,Cluster,Template,Role\n192.168.99.13,ee:ff,pxelinux.0,debian\n"

abbrev short_start : World
short_start = boot (record { files = (clients_csv, short_text) ∷ []; dirs = [] })

short_lines : data_lines (some short_text) ≡ "192.168.99.13,ee:ff,pxelinux.0,debian" ∷ []
unfolding data_lines
short_lines = refl

short_found : lookup clients_csv short_start.fs.files ≡ some short_text
unfolding lookup
short_found = refl

populate-fails_example :
    (¬ Returns (populate host short_start).0) × ((populate host short_start).1.clients ≡ none)
unfolding split_on
populate-fails_example =
    populate-fails host short_start short_text [] "192.168.99.13,ee:ff,pxelinux.0,debian" []
      short_found short_lines (omega arith)

populate-clusters_example :
    (clusters : Dict (List ClusterNode)) × ((populate host start).1.background ≡ clusters ∷ [])
    × ((c : String) → nodes_in (lookup c clusters) ≡ members c rows)
    × (nodes_in (lookup "" clusters) ≡ [])
populate-clusters_example = populate-clusters host works start rows rows_given

edge_members : map (λ n. n.node) (members "edge" rows) ≡ "cc:dd" ∷ "aa:bb" ∷ []
unfolding members
edge_members = refl
