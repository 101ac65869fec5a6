-- ===== src/Tests/Background.antt =====
-- Events of a process that loads its file.
use o2_ims_worker.Prelude.{◌≡◌, refl, ap, true, false, List, [], ◌∷◌}
use o2_ims_worker.Prelude.Dict.{Dict, insert, lookup}
use o2_ims_worker.World.{ClusterNode}
use o2_ims_worker.Filedata.{node_of, populate, add_node}
use o2_ims_worker.Filedata.Loaded.{populate-returns, tables_of}
use o2_ims_worker.Kubernetes.Endpoint.{handle_kubernetes}
use o2_ims_worker.System.{in_clusters}
use o2_ims_worker.System.Background.{Process, has_panicked, loops_of, loop, start_cluster, join_of}
use o2_ims_worker.System.Reach.{
  Happens, nothing_yet, then_event, background, first_load, unrecovered, serve_kubernetes,
  with_system, with_world, boot_process, IsSettled, Happens-IsSettled,
}
use o2_ims_worker.Tests.World.{host, works, start, disk, rows, first_row, second_row, third_row}
use o2_ims_worker.Tests.Loading.{rows_given}
use o2_ims_worker.Tests.Tokens.{runner}

abbrev pub loaded : Process
loaded = with_world (populate host start).1 (boot_process disk)

abbrev handed : Dict (List ClusterNode)
handed =
    ("unclaimed", node_of first_row ∷ [])
    ∷ ("edge", node_of second_row ∷ node_of third_row ∷ [])
    ∷ []

pub loaded_loops : loops_of loaded ≡ handed ∷ []
unfolding insert lookup tables_of add_node
loaded_loops = (populate-returns host works start rows rows_given).2

-- The first load, which does not panic.
abbrev started : Process
started = unrecovered (populate host start) (boot_process disk)

alive : started.crashed ≡ false
alive = ap has_panicked (populate-returns host works start rows rows_given).0

-- The loop of the loaded process has begun.
abbrev begun : Process
begun =
    start_cluster runner "unclaimed" (node_of first_row ∷ [])
      ((("edge", node_of second_row ∷ node_of third_row ∷ []) ∷ []) ∷ []) started

-- Then a client asks for the clusters.
abbrev asked : Process
asked =
    with_system begun
      (in_clusters (handle_kubernetes runner.connect "clusters" true) begun.system).1

settled_run : Happens host runner (boot_process disk) asked
settled_run =
    then_event
      (then_event (then_event nothing_yet (first_load refl)) (
        background begun (
          loop [] [] "unclaimed" (node_of first_row ∷ [])
            (("edge", node_of second_row ∷ node_of third_row ∷ []) ∷ []) alive loaded_loops refl)))
      (serve_kubernetes "clusters" true alive)

Happens-IsSettled_example : IsSettled (join_of runner.join) asked.system
Happens-IsSettled_example = Happens-IsSettled host runner disk asked settled_run
