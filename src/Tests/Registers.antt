-- ===== src/Tests/Registers.antt =====
-- The background work of a loaded file, to its end, on a host whose ansible runs all fail.
use o2_ims_worker.Prelude.{String, ◌≡◌, refl, false, some, [], ◌∷◌, Option-cases, inl, inr}
use o2_ims_worker.Prelude.Dict.{lookup}
use o2_ims_worker.World.{ClusterNode}
use o2_ims_worker.Filedata.{node_of}
use o2_ims_worker.Kubernetes.{Cluster, table_of}
use o2_ims_worker.Ansible.Playbook.{
  Runner, Ran, fetch_token, fetch_with, read_file, after_run, execute, playbook_file, files_of,
}
use o2_ims_worker.Ansible.Temps.{Temps, ready, fetch_token-run}
use o2_ims_worker.System.{System}
use o2_ims_worker.System.Background.{
  Process, Turns, loop, fetch, turn, done, start_cluster, fetch_node, work, loop_work, loops_work,
  has_panicked,
}
use o2_ims_worker.System.Reach.{boot_process}
use o2_ims_worker.System.Registers.{fetch_node-loops, Populate-registers}
use o2_ims_worker.Tests.World.{host, works, disk, first_row, second_row, third_row}
use o2_ims_worker.Tests.Loading.{rows_given}
use o2_ims_worker.Tests.Clusters.{join}
use o2_ims_worker.Tests.Tokens.{runner}
use o2_ims_worker.Tests.Background.{loaded, loaded_loops}

abbrev unreachable : Runner
unreachable = record runner {
  execute = λ env c fs. some (record { fs = fs; error = some "unreachable"; output = "" });
}

abbrev temps_at : (s : System) (playbook : String) → Temps unreachable s playbook
temps_at s playbook = record {
  playbook_name = "/tmp/1-playbook-*.yaml";
  key_name = "/tmp/1-id_ed25519-*";
  makes_playbook = refl;
  makes_key = refl;
}

abbrev ran_at : ClusterNode → System → String → Ran
ran_at n s playbook = record {
  fs = (ready unreachable n.ip n.os n.node s playbook (temps_at s playbook)).world.fs;
  error = some "unreachable";
  output = "";
}

alive :
    (n : ClusterNode) (s : System)
    → has_panicked (fetch_token unreachable n.ip n.os n.node s).0 ≡ false
unfolding fetch_token fetch_with read_file execute after_run
alive n s = elim (Option-cases (lookup playbook_file (files_of s))) [
  | inl e ↦ rw (e, read_file) refl
  | inr (playbook, e) ↦
      rw
        (fetch_token-run unreachable n.ip n.os n.node s playbook (temps_at s playbook)
          (ran_at n s playbook) refl e)
        refl
]

abbrev first : ClusterNode
first = node_of first_row

abbrev second : ClusterNode
second = node_of second_row

abbrev third : ClusterNode
third = node_of third_row

abbrev at_1 : Process
at_1 =
    start_cluster unreachable "unclaimed" (first ∷ []) ((("edge", second ∷ third ∷ []) ∷ []) ∷ [])
      loaded

abbrev at_2 : Process
at_2 = start_cluster unreachable "edge" (second ∷ third ∷ []) ([] ∷ []) at_1

abbrev at_3 : Process
at_3 = fetch_node unreachable first (second ∷ third ∷ []) at_2

abbrev at_4 : Process
at_4 = fetch_node unreachable second (third ∷ []) at_3

abbrev at_5 : Process
at_5 = fetch_node unreachable third [] at_4

five_turns : Turns unreachable 5 loaded at_5
five_turns =
    turn
      (loop [] [] "unclaimed" (first ∷ []) (("edge", second ∷ third ∷ []) ∷ []) refl loaded_loops
        refl)
      (turn (loop [] [] "edge" (second ∷ third ∷ []) [] refl refl refl) (
        turn (fetch [] first (second ∷ third ∷ []) refl refl refl) (
          turn (fetch [] second (third ∷ []) (alive first at_2.system) refl refl)
            (turn (fetch [] third [] (alive second at_3.system) refl refl) done))))

no_work : work at_5 ≡ 0
unfolding loops_work loop_work
no_work = rw (fetch_node-loops unreachable third [] at_4) (
    rw (fetch_node-loops unreachable second (third ∷ []) at_3)
      (rw (fetch_node-loops unreachable first (second ∷ third ∷ []) at_2) refl))

Populate-registers_example :
    (c : Cluster) × (lookup "unclaimed" (table_of at_5.system.clusters) ≡ some c)
Populate-registers_example =
    Populate-registers host unreachable join works refl (boot_process disk) at_5 5 [] first_row
      (second_row ∷ third_row ∷ []) rows_given refl five_turns no_work
