-- ===== src/Tests/Tokens.antt =====
-- A host with ansible whose runs succeed, the results of its token playbook, and the clusters that
-- they reach.
use o2_ims_worker.Prelude.{
  String, ◌<>◌, ◌==◌, ◌≡◌, refl, Option, none, some, List, [], ◌∷◌, if◌then◌else◌,
}
use o2_ims_worker.Prelude.Dict.{Dict, lookup}
use o2_ims_worker.Prelude.Exec.{returns, panics}
use o2_ims_worker.Kubernetes.{Cluster, given, table_of}
use o2_ims_worker.Kubernetes.Table.{nobody}
use o2_ims_worker.Ansible.{
  Creds, Play, no_msg, text_msg, creds_in_task, creds_in_play, extract_creds,
}
use o2_ims_worker.Ansible.Extraction.{all_msgs, IsFirst, extract_creds-IsFirst}
use o2_ims_worker.Ansible.Playbook.{
  Runner, files_of, playbook_file, master_file, worker_file, key_file, fetch_token,
}
use o2_ims_worker.Ansible.Temps.{Temps, ready, fetch_token-cleans}
use o2_ims_worker.Ansible.Tokens.{IsGiven, IsRun, fetch_token-assigns, fetch_token-panics}
use o2_ims_worker.System.{System}
use o2_ims_worker.Tests.World.{start}
use o2_ims_worker.Tests.Clusters.{
  join, edge, broken, absent, unhealthy, connect, unhealthy_info, no_failure,
}

abbrev pub creds : Creds
creds = record { server = "https://192.168.99.10:6443"; token = "t0" }

-- The text "partial" parses to credentials without a token.
abbrev parse : String → Option Creds
parse s =
    if s == "full"
    then some creds
    else if s == "partial"
    then some (record creds { token = "" })
    else none

abbrev pub results : List Play
results = ((no_msg ∷ []) ∷ (text_msg "partial" ∷ text_msg "full" ∷ []) ∷ []) ∷ []

pub extracted : extract_creds parse results ≡ some creds
unfolding extract_creds creds_in_play creds_in_task
extracted = refl

extract_creds-IsFirst_example : IsFirst parse creds (all_msgs results)
extract_creds-IsFirst_example = extract_creds-IsFirst parse results creds extracted

-- Each pattern names one temporary file, every run writes the same, and an empty output has no plays.
abbrev pub runner : Runner
runner = record {
  open_error = λ fs path. "open " <> path <> ": no such file or directory";
  temp_name = λ fs pattern. some ("/tmp/1-" <> pattern);
  stored = λ fs name text. text;
  execute = λ env c fs. some (record { fs = fs; error = none; output = "output" });
  parse_results = λ output. if output == "" then some [] else some results;
  parse_creds = parse;
  join = given join;
  connect = connect;
}

abbrev files : Dict String
files =
    (playbook_file, "fetch")
    ∷ (worker_file, "join")
    ∷ (master_file, "serve")
    ∷ (key_file, "secret")
    ∷ []

abbrev pub system : Dict Cluster → System
system table = record {
  world = record start { fs = record { files = files; dirs = [] } };
  clusters = some table;
  environment = [];
}

abbrev pub answering : Dict Cluster
answering = ("edge", edge) ∷ ("absent", absent) ∷ []

abbrev failing : Dict Cluster
failing = ("broken", broken) ∷ ("edge", edge) ∷ []

pub playbook_found :
    (table : Dict Cluster) → lookup playbook_file (files_of (system table)) ≡ some "fetch"
unfolding lookup
playbook_found table = refl

abbrev pub temps_of : (s : System) (playbook : String) → Temps runner s playbook
temps_of s playbook = record {
  playbook_name = "/tmp/1-playbook-*.yaml";
  key_name = "/tmp/1-id_ed25519-*";
  makes_playbook = refl;
  makes_key = refl;
}

abbrev pub run_of :
    (table : Dict Cluster) → IsRun runner "192.168.99.10" "debian" "aa:bb" (system table) results
run_of table = record {
  playbook = "fetch";
  found = playbook_found table;
  temps = temps_of (system table) "fetch";
  ran = record {
    fs =
        (ready runner "192.168.99.10" "debian" "aa:bb" (system table) "fetch"
          (temps_of (system table) "fetch")).world.fs;
    error = none;
    output = "output";
  };
  ends = refl;
  succeeds = refl;
  parses = refl;
}

fetch_token-assigns_example :
    ((fetch_token runner "192.168.99.10" "debian" "aa:bb" (system answering)).0
      ≡ returns (given creds))
    × ((id : String) (c : Cluster)
        → lookup id answering ≡ some c
        → (c' : Cluster) × (lookup id (
              table_of
                (fetch_token runner "192.168.99.10" "debian" "aa:bb" (system answering)).1.clusters)
            ≡ some c')
          × IsGiven "aa:bb" creds id c c')
fetch_token-assigns_example =
    fetch_token-assigns runner "192.168.99.10" "debian" "aa:bb" (system answering) results creds
      (run_of answering) answering refl no_failure extracted

fetch_token-panics_example :
    (fetch_token runner "192.168.99.10" "debian" "aa:bb" (system failing)).0
    ≡ panics "nil pointer dereference"
fetch_token-panics_example =
    fetch_token-panics runner "192.168.99.10" "debian" "aa:bb" (system failing) results creds
      (run_of failing) [] "broken" broken (("edge", edge) ∷ []) unhealthy
      "[FAIL] server version: timeout" refl nobody refl unhealthy_info extracted

fetch_token-cleans_example :
    (lookup "/tmp/1-playbook-*.yaml"
        (files_of (fetch_token runner "192.168.99.10" "debian" "aa:bb" (system failing)).1)
      ≡ none)
    × (lookup "/tmp/1-id_ed25519-*"
          (files_of (fetch_token runner "192.168.99.10" "debian" "aa:bb" (system failing)).1)
        ≡ none)
fetch_token-cleans_example =
    fetch_token-cleans runner "192.168.99.10" "debian" "aa:bb" (system failing) "fetch"
      (temps_of (system failing) "fetch") (playbook_found failing)
      (rw fetch_token-panics_example (λ e. e))
