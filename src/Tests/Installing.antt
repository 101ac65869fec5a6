-- ===== src/Tests/Installing.antt =====
-- The installation of a worker by /ansible.
use o2_ims_worker.Prelude.{
  String, ◌≡◌, refl, ap, ◌==◌, true, false, none, some, [], ◌∷◌, arith, eq_iff,
}
use o2_ims_worker.Prelude.Lists.{any}
use o2_ims_worker.Prelude.Dict.{Dict, lookup, insert}
use o2_ims_worker.Prelude.Exec.{returns, OnReturn, pure, ◌>>=◌}
use o2_ims_worker.World.{Client}
use o2_ims_worker.Filedata.{new_client}
use o2_ims_worker.Kubernetes.{
  Cluster, NodeInfo, given, parse_node, roles_in, internal_ip_of, refresh, get_clusters,
  cluster_info, collect, pods, events,
}
use o2_ims_worker.Ansible.Playbook.{
  NodeObj, fetch_token, populate, command, files_of, worker_file, key_file, text_or_none,
}
use o2_ims_worker.Ansible.Temps.{equipped}
use o2_ims_worker.Ansible.Tokens.{fetch_token-assigns}
use o2_ims_worker.Ansible.Install.{IsUnread, installed_by, populate-joins, populate-OnReturn}
use o2_ims_worker.System.{System}
use o2_ims_worker.Http.Ansible.{results_answer, info_of, handle_ansible}
use o2_ims_worker.Http.Ansible.Joins.{
  IsMaster, IsSilentOn, handle_ansible-joins, handle_ansible-IsSilentOn,
}
use o2_ims_worker.Tests.Clusters.{edge, join, connect, core_node, info, no_failure}
use o2_ims_worker.Tests.Tokens.{
  creds, extracted, results, answering, runner, system, temps_of, run_of,
}

abbrev node : NodeObj
node = record { name = "debian"; ip = "192.168.99.10"; mac = "aa:bb"; role = "control-plane" }

abbrev before : System
before = system answering

abbrev after : System
after = (fetch_token runner node.ip node.name node.mac before).1

fetched : fetch_token runner node.ip node.name node.mac before ≡ (returns (given creds), after)
fetched =
    ap (λ o. (o, after))
      (fetch_token-assigns runner node.ip node.name node.mac before results creds (run_of answering)
        answering refl no_failure extracted).0

worker_found : lookup worker_file (files_of before) ≡ some "join"
unfolding lookup
worker_found = refl

populate-joins_example :
    (vars : Dict String) × ((populate runner "192.168.99.11" "cc:dd" "ubuntu" "k3s-worker" node
        before).0
      ≡ installed_by runner (
          runner.execute
            (insert "ANSIBLE_HOST_KEY_CHECKING" "False" after.environment)
            (command "/tmp/1-playbook-*.yaml" "192.168.99.11" "ubuntu" "/tmp/1-id_ed25519-*" vars)
            (equipped runner after "join"
              (text_or_none (lookup key_file (files_of before)))
              (temps_of after "join")).world.fs))
    × (lookup "server" vars ≡ some creds.server)
    × (lookup "token" vars ≡ some creds.token)
    × (lookup "target_mac" vars ≡ some "cc:dd")
populate-joins_example =
    populate-joins runner "192.168.99.11" "cc:dd" "ubuntu" node before after creds "join"
      (temps_of after "join") join refl worker_found fetched

populate-OnReturn_example :
    OnReturn
      (IsUnread runner)
      (populate runner "192.168.99.11" "cc:dd" "ubuntu" "k3s-master" node before).0
populate-OnReturn_example =
    populate-OnReturn runner "192.168.99.11" "cc:dd" "ubuntu" "k3s-master" node before

abbrev server : Client
server = record (new_client "192.168.99.10" "aa:bb" "debian") {
  machine_object = record (new_client "192.168.99.10" "aa:bb" "debian").machine_object {
    ip = "192.168.99.10";
    os_type = "debian";
  };
}

abbrev worker : Client
worker = record (new_client "192.168.99.11" "cc:dd" "ubuntu") {
  machine_object = record (new_client "192.168.99.11" "cc:dd" "ubuntu").machine_object {
    ip = "192.168.99.11";
    cluster = "edge";
    template = "k3s-worker";
  };
}

abbrev clients : Dict Client
clients = ("aa:bb", server) ∷ ("cc:dd", worker) ∷ []

abbrev known : Cluster
known = record edge { ready = true; info = some info }

abbrev serving : System
serving = record (system (("edge", known) ∷ [])) {
  world = record (system []).world { clients = some clients };
}

abbrev master : NodeInfo
master = parse_node core_node

asked :
    get_clusters connect (some (("edge", known) ∷ []))
    ≡ (returns (given (("edge", known) ∷ [])), some (("edge", known) ∷ []))
unfolding get_clusters refresh cluster_info collect pods events
asked = refl

is_control : any (λ role. role == "control-plane") master.roles ≡ true
unfolding parse_node roles_in
is_control = refl

owns : (server.machine_object.ip == master.internal_ip) ≡ true
unfolding parse_node internal_ip_of
owns = refl

not_owned : (worker.machine_object.ip == master.internal_ip) ≡ false
unfolding parse_node internal_ip_of
not_owned = refl

worker_known : lookup "cc:dd" clients ≡ some worker
unfolding lookup
worker_known = refl

info_known : info_of "edge" (given (("edge", known) ∷ [])) ≡ some info
unfolding lookup
info_known = refl

abbrev is_master_here : IsMaster clients info.nodes master server
is_master_here = record {
  earlier = [];
  later = [];
  in_nodes = refl;
  controls = is_control;
  last = tt;
  front = [];
  key = "aa:bb";
  back = ("cc:dd", worker) ∷ [];
  in_clients = refl;
  owns = owns;
  last_owner = (not_owned, tt);
}

handle_ansible-joins_example :
    handle_ansible runner "cc:dd" none serving
    ≡ (populate runner "192.168.99.11" "cc:dd" "ubuntu" "k3s-worker" (record {
      name = "debian";
      ip = master.internal_ip;
      mac = "aa:bb";
      role = "control-plane";
    })
          >>= λ installed. pure (results_answer runner none installed))
        serving
handle_ansible-joins_example =
    handle_ansible-joins runner "cc:dd" none serving clients refl
      (ground (arith, eq_iff "cc:dd" "")) worker server master (("edge", known) ∷ []) info
      worker_known asked info_known is_master_here

handle_ansible-IsSilentOn_example :
    OnReturn (IsSilentOn runner) (handle_ansible runner "cc:dd" none serving).0
handle_ansible-IsSilentOn_example = handle_ansible-IsSilentOn runner "cc:dd" serving
