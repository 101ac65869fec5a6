-- ===== src/Http/Ansible.antt =====
-- internal/http/server.go: the handlers of /ansible and /ansible-token.
pub mod Joins
use o2_ims_worker.Prelude.{
  ℕ, String, ◌<>◌, ◌==◌, Bool, Option, none, some, List, [], ◌∷◌, if◌then◌else◌,
}
use o2_ims_worker.Prelude.Dict.{Dict, lookup}
use o2_ims_worker.Prelude.Exec.{Outcome, returns, panics, exits, pure, panic, ◌>>=◌}
use o2_ims_worker.World.{World, Client}
use o2_ims_worker.Filedata.{gather}
use o2_ims_worker.Kubernetes.{Cluster, ClusterInfo, NodeInfo, Result, failed, given, get_clusters}
use o2_ims_worker.Ansible.{Creds, Play}
use o2_ims_worker.Ansible.Playbook.{Runner, NodeObj, Installed, fetch_token, populate}
use o2_ims_worker.System.{System, Sys, in_world, in_clusters}

-- `HTTPError`
pub record HttpError : Type 0 where
  pub error : String
  pub message : String

-- What the handlers write: nothing, an `HTTPError` with status 500, `http.Error`, or a value.
pub data Answer : Type 0 where
  silent : Answer
  error_json : HttpError → Answer
  error_text : (status : ℕ) → String → Answer
  creds_json : Creds → Answer
  results_json : Option (List Play) → Answer

abbrev pub server_error : String → Answer
server_error message = error_json (record { error = "InternalServerError"; message = message })

-- The error that encoding an answer gives, if it does.
abbrev pub or_error : Answer → (String → Answer) → Option String → Answer
or_error answer on_error none = answer
or_error answer on_error (some message) = on_error message

abbrev pub token_answer : Option String → Result Creds → Answer
token_answer encodes (failed message) = server_error message
token_answer encodes (given creds) = or_error (creds_json creds) server_error encodes

-- The innermost loop of `handleAnsible`: the system and the MAC address of the last client whose
-- machine has the address.
abbrev pub dumped : Client → String × String → String × String
dumped c before = (c.machine_object.os_type, c.mac_address)

unfoldable pub owner_of : String → Dict Client → String × String → String × String
owner_of ip [] before = before
owner_of ip ((key, c) ∷ rest) before =
    owner_of ip rest (if c.machine_object.ip == ip then dumped c before else before)

abbrev pub node_obj : Dict Client → NodeInfo → NodeObj
node_obj clients n = record {
  name = (owner_of n.internal_ip clients ("", "")).0;
  ip = n.internal_ip;
  mac = (owner_of n.internal_ip clients ("", "")).1;
  role = "control-plane";
}

-- The loop over a node's roles.
unfoldable pub choose_role : Dict Client → NodeInfo → List String → NodeObj → NodeObj
choose_role clients n [] chosen = chosen
choose_role clients n (role ∷ roles) chosen =
    choose_role clients n roles (if role == "control-plane" then node_obj clients n else chosen)

-- The loop over the cluster's nodes.
unfoldable pub choose_node : Dict Client → List NodeInfo → NodeObj → NodeObj
choose_node clients [] chosen = chosen
choose_node clients (n ∷ nodes) chosen =
    choose_node clients nodes (choose_role clients n n.roles chosen)

-- The zero value of `nodeObj`.
abbrev pub no_node : NodeObj
no_node = record { name = ""; ip = ""; mac = ""; role = "" }

-- `clusterDump.Cluster[cluster].Info.Nodes`, `none` where one of the pointers is nil.
abbrev pub info_in : Option Cluster → Option ClusterInfo
info_in none = none
info_in (some c) = c.info

abbrev pub info_of : String → Result (Dict Cluster) → Option ClusterInfo
info_of cluster (failed message) = none
info_of cluster (given table) = info_in (lookup cluster table)

module _ (r : Runner) where
  unfoldable pub token_for : (mac : String) → (encodes : Option String) → Option Client → Sys Answer
  token_for mac encodes none = pure (server_error "Object not exist")
  token_for mac encodes (some c) = do
    token ← fetch_token r c.offer_ip c.os_type mac
    pure (token_answer encodes token)

  -- `handleAnsibleFetchToken`; `encodes` is the error of encoding the token, if there is one.
  unfoldable pub handle_ansible_fetch_token :
      (mac : String) → (encodes : Option String) → Sys Answer
  unfolding gather token_for
  handle_ansible_fetch_token mac encodes =
      if mac == ""
      then pure silent
      else (in_world gather >>= λ clients. token_for mac encodes (lookup mac clients))

  abbrev pub results_answer : Option String → Installed → Answer
  results_answer encodes i =
      or_error (results_json i.0) (λ message. error_text 500 ("Exec Error" <> message)) encodes

  -- `handleAnsible` from `clusterDump` on; the error of `Populate` is overwritten.
  unfoldable pub install :
      String → Client → Dict Client → Option String → Option ClusterInfo → Sys Answer
  install mac c clients encodes none = panic "nil pointer dereference"
  install mac c clients encodes (some info) =
      populate r c.offer_ip mac c.os_type c.machine_object.template
        (choose_node clients info.nodes no_node)
      >>= λ installed. pure (results_answer encodes installed)

  -- `value.GetMachines()` comes before the test of `value` for nil.
  unfoldable pub install_for :
      (mac : String) → Dict Client → (encodes : Option String) → Option Client → Sys Answer
  unfolding install
  install_for mac clients encodes none = panic "nil pointer dereference"
  install_for mac clients encodes (some c) = do
    dump ← in_clusters (get_clusters r.connect)
    install mac c clients encodes (info_of c.machine_object.cluster dump)

  -- `handleAnsible`
  unfoldable pub handle_ansible : (mac : String) → (encodes : Option String) → Sys Answer
  unfolding gather install_for
  handle_ansible mac encodes =
      if mac == ""
      then pure silent
      else (in_world gather >>= λ clients. install_for mac clients encodes (lookup mac clients))
