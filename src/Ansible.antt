-- ===== src/Ansible.antt =====
-- internal/ansible/ansible.go: the credentials in a playbook's results, and the tokens of clusters.
pub mod Extraction
pub mod Playbook
pub mod Temps
pub mod Install
pub mod Tokens
use o2_ims_worker.Prelude.{
  String, ◌==◌, ◌&&◌, Bool, true, false, not, Option, none, some, List, [], ◌∷◌, map, if◌then◌else◌,
}
use o2_ims_worker.Prelude.Lists.{any}
use o2_ims_worker.Prelude.Dict.{Dict}
use o2_ims_worker.Prelude.Exec.{Exec, pure, panic, ◌>>=◌}
use o2_ims_worker.World.{ClusterNode}
use o2_ims_worker.Kubernetes.{Cluster, ClusterAnswers, Result, failed, given, Kube, get_clusters}

-- `K3sCreds`
pub record Creds : Type 0 where
  pub server : String
  pub token : String

-- The message of a host: nil, a text, or another value.
pub data Msg : Type 0 where
  no_msg : Msg
  text_msg : String → Msg
  other_msg : Msg

-- The messages of the hosts by play and task, in the order in which the loops visit them.
abbrev pub Task : Type 0
Task = List Msg

abbrev pub Play : Type 0
Play = List Task

-- Credentials with both of their parts.
abbrev pub complete : Option Creds → Option Creds
complete none = none
complete (some c) = if not (c.server == "") && not (c.token == "") then some c else none

-- The first that is found, else the second.
abbrev pub or_else {ℓ} : {A : Type ℓ} → Option A → Option A → Option A
or_else none o = o
or_else (some a) o = some a

-- `parse` is `json.Unmarshal` into `K3sCreds`, `none` where it gives an error.
module _ (parse : String → Option Creds) where
  -- The body of the innermost loop of `extractCreds`; `none` is its `continue`, or the end.
  abbrev pub creds_in : Msg → Option Creds
  creds_in no_msg = none
  creds_in other_msg = none
  creds_in (text_msg s) = if s == "" then none else complete (parse s)

  unfoldable pub creds_in_task : Task → Option Creds
  creds_in_task [] = none
  creds_in_task (host ∷ hosts) = or_else (creds_in host) (creds_in_task hosts)

  unfoldable pub creds_in_play : Play → Option Creds
  creds_in_play [] = none
  creds_in_play (task ∷ tasks) = or_else (creds_in_task task) (creds_in_play tasks)

  -- `extractCreds`; `none` is its error.
  unfoldable pub extract_creds : List Play → Option Creds
  extract_creds [] = none
  extract_creds (play ∷ plays) = or_else (creds_in_play play) (extract_creds plays)

abbrev pub has_node : String → List ClusterNode → Bool
has_node mac nodes = any (λ n. n.node == mac) nodes

-- One turn of the loop over the clusters of `FetchToken`.
abbrev pub with_token : String → Creds → String → Cluster → Cluster
with_token mac creds key c =
    if key == "unclaimed"
    then c
    else if has_node mac c.nodes
    then record c { token = creds.token; api_endpoint = creds.server }
    else c

unfoldable pub assign_token : String → Creds → Dict Cluster → Dict Cluster
assign_token mac creds [] = []
assign_token mac creds ((key, c) ∷ rest) =
    (key, with_token mac creds key c) ∷ assign_token mac creds rest

-- `getClusters.Cluster` is read whatever the error was; beside an error the pointer is nil.
unfoldable pub store_token : String → Creds → Result (Dict Cluster) → Kube (Result Creds)
store_token mac creds (failed message) s = panic "nil pointer dereference" s
store_token mac creds (given table) s = pure (given creds) (some (assign_token mac creds table))

module _ (connect : String → Option ClusterAnswers) (parse : String → Option Creds) where
  -- `FetchToken` after the run, from `extractCreds` on.
  unfoldable pub use_results : String → Option (List Play) → Kube (Result Creds)
  use_results mac none s = panic "nil pointer dereference" s
  use_results mac (some results) s = elim (extract_creds parse results) [
    | none ↦ pure (failed "no valid k3s credentials found") s
    | some creds ↦ (get_clusters connect >>= λ r. store_token mac creds r) s
  ]
