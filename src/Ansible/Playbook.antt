-- ===== src/Ansible/Playbook.antt =====
-- internal/ansible/ansible.go: `writeTemp`, `FetchToken` and `Populate`, up to the runs of ansible.
use o2_ims_worker.Prelude.{String, ◌<>◌, ◌==◌, Option, none, some, List, [], ◌∷◌, if◌then◌else◌}
use o2_ims_worker.Prelude.Dict.{Dict, lookup, insert, remove}
use o2_ims_worker.Prelude.Exec.{pure, panic, stall, gets, modify, defer, ◌>>=◌, ◌>>◌}
use o2_ims_worker.World.{Fs}
use o2_ims_worker.Inventory.{mac_as_id}
use o2_ims_worker.Kubernetes.{ClusterAnswers, Result, failed, given}
use o2_ims_worker.Ansible.{Creds, Play, use_results}
use o2_ims_worker.System.{System, Sys, in_clusters, setenv}

-- `AnsiblePlaybookOptions` with the playbook.
pub record Command : Type 0 where
  pub playbook : String
  pub inventory : String
  pub user : String
  pub private_key : String
  pub ssh_extra_args : String
  pub become_method : String
  pub extra_vars : Dict String

-- A run of ansible: the files that it leaves, its error, and what it writes.
pub record Ran : Type 0 where
  pub fs : Fs
  pub error : Option String
  pub output : String

-- What the system and the libraries decide. `temp_name` is `os.CreateTemp`, `none` where it fails,
-- and `stored` what a temporary file holds once a text has been written to it. `execute` takes the
-- environment variables with the command; it is `none` where the run never ends, since nothing
-- limits its time. `parse_results` is the pointer that `ParseJSONResultsStream` returns, and
-- `parse_creds` is `json.Unmarshal` into `K3sCreds`. `join` is
-- `filepath.Join(cwd, "assets", "ansible", ·)`, or the error of `os.Getwd`; `connect` is `New` of
-- internal/kubernetes/kubernetes.go.
pub record Runner : Type 0 where
  pub open_error : Fs → String → String
  pub temp_name : Fs → String → Option String
  pub stored : Fs → String → String → String
  pub execute : Dict String → Command → Fs → Option Ran
  pub parse_results : String → Option (List Play)
  pub parse_creds : String → Option Creds
  pub join : Result (String → String)
  pub connect : String → Option ClusterAnswers

abbrev pub files_of : System → Dict String
files_of s = s.world.fs.files

abbrev pub with_fs : Fs → System → System
with_fs fs s = record s { world = record s.world { fs = fs } }

abbrev pub with_files : Dict String → System → System
with_files files s = with_fs (record s.world.fs { files = files }) s

abbrev pub key_file : String
key_file = "assets/keys/test_provisioner"

abbrev pub playbook_file : String
playbook_file = "templates/ansible/k3s-fetch-token.yaml"

abbrev pub master_file : String
master_file = "templates/ansible/k3s-master.yaml"

abbrev pub worker_file : String
worker_file = "templates/ansible/k3s-worker.yaml"

-- `string(data)` where the error of `os.ReadFile` is not read.
abbrev pub text_or_none : Option String → String
text_or_none none = ""
text_or_none (some text) = text

abbrev pub key_of : System → String
key_of s = text_or_none (lookup key_file (files_of s))

-- `os.Remove`; a clean-up that is nil is called.
unfoldable pub clean_up : Option String → Sys Unit
clean_up none = panic "nil pointer dereference"
clean_up (some name) = modify λ s. with_files (remove name (files_of s)) s

abbrev pub ssh_args : String
ssh_args = "-o StrictHostKeyChecking=no -o UserKnownHostsFile=/dev/null -tt"

-- The command of either function, without its own variables.
abbrev pub command : (playbook target_ip user key : String) → Dict String → Command
command playbook target_ip user key extra_vars = record {
  playbook = playbook;
  inventory = target_ip <> ",";
  user = user;
  private_key = key;
  ssh_extra_args = ssh_args;
  become_method = "sudo";
  extra_vars = extra_vars;
}

-- `if userName == "ubuntu" { opts.AddExtraVar("ansible_become_exe", "sudo.ws") }`
abbrev pub become_exe : String → Dict String → Dict String
become_exe user vars = if user == "ubuntu" then insert "ansible_become_exe" "sudo.ws" vars else vars

unfoldable pub token_vars : (user mac : String) → Dict String
unfolding insert
token_vars user mac =
    become_exe user (insert "mac_address" mac (insert "ansible_become_pass" "password" []))

-- The flags that `Populate` adds to the variables of the playbook.
unfoldable pub install_vars : (user : String) → Dict String → Dict String
install_vars user vars =
    insert "k3s_extra_flags"
      (if user == "centos"
        then "--write-kubeconfig-mode 644 --prefer-bundled-bin"
        else "--write-kubeconfig-mode 644")
      (become_exe user vars)

-- The name of a file, which is empty where it could not be made.
abbrev pub name_or_empty : Option String → String
name_or_empty none = ""
name_or_empty (some name) = name

-- `nodeObj` of `Populate`.
pub record NodeObj : Type 0 where
  pub name : String
  pub ip : String
  pub mac : String
  pub role : String

-- What `Populate` runs: a playbook and its variables.
abbrev pub Script : Type 0
Script = String × Dict String

abbrev pub base_vars : Dict String
base_vars = ("ansible_become_pass", "password") ∷ []

-- What `Populate` returns: a pointer to results, and an error. The results are parsed before the
-- run, from a buffer that is still empty.
abbrev pub Installed : Type 0
Installed = Option (List Play) × Option String

-- What a run leaves to the function that waits for it. What a run that never ends writes is an edit
-- of the files by another process.
abbrev pub ended : Option Ran → Sys (Option String × String)
ended none s = stall s
ended (some ran) s = pure (ran.error, ran.output) (with_fs ran.fs s)

module _ (r : Runner) where
  -- `os.ReadFile`
  unfoldable pub read_file : String → Sys (Result String)
  unfolding lookup
  read_file path s = elim (lookup path (files_of s)) [
    | none ↦ pure (failed (r.open_error s.world.fs path)) s
    | some text ↦ pure (given text) s
  ]

  -- `writeTemp`: the name of the file, with which it is cleaned up.
  unfoldable pub write_temp : (pattern text : String) → Sys (Option String)
  write_temp pattern text s = elim (r.temp_name s.world.fs pattern) [
    | none ↦ pure none s
    | some name ↦
        pure (some name) (with_files (insert name (r.stored s.world.fs name text) (files_of s)) s)
  ]

  -- The two temporary files, the deferred clean-ups, and the rest of the function, by the names of
  -- the playbook and the key.
  unfoldable pub with_temps :
      {A : Type 0} → (playbook key : String) → (String → String → Sys A) → Sys A
  unfolding write_temp clean_up
  with_temps playbook key body = do
    playbook_temp ← write_temp "playbook-*.yaml" playbook
    key_temp ← write_temp "id_ed25519-*" key
    defer (clean_up playbook_temp)
        (defer (clean_up key_temp) (body (name_or_empty playbook_temp) (name_or_empty key_temp)))

  -- `exec.Execute`: the run's error and its output.
  unfoldable pub execute : Command → Sys (Option String × String)
  execute c s = ended (r.execute s.environment c s.world.fs) s

  -- `FetchToken` from the run's end on.
  unfoldable pub after_run : String → Option String × String → Sys (Result Creds)
  after_run mac (some message, output) = pure (failed message)
  after_run mac (none, output) =
      in_clusters (use_results r.connect r.parse_creds mac (r.parse_results output))

  -- `FetchToken` once its playbook has been read.
  unfoldable pub fetch_with : (target_ip user mac key : String) → Result String → Sys (Result Creds)
  fetch_with target_ip user mac key (failed message) = pure (failed message)
  fetch_with target_ip user mac key (given playbook) =
      with_temps playbook key λ playbook_name key_name. do
        ran ← execute (command playbook_name target_ip user key_name (token_vars user mac))
        after_run mac ran

  -- `FetchToken`
  unfoldable pub fetch_token : (target_ip user mac : String) → Sys (Result Creds)
  fetch_token target_ip user mac = do
    key ← gets key_of
    playbook ← read_file playbook_file
    fetch_with target_ip user mac key playbook

  abbrev pub master_script : (target_ip mac kubeconfig : String) → Result String → Result Script
  master_script target_ip mac kubeconfig (failed message) = failed message
  master_script target_ip mac kubeconfig (given playbook) = given (
    playbook,
    insert "mac_address" mac
        (insert "kubeconfig_dest" kubeconfig (insert "ansible_host" target_ip base_vars)),
  )

  abbrev pub worker_script : (mac playbook : String) → Result Creds → Result Script
  worker_script mac playbook (failed message) = failed message
  worker_script mac playbook (given creds) = given (
    playbook,
    insert "token" creds.token (insert "server" creds.server (insert "target_mac" mac base_vars)),
  )

  -- The case "k3s-worker", once the playbook has been read.
  unfoldable pub join_worker : (mac : String) → NodeObj → Result String → Sys (Result Script)
  join_worker mac node (failed message) = pure (failed message)
  join_worker mac node (given playbook) = do
    creds ← fetch_token node.ip node.name node.mac
    pure (worker_script mac playbook creds)

  -- The switch of `Populate`; another mode runs an empty playbook.
  unfoldable pub choose_script :
      (target_ip mac kubeconfig mode : String) → NodeObj → Sys (Result Script)
  choose_script target_ip mac kubeconfig mode node =
      if mode == "k3s-master"
      then (read_file master_file >>= λ text. pure (master_script target_ip mac kubeconfig text))
      else if mode == "k3s-worker"
      then (read_file worker_file >>= join_worker mac node)
      else pure (given ("", base_vars))

  unfoldable pub run_script : (target_ip user key : String) → Result Script → Sys Installed
  run_script target_ip user key (failed message) = pure (none, some message)
  run_script target_ip user key (given (playbook, vars)) =
      with_temps playbook key λ playbook_name key_name. do
        setenv "ANSIBLE_HOST_KEY_CHECKING" "False"
        let results = r.parse_results ""
        ran ← execute (command playbook_name target_ip user key_name (install_vars user vars))
        pure (results, ran.0)

  abbrev pub populate_at :
      Result (String → String) → (target_ip mac user mode key : String) → NodeObj → Sys Installed
  populate_at (failed message) target_ip mac user mode key node = pure (none, some message)
  populate_at (given join) target_ip mac user mode key node =
      choose_script target_ip mac (join ("kubeconfig-" <> mac_as_id mac <> ".yaml")) mode node
      >>= run_script target_ip user key

  -- `Populate`
  unfoldable pub populate : (target_ip mac user mode : String) → NodeObj → Sys Installed
  populate target_ip mac user mode node = do
    key ← gets key_of
    populate_at r.join target_ip mac user mode key node
