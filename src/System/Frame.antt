-- ===== src/System/Frame.antt =====
-- What `FetchToken`, `Populate` and the handlers that call them keep: whatever does not depend on
-- files and environment variables and is kept by the operations on the table of clusters.
use o2_ims_worker.Prelude.{
  String, ◌≡◌, refl, arith, Option-cases, inl, inr, Option, none, some, List,
}
use o2_ims_worker.Prelude.Dict.{Dict, lookup, insert}
use o2_ims_worker.Prelude.Exec.{Outcome, pure}
use o2_ims_worker.Prelude.Keeps.{Keeps, Keeps-pure, Keeps-panic, Keeps-modify, keeps_rules}
use o2_ims_worker.World.{Fs, Client}
use o2_ims_worker.Filedata.{gather}
use o2_ims_worker.Kubernetes.{Result, failed, given, get_clusters, ClusterInfo}
use o2_ims_worker.Ansible.{Play, use_results}
use o2_ims_worker.Ansible.Playbook.{
  Runner, Ran, ended, NodeObj, Command, Script, with_fs, with_files, files_of, clean_up, write_temp,
  with_temps, read_file, execute, after_run, fetch_with, fetch_token, join_worker, choose_script,
  run_script, populate_at, populate,
}
use o2_ims_worker.System.{System, Sys, in_world, in_clusters, setenv}
use o2_ims_worker.Http.Ansible.{
  token_for, install, install_for, handle_ansible, handle_ansible_fetch_token,
}

pub record IsStable (r : Runner) (P : System → Type 0) : Type 0 where
  pub files : (fs : Fs) (s : System) → P s → P (with_fs fs s)
  pub variables : (env : Dict String) (s : System) → P s → P (record s { environment = env })
  pub tokens :
      (mac : String) (results : Option (List Play))
      → Keeps P (in_clusters (use_results r.connect r.parse_creds mac results))
  pub clusters : Keeps P (in_clusters (get_clusters r.connect))

module _ (r : Runner) (P : System → Type 0) (k : IsStable r P) where
  clean_up-Keeps : (o : Option String) → Keeps P (clean_up o)
  unfolding clean_up
  clean_up-Keeps none = Keeps-panic _
  clean_up-Keeps (some name) = Keeps-modify _ λ s h. k.files _ s h

  write_temp-Keeps : (pattern text : String) → Keeps P (write_temp r pattern text)
  unfolding write_temp
  write_temp-Keeps pattern text = record { at = λ s h. made s h (r.temp_name s.world.fs pattern) }
    where
      made :
          (s : System)
          → P s
          → (o : Option String)
          → P
              (elim o as (λ _. Outcome (Option String) × System) [
                | none ↦ pure none s
                | some name ↦
                    pure
                      (some name)
                      (with_files (insert name (r.stored s.world.fs name text) (files_of s)) s)
              ]).1
      made s h none = h
      made s h (some name) = k.files _ s h

  read_file-same : (path : String) (s : System) → (read_file r path s).1 ≡ s
  unfolding read_file
  read_file-same path s = elim (Option-cases (lookup path (files_of s))) [
    | inl e ↦ rw (e, read_file) refl
    | inr (text, e) ↦ rw (e, read_file) refl
  ]

  read_file-Keeps : (path : String) → Keeps P (read_file r path)
  read_file-Keeps path = record { at = λ s h. rw (read_file-same path s) h }

  ended-keeps : (end : Option Ran) (s : System) → P s → P (ended end s).1
  ended-keeps none s h = h
  ended-keeps (some ran) s h = k.files ran.fs s h

  execute-Keeps : (c : Command) → Keeps P (execute r c)
  unfolding execute
  execute-Keeps c = record { at = λ s h. ended-keeps (r.execute s.environment c s.world.fs) s h }

  with_temps-Keeps :
      {A : Type 0} (playbook key : String) (body : String → String → Sys A)
      → ((p q : String) → Keeps P (body p q))
      → Keeps P (with_temps r playbook key body)
  unfolding with_temps
  with_temps-Keeps playbook key body kb = search (keeps_rules, write_temp-Keeps, clean_up-Keeps, kb)

  after_run-Keeps : (mac : String) (ran : Option String × String) → Keeps P (after_run r mac ran)
  unfolding after_run
  after_run-Keeps mac (some message, output) = Keeps-pure _
  after_run-Keeps mac (none, output) = k.tokens mac (r.parse_results output)

  fetch_with-Keeps :
      (target_ip user mac key : String) (playbook : Result String)
      → Keeps P (fetch_with r target_ip user mac key playbook)
  unfolding fetch_with
  fetch_with-Keeps target_ip user mac key (failed message) = Keeps-pure _
  fetch_with-Keeps target_ip user mac key (given playbook) =
      search (keeps_rules, with_temps-Keeps, execute-Keeps, after_run-Keeps)

  pub fetch_token-Keeps : (target_ip user mac : String) → Keeps P (fetch_token r target_ip user mac)
  unfolding fetch_token
  fetch_token-Keeps target_ip user mac = search (keeps_rules, read_file-Keeps, fetch_with-Keeps)

  setenv-Keeps : (key value : String) → Keeps P (setenv key value)
  setenv-Keeps key value = Keeps-modify _ λ s h. k.variables _ s h

  join_worker-Keeps :
      (mac : String) (node : NodeObj) (text : Result String) → Keeps P (join_worker r mac node text)
  unfolding join_worker
  join_worker-Keeps mac node (failed message) = Keeps-pure _
  join_worker-Keeps mac node (given playbook) = search (keeps_rules, fetch_token-Keeps)

  choose_script-Keeps :
      (target_ip mac kubeconfig mode : String) (node : NodeObj)
      → Keeps P (choose_script r target_ip mac kubeconfig mode node)
  unfolding choose_script
  choose_script-Keeps target_ip mac kubeconfig mode node =
      search (keeps_rules, read_file-Keeps, join_worker-Keeps)

  run_script-Keeps :
      (target_ip user key : String) (script : Result Script)
      → Keeps P (run_script r target_ip user key script)
  unfolding run_script
  run_script-Keeps target_ip user key (failed message) = Keeps-pure _
  run_script-Keeps target_ip user key (given (playbook, vars)) =
      search (keeps_rules, with_temps-Keeps, setenv-Keeps, execute-Keeps)

  populate_at-Keeps :
      (j : Result (String → String)) (target_ip mac user mode key : String) (node : NodeObj)
      → Keeps P (populate_at r j target_ip mac user mode key node)
  populate_at-Keeps (failed message) target_ip mac user mode key node = Keeps-pure _
  populate_at-Keeps (given join) target_ip mac user mode key node =
      search (keeps_rules, choose_script-Keeps, run_script-Keeps)

  pub populate-Keeps :
      (target_ip mac user mode : String) (node : NodeObj)
      → Keeps P (populate r target_ip mac user mode node)
  unfolding populate
  populate-Keeps target_ip mac user mode node = search (keeps_rules, populate_at-Keeps)

  gather-same : (s : System) → (in_world gather s).1 ≡ s
  unfolding gather
  gather-same s = ground arith

  gather-Keeps : Keeps P (in_world gather)
  gather-Keeps = record { at = λ s h. rw (gather-same s) h }

  token_for-Keeps :
      (mac : String) (encodes : Option String) (found : Option Client)
      → Keeps P (token_for r mac encodes found)
  unfolding token_for
  token_for-Keeps mac encodes none = Keeps-pure _
  token_for-Keeps mac encodes (some c) = search (keeps_rules, fetch_token-Keeps)

  pub handle_ansible_fetch_token-Keeps :
      (mac : String) (encodes : Option String) → Keeps P (handle_ansible_fetch_token r mac encodes)
  unfolding handle_ansible_fetch_token
  handle_ansible_fetch_token-Keeps mac encodes = search (keeps_rules, gather-Keeps, token_for-Keeps)

  install-Keeps :
      (mac : String) (c : Client) (clients : Dict Client) (encodes : Option String)
      (info : Option ClusterInfo)
      → Keeps P (install r mac c clients encodes info)
  unfolding install
  install-Keeps mac c clients encodes none = Keeps-panic _
  install-Keeps mac c clients encodes (some info) = search (keeps_rules, populate-Keeps)

  install_for-Keeps :
      (mac : String) (clients : Dict Client) (encodes : Option String) (found : Option Client)
      → Keeps P (install_for r mac clients encodes found)
  unfolding install_for
  install_for-Keeps mac clients encodes none = Keeps-panic _
  install_for-Keeps mac clients encodes (some c) = search (keeps_rules, k.clusters, install-Keeps)

  pub handle_ansible-Keeps :
      (mac : String) (encodes : Option String) → Keeps P (handle_ansible r mac encodes)
  unfolding handle_ansible
  handle_ansible-Keeps mac encodes = search (keeps_rules, gather-Keeps, install_for-Keeps)
