-- ===== src/Ansible/Install.antt =====
-- What `Populate` of internal/ansible/ansible.go runs and returns.
use o2_ims_worker.Prelude.{
  String, ◌<>◌, ◌==◌, ◌≡◌, ◌≢◌, ◌∙◌, ◌⊎◌, refl, ap, [], ◌∷◌, arith, eq_iff, if◌then◌else◌, inl, inr,
  Option, none, some,
}
use o2_ims_worker.Prelude.Dict.{Dict, lookup, insert, lookup-insert}
use o2_ims_worker.Prelude.Exec.{
  Outcome, returns, stalls, OnReturn, continue, continue-OnReturn, settle-OnReturn, pure, ◌>>=◌,
  ◌>>◌,
}
use o2_ims_worker.Inventory.{mac_as_id}
use o2_ims_worker.Kubernetes.{Result, failed, given}
use o2_ims_worker.Ansible.{Creds}
use o2_ims_worker.System.{System, Sys, setenv}
use o2_ims_worker.Ansible.Playbook.{
  Runner, Ran, ended, NodeObj, files_of, clean_up, name_or_empty, write_temp, with_temps, execute,
  command, install_vars, become_exe, read_file, join_worker, choose_script, run_script, populate,
  populate_at, fetch_token, worker_file, key_file, text_or_none, Script, Installed,
}
use o2_ims_worker.Ansible.Temps.{Temps, with_temps-outcome, equipped}

lookup-install_vars :
    (user key : String) (vars : Dict String)
    → key ≢ "k3s_extra_flags"
    → key ≢ "ansible_become_exe"
    → lookup key (install_vars user vars) ≡ lookup key vars
unfolding install_vars
lookup-install_vars user key vars flags exe = ground (
  arith,
  lookup-insert "k3s_extra_flags" key
      (if user == "centos"
        then "--write-kubeconfig-mode 644 --prefer-bundled-bin"
        else "--write-kubeconfig-mode 644")
      (become_exe user vars),
  lookup-insert "ansible_become_exe" key "sudo.ws" vars,
  eq_iff "k3s_extra_flags" key,
  eq_iff "ansible_become_exe" key,
)

-- The variables of a worker before the flags.
abbrev joining : (mac : String) → Creds → Dict String
joining mac creds = insert "token" creds.token (
    insert "server" creds.server
      (insert "target_mac" mac (("ansible_become_pass", "password") ∷ [])))

joining-vars :
    (user mac : String) (creds : Creds)
    → (lookup "server" (install_vars user (joining mac creds)) ≡ some creds.server)
      × (lookup "token" (install_vars user (joining mac creds)) ≡ some creds.token)
      × (lookup "target_mac" (install_vars user (joining mac creds)) ≡ some mac)
unfolding lookup insert
joining-vars user mac creds = (
  lookup-install_vars user "server" (joining mac creds)
      (ground (arith, eq_iff "server" "k3s_extra_flags"))
      (ground (arith, eq_iff "server" "ansible_become_exe")),
  lookup-install_vars user "token" (joining mac creds)
      (ground (arith, eq_iff "token" "k3s_extra_flags"))
      (ground (arith, eq_iff "token" "ansible_become_exe")),
  lookup-install_vars user "target_mac" (joining mac creds)
      (ground (arith, eq_iff "target_mac" "k3s_extra_flags"))
      (ground (arith, eq_iff "target_mac" "ansible_become_exe")),
)

module _ (r : Runner) where
  script_body : (target_ip user : String) → Dict String → String → String → Sys Installed
  script_body target_ip user vars playbook_name key_name = do
    setenv "ANSIBLE_HOST_KEY_CHECKING" "False"
    let results = r.parse_results ""
    ran ← execute r (command playbook_name target_ip user key_name (install_vars user vars))
    pure (results, ran.0)

  -- What `Populate` gives at the end of its run, if the run has one.
  abbrev pub installed_by : Option Ran → Outcome Installed
  installed_by none = stalls
  installed_by (some ran) = returns (r.parse_results "", ran.error)

  script_body-run :
      (target_ip user playbook_name key_name : String) (vars : Dict String) (s : System)
      → (script_body target_ip user vars playbook_name key_name s).0
        ≡ installed_by (
            r.execute
              (insert "ANSIBLE_HOST_KEY_CHECKING" "False" s.environment)
              (command playbook_name target_ip user key_name (install_vars user vars))
              s.world.fs)
  unfolding script_body execute
  script_body-run target_ip user playbook_name key_name vars s =
      same
        (r.execute (insert "ANSIBLE_HOST_KEY_CHECKING" "False" s.environment)
          (command playbook_name target_ip user key_name (install_vars user vars)) s.world.fs)
        (record s { environment = insert "ANSIBLE_HOST_KEY_CHECKING" "False" s.environment })
    where
      same :
          (end : Option Ran) (t : System)
          → (continue (ended end t).0 (λ ran. pure (r.parse_results "", ran.0)) (ended end t).1).0
            ≡ installed_by end
      same none t = refl
      same (some ran) t = refl

  run_script-run :
      (target_ip user key playbook : String) (vars : Dict String) (s : System)
      (temps : Temps r s playbook)
      → (run_script r target_ip user key (given (playbook, vars)) s).0
        ≡ installed_by (
            r.execute
              (insert "ANSIBLE_HOST_KEY_CHECKING" "False" s.environment)
              (command temps.playbook_name target_ip user temps.key_name (install_vars user vars))
              (equipped r s playbook key temps).world.fs)
  unfolding run_script script_body
  run_script-run target_ip user key playbook vars s temps =
      with_temps-outcome r s playbook key temps (script_body target_ip user vars)
      ∙ script_body-run target_ip user temps.playbook_name temps.key_name vars
          (equipped r s playbook key temps)

  module _ (target_ip mac user : String) (node : NodeObj) (s s₁ : System) (creds : Creds)
      (playbook : String) (temps : Temps r s₁ playbook) where
    choose_script-joins :
        (kubeconfig : String)
        → lookup worker_file (files_of s) ≡ some playbook
        → fetch_token r node.ip node.name node.mac s ≡ (returns (given creds), s₁)
        → choose_script r target_ip mac kubeconfig "k3s-worker" node s
          ≡ (returns (given (playbook, joining mac creds)), s₁)
    unfolding choose_script read_file join_worker
    choose_script-joins kubeconfig found fetched = rw (found, read_file) (rw fetched refl)

    -- The installation of a worker, where the working directory is known, the playbook is there and
    -- `FetchToken` for the given node returns credentials: ansible runs once more, with the server
    -- and the token of these credentials and the worker's MAC address among its variables. Where
    -- that run ends, its error is returned beside the results of an empty output; where it never
    -- ends, neither does `Populate`.
    pub populate-joins :
        (join : String → String)
        → r.join ≡ given join
        → lookup worker_file (files_of s) ≡ some playbook
        → fetch_token r node.ip node.name node.mac s ≡ (returns (given creds), s₁)
        → (vars : Dict String) × ((populate r target_ip mac user "k3s-worker" node s).0
            ≡ installed_by (
                r.execute
                  (insert "ANSIBLE_HOST_KEY_CHECKING" "False" s₁.environment)
                  (command temps.playbook_name target_ip user temps.key_name vars)
                  (equipped r s₁ playbook
                    (text_or_none (lookup key_file (files_of s)))
                    temps).world.fs))
          × (lookup "server" vars ≡ some creds.server)
          × (lookup "token" vars ≡ some creds.token)
          × (lookup "target_mac" vars ≡ some mac)
    unfolding populate
    populate-joins join j found fetched =
        let key = text_or_none (lookup key_file (files_of s)) in
        let kubeconfig = join ("kubeconfig-" <> mac_as_id mac <> ".yaml") in
        (
          install_vars user (joining mac creds),
          ap (λ q. (populate_at r q target_ip mac user "k3s-worker" key node s).0) j
              ∙ rw (choose_script-joins kubeconfig found fetched)
                  (run_script-run target_ip user key playbook (joining mac creds) s₁ temps),
          (joining-vars user mac creds).0,
          (joining-vars user mac creds).1,
          (joining-vars user mac creds).2,
        )

  with_temps-OnReturn :
      {A : Type 0} (R : A → Type 0) (playbook key : String) (body : String → String → Sys A)
      → ((p k : String) (s : System) → OnReturn R (body p k s).0)
      → (s : System) → OnReturn R (with_temps r playbook key body s).0
  unfolding with_temps
  with_temps-OnReturn R playbook key body h s =
      continue-OnReturn {S = System} R (write_temp r "playbook-*.yaml" playbook s).0 _ _ λ p s₁.
        continue-OnReturn {S = System} R (write_temp r "id_ed25519-*" key s₁).0 _ _ λ k s₂.
          settle-OnReturn R (clean_up p) _ _
            (settle-OnReturn R (clean_up k) _ _ (h (name_or_empty p) (name_or_empty k) s₂))

  -- Parsed from an empty output, or nil.
  abbrev pub IsUnread : Installed → Type 0
  IsUnread i = (i.0 ≡ none) ⊎ (i.0 ≡ r.parse_results "")

  installed_by-OnReturn : (end : Option Ran) → OnReturn IsUnread (installed_by end)
  installed_by-OnReturn none = tt
  installed_by-OnReturn (some ran) = inr refl

  run_script-OnReturn :
      (target_ip user key : String) (script : Result Script) (s : System)
      → OnReturn IsUnread (run_script r target_ip user key script s).0
  unfolding run_script script_body
  run_script-OnReturn target_ip user key (failed message) s = inl refl
  run_script-OnReturn target_ip user key (given (playbook, vars)) s =
      with_temps-OnReturn IsUnread playbook key (script_body target_ip user vars)
        (λ p k t. rw (script_body-run target_ip user p k vars t) (installed_by-OnReturn _)) s

  populate_at-OnReturn :
      (j : Result (String → String)) (target_ip mac user mode key : String) (node : NodeObj)
      (s : System)
      → OnReturn IsUnread (populate_at r j target_ip mac user mode key node s).0
  populate_at-OnReturn (failed message) target_ip mac user mode key node s = inl refl
  populate_at-OnReturn (given join) target_ip mac user mode key node s =
      continue-OnReturn IsUnread _ (run_script r target_ip user key) _
        (run_script-OnReturn target_ip user key)

  -- Whatever ansible writes, the results that `Populate` returns are those of an empty output, or
  -- there are none.
  pub populate-OnReturn :
      (target_ip mac user mode : String) (node : NodeObj) (s : System)
      → OnReturn IsUnread (populate r target_ip mac user mode node s).0
  unfolding populate
  populate-OnReturn target_ip mac user mode node s =
      populate_at-OnReturn r.join target_ip mac user mode _ node s
