-- ===== src/Ansible/Temps.antt =====
-- The temporary files of `FetchToken` and `Populate`: made, used and removed.
use o2_ims_worker.Prelude.{
  String, ◌≡◌, ◌∙◌, refl, Option, none, some, List, arith, Option-cases, inl, inr,
}
use o2_ims_worker.Prelude.Dict.{Dict, lookup, insert, remove, lookup-remove, lookup-remove_self}
use o2_ims_worker.Prelude.Exec.{
  Outcome, returns, panics, exits, stalls, SkipsDefers, Stalls, settle, defer, ◌>>=◌,
}
use o2_ims_worker.Kubernetes.{Cluster, ClusterAnswers, refresh, get_clusters, Result}
use o2_ims_worker.Ansible.{Creds, Play, extract_creds, use_results, store_token}
use o2_ims_worker.System.{System, Sys}
use o2_ims_worker.Ansible.Playbook.{
  Runner, Ran, with_fs, with_files, files_of, clean_up, write_temp, with_temps, execute, after_run,
  command, token_vars, fetch_token, fetch_with, read_file, key_file, playbook_file, text_or_none,
}

-- The state with a file removed.
abbrev pub removed : String → System → System
removed name s = with_files (remove name (files_of s)) s

settle-clean_up :
    {A : Type 0} (name : String) (o : Outcome A) (s : System)
    → ¬ SkipsDefers o
    → settle (clean_up (some name)) o s ≡ (o, removed name s)
unfolding clean_up
settle-clean_up name (returns a) s h = refl
settle-clean_up name (panics msg) s h = refl
settle-clean_up name (exits msg) s h = absurd (h tt)
settle-clean_up name stalls s h = absurd (h tt)

-- A removal changes no outcome.
settle-outcome :
    {A : Type 0} (name : String) (o : Outcome A) (s : System)
    → (settle (clean_up (some name)) o s).0 ≡ o
unfolding clean_up
settle-outcome name (returns a) s = refl
settle-outcome name (panics msg) s = refl
settle-outcome name (exits msg) s = refl
settle-outcome name stalls s = refl

defer-clean_up :
    {A : Type 0} (name : String) (body : Sys A) (s : System)
    → ¬ SkipsDefers (body s).0
    → defer (clean_up (some name)) body s ≡ ((body s).0, removed name (body s).1)
defer-clean_up name body s h = settle-clean_up name (body s).0 (body s).1 h

use_results-stays :
    (connect : String → Option ClusterAnswers) (parse : String → Option Creds) (mac : String)
    (results : Option (List Play)) (clusters : Option (Dict Cluster))
    → ¬ SkipsDefers (use_results connect parse mac results clusters).0
unfolding use_results get_clusters store_token
use_results-stays connect parse mac none clusters = λ e. e
use_results-stays connect parse mac (some results) none =
    elim (Option-cases (extract_creds parse results)) [
      | inl n ↦ ground (arith, n)
      | inr (creds, e) ↦ ground (arith, e)
    ]
use_results-stays connect parse mac (some results) (some table) =
    elim (Option-cases (extract_creds parse results)) [
      | inl n ↦ ground (arith, n)
      | inr (creds, e) ↦ elim (Option-cases (refresh connect table).1) [
        | inl n ↦ ground (arith, e, n)
        | inr (message, f) ↦ ground (arith, e, f)
      ]
    ]

module _ (r : Runner) where
  -- The state with a temporary file.
  abbrev pub placed : (name text : String) → System → System
  placed name text s = with_files (insert name (r.stored s.world.fs name text) (files_of s)) s

  write_temp-run :
      (pattern text name : String) (s : System)
      → r.temp_name s.world.fs pattern ≡ some name
      → write_temp r pattern text s ≡ (returns (some name), placed name text s)
  unfolding write_temp
  write_temp-run pattern text name s e = rw (e, write_temp) refl

  -- The names that the two temporary files get.
  pub record Temps (s : System) (playbook : String) : Type 0 where
    pub playbook_name : String
    pub key_name : String
    pub makes_playbook : r.temp_name s.world.fs "playbook-*.yaml" ≡ some playbook_name
    pub makes_key :
        r.temp_name (placed playbook_name playbook s).world.fs "id_ed25519-*" ≡ some key_name

  module _ (s : System) (playbook key : String) (temps : Temps s playbook) where
    -- The state in which the rest of the function starts.
    abbrev pub equipped : System
    equipped = placed temps.key_name key (placed temps.playbook_name playbook s)

    pub with_temps-run :
        {A : Type 0} (body : String → String → Sys A)
        → ¬ SkipsDefers (body temps.playbook_name temps.key_name equipped).0
        → with_temps r playbook key body s ≡ (
          (body temps.playbook_name temps.key_name equipped).0,
          removed temps.playbook_name
              (removed temps.key_name (body temps.playbook_name temps.key_name equipped).1),
        )
    unfolding with_temps
    with_temps-run body h =
        let inner =
          defer-clean_up temps.key_name (body temps.playbook_name temps.key_name) equipped h in
        rw (write_temp-run "playbook-*.yaml" playbook temps.playbook_name s temps.makes_playbook) (
          rw
            (write_temp-run "id_ed25519-*" key temps.key_name
              (placed temps.playbook_name playbook s) temps.makes_key)
            (defer-clean_up temps.playbook_name
                (defer (clean_up (some temps.key_name)) (body temps.playbook_name temps.key_name))
                equipped (rw inner h)
              ∙ rw inner refl))

    pub with_temps-outcome :
        {A : Type 0} (body : String → String → Sys A)
        → (with_temps r playbook key body s).0
          ≡ (body temps.playbook_name temps.key_name equipped).0
    unfolding with_temps
    with_temps-outcome body =
        rw (write_temp-run "playbook-*.yaml" playbook temps.playbook_name s temps.makes_playbook) (
          rw
            (write_temp-run "id_ed25519-*" key temps.key_name
              (placed temps.playbook_name playbook s) temps.makes_key)
            (settle-outcome temps.playbook_name _ _ ∙ settle-outcome temps.key_name _ _))

  -- The run of `FetchToken` and what follows it.
  abbrev pub token_body : (target_ip user mac playbook_name key_name : String) → Sys (Result Creds)
  token_body target_ip user mac playbook_name key_name =
      execute r (command playbook_name target_ip user key_name (token_vars user mac))
      >>= after_run r mac

  after_run-stays :
      (mac : String) (ran : Option String × String) (s : System)
      → ¬ SkipsDefers (after_run r mac ran s).0
  unfolding after_run
  after_run-stays mac (some message, output) s = λ e. e
  after_run-stays mac (none, output) s =
      use_results-stays r.connect r.parse_creds mac (r.parse_results output) s.clusters

  module _ (target_ip user mac : String) (s : System) (playbook : String)
      (temps : Temps s playbook) where
    abbrev pub key_text : String
    key_text = text_or_none (lookup key_file (files_of s))

    -- The state in which ansible runs.
    abbrev pub ready : System
    ready = equipped s playbook key_text temps

    -- How the run of ansible ends, if it does.
    abbrev pub token_ran : Option Ran
    token_ran =
        r.execute s.environment
          (command temps.playbook_name target_ip user temps.key_name (token_vars user mac))
          ready.world.fs

    module _ (ran : Ran) (ends : token_ran ≡ some ran) where
      -- What follows the run.
      abbrev pub token_rest : Outcome (Result Creds) × System
      token_rest = after_run r mac (ran.error, ran.output) (with_fs ran.fs ready)

      token_body-run :
          token_body target_ip user mac temps.playbook_name temps.key_name ready ≡ token_rest
      unfolding execute
      token_body-run = rw ends refl

      token_body-stays :
          ¬ SkipsDefers (token_body target_ip user mac temps.playbook_name temps.key_name ready).0
      token_body-stays = rw token_body-run (after_run-stays mac _ _)

      pub fetch_token-run :
          lookup playbook_file (files_of s) ≡ some playbook
          → fetch_token r target_ip user mac s
            ≡ (token_rest.0, removed temps.playbook_name (removed temps.key_name token_rest.1))
      unfolding fetch_token fetch_with read_file
      fetch_token-run found =
          rw (found, read_file)
            (with_temps-run s playbook key_text temps (token_body target_ip user mac)
                token_body-stays
              ∙ rw token_body-run refl)

    fetch_token-Stalls :
        token_ran ≡ none
        → lookup playbook_file (files_of s) ≡ some playbook
        → Stalls (fetch_token r target_ip user mac s).0
    unfolding fetch_token fetch_with read_file with_temps execute
    fetch_token-Stalls never found =
        rw (found, read_file)
          (rw (write_temp-run "playbook-*.yaml" playbook temps.playbook_name s temps.makes_playbook)
            (rw
              (write_temp-run "id_ed25519-*" key_text temps.key_name
                (placed temps.playbook_name playbook s) temps.makes_key)
              (rw never tt)))

    -- Where `FetchToken` reads its playbook and gets names for its temporary files: however it ends,
    -- and whatever ansible does but run for ever, neither temporary file is left: not the playbook,
    -- and not the copy of the private key.
    pub fetch_token-cleans :
        lookup playbook_file (files_of s) ≡ some playbook
        → ¬ Stalls (fetch_token r target_ip user mac s).0
        → (lookup temps.playbook_name (files_of (fetch_token r target_ip user mac s).1) ≡ none)
          × (lookup temps.key_name (files_of (fetch_token r target_ip user mac s).1) ≡ none)
    fetch_token-cleans found stays = elim (Option-cases token_ran) [
      | inl never ↦ absurd (stays (fetch_token-Stalls never found))
      | inr (ran, ends) ↦
          let left = files_of (token_rest ran ends).1 in
          rw (fetch_token-run ran ends found) (
            lookup-remove_self _ _,
            ground (
              arith,
              lookup-remove temps.playbook_name temps.key_name (remove temps.key_name left),
              lookup-remove_self temps.key_name left,
            ),
          )
    ]
