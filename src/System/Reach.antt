-- ===== src/System/Reach.antt =====
-- The whole process as steps: the requests, the file watcher, the goroutines of `Populate`, and the
-- handlers that run ansible. Which of them goes next is not decided, and a goroutine that panics ends
-- the process.
use o2_ims_worker.Prelude.{ℕ, String, ◌≡◌, Bool, true, false, Option, none, some, []}
use o2_ims_worker.Prelude.Exec.{Outcome, exits}
use o2_ims_worker.Prelude.Keeps.{Keeps, Keeps-bind, Keeps-pure}
use o2_ims_worker.World.{Fs, Host, World, Go}
use o2_ims_worker.Filedata.Invariant.{IsConsistent}
use o2_ims_worker.Ansible.{use_results}
use o2_ims_worker.Kubernetes.{Kube, get_clusters}
use o2_ims_worker.Kubernetes.Endpoint.{handle_kubernetes}
use o2_ims_worker.Worker.{boot, watch, respond, load, file_event, request, edit_files}
use o2_ims_worker.Filedata.{populate}
use o2_ims_worker.Http.{Request, serve}
use o2_ims_worker.Worker.Reach.{Step-IsConsistent, boot-IsConsistent}
use o2_ims_worker.Ansible.Playbook.{Runner}
use o2_ims_worker.Http.Ansible.{handle_ansible, handle_ansible_fetch_token}
use o2_ims_worker.System.{System, in_clusters}
use o2_ims_worker.System.Fetched.{get_clusters-Keeps, use_results-Keeps}
use o2_ims_worker.System.Sound.{AllSound, AllSound-IsFetchStable, init_cluster-Keeps}
use o2_ims_worker.System.Frame.{
  IsStable, fetch_token-Keeps, handle_ansible-Keeps, handle_ansible_fetch_token-Keeps,
}
use o2_ims_worker.System.Background.{Process, has_panicked, join_of, Turn, loop, fetch}

-- The process before `main` has done anything.
abbrev pub boot_process : Fs → Process
boot_process fs = record {
  system = record { world = boot fs; clusters = none; environment = [] };
  fetches = [];
  stuck = [];
  crashed = false;
}

abbrev pub with_system : Process → System → Process
with_system p s = record p { system = s }

abbrev pub with_world : World → Process → Process
with_world w p = with_system p (record p.system { world = w })

-- After a run whose panic nothing recovers.
abbrev pub unrecovered : {A : Type 0} → Outcome A × World → Process → Process
unrecovered run p = record (with_world run.1 p) { crashed = has_panicked run.0 }

abbrev pub has_exited : {A : Type 0} → Outcome A → Bool
has_exited (exits message) = true
has_exited _ = false

-- Whether the chosen handler, if one is chosen, ends the process.
abbrev pub exited_by : {A : Type 0} → Option (Go A) → World → Bool
exited_by none w = false
exited_by (some run) w = has_exited (run w).0

module _ (h : Host) (r : Runner) where
  -- One thing that happens to the process. `main` and the watcher call `Populate` without a recover,
  -- while the HTTP server recovers where a handler panics; `log.Fatalf` ends the process anywhere.
  pub data Event (p : Process) : Process → Type 0 where
    background : (q : Process) → Turn r p q → Event p q
    first_load : p.crashed ≡ false → Event p (unrecovered (populate h p.system.world) p)
    file_reported :
        (name : String) → p.crashed ≡ false → Event p (unrecovered (watch h name p.system.world) p)
    serve_request :
        (now : ℕ) (q : Request)
        → p.crashed ≡ false
        → Event p (record (with_world (respond h now q p.system.world) p) {
          crashed = exited_by (serve h now q) p.system.world;
        })
    files_edited :
        (fs : Fs) → p.crashed ≡ false → Event p (with_world (record p.system.world { fs = fs }) p)
    serve_kubernetes :
        (item : String) (encodes : Bool)
        → p.crashed ≡ false
        → Event p
            (with_system p (in_clusters (handle_kubernetes r.connect item encodes) p.system).1)
    serve_token :
        (mac : String) (encodes : Option String)
        → p.crashed ≡ false
        → Event p (with_system p (handle_ansible_fetch_token r mac encodes p.system).1)
    serve_install :
        (mac : String) (encodes : Option String)
        → p.crashed ≡ false
        → Event p (with_system p (handle_ansible r mac encodes p.system).1)

  pub data Happens (start : Process) : Process → Type 0 where
    nothing_yet : Happens start start
    then_event : {p q : Process} → Happens start p → Event p q → Happens start q

-- The tables of the inventory and of the clients are consistent, and every cluster is sound.
pub record IsSettled (o : Option (String → String)) (s : System) : Type 0 where
  pub consistent : IsConsistent s.world
  pub sound : AllSound o s.clusters

module _ (h : Host) (r : Runner) where
  in_clusters-Keeps :
      {A : Type 0} (o : Option (String → String)) (m : Kube A)
      → Keeps (AllSound o) m
      → Keeps (IsSettled o) (in_clusters m)
  in_clusters-Keeps o m k = record {
    at = λ s i. record { consistent = i.consistent; sound = k.at s.clusters i.sound };
  }

  IsSettled-IsStable : (o : Option (String → String)) → IsStable r (IsSettled o)
  IsSettled-IsStable o = record {
    files = λ fs s i. record {
      consistent = record { well_formed = i.consistent.well_formed; keyed = i.consistent.keyed };
      sound = i.sound;
    };
    variables = λ env s i. record { consistent = i.consistent; sound = i.sound };
    tokens = λ mac results. in_clusters-Keeps o (use_results r.connect r.parse_creds mac results) (
        use_results-Keeps r.connect (AllSound o) (AllSound-IsFetchStable o r.connect) r.parse_creds
          mac results);
    clusters =
        in_clusters-Keeps o (get_clusters r.connect)
          (get_clusters-Keeps r.connect (AllSound o) (AllSound-IsFetchStable o r.connect));
  }

  handle_kubernetes-Keeps :
      (o : Option (String → String)) (item : String) (encodes : Bool)
      → Keeps (AllSound o) (handle_kubernetes r.connect item encodes)
  unfolding handle_kubernetes
  handle_kubernetes-Keeps o item encodes =
      Keeps-bind _ _
        (get_clusters-Keeps r.connect (AllSound o) (AllSound-IsFetchStable o r.connect))
        λ dump. Keeps-pure _

  Turn-IsSettled :
      (p q : Process)
      → Turn r p q
      → IsSettled (join_of r.join) p.system
      → IsSettled (join_of r.join) q.system
  Turn-IsSettled p q (loop before after id nodes rest alive e f) i = rw f (record {
    consistent = record { well_formed = i.consistent.well_formed; keyed = i.consistent.keyed };
    sound = (init_cluster-Keeps (join_of r.join) id nodes).at p.system.clusters i.sound;
  })
  Turn-IsSettled p q (fetch before n after alive e f) i =
      rw f (
        (fetch_token-Keeps r _ (IsSettled-IsStable (join_of r.join)) n.ip n.os n.node).at p.system
          i)

  Event-IsSettled :
      (p q : Process)
      → Event h r p q
      → IsSettled (join_of r.join) p.system
      → IsSettled (join_of r.join) q.system
  Event-IsSettled p q (background _ t) i = Turn-IsSettled p q t i
  Event-IsSettled p q (first_load alive) i = record {
    consistent = Step-IsConsistent h (load p.system.world) i.consistent;
    sound = i.sound;
  }
  Event-IsSettled p q (file_reported name alive) i = record {
    consistent = Step-IsConsistent h (file_event name p.system.world) i.consistent;
    sound = i.sound;
  }
  Event-IsSettled p q (serve_request now given alive) i = record {
    consistent = Step-IsConsistent h (request now given p.system.world) i.consistent;
    sound = i.sound;
  }
  Event-IsSettled p q (files_edited fs alive) i = record {
    consistent = Step-IsConsistent h (edit_files fs p.system.world) i.consistent;
    sound = i.sound;
  }
  Event-IsSettled p q (serve_kubernetes item encodes alive) i =
      (in_clusters-Keeps (join_of r.join) (handle_kubernetes r.connect item encodes)
          (handle_kubernetes-Keeps (join_of r.join) item encodes)).at
        p.system i
  Event-IsSettled p q (serve_token mac encodes alive) i =
      (handle_ansible_fetch_token-Keeps r _ (IsSettled-IsStable (join_of r.join)) mac encodes).at
        p.system i
  Event-IsSettled p q (serve_install mac encodes alive) i =
      (handle_ansible-Keeps r _ (IsSettled-IsStable (join_of r.join)) mac encodes).at p.system i

  -- However the requests, the watcher's events, the edits of the files, the runs of ansible and the
  -- goroutines of `Populate` follow on each other, and whatever the host, ansible and the clusters
  -- do: no machine's pointer dangles, no two MAC addresses share a machine, a machine that is logged
  -- as installed is the one of the table and marked so, every client stands under its own MAC
  -- address, and every cluster stands under its own name, has the kubeconfig of a master among its
  -- nodes and, if it is the one named "unclaimed", no token.
  pub Happens-IsSettled :
      (fs : Fs) (p : Process)
      → Happens h r (boot_process fs) p
      → IsSettled (join_of r.join) p.system
  Happens-IsSettled fs p nothing_yet = record { consistent = boot-IsConsistent h fs; sound = tt }
  Happens-IsSettled fs q (then_event {p} run e) = Event-IsSettled p q e (Happens-IsSettled fs p run)
