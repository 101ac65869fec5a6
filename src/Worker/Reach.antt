-- ===== src/Worker/Reach.antt =====
-- The tables stay consistent in every state that the process can reach.
use o2_ims_worker.Prelude.{
  ℕ, String, ◌==◌, Bool, true, false, Option, none, some, arith, Option-cases, inl, inr,
  if◌then◌else◌,
}
use o2_ims_worker.Prelude.Dict.{Dict, lookup, lookup-nil}
use o2_ims_worker.Prelude.Keeps.{Keeps, Keeps-pure, Keeps-gets, keeps_rules}
use o2_ims_worker.World.{Fs, Host, World, Go, Client}
use o2_ims_worker.Inventory.{log_installed_machine}
use o2_ims_worker.Filedata.{gather, add_item_to_file, populate}
use o2_ims_worker.Filedata.Invariant.{
  IsConsistent, populate-IsConsistent, add_item_to_file-IsConsistent,
  log_installed_machine-IsConsistent,
}
use o2_ims_worker.Http.{
  Request, Decoded, malformed, decoded, post_pipeline, handle_pipeline, handle_callback,
  handle_inventory, handle_test, serve,
}
use o2_ims_worker.Worker.{
  boot, watch, left_by, respond, Step, load, file_event, request, edit_files, Reaches, here, next,
}

respond_if :
    {A : Type 0} (b : Bool) (m : Go A) (rest : Option (Go A)) (w : World)
    → IsConsistent w
    → Keeps IsConsistent m
    → IsConsistent (left_by rest w)
    → IsConsistent (left_by (if b then some m else rest) w)
respond_if true m rest w c km r = km.at w c
respond_if false m rest w c km r = r

module _ (h : Host) where
  add_item_to_file-Keeps : (ip mac os : String) → Keeps IsConsistent (add_item_to_file h ip mac os)
  add_item_to_file-Keeps ip mac os = record { at = add_item_to_file-IsConsistent h ip mac os }

  log_installed_machine-Keeps :
      (mac ot : String) (given now : ℕ)
      → Keeps IsConsistent (log_installed_machine h mac ot given now)
  log_installed_machine-Keeps mac ot given now = record {
    at = log_installed_machine-IsConsistent h mac ot given now;
  }

  post_pipeline-Keeps :
      (clients : Dict Client) (d : Decoded) → Keeps IsConsistent (post_pipeline h clients d)
  unfolding post_pipeline
  post_pipeline-Keeps clients (malformed message) = Keeps-pure _
  post_pipeline-Keeps clients (decoded pipe) = elim (Option-cases (lookup pipe.mac clients)) [
    | inl l ↦ rw (l, post_pipeline) (search (keeps_rules, add_item_to_file-Keeps))
    | inr (v, l) ↦ rw (l, post_pipeline) (search (keeps_rules))
  ]

  gather-Keeps : Keeps IsConsistent gather
  unfolding gather
  gather-Keeps = record { at = λ w c. ground arith }

  handle_pipeline-Keeps : (r : Request) → Keeps IsConsistent (handle_pipeline h r)
  unfolding handle_pipeline
  handle_pipeline-Keeps r = search (keeps_rules, gather-Keeps, post_pipeline-Keeps)

  handle_callback-Keeps : (now : ℕ) (r : Request) → Keeps IsConsistent (handle_callback h now r)
  unfolding handle_callback
  handle_callback-Keeps now r = search (keeps_rules, log_installed_machine-Keeps)

  handle_test-Keeps : (r : Request) → Keeps IsConsistent (handle_test h r)
  unfolding handle_test
  handle_test-Keeps r = Keeps-pure _

  handle_inventory-Keeps : (r : Request) → Keeps IsConsistent (handle_inventory h r)
  unfolding handle_inventory
  handle_inventory-Keeps r = Keeps-gets _

  respond-IsConsistent :
      (now : ℕ) (r : Request) (w : World) → IsConsistent w → IsConsistent (respond h now r w)
  unfolding serve
  respond-IsConsistent now r w c =
      respond_if (r.path == "/pipeline") (handle_pipeline h r) _ w c (handle_pipeline-Keeps r) (
        respond_if (r.path == "/test") (handle_test h r) _ w c (handle_test-Keeps r) (
          respond_if (r.path == "/inventories") (handle_inventory h r) _ w c
            (handle_inventory-Keeps r)
            (respond_if (r.path == "/callback") (handle_callback h now r) none w c
              (handle_callback-Keeps now r) c)))

  populate-Keeps : Keeps IsConsistent (populate h)
  populate-Keeps = record { at = populate-IsConsistent h }

  watch-Keeps : (name : String) → Keeps IsConsistent (watch h name)
  unfolding watch
  watch-Keeps name = search (keeps_rules, populate-Keeps)

  pub Step-IsConsistent : {u v : World} → Step h u v → IsConsistent u → IsConsistent v
  Step-IsConsistent (load w) c = populate-IsConsistent h w c
  Step-IsConsistent (file_event name w) c = (watch-Keeps name).at w c
  Step-IsConsistent (request now r w) c = respond-IsConsistent now r w c
  Step-IsConsistent (edit_files fs w) c = record { well_formed = c.well_formed; keyed = c.keyed }

  pub boot-IsConsistent : (fs : Fs) → IsConsistent (boot fs)
  boot-IsConsistent fs = record {
    well_formed = record {
      in_range = λ m a e. cc (lookup-nil {V = ℕ} m);
      distinct = λ m j a e f. cc (lookup-nil {V = ℕ} m);
      shared = λ m a e. e;
      marked = λ m o e. ground (arith, lookup-nil {V = ℕ} m);
    };
    keyed = tt;
  }

  -- However the process is loaded, however its files are edited, whatever requests and callbacks
  -- arrive and whatever the host does: no machine's pointer dangles, no two MAC addresses share a
  -- machine, a machine that is logged as installed is the one of the table and marked so, and every
  -- client stands under its own MAC address.
  pub Reaches-IsConsistent : (fs : Fs) (w : World) → Reaches h (boot fs) w → IsConsistent w
  Reaches-IsConsistent fs w here = boot-IsConsistent fs
  Reaches-IsConsistent fs w (next r s) = Step-IsConsistent s (Reaches-IsConsistent fs _ r)
