-- ===== src/Worker.antt =====
-- cmd/worker/main.go: the start of the process, the file watcher and the requests, as steps.
pub mod Reach
pub mod Main
pub mod Restart
use o2_ims_worker.Prelude.{
  ℕ, String, ◌==◌, Bool, true, false, not, Option, none, some, List, [], ◌∷◌, if◌then◌else◌,
}
use o2_ims_worker.Prelude.Exec.{pure, ◌>>=◌}
use o2_ims_worker.World.{Fs, Host, World, Go}
use o2_ims_worker.Filedata.{populate}
use o2_ims_worker.Http.{Request, serve}

-- The flags `-no-tftp`, `-no-dhcp` and `-no-http`.
pub record Flags : Type 0 where
  pub no_tftp : Bool
  pub no_dhcp : Bool
  pub no_http : Bool

pub data Service : Type 0 where
  tftp dhcp http : Service

abbrev unless : Bool → Service → List Service → List Service
unless off s rest = if off then rest else s ∷ rest

-- The services that `main` starts. It logs `Enabled()` of the two configurations and asks no more.
unfoldable pub started : Flags → List Service
started f = unless f.no_tftp tftp (unless f.no_dhcp dhcp (unless f.no_http http []))

-- The process before `main` has done anything.
abbrev pub boot : Fs → World
boot fs = record {
  fs = fs;
  inventory = record { heap = []; active = none; installed = none };
  clients = none;
  background = [];
}

-- The state that a chosen handler leaves, if one is chosen.
abbrev pub left_by : {A : Type 0} → Option (Go A) → World → World
left_by none w = w
left_by (some run) w = (run w).1

-- The state that a request leaves; the routes that `serve` leaves out change nothing here.
abbrev pub respond : Host → ℕ → Request → World → World
respond h now r w = left_by (serve h now r) w

module _ (h : Host) where
  -- One event of the watcher's loop, by the name of the file.
  unfoldable pub watch : String → Go Unit
  watch name = if name == "inputs/clients.csv" then populate h else pure tt

  -- One thing that happens to the running process: `main` loads the table, the watcher reports a
  -- file, a request arrives, or somebody writes the files. A handler that panics leaves the state
  -- that it had reached, since the HTTP server recovers.
  pub data Step : World → World → Type 0 where
    load : (w : World) → Step w (populate h w).1
    file_event : (name : String) (w : World) → Step w (watch name w).1
    request : (now : ℕ) (r : Request) (w : World) → Step w (respond h now r w)
    edit_files : (fs : Fs) (w : World) → Step w (record w { fs = fs })

  pub data Reaches (start : World) : World → Type 0 where
    here : Reaches start start
    next : {u v : World} → Reaches start u → Step u v → Reaches start v
