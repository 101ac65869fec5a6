-- ===== src/World.antt =====
-- The process: its globals, the files that it reads and writes, and what the host decides.
mod Machines
mod Clients
pub use Machines.*
pub use Clients.*
use o2_ims_worker.Prelude.{ℕ, String, Bool, Option, List, ◌++◌, ◌∷◌, []}
use o2_ims_worker.Prelude.Dict.{Dict, insert}
use o2_ims_worker.Prelude.Paths.{file_at}
use o2_ims_worker.Prelude.Exec.{Exec, modify}

-- File contents by the path from the working directory, with `.` and `..` followed, and the
-- directories that `os.MkdirAll` has made.
pub record Fs : Type 0 where
  pub files : Dict String
  pub dirs : List String

-- How an append to a file by `OpenFile`, `Fprintf` and `Flush` ends, with the text that reached
-- the file.
pub data Appended : Type 0 where
  open_failed : Appended
  print_failed : (written : String) → Appended
  flush_failed : (written : String) → Appended
  appended : Appended

-- What the operating system and the template engine decide. `parse_template fs p` is `none` where
-- `template.ParseFiles(p)` fails; else it maps the data to the text that `Execute` writes, and
-- tells whether `Execute` succeeds.
pub record Host : Type 0 where
  pub parse_template : Fs → String → Option (TemplateData → String × Bool)
  pub create_ok : Fs → String → Bool
  pub write_ok : Fs → String → Bool
  pub append : Fs → String → String → Appended

-- `background` lists what `Populate` has handed to the goroutines that it started: the nodes of
-- each cluster, by the cluster's name.
pub record World : Type 0 where
  pub fs : Fs
  pub inventory : Inventory
  pub clients : Option (Dict Client)
  pub background : List (Dict (List ClusterNode))

abbrev pub Go : Type 0 → Type 0
Go = Exec World

-- `os.Create` or `os.WriteFile`, which follow the parts of the path, and the writes after it, once
-- the host has let the file be opened.
abbrev pub write_file : String → String → Go Unit
write_file path text =
    modify λ w. record w { fs = record w.fs { files = insert (file_at path) text w.fs.files } }

-- `os.MkdirAll`; its result is not read.
abbrev pub mkdir_all : String → Go Unit
mkdir_all path = modify λ w. record w { fs = record w.fs { dirs = w.fs.dirs ++ file_at path ∷ [] } }
