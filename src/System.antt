-- ===== src/System.antt =====
-- The state that internal/ansible/ansible.go and its callers share: the process of World, the table
-- of clusters of internal/kubernetes/kubernetes.go, and the environment variables.
pub mod Fetched
pub mod Sound
pub mod Frame
pub mod Background
pub mod Entries
pub mod Registers
pub mod Reach
use o2_ims_worker.Prelude.{String, Option}
use o2_ims_worker.Prelude.Dict.{Dict, insert}
use o2_ims_worker.Prelude.Exec.{Exec, modify}
use o2_ims_worker.World.{World, Go}
use o2_ims_worker.Kubernetes.{Cluster, Kube}

pub record System : Type 0 where
  pub world : World
  pub clusters : Option (Dict Cluster)
  pub environment : Dict String

abbrev pub Sys : Type 0 → Type 0
Sys = Exec System

-- Code of the process, and code of the table of clusters.
abbrev pub in_world : {A : Type 0} → Go A → Sys A
in_world m s = ((m s.world).0, record s { world = (m s.world).1 })

abbrev pub in_clusters : {A : Type 0} → Kube A → Sys A
in_clusters m s = ((m s.clusters).0, record s { clusters = (m s.clusters).1 })

-- `os.Setenv`; its result is not read.
abbrev pub setenv : (key value : String) → Sys Unit
setenv key value = modify λ s. record s { environment = insert key value s.environment }
