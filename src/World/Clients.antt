-- ===== src/World/Clients.antt =====
-- The data of internal/db/file.go: a client, and a row of inputs/clients.csv.
use o2_ims_worker.Prelude.{String}
use o2_ims_worker.World.Machines.{MachineObject}

-- `dhcpClients`. The field `userID` is never set, and the machine is a copy, not a pointer.
pub record Client : Type 0 where
  pub offer_ip : String
  pub mac_address : String
  pub boot_file_url : String
  pub os_type : String
  pub machine_object : MachineObject

-- The seven columns that `Populate` reads from a line.
pub record Row : Type 0 where
  pub ip : String
  pub mac : String
  pub file_url : String
  pub os : String
  pub cluster : String
  pub template : String
  pub role : String

-- A member of a cluster as `Populate` collects it and as `Cluster.Nodes` keeps it.
pub record ClusterNode : Type 0 where
  pub node : String
  pub role : String
  pub os : String
  pub ip : String
