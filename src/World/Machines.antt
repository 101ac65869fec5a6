-- ===== src/World/Machines.antt =====
-- The data of internal/inventory: inventory.go lines 10-68 and debian.go lines 13-51.
use o2_ims_worker.Prelude.{ℕ, String, Bool, Option, List}
use o2_ims_worker.Prelude.Dict.{Dict}

pub record CentOsSpecific : Type 0 where
  pub initrd : String
  pub ip : String
  pub install_kick_start_url : String
  pub install_repo_url : String
  pub stage2 : String

pub record DebianSpecific : Type 0 where
  pub initrd : String
  pub pre_seed_url : String

pub record UbuntuSpecific : Type 0 where
  pub initrd : String
  pub ip : String
  pub iso_url : String
  pub cloud_config_url : String
  pub ds : String
  pub root_path : String

-- The values that the program stores in the field `OSData any`; `nil` is Go's zero value.
pub data OsData : Type 0 where
  nil : OsData
  centos : CentOsSpecific → OsData
  debian : DebianSpecific → OsData
  ubuntu : UbuntuSpecific → OsData

pub record MachineObject : Type 0 where
  pub ip : String
  pub cluster : String
  pub template : String
  pub id : String
  pub os_name : String
  pub os_type : String
  pub kernel : String
  pub os_data : OsData
  pub installed : Bool
  pub role : String

pub record BaseConfig : Type 0 where
  pub locale : String
  pub keymap : String
  pub timezone : String
  pub hostname : String
  pub domain : String
  pub username : String
  pub user_fullname : String
  pub password_hash : String
  pub mirror_host : String
  pub mirror_dir : String
  pub callback_host : String
  pub mac_address : String
  pub ssh_pub_key : String

pub record DebianConfig : Type 0 where
  pub base : BaseConfig
  pub interface : String
  pub disk_device : String
  pub tasksel : String
  pub extra_packages : String
  pub suite : String

pub record CentOsConfig : Type 0 where
  pub base : BaseConfig
  pub interface : String
  pub disk_device : String
  pub extra_packages : String

pub record UbuntuConfig : Type 0 where
  pub base : BaseConfig
  pub interface : String
  pub extra_packages : List String

-- What the program executes a template with.
pub data TemplateData : Type 0 where
  machine : MachineObject → TemplateData
  debian_seed : DebianConfig → TemplateData
  centos_seed : CentOsConfig → TemplateData
  ubuntu_seed : UbuntuConfig → TemplateData

-- `installedMachines`; the map holds pointers.
pub record InstalledMachines : Type 0 where
  pub machines : Dict ℕ
  pub install_time : Option ℕ

-- The globals `activeMachines` and `activeInstalledMachines`, `none` where the pointer is nil.
-- Both maps hold pointers into `heap`, where an address is a position.
pub record Inventory : Type 0 where
  pub heap : List MachineObject
  pub active : Option (Dict ℕ)
  pub installed : Option InstalledMachines
