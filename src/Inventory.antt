-- ===== src/Inventory.antt =====
-- internal/inventory/inventory.go: the machines, their boot entries, and the record of installs.
pub mod Generated
pub mod View
pub mod Entries
pub mod Places
pub mod Assets
pub mod Installed
use o2_ims_worker.Prelude.{
  ℕ, String, ◌<>◌, ◌==◌, Option, none, some, List, [], ◌∷◌, ◌++◌, code, true, false, if◌then◌else◌,
}
use o2_ims_worker.Prelude.Lists.{length, get_elem?, set}
use o2_ims_worker.Prelude.Dict.{Dict, lookup, insert}
use o2_ims_worker.Prelude.Exec.{pure, panic, fatal, gets, modify, ◌>>=◌, ◌>>◌}
use o2_ims_worker.Prelude.Text.{replace_all}
use o2_ims_worker.Seeds.{render_file, gen_debian_seed, gen_centos_seed, gen_ubuntu_seed}
use o2_ims_worker.World.{
  Host, World, Go, Inventory, InstalledMachines, MachineObject, OsData, nil, centos, debian, ubuntu,
  machine,
}

-- `strings.ReplaceAll(m, ":", "-")`
unfoldable pub mac_as_id : String → String
unfolding replace_all
mac_as_id m = replace_all b':' "-" m

abbrev pub base_url : String
base_url = "http://192.168.99.1:8033/"

-- The files of the two boot loaders for a MAC address.
abbrev pub bios_entry : String → String
bios_entry m = "assets/tftp/bios/pxelinux.cfg/01-" <> mac_as_id m

abbrev pub efi_entry : String → String
efi_entry m = "assets/tftp/efi/grub/x86_64-efi/grub.cfg-01-" <> mac_as_id m

-- `Init`: two empty maps. The objects that the old maps pointed to stay in the heap.
unfoldable pub init : Go Unit
init = modify λ w. record w {
  inventory = record w.inventory {
    active = some [];
    installed = some (record { machines = []; install_time = none });
  };
}

-- `FetchMachines`
unfoldable pub fetch_machines : Go (Option (Dict ℕ))
fetch_machines = gets (λ w. w.inventory.active)

-- `mode` of `genPXEEntry`: the code only ever passes these two.
pub data Mode : Type 0 where
  bios efi : Mode

abbrev pub template_of : Mode → String
template_of bios = "templates/main.tmpl"
template_of efi = "templates/grub.tmpl"

abbrev pub entry_of : Mode → String → String
entry_of bios m = bios_entry m
entry_of efi m = efi_entry m

-- The object that `Generate` fills in before the switch on the operating system.
abbrev pub blank : (ip m c role ansible_template : String) → MachineObject
blank ip m c role ansible_template = record {
  ip = ip;
  cluster = c;
  template = ansible_template;
  id = mac_as_id m;
  os_name = "";
  os_type = "";
  kernel = "";
  os_data = nil;
  installed = false;
  role = role;
}

-- The object after the switch; an unknown system leaves it as it was.
unfoldable pub machine_of : (ip m t c role ansible_template : String) → MachineObject
machine_of ip m t c role ansible_template =
    if t == "centos"
    then record (blank ip m c role ansible_template) {
      os_name = "Centos Stream 10";
      os_type = t;
      kernel = "/images/centos/vmlinuz";
      os_data = centos (record {
        initrd = "/images/centos/initrd.img";
        ip = "";
        install_kick_start_url = base_url <> "centos/" <> mac_as_id m <> "/install.ks";
        install_repo_url = base_url <> "centos/mirror/";
        stage2 = base_url <> "centos/mirror";
      });
    }
    else if t == "ubuntu"
    then record (blank ip m c role ansible_template) {
      os_name = "Ubuntu 20.04";
      os_type = t;
      kernel = "/images/ubuntu/linux";
      os_data = ubuntu (record {
        initrd = "/images/ubuntu/initrd";
        ip = "";
        iso_url = base_url <> "ubuntu/iso/ubuntu-26.04-live-server-amd64.iso";
        cloud_config_url = "/dev/null";
        ds = base_url <> "ubuntu/" <> mac_as_id m <> "/";
        root_path = "/dev/ram0";
      });
    }
    else if t == "debian"
    then record (blank ip m c role ansible_template) {
      os_name = "Debian 12";
      os_type = t;
      kernel = "/images/debian/linux";
      os_data = debian (record {
        initrd = "/images/debian/initrd.gz";
        pre_seed_url = base_url <> "debian/preseed-" <> mac_as_id m <> ".cfg";
      });
    }
    else blank ip m c role ansible_template

-- `machines := activeMachines.Machines; machines[m] = &targetMachine`: the object moves to the
-- heap. A nil `activeMachines` is dereferenced.
unfoldable pub register : String → MachineObject → Go Unit
register m object w = elim w.inventory.active [
  | none ↦ panic "nil pointer dereference" w
  | some machines ↦ pure tt (record w {
    inventory = record w.inventory {
      heap = w.inventory.heap ++ object ∷ [];
      active = some (insert m (length w.inventory.heap) machines);
    };
  })
]

-- `targetMachine.Installed = true` through the pointer.
abbrev pub mark_installed : MachineObject → MachineObject
mark_installed object = record object { installed = true }

-- The writes of `LogInstalledMachine` to the two maps' owners and to the object.
abbrev record_install : String → ℕ → ℕ → MachineObject → InstalledMachines → World → World
record_install m address now object log w = record w {
  inventory = record w.inventory {
    heap = set w.inventory.heap address (mark_installed object);
    installed = some (record { machines = insert m address log.machines; install_time = some now });
  };
}

module _ (h : Host) where
  -- `genPXEEntry`
  unfoldable pub gen_pxe_entry : Mode → String → MachineObject → Go Unit
  gen_pxe_entry mode m object =
      render_file h (template_of mode) (entry_of mode m) (machine object)
        (fatal "Failed to parse template file") (panic "create entry") (panic "execute entry")

  -- The call in each case of the switch of `Generate`.
  unfoldable pub gen_seed : (t id m : String) → Go Unit
  gen_seed t id m =
      if t == "centos"
      then gen_centos_seed h id m
      else if t == "ubuntu"
      then gen_ubuntu_seed h id m
      else if t == "debian"
      then gen_debian_seed h id m
      else pure tt

  -- `Generate`
  unfoldable pub generate : (ip m t c role ansible_template : String) → Go MachineObject
  generate ip m t c role ansible_template = do
    let object = machine_of ip m t c role ansible_template
    gen_seed t (mac_as_id m) m
    gen_pxe_entry bios m object
    gen_pxe_entry efi m object
    register m object
    pure object

  -- The known-machine branch of `LogInstalledMachine`, from the pointer on.
  pub log_installed_at : String → ℕ → ℕ → MachineObject → Go (Option String)
  log_installed_at m now address object w = elim w.inventory.installed [
    | none ↦ panic "nil pointer dereference" w
    | some log ↦
        (do
          modify (record_install m address now object log)
          gen_pxe_entry bios m (mark_installed object)
          gen_pxe_entry efi m (mark_installed object)
          pure none)
          w
  ]

  -- The lookup of `LogInstalledMachine`; `some` is the error's text.
  pub log_installed_in : String → ℕ → Dict ℕ → Go (Option String)
  log_installed_in m now machines w = elim (lookup m machines) [
    | none ↦ pure (some ("Inventory not Exist: " <> m)) w
    | some address ↦ elim (get_elem? w.inventory.heap address) [
      | none ↦ panic "nil pointer dereference" w
      | some object ↦ log_installed_at m now address object w
    ]
  ]

  -- `LogInstalledMachine`. `now` is what `time.Now()` gives; the parameters `ot` and `installedAt`
  -- are not read.
  unfoldable pub log_installed_machine : (m ot : String) (installed_at now : ℕ) → Go (Option String)
  log_installed_machine m ot installed_at now w = elim w.inventory.active [
    | none ↦ panic "nil pointer dereference" w
    | some machines ↦ log_installed_in m now machines w
  ]

-- `GetTemplate(m)`; a missing machine is a nil pointer.
unfoldable pub get_template : String → Go String
get_template m w = elim w.inventory.active [
  | none ↦ panic "nil pointer dereference" w
  | some machines ↦ elim (lookup m machines) [
    | none ↦ panic "nil pointer dereference" w
    | some address ↦ elim (get_elem? w.inventory.heap address) [
      | none ↦ panic "nil pointer dereference" w
      | some object ↦ pure object.template w
    ]
  ]
]
