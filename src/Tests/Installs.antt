-- ===== src/Tests/Installs.antt =====
-- Installs and requests on the process that has loaded the input file.
use o2_ims_worker.Prelude.{
  ℕ, String, ◌<>◌, Option, ◌≡◌, ◌≢◌, ◌↔◌, refl, ap, none, some, [], ◌∷◌, arith, true, eq_iff,
}
use o2_ims_worker.Prelude.Dict.{Dict, lookup, insert}
use o2_ims_worker.Prelude.Exec.{returns}
use o2_ims_worker.World.{World, MachineObject, InstalledMachines}
use o2_ims_worker.Inventory.{
  mac_as_id, bios_entry, efi_entry, mark_installed, log_installed_machine,
}
use o2_ims_worker.Inventory.View.{machine_at, installed_at}
use o2_ims_worker.Inventory.Installed.{log_installed_machine-marks, log_installed_machine-entries}
use o2_ims_worker.Filedata.{no_tables, populate}
use o2_ims_worker.Filedata.Loaded.{machine_for, last_row, tables_of, register_all, populate-returns}
use o2_ims_worker.Filedata.Agreement.{populate-last_row}
use o2_ims_worker.Filedata.Invariant.{IsConsistent}
use o2_ims_worker.Http.{Request, written, malformed, handle_callback}
use o2_ims_worker.Http.Callback.{handle_callback-success_iff}
use o2_ims_worker.Http.Boot.{handle_callback-boots}
use o2_ims_worker.Tftp.{transferred, read_handler}
use o2_ims_worker.Worker.{load, here, next}
use o2_ims_worker.Worker.Reach.{Reaches-IsConsistent}
use o2_ims_worker.Tests.World.{host, works, rows, second_row, disk, start}
use o2_ims_worker.Tests.Loading.{rows_given}

abbrev loaded : World
loaded = (populate host start).1

abbrev log : InstalledMachines
log = record { machines = []; install_time = none }

abbrev machines : Dict ℕ
machines = ("aa:bb", 2) ∷ ("cc:dd", 1) ∷ []

abbrev second_machine : MachineObject
second_machine = machine_for second_row

loaded-IsConsistent : IsConsistent loaded
loaded-IsConsistent = Reaches-IsConsistent host disk loaded (next here (load start))

loaded_log : loaded.inventory.installed ≡ some log
unfolding register_all
loaded_log = ap (λ i. i.installed) (populate-returns host works start rows rows_given).3

loaded_machines : loaded.inventory.active ≡ some machines
unfolding register_all insert
loaded_machines = ap (λ i. i.active) (populate-returns host works start rows rows_given).3

second_found : machine_at "cc:dd" loaded.inventory ≡ some second_machine
unfolding last_row
second_found =
    (populate-last_row host works start rows rows_given (tables_of rows no_tables).clients
      (populate-returns host works start rows rows_given).1 "cc:dd").1

log_installed_machine-marks_example :
    ((log_installed_machine host "cc:dd" "" 7 7 loaded).0 ≡ returns none)
    × (machine_at "cc:dd" (log_installed_machine host "cc:dd" "" 7 7 loaded).1.inventory
        ≡ some (mark_installed second_machine))
    × (installed_at "cc:dd" (log_installed_machine host "cc:dd" "" 7 7 loaded).1.inventory
        ≡ some (mark_installed second_machine))
    × ((j : String)
        → "cc:dd" ≢ j
        → machine_at j (log_installed_machine host "cc:dd" "" 7 7 loaded).1.inventory
          ≡ machine_at j loaded.inventory)
log_installed_machine-marks_example =
    log_installed_machine-marks host works "cc:dd" "" 7 7 loaded log second_machine
      loaded-IsConsistent.well_formed loaded_log second_found

log_installed_machine-entries_example :
    (lookup (efi_entry "cc:dd") (log_installed_machine host "cc:dd" "" 7 7 loaded).1.fs.files
      ≡ some "templates/grub.tmpl local")
    × (lookup (bios_entry "cc:dd") (log_installed_machine host "cc:dd" "" 7 7 loaded).1.fs.files
        ≡ some "templates/main.tmpl local")
log_installed_machine-entries_example =
    log_installed_machine-entries host works "cc:dd" "" 7 7 loaded log second_machine (omega arith)
      loaded_log second_found

id_test : mac_as_id "cc:dd:01" ≡ "cc-dd-01"
unfolding mac_as_id
id_test = refl

abbrev callback : Request
callback = record {
  method = "GET";
  path = "/callback";
  query = λ key. "cc:dd";
  body = malformed "EOF";
  encodes = true;
}

handle_callback-success_iff_example :
    ((handle_callback host 7 callback loaded).0 ≡ returns (written "Success!"))
    ↔ (machine_at "cc:dd" loaded.inventory ≢ none)
handle_callback-success_iff_example =
    handle_callback-success_iff host works 7 callback loaded machines log
      loaded-IsConsistent.well_formed loaded_machines loaded_log (ground (arith, eq_iff "cc:dd" ""))

abbrev unsent : String → Option String
unsent content = none

handle_callback-boots_example :
    (read_handler unsent
        ("/" <> ("bios/pxelinux.cfg/01-" <> mac_as_id "cc:dd"))
        (handle_callback host 7 callback loaded).1
      ≡ returns (transferred "templates/main.tmpl local" none))
    × (read_handler unsent
          ("/" <> ("efi/grub/x86_64-efi/grub.cfg-01-" <> mac_as_id "cc:dd"))
          (handle_callback host 7 callback loaded).1
        ≡ returns (transferred "templates/grub.tmpl local" none))
handle_callback-boots_example =
    handle_callback-boots host works 7 callback loaded log second_machine unsent
      (ground (arith, eq_iff "cc:dd" "")) (omega arith) loaded_log second_found
