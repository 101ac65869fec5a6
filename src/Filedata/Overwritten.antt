-- ===== src/Filedata/Overwritten.antt =====
-- `Populate` over a file whose last row has a MAC address that leads out of assets/.
use o2_ims_worker.Prelude.{String, ◌≡◌, some}
use o2_ims_worker.Prelude.Dict.{Dict, lookup}
use o2_ims_worker.World.{Host, World, Row, machine}
use o2_ims_worker.Seeds.Works.{Works}
use o2_ims_worker.Filedata.{clients_csv}
use o2_ims_worker.Filedata.Loaded.{machine_for}

-- A MAC address that leads from the directory of the BIOS entries to the input file.
abbrev pub outside_mac : String
outside_mac = "x/../../../../../inputs/clients.csv"

module _ (h : Host) (k : Works h) where
  -- What the input file holds once the row has been through `Generate`.
  abbrev pub Overwrites : Row → World → Type 0
  Overwrites r w =
      lookup clients_csv w.fs.files
      ≡ some (k.render "templates/main.tmpl" (machine (machine_for r)))
