-- ===== src/Inventory/Installed.antt =====
-- What `LogInstalledMachine` does to the tables and to the boot entries.
use o2_ims_worker.Prelude.{
  ℕ, String, ◌<>◌, ◌≡◌, ◌≢◌, none, some, arith, ◌⊎◌, inl, inr, Option-cases, eq_iff,
}
use o2_ims_worker.Prelude.Lists.{get_elem?}
use o2_ims_worker.Prelude.Dict.{Dict, lookup, insert, lookup-insert, lookup-insert_self}
use o2_ims_worker.Prelude.Exec.{returns}
use o2_ims_worker.World.{Host, World, InstalledMachines, MachineObject, machine}
use o2_ims_worker.Seeds.Works.{Works}
use o2_ims_worker.Inventory.{
  bios, efi, bios_entry, efi_entry, mark_installed, record_install, gen_pxe_entry, log_installed_at,
  log_installed_in, log_installed_machine,
}
use o2_ims_worker.Inventory.Generated.{
  SameClients, gen_pxe_entry-SameMemory, gen_pxe_entry-returns, gen_pxe_entry_lem,
}
use o2_ims_worker.Inventory.Entries.{bios-ne-efi}
use o2_ims_worker.Prelude.Text.{Lacks}
use o2_ims_worker.Prelude.Paths.{file_at}
use o2_ims_worker.Inventory.Places.{file_at-bios_entry, file_at-efi_entry}
use o2_ims_worker.Inventory.View.{
  machine_at, installed_at, IsWellFormed, marked_in, marked_in-IsWellFormed, marked_in-machine_at,
  machine_at-some,
}

module _ (h : Host) (m ot : String) (given now : ℕ) where
  abbrev after : World → World
  after w = (log_installed_machine h m ot given now w).1

  log_installed-inventory :
      (w : World) (machines : Dict ℕ) (log : InstalledMachines) (address : ℕ)
      (object : MachineObject)
      → w.inventory.active ≡ some machines
      → w.inventory.installed ≡ some log
      → lookup m machines ≡ some address
      → get_elem? w.inventory.heap address ≡ some object
      → (after w).inventory ≡ marked_in m now address object machines log w.inventory
  unfolding log_installed_machine log_installed_in log_installed_at
  log_installed-inventory w machines log address object a i l g =
      let w₁ = record_install m address now object log w in
      let w₂ = (gen_pxe_entry h bios m (mark_installed object) w₁).1 in
      ground (
        arith,
        gen_pxe_entry-SameMemory h bios m (mark_installed object) w₁,
        gen_pxe_entry-SameMemory h efi m (mark_installed object) w₂,
      )

  log_installed-returns :
      Works h
      → (w : World) (machines : Dict ℕ) (log : InstalledMachines) (address : ℕ)
        (object : MachineObject)
      → w.inventory.active ≡ some machines
      → w.inventory.installed ≡ some log
      → lookup m machines ≡ some address
      → get_elem? w.inventory.heap address ≡ some object
      → (log_installed_machine h m ot given now w).0 ≡ returns none
  unfolding log_installed_machine log_installed_in log_installed_at
  log_installed-returns k w machines log address object a i l g =
      let w₁ = record_install m address now object log w in
      let w₂ = (gen_pxe_entry h bios m (mark_installed object) w₁).1 in
      ground (
        arith,
        gen_pxe_entry-returns h k bios m (mark_installed object) w₁,
        gen_pxe_entry-returns h k efi m (mark_installed object) w₂,
      )

  log_installed-files :
      (k : Works h)
      → (w : World) (machines : Dict ℕ) (log : InstalledMachines) (address : ℕ)
        (object : MachineObject)
      → w.inventory.active ≡ some machines
      → w.inventory.installed ≡ some log
      → lookup m machines ≡ some address
      → get_elem? w.inventory.heap address ≡ some object
      → (after w).fs.files
        ≡ insert
            (file_at (efi_entry m))
            (k.render "templates/grub.tmpl" (machine (mark_installed object)))
            (insert
              (file_at (bios_entry m))
              (k.render "templates/main.tmpl" (machine (mark_installed object)))
              w.fs.files)
  unfolding log_installed_machine log_installed_in log_installed_at
  log_installed-files k w machines log address object a i l g =
      let w₁ = record_install m address now object log w in
      let w₂ = (gen_pxe_entry h bios m (mark_installed object) w₁).1 in
      ground (
        arith,
        gen_pxe_entry_lem h k bios m (mark_installed object) w₁,
        gen_pxe_entry_lem h k efi m (mark_installed object) w₂,
      )

  log_installed-inventory_missing :
      (w : World) (machines : Dict ℕ)
      → w.inventory.active ≡ some machines
      → lookup m machines ≡ none
      → (after w).inventory ≡ w.inventory
  unfolding log_installed_machine log_installed_in log_installed_at
  log_installed-inventory_missing w machines a l = ground arith

  log_installed-inventory_nil :
      (w : World) (machines : Dict ℕ) (address : ℕ)
      → w.inventory.active ≡ some machines
      → lookup m machines ≡ some address
      → (get_elem? w.inventory.heap address ≡ none) ⊎ (w.inventory.installed ≡ none)
      → (after w).inventory ≡ w.inventory
  unfolding log_installed_machine log_installed_in log_installed_at
  log_installed-inventory_nil w machines address a l n = ground arith

  log_installed-inventory_before_init :
      (w : World) → w.inventory.active ≡ none → (after w).inventory ≡ w.inventory
  unfolding log_installed_machine log_installed_in log_installed_at
  log_installed-inventory_before_init w a = ground arith

  log_installed_machine-in :
      (w : World) (machines : Dict ℕ)
      → w.inventory.active ≡ some machines
      → log_installed_machine h m ot given now w ≡ log_installed_in h m now machines w
  unfolding log_installed_machine
  log_installed_machine-in w machines a = ground arith

  log_installed_at-SameClients :
      (address : ℕ) (object : MachineObject) (w : World)
      → SameClients w (log_installed_at h m now address object w).1
  unfolding log_installed_at
  log_installed_at-SameClients address object w = elim (Option-cases w.inventory.installed) [
    | inl i ↦ ground (arith, i)
    | inr (log, i) ↦
        let w₁ = record_install m address now object log w in
        let w₂ = (gen_pxe_entry h bios m (mark_installed object) w₁).1 in
        ground (
          arith,
          i,
          gen_pxe_entry-SameMemory h bios m (mark_installed object) w₁,
          gen_pxe_entry-SameMemory h efi m (mark_installed object) w₂,
        )
  ]

  log_installed_in-SameClients :
      (machines : Dict ℕ) (w : World) → SameClients w (log_installed_in h m now machines w).1
  unfolding log_installed_in
  log_installed_in-SameClients machines w = elim (Option-cases (lookup m machines)) [
    | inl l ↦ ground (arith, l)
    | inr (address, l) ↦ elim (Option-cases (get_elem? w.inventory.heap address)) [
      | inl g ↦ ground (arith, l, g)
      | inr (object, g) ↦ ground (arith, l, g, log_installed_at-SameClients address object w)
    ]
  ]

  -- A callback leaves the client table alone.
  pub log_installed_machine-SameClients :
      (w : World) → SameClients w (log_installed_machine h m ot given now w).1
  log_installed_machine-SameClients w = elim (Option-cases w.inventory.active) [
    | inl a ↦ unfold log_installed_machine in ground (arith, a)
    | inr (machines, a) ↦
        rw (log_installed_machine-in w machines a) (log_installed_in-SameClients machines w)
  ]

  -- A callback for any MAC address, on any host and however it ends, keeps the inventory
  -- well-formed.
  pub log_installed_machine-IsWellFormed :
      (w : World)
      → IsWellFormed w.inventory
      → IsWellFormed (log_installed_machine h m ot given now w).1.inventory
  log_installed_machine-IsWellFormed w v = elim (Option-cases w.inventory.active) [
    | inl a ↦ rw (log_installed-inventory_before_init w a) v
    | inr (machines, a) ↦ elim (Option-cases (lookup m machines)) [
      | inl l ↦ rw (log_installed-inventory_missing w machines a l) v
      | inr (address, l) ↦ elim (Option-cases (get_elem? w.inventory.heap address)) [
        | inl g ↦ rw (log_installed-inventory_nil w machines address a l (inl g)) v
        | inr (object, g) ↦ elim (Option-cases w.inventory.installed) [
          | inl i ↦ rw (log_installed-inventory_nil w machines address a l (inr i)) v
          | inr (log, i) ↦
              rw (log_installed-inventory w machines log address object a i l g)
                (marked_in-IsWellFormed m now address object machines log w.inventory v a i l)
        ]
      ]
    ]
  ]

  -- An unknown MAC address, where the inventory has been set up: the error names it, and nothing
  -- in the process or in its files changes.
  pub log_installed_machine_unknown :
      (w : World) (machines : Dict ℕ)
      → w.inventory.active ≡ some machines
      → lookup m machines ≡ none
      → log_installed_machine h m ot given now w
        ≡ (returns (some ("Inventory not Exist: " <> m)), w)
  unfolding log_installed_machine log_installed_in log_installed_at
  log_installed_machine_unknown w machines a l = ground arith

module _ (h : Host) (k : Works h) (m ot : String) (given now : ℕ) (w : World)
    (log : InstalledMachines) (object : MachineObject) where
  -- On a host where nothing fails, a callback for a machine of a well-formed inventory returns no
  -- error; the machine is then marked as installed, in the table and in the log alike, and the
  -- table's entry for every other MAC address is as before.
  pub log_installed_machine-marks :
      IsWellFormed w.inventory
      → w.inventory.installed ≡ some log
      → machine_at m w.inventory ≡ some object
      → ((log_installed_machine h m ot given now w).0 ≡ returns none)
        × (machine_at m (log_installed_machine h m ot given now w).1.inventory
            ≡ some (mark_installed object))
        × (installed_at m (log_installed_machine h m ot given now w).1.inventory
            ≡ some (mark_installed object))
        × ((j : String)
            → m ≢ j
            → machine_at j (log_installed_machine h m ot given now w).1.inventory
              ≡ machine_at j w.inventory)
  log_installed_machine-marks v i found =
      let (machines, address, a, l, g) = machine_at-some m w.inventory object found in
      rw (log_installed-inventory h m ot given now w machines log address object a i l g) (
        let (table, logged, others) =
          marked_in-machine_at m now address object machines log w.inventory v a l in
        (
          log_installed-returns h m ot given now k w machines log address object a i l g,
          table,
          logged,
          others,
        ))

  -- On a host where nothing fails, a callback for a known machine whose MAC address has no slash
  -- leaves two boot entries rendered from the machine marked as installed: that of GRUB and that of
  -- PXELINUX.
  pub log_installed_machine-entries :
      Lacks b'/' m
      → w.inventory.installed ≡ some log
      → machine_at m w.inventory ≡ some object
      → (lookup (efi_entry m) (log_installed_machine h m ot given now w).1.fs.files
          ≡ some (k.render "templates/grub.tmpl" (machine (mark_installed object))))
        × (lookup (bios_entry m) (log_installed_machine h m ot given now w).1.fs.files
            ≡ some (k.render "templates/main.tmpl" (machine (mark_installed object))))
  log_installed_machine-entries plain i found =
      let (machines, address, a, l, g) = machine_at-some m w.inventory object found in
      rw (log_installed-files h m ot given now k w machines log address object a i l g) (
        rw (file_at-efi_entry m plain) (
          rw (file_at-bios_entry m plain) (
            lookup-insert_self _ _ _,
            ground (
              arith,
              lookup-insert (efi_entry m) (bios_entry m)
                  (k.render "templates/grub.tmpl" (machine (mark_installed object)))
                  (insert (bios_entry m)
                    (k.render "templates/main.tmpl" (machine (mark_installed object))) w.fs.files),
              lookup-insert_self (bios_entry m)
                  (k.render "templates/main.tmpl" (machine (mark_installed object))) w.fs.files,
              eq_iff (efi_entry m) (bios_entry m),
              λ (e : bios_entry m ≡ efi_entry m). bios-ne-efi m m e,
            ),
          )))
