-- ===== src/Inventory/Generated.antt =====
-- What `Generate` changes, and what it makes on a host where nothing fails.
use o2_ims_worker.Prelude.{ℕ, String, ◌≡◌, ◌∙◌, ◌⊎◌, some, [], ◌∷◌, ◌++◌, arith}
use o2_ims_worker.Prelude.Lists.{length}
use o2_ims_worker.Prelude.Dict.{Dict, insert}
use o2_ims_worker.Prelude.Exec.{returns}
use o2_ims_worker.World.{Host, World, Inventory, MachineObject, machine, write_file}
use o2_ims_worker.Seeds.{render_file}
use o2_ims_worker.Seeds.Frame.{
  SameMemory, gen_debian_seed-SameMemory, gen_centos_seed-SameMemory, gen_ubuntu_seed-SameMemory,
}
use o2_ims_worker.Seeds.Works.{
  Works, render_file_lem, gen_debian_seed-returns, gen_centos_seed-returns, gen_ubuntu_seed-returns,
}
use o2_ims_worker.Inventory.{
  Mode, bios, efi, template_of, entry_of, mac_as_id, machine_of, register, gen_pxe_entry, gen_seed,
  generate,
}

-- `machines[m]` now points to a new object of the heap.
abbrev pub registered : String → MachineObject → Dict ℕ → Inventory → Inventory
registered m object machines i = record i {
  heap = i.heap ++ object ∷ [];
  active = some (insert m (length i.heap) machines);
}

-- The client table and the background work are as before.
pub record SameClients (w w' : World) : Type 0 where
  pub clients : w'.clients ≡ w.clients
  pub background : w'.background ≡ w.background

pub SameClients-trans : {u v w : World} → SameClients u v → SameClients v w → SameClients u w
SameClients-trans a b = record {
  clients = b.clients ∙ a.clients;
  background = b.background ∙ a.background;
}

module _ (h : Host) where
  pub gen_pxe_entry-SameMemory :
      (mode : Mode) (m : String) (object : MachineObject) (w : World)
      → SameMemory w (gen_pxe_entry h mode m object w).1
  unfolding gen_pxe_entry render_file
  gen_pxe_entry-SameMemory mode m object w = ground arith

  gen_seed-SameMemory : (t id m : String) (w : World) → SameMemory w (gen_seed h t id m w).1
  unfolding gen_seed
  gen_seed-SameMemory t id m w = ground (
    arith,
    gen_centos_seed-SameMemory h id m w,
    gen_ubuntu_seed-SameMemory h id m w,
    gen_debian_seed-SameMemory h id m w,
  )

  register-SameClients :
      (m : String) (object : MachineObject) (w : World) → SameClients w (register m object w).1
  unfolding register
  register-SameClients m object w = ground arith

  -- However `Generate` ends, the client table is as before.
  pub generate-SameClients :
      (ip m t c role ansible_template : String) (w : World)
      → SameClients w (generate h ip m t c role ansible_template w).1
  unfolding generate
  generate-SameClients ip m t c role ansible_template w =
      let object = machine_of ip m t c role ansible_template in
      let w₁ = (gen_seed h t (mac_as_id m) m w).1 in
      let w₂ = (gen_pxe_entry h bios m object w₁).1 in
      let w₃ = (gen_pxe_entry h efi m object w₂).1 in
      ground (
        arith,
        gen_seed-SameMemory t (mac_as_id m) m w,
        gen_pxe_entry-SameMemory bios m object w₁,
        gen_pxe_entry-SameMemory efi m object w₂,
        register-SameClients m object w₃,
      )

  -- Until `Generate` ends, the inventory stays or gets the object registered.
  pub generate-inventory :
      (ip m t c role ansible_template : String) (machines : Dict ℕ) (w : World)
      → w.inventory.active ≡ some machines
      → ((generate h ip m t c role ansible_template w).1.inventory ≡ w.inventory)
        ⊎ ((generate h ip m t c role ansible_template w).1.inventory
            ≡ registered m (machine_of ip m t c role ansible_template) machines w.inventory)
  unfolding generate register
  generate-inventory ip m t c role ansible_template machines w e =
      let object = machine_of ip m t c role ansible_template in
      let w₁ = (gen_seed h t (mac_as_id m) m w).1 in
      let w₂ = (gen_pxe_entry h bios m object w₁).1 in
      let w₃ = (gen_pxe_entry h efi m object w₂).1 in
      ground (
        arith,
        gen_seed-SameMemory t (mac_as_id m) m w,
        gen_pxe_entry-SameMemory bios m object w₁,
        gen_pxe_entry-SameMemory efi m object w₂,
      )

module _ (h : Host) (k : Works h) where
  pub gen_pxe_entry_lem :
      (mode : Mode) (m : String) (object : MachineObject) (w : World)
      → gen_pxe_entry h mode m object w
        ≡ write_file (entry_of mode m) (k.render (template_of mode) (machine object)) w
  unfolding gen_pxe_entry
  gen_pxe_entry_lem mode m object w = simp (render_file_lem h k)

  pub gen_pxe_entry-returns :
      (mode : Mode) (m : String) (object : MachineObject) (w : World)
      → (gen_pxe_entry h mode m object w).0 ≡ returns tt
  unfolding gen_pxe_entry
  gen_pxe_entry-returns mode m object w = simp (render_file_lem h k)

  pub gen_seed-returns : (t id m : String) (w : World) → (gen_seed h t id m w).0 ≡ returns tt
  unfolding gen_seed
  gen_seed-returns t id m w = ground (
    arith,
    gen_centos_seed-returns h k id m w,
    gen_ubuntu_seed-returns h k id m w,
    gen_debian_seed-returns h k id m w,
  )

  -- On a host where nothing fails `Generate` returns the object of its arguments, and registers it.
  pub generate-returns :
      (ip m t c role ansible_template : String) (machines : Dict ℕ) (w : World)
      → w.inventory.active ≡ some machines
      → ((generate h ip m t c role ansible_template w).0
          ≡ returns (machine_of ip m t c role ansible_template))
        × ((generate h ip m t c role ansible_template w).1.inventory
            ≡ registered m (machine_of ip m t c role ansible_template) machines w.inventory)
  unfolding generate register
  generate-returns ip m t c role ansible_template machines w e =
      let object = machine_of ip m t c role ansible_template in
      let w₁ = (gen_seed h t (mac_as_id m) m w).1 in
      let w₂ = (gen_pxe_entry h bios m object w₁).1 in
      let w₃ = (gen_pxe_entry h efi m object w₂).1 in
      ground (
        arith,
        gen_seed-SameMemory h t (mac_as_id m) m w,
        gen_pxe_entry-SameMemory h bios m object w₁,
        gen_pxe_entry-SameMemory h efi m object w₂,
        gen_seed-returns t (mac_as_id m) m w,
        gen_pxe_entry-returns bios m object w₁,
        gen_pxe_entry-returns efi m object w₂,
      )
