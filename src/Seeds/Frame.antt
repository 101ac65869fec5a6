-- ===== src/Seeds/Frame.antt =====
-- Writing install files and boot entries changes files only.
use o2_ims_worker.Prelude.{String, ◌≡◌, arith, ◌∙◌}
use o2_ims_worker.World.{Host, World}
use o2_ims_worker.Seeds.{render_file, gen_debian_seed, gen_centos_seed, gen_ubuntu_seed}

-- Nothing but files differs.
pub record SameMemory (w w' : World) : Type 0 where
  pub inventory : w'.inventory ≡ w.inventory
  pub clients : w'.clients ≡ w.clients
  pub background : w'.background ≡ w.background

pub SameMemory-trans : {u v w : World} → SameMemory u v → SameMemory v w → SameMemory u w
SameMemory-trans a b = record {
  inventory = b.inventory ∙ a.inventory;
  clients = b.clients ∙ a.clients;
  background = b.background ∙ a.background;
}

module _ (h : Host) where
  pub gen_debian_seed-SameMemory :
      (id mac : String) (w : World) → SameMemory w (gen_debian_seed h id mac w).1
  unfolding gen_debian_seed render_file
  gen_debian_seed-SameMemory id mac w = ground arith

  pub gen_centos_seed-SameMemory :
      (id mac : String) (w : World) → SameMemory w (gen_centos_seed h id mac w).1
  unfolding gen_centos_seed render_file
  gen_centos_seed-SameMemory id mac w = ground arith

  pub gen_ubuntu_seed-SameMemory :
      (id mac : String) (w : World) → SameMemory w (gen_ubuntu_seed h id mac w).1
  unfolding gen_ubuntu_seed render_file
  gen_ubuntu_seed-SameMemory id mac w = ground arith
