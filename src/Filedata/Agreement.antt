-- ===== src/Filedata/Agreement.antt =====
-- What the client table, the inventory and the clusters hold after `Populate`.
use mathlib.Core.Path.{subst}
use o2_ims_worker.Prelude.{
  ℕ, String, ◌==◌, ◌≡◌, refl, sym, ◌∙◌, none, some, List, [], ◌∷◌, arith, if◌then◌else◌,
}
use o2_ims_worker.Prelude.Lists.{length}
use o2_ims_worker.Prelude.Dict.{Dict, lookup, insert, lookup-nil}
use o2_ims_worker.World.{Host, World, Inventory, Client, Row, MachineObject}
use o2_ims_worker.Seeds.Works.{Works}
use o2_ims_worker.Inventory.Generated.{registered}
use o2_ims_worker.Inventory.View.{
  dict_of, log_of, machine_at, installed_at, IsWellFormed, fresh, fresh-IsWellFormed,
  registered-IsWellFormed, registered-machine_at,
}
use o2_ims_worker.Filedata.{clients_csv, data_lines, no_tables, populate}
use o2_ims_worker.Filedata.Loaded.{
  AreRows, machine_for, client_for, register_all, populate-returns, last_row, entry_or,
  lookup-tables_of,
}

-- What the loop over the rows keeps: nothing is logged yet.
pub record IsLoading (i : Inventory) : Type 0 where
  pub well_formed : IsWellFormed i
  pub unlogged : (m : String) → lookup m (log_of i.installed) ≡ none
  pub machines : Dict ℕ
  pub active : i.active ≡ some machines

pub registered-IsLoading :
    (m : String) (object : MachineObject) (i : Inventory)
    → IsLoading i
    → IsLoading (registered m object (dict_of i.active) i)
registered-IsLoading m object i v = record {
  well_formed =
      subst (λ o. IsWellFormed (registered m object (dict_of o) i)) (sym v.active)
        (registered-IsWellFormed m object v.machines i v.active v.well_formed (v.unlogged m));
  unlogged = v.unlogged;
  machines = insert m (length i.heap) (dict_of i.active);
  active = refl;
}

register_all-IsLoading :
    (rows : List Row) (i : Inventory) → IsLoading i → IsLoading (register_all rows i)
unfolding register_all
register_all-IsLoading [] i v = v
register_all-IsLoading (r ∷ rs) i v =
    register_all-IsLoading rs _ (registered-IsLoading r.mac (machine_for r) i v)

machine_at-register_all :
    (mac : String) (rows : List Row) (i : Inventory)
    → IsLoading i
    → machine_at mac (register_all rows i)
      ≡ entry_or machine_for (last_row mac rows) (machine_at mac i)
unfolding register_all last_row
machine_at-register_all mac [] i v = refl
machine_at-register_all mac (r ∷ rs) i v =
    let step =
      subst
        (λ o.
          machine_at mac (registered r.mac (machine_for r) (dict_of o) i)
          ≡ (if r.mac == mac then some (machine_for r) else machine_at mac i))
        (sym v.active)
        (registered-machine_at r.mac mac (machine_for r) v.machines i v.well_formed v.active) in
    ground (
      arith,
      step,
      machine_at-register_all mac rs (registered r.mac (machine_for r) (dict_of i.active) i)
          (registered-IsLoading r.mac (machine_for r) i v),
    )

pub fresh-IsLoading : (heap : List MachineObject) → IsLoading (fresh heap)
fresh-IsLoading heap = record {
  well_formed = fresh-IsWellFormed heap;
  unlogged = λ m. lookup-nil m;
  machines = [];
  active = refl;
}

module _ (h : Host) (k : Works h) (w : World) (rows : List Row)
    (given : AreRows (data_lines (lookup clients_csv w.fs.files)) rows) where
  -- After `Populate`, a client or a machine is found under a MAC address exactly if the file has a
  -- row for it, and it is that of the last such row; no machine is logged as installed, whatever
  -- was logged before.
  pub populate-last_row :
      (clients : Dict Client)
      → (populate h w).1.clients ≡ some clients
      → (mac : String)
      → (lookup mac clients ≡ entry_or client_for (last_row mac rows) none)
        × (machine_at mac (populate h w).1.inventory
            ≡ entry_or machine_for (last_row mac rows) none)
        × (installed_at mac (populate h w).1.inventory ≡ none)
  populate-last_row clients found mac =
      let (ended, table, handed, stored) = populate-returns h k w rows given in
      let start = fresh-IsLoading w.inventory.heap in
      let loaded = register_all-IsLoading rows (fresh w.inventory.heap) start in
      (
        ground
            (arith, table, found, lookup-tables_of mac rows no_tables, lookup-nil {V = Client} mac),
        rw stored (
            machine_at-register_all mac rows (fresh w.inventory.heap) start
            ∙ ground (arith, lookup-nil {V = ℕ} mac)),
        rw stored (ground (arith, loaded.unlogged mac)),
      )
