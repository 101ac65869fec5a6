-- ===== src/Http/Callback.antt =====
-- What the endpoint /callback answers.
use o2_ims_worker.Prelude.{
  ℕ, String, ◌≡◌, ◌≢◌, ◌↔◌, ap, Option, none, some, arith, eq_iff, Option-cases, inl, inr,
}
use o2_ims_worker.Prelude.Lists.{get_elem?-some}
use o2_ims_worker.Prelude.Dict.{Dict, lookup}
use o2_ims_worker.Prelude.Exec.{returns}
use o2_ims_worker.World.{Host, World, InstalledMachines}
use o2_ims_worker.Seeds.Works.{Works}
use o2_ims_worker.Inventory.{log_installed_machine}
use o2_ims_worker.Inventory.View.{machine_at, IsWellFormed}
use o2_ims_worker.Inventory.Installed.{log_installed_machine-marks, log_installed_machine_unknown}
use o2_ims_worker.Http.{Request, written, callback_response, handle_callback}

module _ (h : Host) (now : ℕ) (r : Request) (w : World) where
  callback_run :
      r.query "mac" ≢ ""
      → (o : Option String) → (log_installed_machine h (r.query "mac") "" now now w).0 ≡ returns o
      → (handle_callback h now r w).0 ≡ returns (callback_response h o)
  unfolding handle_callback
  callback_run given o e = ground (arith, eq_iff (r.query "mac") "")

module _ (h : Host) (k : Works h) (now : ℕ) (r : Request) (w : World) (machines : Dict ℕ)
    (log : InstalledMachines) where
  -- On a host where nothing fails, with a loaded inventory, a callback that names a MAC address is
  -- answered with success exactly if the inventory has a machine under it.
  pub handle_callback-success_iff :
      IsWellFormed w.inventory
      → w.inventory.active ≡ some machines
      → w.inventory.installed ≡ some log
      → r.query "mac" ≢ ""
      → ((handle_callback h now r w).0 ≡ returns (written "Success!"))
        ↔ (machine_at (r.query "mac") w.inventory ≢ none)
  handle_callback-success_iff v active installed given =
      elim (Option-cases (lookup (r.query "mac") machines)) [
        | inl missing ↦
            let unknown =
              log_installed_machine_unknown h (r.query "mac") "" now now w machines active
                missing in
            let answer = callback_run h now r w given _ (ap (λ p. p.0) unknown) in
            (λ e. cc (answer, e), λ found. absurd (found (ground (arith, active, missing))))
        | inr (a, l) ↦
            let (object, g) =
              get_elem?-some w.inventory.heap a
                (v.in_range (r.query "mac") a (ground (arith, active, l))) in
            let found : machine_at (r.query "mac") w.inventory ≡ some object =
              ground (arith, active, l, g) in
            let marked =
              log_installed_machine-marks h k (r.query "mac") "" now now w log object v installed
                found in
            let answer = callback_run h now r w given none marked.0 in
            (λ _ missing. cc (found, missing), λ _. answer)
      ]
