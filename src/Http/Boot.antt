-- ===== src/Http/Boot.antt =====
-- A machine that has called back and boots again: internal/http/server.go (`handleCallback`) and
-- internal/tftp/server.go (`readHandler`) on the files between them.
use text.Mathlib.TextLemmas.{cons-append, nil-append}
use o2_ims_worker.Prelude.{
  ℕ, String, ◌<>◌, ◌==◌, ◌≡◌, ◌≢◌, refl, ap, Bool-cases, inl, inr, Option, some, arith, eq_iff,
}
use o2_ims_worker.Prelude.Dict.{lookup}
use o2_ims_worker.Prelude.Exec.{Outcome, returns, panics, exits, stalls, continue, pure}
use o2_ims_worker.Prelude.Text.{Lacks}
use o2_ims_worker.World.{Host, World, MachineObject, InstalledMachines, machine}
use o2_ims_worker.Seeds.Works.{Works}
use o2_ims_worker.Inventory.{mac_as_id, mark_installed, log_installed_machine}
use o2_ims_worker.Inventory.Places.{mac_as_id-keeps_Lacks, place, place-bios, place-efi}
use o2_ims_worker.Inventory.View.{machine_at}
use o2_ims_worker.Inventory.Installed.{log_installed_machine-entries}
use o2_ims_worker.Http.{Request, callback_response, handle_callback}
use o2_ims_worker.Tftp.{strip_slash, transferred, read_handler}
use o2_ims_worker.Tftp.Paths.{in_root}

read_handler-place :
    (send : String → Option String) (w : World) (name content : String)
    → lookup (place name) w.fs.files ≡ some content
    → read_handler send ("/" <> name) w ≡ returns (transferred content (send content))
unfolding read_handler
read_handler-place send w name content found =
    rw cons-append (rw nil-append (unfold strip_slash in ground (arith, in_root name)))

handle_callback-same :
    (h : Host) (now : ℕ) (r : Request) (w : World)
    → r.query "mac" ≢ ""
    → (handle_callback h now r w).1 ≡ (log_installed_machine h (r.query "mac") "" now now w).1
unfolding handle_callback
handle_callback-same h now r w given = elim (Bool-cases (r.query "mac" == "")) [
  | inl e ↦ absurd (given (ground (arith, eq_iff (r.query "mac") "")))
  | inr e ↦ rw e (
      same (log_installed_machine h (r.query "mac") "" now now w).0
        (log_installed_machine h (r.query "mac") "" now now w).1)
]
  where
    same :
        (o : Outcome (Option String)) (v : World)
        → (continue o (λ failed. pure (callback_response h failed)) v).1 ≡ v
    same (returns a) v = refl
    same (panics message) v = refl
    same (exits message) v = refl
    same stalls v = refl

-- A known machine whose MAC address has no slash calls back, on a host where nothing fails and with
-- a loaded inventory. A TFTP client that then asks for the machine's boot entry, of either boot
-- loader, is sent what the template gives for the machine marked as installed.
pub handle_callback-boots :
    (h : Host) (k : Works h) (now : ℕ) (r : Request) (w : World) (log : InstalledMachines)
    (object : MachineObject) (send : String → Option String)
    → r.query "mac" ≢ ""
    → Lacks b'/' (r.query "mac")
    → w.inventory.installed ≡ some log
    → machine_at (r.query "mac") w.inventory ≡ some object
    → (read_handler send
          ("/" <> ("bios/pxelinux.cfg/01-" <> mac_as_id (r.query "mac")))
          (handle_callback h now r w).1
        ≡ returns (
            transferred
              (k.render "templates/main.tmpl" (machine (mark_installed object)))
              (send (k.render "templates/main.tmpl" (machine (mark_installed object))))))
      × (read_handler send
            ("/" <> ("efi/grub/x86_64-efi/grub.cfg-01-" <> mac_as_id (r.query "mac")))
            (handle_callback h now r w).1
          ≡ returns (
              transferred
                (k.render "templates/grub.tmpl" (machine (mark_installed object)))
                (send (k.render "templates/grub.tmpl" (machine (mark_installed object))))))
handle_callback-boots h k now r w log object send given plain installed found =
    let m = r.query "mac" in
    let id = mac_as_id m in
    let lacks = mac_as_id-keeps_Lacks m plain in
    let (efi, bios) =
      log_installed_machine-entries h k m "" now now w log object plain installed found in
    let files = ap (λ (v : World). v.fs.files) (handle_callback-same h now r w given) in
    (
      read_handler-place send _ ("bios/pxelinux.cfg/01-" <> id) _
          (rw (place-bios id lacks) (rw files bios)),
      read_handler-place send _ ("efi/grub/x86_64-efi/grub.cfg-01-" <> id) _
          (rw (place-efi id lacks) (rw files efi)),
    )
