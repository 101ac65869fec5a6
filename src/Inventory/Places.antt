-- ===== src/Inventory/Places.antt =====
-- Where the boot entries and the install files lie, once the operating system has followed their
-- paths.
use text.Mathlib.TextLemmas.{append_assoc}
use o2_ims_worker.Prelude.{String, ◌<>◌, ◌≡◌, ◌∙◌, refl, sym, ap, List, [], ◌∷◌, arith}
use o2_ims_worker.Prelude.Text.{split_on, Lacks, Lacks-append}
use o2_ims_worker.Prelude.Text.Laws.{split_on-append_text, split_on-Lacks, replace_all-keeps_Lacks}
use o2_ims_worker.Prelude.Paths.{enter, enter_all, resolve, file_name, file_at}
use o2_ims_worker.Prelude.Paths.Laws.{
  enter_all-append, enter_plain-name, flat-joined, split_on-folder,
}
use o2_ims_worker.Inventory.{mac_as_id, bios_entry, efi_entry}

abbrev served : List String
served = "tftp" ∷ "assets" ∷ []

pub mac_as_id-keeps_Lacks : (m : String) → Lacks b'/' m → Lacks b'/' (mac_as_id m)
unfolding mac_as_id
mac_as_id-keeps_Lacks m h = replace_all-keeps_Lacks b'/' b':' "-" m (omega arith) h

-- Where a request below the TFTP directory leads.
abbrev pub place : String → String
place name = file_name (enter_all served (split_on b'/' name))

pub place-bios :
    (id : String)
    → Lacks b'/' id
    → place ("bios/pxelinux.cfg/01-" <> id) ≡ "assets/tftp/bios/pxelinux.cfg/01-" <> id
unfolding enter_all
place-bios id h =
    ap place (flat-joined "bios" ("/" ∷ "pxelinux.cfg" ∷ "/" ∷ "01-" ∷ []) id)
    ∙ ap (λ parts. file_name (enter_all served parts))
        (split_on-folder "bios" ("pxelinux.cfg" <> ("/" <> ("01-" <> id))) (omega arith)
          ∙ ap (◌∷◌ "bios") (
              split_on-folder "pxelinux.cfg" ("01-" <> id) (omega arith)
              ∙ ap (◌∷◌ "pxelinux.cfg")
                  (split_on-Lacks b'/' ("01-" <> id) (Lacks-append b'/' "01-" id (omega arith) h))))
    ∙ ap file_name (
        unfold enter in
        enter_plain-name "0" "1-" id ("pxelinux.cfg" ∷ "bios" ∷ served) (omega arith) (omega arith))
    ∙ sym (
        flat-joined "assets" ("/" ∷ "tftp" ∷ "/" ∷ "bios" ∷ "/" ∷ "pxelinux.cfg" ∷ "/" ∷ "01-" ∷ [])
          id)

pub place-efi :
    (id : String)
    → Lacks b'/' id
    → place ("efi/grub/x86_64-efi/grub.cfg-01-" <> id)
      ≡ "assets/tftp/efi/grub/x86_64-efi/grub.cfg-01-" <> id
unfolding enter_all
place-efi id h =
    let last = "grub.cfg-01-" <> id in
    ap place (flat-joined "efi" ("/" ∷ "grub" ∷ "/" ∷ "x86_64-efi" ∷ "/" ∷ "grub.cfg-01-" ∷ []) id)
    ∙ ap (λ parts. file_name (enter_all served parts))
        (split_on-folder "efi" ("grub" <> ("/" <> ("x86_64-efi" <> ("/" <> last)))) (omega arith)
          ∙ ap (◌∷◌ "efi") (
              split_on-folder "grub" ("x86_64-efi" <> ("/" <> last)) (omega arith)
              ∙ ap (◌∷◌ "grub") (
                  split_on-folder "x86_64-efi" last (omega arith)
                  ∙ ap (◌∷◌ "x86_64-efi") (
                      split_on-Lacks b'/' last
                        (Lacks-append b'/' "grub.cfg-01-" id (omega arith) h)))))
    ∙ ap file_name (
        unfold enter in
        enter_plain-name "g" "rub.cfg-01-" id ("x86_64-efi" ∷ "grub" ∷ "efi" ∷ served) (omega arith)
          (omega arith))
    ∙ sym (
        flat-joined "assets"
          ("/" ∷ "tftp" ∷ "/" ∷ "efi" ∷ "/" ∷ "grub" ∷ "/" ∷ "x86_64-efi" ∷ "/" ∷ "grub.cfg-01-"
            ∷ [])
          id)

served_parts : split_on b'/' "assets/tftp" ≡ "assets" ∷ "tftp" ∷ []
unfolding split_on
served_parts = refl

enter_served : enter_all [] ("assets" ∷ "tftp" ∷ []) ≡ served
unfolding enter_all enter
enter_served = refl

file_at-place : (name : String) → file_at ("assets/tftp/" <> name) ≡ place name
unfolding resolve
file_at-place name = rw (append_assoc "assets/tftp" "/" name) (
    rw (split_on-append_text b'/' "/" "assets/tftp" name refl) (
      rw served_parts (
        ap file_name (
          enter_all-append [] ("assets" ∷ "tftp" ∷ []) (split_on b'/' name)
          ∙ ap (λ stack. enter_all stack (split_on b'/' name)) enter_served))))

-- The boot entries of a MAC address without a slash lie where their paths say.
pub file_at-bios_entry : (m : String) → Lacks b'/' m → file_at (bios_entry m) ≡ bios_entry m
file_at-bios_entry m h =
    ap file_at (append_assoc "assets/tftp/" "bios/pxelinux.cfg/01-" (mac_as_id m))
    ∙ file_at-place ("bios/pxelinux.cfg/01-" <> mac_as_id m)
    ∙ place-bios (mac_as_id m) (mac_as_id-keeps_Lacks m h)

pub file_at-efi_entry : (m : String) → Lacks b'/' m → file_at (efi_entry m) ≡ efi_entry m
file_at-efi_entry m h =
    ap file_at (append_assoc "assets/tftp/" "efi/grub/x86_64-efi/grub.cfg-01-" (mac_as_id m))
    ∙ file_at-place ("efi/grub/x86_64-efi/grub.cfg-01-" <> mac_as_id m)
    ∙ place-efi (mac_as_id m) (mac_as_id-keeps_Lacks m h)
