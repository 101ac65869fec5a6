-- ===== src/Inventory/Entries.antt =====
-- The names of the boot entries: one pair of files for each MAC address.
use text.Mathlib.TextLemmas.{append_inj, append_assoc}
use o2_ims_worker.Prelude.{String, ◌<>◌, ◌≡◌, ◌≢◌, refl, sym, ◌∙◌, arith, eq_iff}
use o2_ims_worker.Prelude.Text.{Lacks}
use o2_ims_worker.Prelude.Text.Laws.{replace_all-Lacks}
use o2_ims_worker.Inventory.{mac_as_id, bios_entry, efi_entry}

-- An identifier holds no colon.
pub mac_as_id-Lacks : (m : String) → Lacks b':' (mac_as_id m)
unfolding mac_as_id
mac_as_id-Lacks m = replace_all-Lacks b':' "-" m (omega arith)

-- The two names differ within their first sixteen characters.
pub bios-ne-efi : (m j : String) → bios_entry m ≢ efi_entry j
bios-ne-efi m j e = ground (arith, eq_iff "assets/tftp/bios" "assets/tftp/efi/", heads)
  where
    regrouped :
        "assets/tftp/bios" <> ("/pxelinux.cfg/01-" <> mac_as_id m)
        ≡ "assets/tftp/efi/" <> ("grub/x86_64-efi/grub.cfg-01-" <> mac_as_id j)
    regrouped =
        sym (append_assoc "assets/tftp/bios" "/pxelinux.cfg/01-" (mac_as_id m))
        ∙ e
        ∙ append_assoc "assets/tftp/efi/" "grub/x86_64-efi/grub.cfg-01-" (mac_as_id j)

    heads : ◌≡◌ {A = String} "assets/tftp/bios" "assets/tftp/efi/"
    heads = (append_inj regrouped refl).0
