-- ===== src/Inventory/Assets.antt =====
-- The boot entries and the install files of a plain MAC address lie below assets/.
use mathlib.Core.Path.{subst}
use Prim.Native.String.{◌∷◌ as ◌::◌}
use o2_ims_worker.Prelude.{Char, code, ap, String, ◌<>◌, ◌≡◌, ◌≢◌, refl, [], ◌∷◌, arith}
use o2_ims_worker.Prelude.Text.{Lacks, Lacks-append}
use o2_ims_worker.Prelude.Text.Laws.{replace_all-keeps_Lacks}
use o2_ims_worker.Prelude.Paths.Laws.{
  head_code, flat-joined, StaysInside, StaysInside-folder, StaysInside-last, prefixed-ne-parent,
}
use o2_ims_worker.Inventory.{mac_as_id, Mode, bios, efi, entry_of}

-- A MAC address with neither a slash nor a dot.
abbrev pub IsPlain : String → Type 0
IsPlain m = Lacks b'/' m × Lacks b'.' m

-- The text is one part of a path, and not the one that leads to the parent.
abbrev pub IsPart : String → Type 0
IsPart name = Lacks b'/' name × (name ≢ "..")

pub mac_as_id-IsPart : (m : String) → IsPlain m → IsPart (mac_as_id m)
unfolding mac_as_id
mac_as_id-IsPart m h = (
  replace_all-keeps_Lacks b'/' b':' "-" m (omega arith) h.0,
  λ e. (subst (Lacks b'.') e (replace_all-keeps_Lacks b'.' b':' "-" m (omega arith) h.1)).0 refl,
)

-- A path below assets/ that does not leave that folder.
abbrev pub IsAsset : String → Type 0
IsAsset path = (rest : String) × (path ≡ "assets/" <> rest) × StaysInside rest

-- Two folders and a file, named so that none of them leads to the parent.
inside :
    (first second name : String)
    → IsPart first
    → IsPart second
    → IsPart name
    → StaysInside (first <> ("/" <> (second <> ("/" <> name))))
inside first second name f s n =
    StaysInside-folder first _ f.0 f.1
      (StaysInside-folder second _ s.0 s.1 (StaysInside-last name n.0 n.1))

prefixed-IsPart :
    (c : Char) (name id : String)
    → code c ≢ b'.'
    → Lacks b'/' (c :: name)
    → Lacks b'/' id
    → IsPart ((c :: name) <> id)
prefixed-IsPart c name id d h k =
    (Lacks-append b'/' (c :: name) id h k, prefixed-ne-parent c name id d)

http-IsPart : IsPart "http"
http-IsPart = (omega arith, λ e. omega (arith, ap head_code e))

module _ (id : String) (plain : IsPart id) where
  pub seed-IsAsset : IsAsset ("assets/http/debian/preseed-" <> id <> ".cfg")
  seed-IsAsset = (
    _,
    flat-joined "assets/" ("http" ∷ "/" ∷ "debian" ∷ "/" ∷ "preseed-" ∷ []) (id <> ".cfg"),
    inside "http" "debian" _ http-IsPart (omega arith, λ e. omega (arith, ap head_code e))
        (prefixed-IsPart "p" "reseed-" (id <> ".cfg") (omega arith) (omega arith)
          (Lacks-append b'/' id ".cfg" plain.0 (omega arith))),
  )

  pub centos-IsAsset : IsAsset ("assets/http/centos/" <> id <> "/install.ks")
  centos-IsAsset = (
    _,
    flat-joined "assets/" ("http" ∷ "/" ∷ "centos" ∷ "/" ∷ []) (id <> "/install.ks"),
    StaysInside-folder "http" _ http-IsPart.0 http-IsPart.1 (
        inside "centos" id "install.ks" (omega arith, λ e. omega (arith, ap head_code e)) plain
          (omega arith, λ e. omega (arith, ap head_code e))),
  )

  pub ubuntu-IsAsset :
      (name : String) → IsPart name → IsAsset ("assets/http/ubuntu/" <> id <> "/" <> name)
  ubuntu-IsAsset name part = (
    _,
    flat-joined "assets/" ("http" ∷ "/" ∷ "ubuntu" ∷ "/" ∷ []) (id <> "/" <> name),
    StaysInside-folder "http" _ http-IsPart.0 http-IsPart.1
        (inside "ubuntu" id name (omega arith, λ e. omega (arith, ap head_code e)) plain part),
  )

pub entry_of-IsAsset : (mode : Mode) (m : String) → IsPart (mac_as_id m) → IsAsset (entry_of mode m)
entry_of-IsAsset bios m h = (
  _,
  flat-joined "assets/" ("tftp" ∷ "/" ∷ "bios" ∷ "/" ∷ "pxelinux.cfg" ∷ "/" ∷ "01-" ∷ [])
      (mac_as_id m),
  StaysInside-folder "tftp" _ (omega arith) (λ e. omega (arith, ap head_code e))
      (inside "bios" "pxelinux.cfg" _ (omega arith, λ e. omega (arith, ap head_code e))
        (omega arith, λ e. omega (arith, ap head_code e))
        (prefixed-IsPart "0" "1-" (mac_as_id m) (omega arith) (omega arith) h.0)),
)
entry_of-IsAsset efi m h = (
  _,
  flat-joined "assets/"
      ("tftp" ∷ "/" ∷ "efi" ∷ "/" ∷ "grub" ∷ "/" ∷ "x86_64-efi" ∷ "/" ∷ "grub.cfg-01-" ∷ [])
      (mac_as_id m),
  StaysInside-folder "tftp" _ (omega arith) (λ e. omega (arith, ap head_code e))
      (StaysInside-folder "efi" _ (omega arith) (λ e. omega (arith, ap head_code e))
        (inside "grub" "x86_64-efi" _ (omega arith, λ e. omega (arith, ap head_code e))
          (omega arith, λ e. omega (arith, ap head_code e))
          (prefixed-IsPart "g" "rub.cfg-01-" (mac_as_id m) (omega arith) (omega arith) h.0))),
)
