-- ===== src/Seeds.antt =====
-- internal/inventory/debian.go: the unattended-install files, and the rendering of a template into
-- a file that internal/inventory/inventory.go shares. A message stands for itself with the error
-- text that Go appends to it.
pub mod Frame
pub mod Works
use o2_ims_worker.Prelude.{String, ◌<>◌, Option, none, some, List, [], ◌∷◌, code, if◌then◌else◌}
use o2_ims_worker.Prelude.Dict.{Dict, lookup, insert}
use o2_ims_worker.Prelude.Exec.{pure, fatal, gets, ◌>>=◌, ◌>>◌}
use o2_ims_worker.Prelude.Text.{scan_lines}
use o2_ims_worker.World.{
  Host, Go, BaseConfig, TemplateData, debian_seed, centos_seed, ubuntu_seed, write_file, mkdir_all,
}

abbrev pub password_hash : String
password_hash =
    "$6$60xXa09xhxItPGEF$XCSpaha5jalSX5ylEnwZYDx4AuD.RqBsN19e8.0Ki41OeDaWqokdppne5Lfrbbqh2vH4uyNrdncfPZkcAfg7C0"

-- The loop of `readSSHKey`: every line overwrites the one before it.
unfoldable pub key_lines : String → List String → Dict String → Dict String
key_lines m [] chunk = chunk
key_lines m (line ∷ lines) chunk = key_lines m lines (insert m line chunk)

-- What `readSSHKey` makes of the key file; `none` is the error.
unfoldable pub keys_in : String → Option String → Option (Dict String)
unfolding key_lines
keys_in m none = none
keys_in m (some text) = some (key_lines m (scan_lines text) [])

-- `readSSHKey`
abbrev pub read_ssh_key : String → Go (Option (Dict String))
read_ssh_key m = gets (λ w. keys_in m (lookup "assets/keys/test_provisioner.pub" w.fs.files))

-- `sshKey[mac]`; a nil map has no key, and a missing key reads as the empty text.
unfoldable pub ssh_key_of : Option (Dict String) → String → String
ssh_key_of none mac = ""
ssh_key_of (some keys) mac = elim (lookup mac keys) [ none ↦ "" | some key ↦ key ]

module _ (h : Host) where
  -- `template.ParseFiles`, `os.Create` and `Execute` in this order, with what each failure does.
  unfoldable pub render_file :
      (template_file dump_file : String)
      → TemplateData
      → (on_parse on_create on_execute : Go Unit) → Go Unit
  render_file template_file dump_file given on_parse on_create on_execute w =
      elim (h.parse_template w.fs template_file) [
        | none ↦ on_parse w
        | some render ↦
            if h.create_ok w.fs dump_file
            then (do
              write_file dump_file (render given).0
              if (render given).1 then pure tt else on_execute)
                w
            else on_create w
      ]

  unfoldable pub gen_debian_seed : (id mac : String) → Go Unit
  gen_debian_seed id mac = do
    ssh_key ← read_ssh_key mac
    render_file "templates/debian.tmpl" ("assets/http/debian/preseed-" <> id <> ".cfg")
        (debian_seed (record {
          base = record {
            locale = "en_US.UTF-8";
            keymap = "us";
            timezone = "Asia/Taipei";
            hostname = "debian-node";
            domain = "local";
            username = "debian";
            user_fullname = "Provision User";
            password_hash = password_hash;
            mirror_host = "deb.debian.org";
            mirror_dir = "/debian";
            callback_host = "192.168.99.1:8033";
            mac_address = mac;
            ssh_pub_key = ssh_key_of ssh_key mac;
          };
          interface = "auto";
          disk_device = "/dev/sda";
          tasksel = "standard";
          extra_packages = "curl openssh-server efibootmgr";
          suite = "bookworm";
        }))
        (fatal "[FAIL] failed to parse debian template")
        (fatal "[FAIL] failed to create debian seed file")
        (fatal "[FAIL] failed to execute debian template")

  unfoldable pub gen_centos_seed : (id mac : String) → Go Unit
  gen_centos_seed id mac = do
    ssh_key ← read_ssh_key mac
    mkdir_all ("assets/http/centos/" <> id)
    render_file "templates/centos.tmpl" ("assets/http/centos/" <> id <> "/install.ks")
        (centos_seed (record {
          base = record {
            locale = "en_US.UTF-8";
            keymap = "us";
            timezone = "Asia/Taipei";
            hostname = "centos-node";
            domain = "local";
            username = "centos";
            user_fullname = "Provision User";
            password_hash = password_hash;
            mirror_host = "";
            mirror_dir = "";
            callback_host = "192.168.99.1:8033";
            mac_address = mac;
            ssh_pub_key = ssh_key_of ssh_key mac;
          };
          interface = "eth0";
          disk_device = "/dev/vda";
          extra_packages = "wget openssh-server efibootmgr";
        }))
        (fatal "[FAIL] failed to parse centos template")
        (fatal "[FAIL] failed to create centos seed file")
        (fatal "[FAIL] failed to execute centos template")

  unfoldable pub gen_ubuntu_seed : (id mac : String) → Go Unit
  gen_ubuntu_seed id mac = do
    ssh_key ← read_ssh_key mac
    mkdir_all ("assets/http/ubuntu/" <> id)
    render_file "templates/ubuntu.tmpl" ("assets/http/ubuntu/" <> id <> "/user-data")
        (ubuntu_seed (record {
          base = record {
            locale = "en_US.UTF-8";
            keymap = "us";
            timezone = "Asia/Taipei";
            hostname = "ubuntu-node";
            domain = "local";
            username = "ubuntu";
            user_fullname = "Provision User";
            password_hash = password_hash;
            mirror_host = "";
            mirror_dir = "";
            callback_host = "192.168.99.1:8033";
            mac_address = mac;
            ssh_pub_key = ssh_key_of ssh_key mac;
          };
          interface = "ens3";
          extra_packages = "wget" ∷ "openssh-server" ∷ "efibootmgr" ∷ [];
        }))
        (fatal "[FAIL] failed to parse ubuntu template")
        (fatal "[FAIL] failed to create ubuntu user-data file")
        (fatal "[FAIL] failed to execute ubuntu template")
    writable ← gets (λ w. h.write_ok w.fs ("assets/http/ubuntu/" <> id <> "/meta-data"))
    if writable
        then write_file ("assets/http/ubuntu/" <> id <> "/meta-data") ""
        else fatal "[FAIL] failed to create ubuntu meta-data"
