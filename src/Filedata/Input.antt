-- ===== src/Filedata/Input.antt =====
-- What `Populate` does to inputs/clients.csv where the MAC addresses of its rows are plain.
use mathlib.Core.Path.{subst}
use o2_ims_worker.Prelude.{
  ap, none, some, String, ◌<>◌, ◌≡◌, ◌≢◌, ◌∙◌, refl, sym, Option, List, [], ◌∷◌, arith, eq_iff,
  Option-cases, Bool-cases, inl, inr, if◌then◌else◌,
}
use o2_ims_worker.Prelude.Lists.{All}
use o2_ims_worker.Prelude.Paths.{file_at}
use o2_ims_worker.Prelude.Paths.Laws.{head_code, file_at-assets}
use o2_ims_worker.Prelude.Dict.{lookup, lookup-insert}
use o2_ims_worker.Prelude.Exec.{fatal, gets, modify, ◌>>=◌}
use o2_ims_worker.Prelude.Keeps.{
  Keeps, Keeps-pure, Keeps-panic, Keeps-gets, Keeps-if, Keeps-bind, Keeps-modify, keeps_rules,
}
use o2_ims_worker.World.{Host, World, Row, Go, TemplateData, MachineObject, write_file, mkdir_all}
use o2_ims_worker.Seeds.{
  read_ssh_key, render_file, gen_debian_seed, gen_centos_seed, gen_ubuntu_seed,
}
use o2_ims_worker.Inventory.{mac_as_id, Mode, init, register, gen_seed, gen_pxe_entry, generate}
use o2_ims_worker.Inventory.Assets.{
  IsPlain, IsPart, IsAsset, mac_as_id-IsPart, seed-IsAsset, centos-IsAsset, ubuntu-IsAsset,
  entry_of-IsAsset,
}
use o2_ims_worker.Filedata.{
  clients_csv, parse_line, Tables, no_tables, data_lines, populate_rows, publish, populate,
}

-- The input file, or `none` where there is none.
abbrev pub HasInput : Option String → World → Type 0
HasInput text w = lookup clients_csv w.fs.files ≡ text

-- A line's MAC address, where it has one.
abbrev pub IsPlainRow : Option Row → Type 0
IsPlainRow none = Unit
IsPlainRow (some r) = IsPlain r.mac

IsAsset-input : (path : String) → IsAsset path → file_at path ≢ clients_csv
IsAsset-input path (rest, e, inside) f = omega (
  arith,
  sym (file_at-assets rest inside) ∙ ap (λ p. head_code (file_at p)) (sym e) ∙ ap head_code f,
)

module _ (text : Option String) where
  fatal-Keeps : {A : Type 0} (message : String) → Keeps (HasInput text) (fatal {A = A} message)
  fatal-Keeps message = record { at = λ w e. e }

  write_file-Keeps :
      (path content : String) → IsAsset path → Keeps (HasInput text) (write_file path content)
  write_file-Keeps path content a = record {
    at = λ w e. ground (
      arith,
      lookup-insert (file_at path) clients_csv content w.fs.files,
      eq_iff (file_at path) clients_csv,
      IsAsset-input path a,
      e,
    );
  }

  mkdir_all-Keeps : (path : String) → Keeps (HasInput text) (mkdir_all path)
  mkdir_all-Keeps path = record { at = λ w e. e }

  read_ssh_key-Keeps : (m : String) → Keeps (HasInput text) (read_ssh_key m)
  read_ssh_key-Keeps m = Keeps-gets _

  module _ (h : Host) where
    render_file-Keeps :
        (template_file dump_file : String) (d : TemplateData)
        (on_parse on_create on_execute : Go Unit)
        → IsAsset dump_file
        → Keeps (HasInput text) on_parse
        → Keeps (HasInput text) on_create
        → Keeps (HasInput text) on_execute
        → Keeps
            (HasInput text)
            (render_file h template_file dump_file d on_parse on_create on_execute)
    unfolding render_file
    render_file-Keeps template_file dump_file d on_parse on_create on_execute a kp kc ke = record {
      at = λ w e. elim (Option-cases (h.parse_template w.fs template_file)) [
        | inl f ↦ rw (f, render_file) (kp.at w e)
        | inr (render, f) ↦ elim (Bool-cases (h.create_ok w.fs dump_file)) [
          | inl c ↦
              rw (f, render_file)
                (rw c (
                  (Keeps-if (render d).1 _ _ (Keeps-pure tt) ke).at _
                    ((write_file-Keeps dump_file (render d).0 a).at w e)))
          | inr c ↦ rw (f, render_file) (rw c (kc.at w e))
        ]
      ];
    }

    gen_pxe_entry-Keeps :
        (mode : Mode) (m : String) (object : MachineObject)
        → IsPart (mac_as_id m)
        → Keeps (HasInput text) (gen_pxe_entry h mode m object)
    unfolding gen_pxe_entry
    gen_pxe_entry-Keeps mode m object plain =
        search (keeps_rules, render_file-Keeps, entry_of-IsAsset, fatal-Keeps)

    gen_debian_seed-Keeps :
        (id m : String) → IsPart id → Keeps (HasInput text) (gen_debian_seed h id m)
    unfolding gen_debian_seed
    gen_debian_seed-Keeps id m plain = record {
      at = λ w e.
          (render_file-Keeps _ _ _ _ _ _ (seed-IsAsset id plain) (fatal-Keeps _) (fatal-Keeps _)
              (fatal-Keeps _)).at
            w e;
    }

    gen_centos_seed-Keeps :
        (id m : String) → IsPart id → Keeps (HasInput text) (gen_centos_seed h id m)
    unfolding gen_centos_seed
    gen_centos_seed-Keeps id m plain = record {
      at = λ w e.
          (render_file-Keeps _ _ _ _ _ _ (centos-IsAsset id plain) (fatal-Keeps _) (fatal-Keeps _)
              (fatal-Keeps _)).at
            (mkdir_all ("assets/http/centos/" <> id) w).1 e;
    }

    meta_data-Keeps :
        (id : String)
        → IsPart id
        → Keeps (HasInput text) (do
          writable ← gets (λ w. h.write_ok w.fs ("assets/http/ubuntu/" <> id <> "/meta-data"))
          if writable
              then write_file ("assets/http/ubuntu/" <> id <> "/meta-data") ""
              else fatal "[FAIL] failed to create ubuntu meta-data")
    meta_data-Keeps id plain = record {
      at = λ w e.
          (Keeps-if (h.write_ok w.fs ("assets/http/ubuntu/" <> id <> "/meta-data")) _ _
              (write_file-Keeps _ "" (
                ubuntu-IsAsset id plain "meta-data"
                  (omega arith, λ e. omega (arith, ap head_code e))))
              (fatal-Keeps _)).at
            w e;
    }

    gen_ubuntu_seed-Keeps :
        (id m : String) → IsPart id → Keeps (HasInput text) (gen_ubuntu_seed h id m)
    unfolding gen_ubuntu_seed
    gen_ubuntu_seed-Keeps id m plain = record {
      at = λ w e.
          (Keeps-bind _ _
              (render_file-Keeps _ _ _ _ _ _
                (ubuntu-IsAsset id plain "user-data"
                  (omega arith, λ e. omega (arith, ap head_code e)))
                (fatal-Keeps _) (fatal-Keeps _) (fatal-Keeps _))
              λ _. meta_data-Keeps id plain).at
            (mkdir_all ("assets/http/ubuntu/" <> id) w).1 e;
    }

    gen_seed-Keeps : (t id m : String) → IsPart id → Keeps (HasInput text) (gen_seed h t id m)
    unfolding gen_seed
    gen_seed-Keeps t id m plain =
        search (keeps_rules, gen_centos_seed-Keeps, gen_ubuntu_seed-Keeps, gen_debian_seed-Keeps)

    register-Keeps :
        (m : String) (object : MachineObject) → Keeps (HasInput text) (register m object)
    unfolding register
    register-Keeps m object = record { at = λ w e. ground (arith, e) }

    generate-Keeps :
        (ip m t c role ansible_template : String)
        → IsPlain m
        → Keeps (HasInput text) (generate h ip m t c role ansible_template)
    unfolding generate
    generate-Keeps ip m t c role ansible_template plain =
        let part = mac_as_id-IsPart m plain in
        search (keeps_rules, gen_seed-Keeps, gen_pxe_entry-Keeps, register-Keeps)

    populate_rows-Keeps :
        (lines : List String) (t : Tables)
        → All (λ line. IsPlainRow (parse_line line)) lines
        → Keeps (HasInput text) (populate_rows h lines t)
    unfolding populate_rows
    populate_rows-Keeps [] t plain = Keeps-pure t
    populate_rows-Keeps (line ∷ lines) t plain = elim (Option-cases (parse_line line)) [
      | inl e ↦ rw (e, populate_rows) (Keeps-panic _)
      | inr (r, e) ↦
          rw (e, populate_rows)
            (Keeps-bind _ _
              (generate-Keeps r.ip r.mac r.os r.cluster r.role r.template
                (subst IsPlainRow e plain.0))
              λ object. populate_rows-Keeps lines _ plain.1)
    ]

-- However `Populate` ends and whatever the host does, the input file is as it was, where no MAC
-- address of its rows has a slash or a dot.
pub populate-HasInput :
    (h : Host) (w : World)
    → All (λ line. IsPlainRow (parse_line line)) (data_lines (lookup clients_csv w.fs.files))
    → lookup clients_csv (populate h w).1.fs.files ≡ lookup clients_csv w.fs.files
unfolding populate init
populate-HasInput h w plain =
    let lines = data_lines (lookup clients_csv w.fs.files) in
    (Keeps-bind (populate_rows h lines no_tables) (λ tables. modify (publish tables))
        (populate_rows-Keeps (lookup clients_csv w.fs.files) h lines no_tables plain)
        λ tables. Keeps-modify (publish tables) λ v f. f).at
      (init w).1 refl
