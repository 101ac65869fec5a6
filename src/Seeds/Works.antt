-- ===== src/Seeds/Works.antt =====
-- A host on which no file operation and no template fails, and what the generators do there.
use o2_ims_worker.Prelude.{String, ◌≡◌, refl, true, some}
use o2_ims_worker.Prelude.Exec.{returns}
use o2_ims_worker.World.{Fs, Host, World, Go, TemplateData, write_file}
use o2_ims_worker.Seeds.{render_file, gen_debian_seed, gen_centos_seed, gen_ubuntu_seed}

pub record Works (h : Host) : Type 0 where
  pub render : String → TemplateData → String
  pub parses :
      (fs : Fs) (path : String) → h.parse_template fs path ≡ some (λ d. (render path d, true))
  pub creates : (fs : Fs) (path : String) → h.create_ok fs path ≡ true
  pub writes : (fs : Fs) (path : String) → h.write_ok fs path ≡ true

module _ (h : Host) (k : Works h) where
  pub render_file_lem :
      (template_file dump_file : String) (given : TemplateData)
      (on_parse on_create on_execute : Go Unit) (w : World)
      → render_file h template_file dump_file given on_parse on_create on_execute w
        ≡ write_file dump_file (k.render template_file given) w
  unfolding render_file
  render_file_lem template_file dump_file given on_parse on_create on_execute w =
      rw (k.parses, render_file) (rw (k.creates, render_file) refl)

  pub gen_debian_seed-returns :
      (id mac : String) (w : World) → (gen_debian_seed h id mac w).0 ≡ returns tt
  unfolding gen_debian_seed
  gen_debian_seed-returns id mac w = simp render_file_lem

  pub gen_centos_seed-returns :
      (id mac : String) (w : World) → (gen_centos_seed h id mac w).0 ≡ returns tt
  unfolding gen_centos_seed
  gen_centos_seed-returns id mac w = simp render_file_lem

  pub gen_ubuntu_seed-returns :
      (id mac : String) (w : World) → (gen_ubuntu_seed h id mac w).0 ≡ returns tt
  unfolding gen_ubuntu_seed
  gen_ubuntu_seed-returns id mac w = simp (render_file_lem, k.writes)
