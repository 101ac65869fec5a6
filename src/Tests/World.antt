-- ===== src/Tests/World.antt =====
-- A host on which nothing fails, an input file, and the process that has loaded it.
use o2_ims_worker.Prelude.{String, ◌<>◌, true, some, List, [], ◌∷◌, refl, if◌then◌else◌}
use o2_ims_worker.World.{Fs, Host, World, TemplateData, machine, Row, appended}
use o2_ims_worker.Seeds.Works.{Works}
use o2_ims_worker.Filedata.{clients_csv}
use o2_ims_worker.Worker.{boot}

-- The templates' texts: a boot entry depends on whether the machine is installed.
abbrev render : String → TemplateData → String
render path (machine object) = path <> (if object.installed then " local" else " install")
render path _ = path

abbrev pub host : Host
host = record {
  parse_template = λ fs path. some (λ d. (render path d, true));
  create_ok = λ fs path. true;
  write_ok = λ fs path. true;
  append = λ fs path text. appended;
}

abbrev pub works : Works host
works = record {
  render = render;
  parses = λ fs path. refl;
  creates = λ fs path. refl;
  writes = λ fs path. refl;
}

-- Three rows; the last one replaces the first, and the first has no cluster.
abbrev pub body : String
body =
    "IP,MAC,File,OS,Cluster,Template,Role\n192.168.99.10,aa:bb,pxelinux.0,debian,,k3s,master\n192.168.99.11,cc:dd,grub.efi,ubuntu,edge,k3s,worker\n192.168.99.12,aa:bb,pxelinux.0,centos,edge,k3s,worker"

abbrev pub first_row : Row
first_row = record {
  ip = "192.168.99.10";
  mac = "aa:bb";
  file_url = "pxelinux.0";
  os = "debian";
  cluster = "unclaimed";
  template = "k3s";
  role = "master";
}

abbrev pub second_row : Row
second_row = record {
  ip = "192.168.99.11";
  mac = "cc:dd";
  file_url = "grub.efi";
  os = "ubuntu";
  cluster = "edge";
  template = "k3s";
  role = "worker";
}

abbrev pub third_row : Row
third_row = record {
  ip = "192.168.99.12";
  mac = "aa:bb";
  file_url = "pxelinux.0";
  os = "centos";
  cluster = "edge";
  template = "k3s";
  role = "worker";
}

abbrev pub rows : List Row
rows = first_row ∷ second_row ∷ third_row ∷ []

abbrev pub disk : Fs
disk = record { files = (clients_csv, body <> "\n") ∷ []; dirs = [] }

abbrev pub start : World
start = boot disk
