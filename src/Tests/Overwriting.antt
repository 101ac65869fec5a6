-- ===== src/Tests/Overwriting.antt =====
-- `Populate` on a file whose last row leads out of assets/.
use o2_ims_worker.Prelude.{◌<>◌, [], ◌∷◌}
use o2_ims_worker.World.{World, Row}
use o2_ims_worker.Filedata.{clients_csv}
use o2_ims_worker.Filedata.Overwritten.{outside_mac}
use o2_ims_worker.Worker.{boot}
use o2_ims_worker.Tests.World.{body}

abbrev leading_out : Row
leading_out = record {
  ip = "192.168.99.14";
  mac = outside_mac;
  file_url = "pxelinux.0";
  os = "debian";
  cluster = "edge";
  template = "k3s";
  role = "worker";
}

abbrev attacked : World
attacked = boot (record {
  files =
      (
        clients_csv,
        body
            <> "\n192.168.99.14,x/../../../../../inputs/clients.csv,pxelinux.0,debian,edge,k3s,worker\n",
      )
      ∷ [];
  dirs = [];
})
