-- ===== src/Tests/Registering.antt =====
-- Registrations by `AddItemToFile` and by /pipeline.
use o2_ims_worker.Prelude.{String, ◌<>◌, ◌≡◌, refl, none, some, [], ◌∷◌, arith, true, eq_iff}
use o2_ims_worker.Prelude.Dict.{Dict, lookup}
use o2_ims_worker.Prelude.Exec.{Returns}
use o2_ims_worker.Prelude.Text.{split_on}
use o2_ims_worker.World.{World, Client}
use o2_ims_worker.Filedata.{clients_csv, new_client, add_item_to_file}
use o2_ims_worker.Filedata.Registration.{add_item_to_file-fails}
use o2_ims_worker.Http.{Request, PipeLine, Decoded, decoded, handle_pipeline}
use o2_ims_worker.Http.Pipeline.{wrong_os, Refuses, handle_pipeline-Refuses}
use o2_ims_worker.Tests.World.{host, body, start}

abbrev pub clients : Dict Client
clients = ("aa:bb", new_client "192.168.99.10" "aa:bb" "debian") ∷ []

abbrev pub running : World
running = record start { clients = some clients }

pub file_found : lookup clients_csv running.fs.files ≡ some (body <> "\n")
unfolding lookup
file_found = refl

pub unknown : lookup "ee:ff" clients ≡ none
unfolding lookup
unknown = refl

add_item_to_file-fails_example :
    (¬ Returns (add_item_to_file host "192.168.99.13" "ee:ff" "debian" running).0)
    × ((add_item_to_file host "192.168.99.13" "ee:ff" "debian" running).1.clients ≡ some clients)
unfolding split_on
add_item_to_file-fails_example =
    add_item_to_file-fails host "192.168.99.13" "ee:ff" "debian" running clients body refl unknown
      refl refl file_found (omega arith) (omega arith) (omega arith) (omega arith) (omega arith)

abbrev solaris : PipeLine
solaris = record { name = "n"; mac = "ee:ff"; ip = "192.168.99.13"; os = "solaris" }

abbrev pub sent : String → Decoded → Request
sent method given = record {
  method = method;
  path = "/pipeline";
  query = λ key. "";
  body = given;
  encodes = true;
}

handle_pipeline-Refuses_example :
    Refuses running (handle_pipeline host (sent "POST" (decoded solaris)) running)
handle_pipeline-Refuses_example =
    handle_pipeline-Refuses host running clients (sent "POST" (decoded solaris)) refl refl (
      wrong_os solaris (ground (arith, eq_iff "solaris" "debian"))
        (ground (arith, eq_iff "solaris" "centos")) (ground (arith, eq_iff "solaris" "ubuntu")))
