-- ===== src/Tests/Restarting.antt =====
-- A registration by /pipeline, and the start of the process after it.
use o2_ims_worker.Prelude.{some, ◌<>◌, ◌≡◌, refl, [], ◌∷◌, arith, none, true, false}
use o2_ims_worker.Prelude.Lists.{All}
use o2_ims_worker.Prelude.Dict.{lookup}
use o2_ims_worker.Prelude.Exec.{Returns}
use o2_ims_worker.Prelude.Text.{split_on, scan_lines}
use o2_ims_worker.Filedata.{clients_csv, row_of, parse_line, data_lines, new_line, populate}
use o2_ims_worker.Filedata.Input.{IsPlainRow, populate-HasInput}
use o2_ims_worker.Http.{PipeLine, decoded, handle_pipeline}
use o2_ims_worker.Worker.{Flags, started, tftp, http, boot}
use o2_ims_worker.Worker.Main.{Watching, main}
use o2_ims_worker.Worker.Restart.{handle_pipeline-breaks_main}
use o2_ims_worker.Tests.World.{host, start, body}
use o2_ims_worker.Tests.Registering.{clients, running, file_found, unknown, sent}

rows_IsPlain :
    All (λ line. IsPlainRow (parse_line line)) (data_lines (lookup clients_csv start.fs.files))
unfolding lookup data_lines scan_lines split_on row_of
rows_IsPlain = omega arith

populate-HasInput_example :
    lookup clients_csv (populate host start).1.fs.files ≡ lookup clients_csv start.fs.files
populate-HasInput_example = populate-HasInput host start rows_IsPlain

abbrev pipe : PipeLine
pipe = record { name = "n"; mac = "ee:ff"; ip = "192.168.99.13"; os = "debian" }

abbrev watching : Watching
watching = record { new_watcher = none; add = none }

abbrev flags : Flags
flags = record { no_tftp = false; no_dhcp = true; no_http = false }

flags_test : started flags ≡ tftp ∷ http ∷ []
unfolding started
flags_test = refl

new_rows_IsPlain :
    All
      (λ line. IsPlainRow (parse_line line))
      (data_lines (some ((body <> "\n") <> new_line pipe.ip pipe.mac pipe.os)))
unfolding data_lines scan_lines split_on row_of
new_rows_IsPlain = omega arith

handle_pipeline-breaks_main_example :
    ¬ Returns
      (main host watching
        (λ key. "")
        flags
        (boot (handle_pipeline host (sent "POST" (decoded pipe)) running).1.fs)).0
unfolding split_on
handle_pipeline-breaks_main_example =
    handle_pipeline-breaks_main host pipe running clients (sent "POST" (decoded pipe)) body refl
      refl refl refl unknown refl refl file_found (omega arith) (omega arith) (omega arith)
      (omega arith) (omega arith) new_rows_IsPlain host watching (λ key. "") flags
