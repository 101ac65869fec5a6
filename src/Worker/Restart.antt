-- ===== src/Worker/Restart.antt =====
-- What a registration by /pipeline does to the next start of the process.
use o2_ims_worker.Prelude.{
  String, ◌<>◌, ◌≡◌, ◌∙◌, refl, ap, true, false, none, some, List, [], ◌∷◌, ◌++◌, arith, Option,
}
use o2_ims_worker.Prelude.Lists.{All}
use o2_ims_worker.Prelude.Dict.{Dict, lookup, lookup-insert_self}
use o2_ims_worker.Prelude.Exec.{
  Returns, Outcome, returns, panics, exits, stalls, continue, continue-stops, pure, ◌>>◌,
}
use o2_ims_worker.Prelude.Text.{split_on, drop_cr}
use o2_ims_worker.Prelude.Text.Laws.{Fits}
use o2_ims_worker.World.{Host, World, Go, Client, appended}
use o2_ims_worker.Filedata.{
  clients_csv, parse_line, data_lines, populate, gather, add_item_to_file, new_line, ip_taken,
}
use o2_ims_worker.Filedata.Malformed.{IsShort, populate-fails}
use o2_ims_worker.Filedata.Registration.{
  IsField, entry, data_lines-entry, drop_cr-entry-IsShort, extended, add_item_to_file-run,
}
use o2_ims_worker.Filedata.Input.{IsPlainRow, populate-HasInput}
use o2_ims_worker.Http.{
  PipeLine, Request, Response, decoded, valid_os, nothing, post_pipeline, handle_pipeline,
}
use o2_ims_worker.Worker.{Flags, boot}
use o2_ims_worker.Worker.Main.{Watching, fatal_on, main}

module _ (h : Host) (watching : Watching) (getenv : String → String) (f : Flags) where
  fatal_on-fails :
      {A : Type 0} (o : Option String) (rest : Go A) (w : World)
      → ¬ Returns (rest w).0
      → ¬ Returns ((fatal_on o >> rest) w).0
  fatal_on-fails none rest w k = k
  fatal_on-fails (some message) rest w k = λ r. r

  -- A short line below the first one keeps `main` from starting anything.
  main-fails :
      (w : World) (text : String) (before : List String) (line : String) (after : List String)
      → lookup clients_csv w.fs.files ≡ some text
      → data_lines (some text) ≡ before ++ line ∷ after
      → IsShort line
      → ¬ Returns (main h watching getenv f w).0
  unfolding main
  main-fails w text before line after found lines short = fatal_on-fails watching.new_watcher _ w (
      fatal_on-fails watching.add _ w
        (continue-stops (populate h w).0 _ (populate h w).1
          (populate-fails h w text before line after found lines short).0).0)

gather-run :
    (w : World) (clients : Dict Client) → w.clients ≡ some clients → gather w ≡ (returns clients, w)
unfolding gather
gather-run w clients e = ground arith

answered-same : (o : Outcome Unit) (r : Response) (w : World) → (continue o (λ _. pure r) w).1 ≡ w
answered-same (returns a) r w = refl
answered-same (panics message) r w = refl
answered-same (exits message) r w = refl
answered-same stalls r w = refl

module _ (h : Host) (pipe : PipeLine) (w : World) (clients : Dict Client) where
  handle_pipeline-adds :
      (r : Request)
      → w.clients ≡ some clients
      → r.method ≡ "POST"
      → r.body ≡ decoded pipe
      → valid_os pipe.os ≡ true
      → lookup pipe.mac clients ≡ none
      → ip_taken pipe.ip clients ≡ false
      → (handle_pipeline h r w).1 ≡ (add_item_to_file h pipe.ip pipe.mac pipe.os w).1
  unfolding handle_pipeline post_pipeline
  handle_pipeline-adds r loaded post body valid unknown free = rw (gather-run w clients loaded) (
      rw post (
        rw body (
          rw valid (
            rw (unknown, post_pipeline)
              (rw free (
                answered-same (add_item_to_file h pipe.ip pipe.mac pipe.os w).0 nothing
                  (add_item_to_file h pipe.ip pipe.mac pipe.os w).1))))))

  -- A POST to /pipeline of a new client with plain fields, where the line is appended to a file that
  -- ends in a newline, whose lines fit the scanner and whose rows have no slash and no dot in a MAC
  -- address: from the files that are then there, `main` does not come to start any service, whatever
  -- the host, the watcher, the settings and the flags.
  pub handle_pipeline-breaks_main :
      (r : Request) (body : String)
      → w.clients ≡ some clients
      → r.method ≡ "POST"
      → r.body ≡ decoded pipe
      → valid_os pipe.os ≡ true
      → lookup pipe.mac clients ≡ none
      → ip_taken pipe.ip clients ≡ false
      → h.append w.fs clients_csv (new_line pipe.ip pipe.mac pipe.os) ≡ appended
      → lookup clients_csv w.fs.files ≡ some (body <> "\n")
      → All Fits (split_on b'\n' body)
      → Fits (entry pipe.ip pipe.mac pipe.os)
      → IsField pipe.ip
      → IsField pipe.mac
      → IsField pipe.os
      → All
          (λ line. IsPlainRow (parse_line line))
          (data_lines (some ((body <> "\n") <> new_line pipe.ip pipe.mac pipe.os)))
      → (h' : Host) (watching : Watching) (getenv : String → String) (f : Flags)
      → ¬ Returns (main h' watching getenv f (boot (handle_pipeline h r w).1.fs)).0
  handle_pipeline-breaks_main r body loaded post given valid unknown free fate file fits fit hi hm
        ho plain h' watching getenv f =
      let line = new_line pipe.ip pipe.mac pipe.os in
      let written = extended h pipe.ip pipe.mac pipe.os w clients body in
      let found : lookup clients_csv written.fs.files ≡ some ((body <> "\n") <> line) =
        lookup-insert_self clients_csv ((body <> "\n") <> line) w.fs.files in
      let (before, lines) = data_lines-entry body pipe.ip pipe.mac pipe.os fits fit hi hm ho in
      let same : (handle_pipeline h r w).1 ≡ (populate h written).1 =
        handle_pipeline-adds r loaded post given valid unknown free
        ∙ ap (λ p. p.1)
            (add_item_to_file-run h pipe.ip pipe.mac pipe.os w clients body loaded unknown free fate
              file) in
      main-fails h' watching getenv f (boot (handle_pipeline h r w).1.fs) ((body <> "\n") <> line)
        before (drop_cr (entry pipe.ip pipe.mac pipe.os)) []
        (ap (λ (u : World). lookup clients_csv u.fs.files) same
          ∙ populate-HasInput h written (rw found plain)
          ∙ found)
        lines (drop_cr-entry-IsShort pipe.ip pipe.mac pipe.os hi hm ho)
