-- ===== src/Http/Pipeline.antt =====
-- What the endpoint /pipeline answers.
use o2_ims_worker.Prelude.{
  String, ◌<>◌, ◌≡◌, ◌≢◌, ◌⊎◌, refl, true, false, none, some, arith, eq_iff, Bool-cases,
  Option-cases, inl, inr,
}
use o2_ims_worker.Prelude.Dict.{Dict, lookup}
use o2_ims_worker.Prelude.Exec.{Outcome, returns}
use o2_ims_worker.World.{Host, World, Client}
use o2_ims_worker.Filedata.{gather, ip_taken}
use o2_ims_worker.Http.{
  PipeLine, Decoded, malformed, decoded, Request, Response, bad_request, valid_os, post_pipeline,
  handle_pipeline,
}

-- What the code checks before it registers a client.
pub data IsRefused (clients : Dict Client) : Decoded → Type 0 where
  broken : (message : String) → IsRefused clients (malformed message)
  wrong_os :
      (pipe : PipeLine)
      → pipe.os ≢ "debian"
      → pipe.os ≢ "centos"
      → pipe.os ≢ "ubuntu"
      → IsRefused clients (decoded pipe)
  known : (pipe : PipeLine) → lookup pipe.mac clients ≢ none → IsRefused clients (decoded pipe)
  taken : (pipe : PipeLine) → ip_taken pipe.ip clients ≡ true → IsRefused clients (decoded pipe)

abbrev os_message : PipeLine → String
os_message pipe =
    "OS Type Not Exist: " <> pipe.os <> ". Only valid options are (debian, centos, ubuntu)"

-- The answer is a bad request, and nothing in the process or its files has changed.
abbrev pub Refuses : World → Outcome Response × World → Type 0
Refuses w run = (message : String) × (run ≡ (returns (bad_request message), w))

module _ (h : Host) (w : World) (clients : Dict Client) where
  post_pipeline_os-Refuses :
      (pipe : PipeLine)
      → valid_os pipe.os ≡ false
      → Refuses w (post_pipeline h clients (decoded pipe) w)
  unfolding post_pipeline
  post_pipeline_os-Refuses pipe bad = (os_message pipe, ground (arith, bad))

  post_pipeline_valid-Refuses :
      (pipe : PipeLine)
      → (lookup pipe.mac clients ≢ none) ⊎ (ip_taken pipe.ip clients ≡ true)
      → valid_os pipe.os ≡ true
      → Refuses w (post_pipeline h clients (decoded pipe) w)
  unfolding post_pipeline
  post_pipeline_valid-Refuses pipe why ok = elim (Option-cases (lookup pipe.mac clients)) [
    | inl l ↦ ("IP Exist: " <> pipe.ip, ground (arith, ok, l))
    | inr (c, l) ↦ ("Entry Exist: " <> pipe.mac, ground (arith, ok, l))
  ]

  post_pipeline-Refuses :
      (d : Decoded) → IsRefused clients d → Refuses w (post_pipeline h clients d w)
  post_pipeline-Refuses d (broken message) =
      ("Invalid request body: " <> message, unfold post_pipeline in refl)
  post_pipeline-Refuses d (wrong_os pipe a b c) =
      post_pipeline_os-Refuses pipe
        (ground (arith, eq_iff pipe.os "debian", eq_iff pipe.os "centos", eq_iff pipe.os "ubuntu"))
  post_pipeline-Refuses d (known pipe k) = elim (Bool-cases (valid_os pipe.os)) [
    | inl ok ↦ post_pipeline_valid-Refuses pipe (inl k) ok
    | inr bad ↦ post_pipeline_os-Refuses pipe bad
  ]
  post_pipeline-Refuses d (taken pipe t) = elim (Bool-cases (valid_os pipe.os)) [
    | inl ok ↦ post_pipeline_valid-Refuses pipe (inr t) ok
    | inr bad ↦ post_pipeline_os-Refuses pipe bad
  ]

module _ (h : Host) (w : World) (clients : Dict Client) (r : Request) where
  handle_pipeline-post :
      w.clients ≡ some clients
      → r.method ≡ "POST"
      → handle_pipeline h r w ≡ post_pipeline h clients r.body w
  unfolding handle_pipeline gather
  handle_pipeline-post loaded post = ground (arith, eq_iff r.method "POST")

  -- A POST whose body is broken, names another system than the three, or repeats the MAC or the IP
  -- address of a client: it is answered with status 400, and nothing in the process or its files
  -- changes.
  pub handle_pipeline-Refuses :
      w.clients ≡ some clients
      → r.method ≡ "POST"
      → IsRefused clients r.body
      → Refuses w (handle_pipeline h r w)
  handle_pipeline-Refuses loaded post why =
      rw (handle_pipeline-post loaded post) (post_pipeline-Refuses h w clients r.body why)
