-- ===== src/Http.antt =====
-- internal/http/server.go: the routes, and the handlers of /pipeline, /callback, /inventories and
-- /test. A panic in a handler ends the request; the server goes on.
pub mod Pipeline
pub mod Callback
pub mod Boot
pub mod Ansible
use mathlib.Core.Option
use o2_ims_worker.Prelude.{
  ℕ, String, ◌<>◌, ◌==◌, ◌||◌, Bool, true, false, Option, none, some, List, [], ◌∷◌, map,
  if◌then◌else◌,
}
use o2_ims_worker.Prelude.Lists.{get_elem?}
use o2_ims_worker.Prelude.Dict.{Dict, lookup}
use o2_ims_worker.Prelude.Exec.{pure, gets, ◌>>=◌, ◌>>◌}
use o2_ims_worker.World.{Host, World, Go, Client, Inventory, MachineObject}
use o2_ims_worker.Inventory.{log_installed_machine}
use o2_ims_worker.Filedata.{gather, add_item_to_file, ip_taken}

-- `pipeLine`
pub record PipeLine : Type 0 where
  pub name : String
  pub mac : String
  pub ip : String
  pub os : String

-- What `json.NewDecoder(r.Body).Decode` makes of the body.
pub data Decoded : Type 0 where
  malformed : (error : String) → Decoded
  decoded : PipeLine → Decoded

-- A request: `query` is `r.URL.Query().Get`, and `encodes` tells whether encoding an answer to its
-- connection succeeds.
pub record Request : Type 0 where
  pub method : String
  pub path : String
  pub query : String → String
  pub body : Decoded
  pub encodes : Bool

-- What the handler writes: nothing, a text, `http.Error`, or a value encoded as JSON.
pub data Response : Type 0 where
  nothing : Response
  written : String → Response
  error : (status : ℕ) → String → Response
  clients_json : Dict (Dict String) → Response
  machines_json : Option (Dict (Option MachineObject)) → Response
  unsent : Response

-- `ToMap`
unfoldable pub to_map : Client → Dict String
to_map c =
    ("ip", c.offer_ip)
    ∷ ("mac", c.mac_address)
    ∷ ("bootfile", c.boot_file_url)
    ∷ ("ostype", c.os_type)
    ∷ []

-- The loop over the clients that fills `jsonPayload`.
abbrev pub payload : Dict Client → Dict (Dict String)
payload = map (λ e. (e.0, to_map e.1))

-- `slices.Contains(validOSTypes, os)`
abbrev pub valid_os : String → Bool
valid_os os = os == "debian" || os == "centos" || os == "ubuntu"

abbrev pub bad_request : String → Response
bad_request = error 400

module _ (h : Host) where
  -- The POST case of `handlePipeline`.
  unfoldable pub post_pipeline : Dict Client → Decoded → Go Response
  post_pipeline clients (malformed message) =
      pure (bad_request ("Invalid request body: " <> message))
  post_pipeline clients (decoded pipe) =
      if valid_os pipe.os
      then (elim (lookup pipe.mac clients) [
        | some _ ↦ pure (bad_request ("Entry Exist: " <> pipe.mac))
        | none ↦
            if ip_taken pipe.ip clients
            then pure (bad_request ("IP Exist: " <> pipe.ip))
            else (do add_item_to_file h pipe.ip pipe.mac pipe.os; pure nothing)
      ])
      else pure (
          bad_request (
            "OS Type Not Exist: " <> pipe.os
            <> ". Only valid options are (debian, centos, ubuntu)"))

  -- The GET case.
  abbrev get_pipeline : Dict Client → Bool → Go Response
  get_pipeline clients encodes =
      pure (if encodes then clients_json (payload clients) else error 500 "Error Detected")

  -- `handlePipeline`
  unfoldable pub handle_pipeline : Request → Go Response
  unfolding gather
  handle_pipeline r = do
    clients ← gather
    if r.method == "POST"
        then post_pipeline clients r.body
        else if r.method == "GET"
        then get_pipeline clients r.encodes
        else pure nothing

  abbrev pub callback_response : Option String → Response
  callback_response none = written "Success!"
  callback_response (some message) = bad_request ("Error " <> message)

  -- `handleCallback`; `now` is the time of the call.
  unfoldable pub handle_callback : ℕ → Request → Go Response
  handle_callback now r = if r.query "mac" == "" then pure nothing else (do
    failed ← log_installed_machine h (r.query "mac") "" now now
    pure (callback_response failed))

  -- The table of machines with its pointers followed.
  abbrev machines_shown : Inventory → Option (Dict (Option MachineObject))
  machines_shown i = Option.map (map (λ e. (e.0, get_elem? i.heap e.1))) i.active

  -- `handleInventory`
  unfoldable pub handle_inventory : Request → Go Response
  handle_inventory r =
      gets (λ w. if r.encodes then machines_json (machines_shown w.inventory) else unsent)

  -- `handleTest`
  unfoldable pub handle_test : Request → Go Response
  handle_test r = pure (written "This is the test path...\n")

  -- The part of the mux of `Serve` that leads to these handlers; `none` stands for the others.
  unfoldable pub serve : ℕ → Request → Option (Go Response)
  serve now r =
      if r.path == "/pipeline"
      then some (handle_pipeline r)
      else if r.path == "/test"
      then some (handle_test r)
      else if r.path == "/inventories"
      then some (handle_inventory r)
      else if r.path == "/callback"
      then some (handle_callback now r)
      else none
