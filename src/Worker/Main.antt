-- ===== src/Worker/Main.antt =====
-- cmd/worker/main.go, `main` up to the wait for a signal; internal/dhcp/server.go, the address that
-- `Start` listens on.
use o2_ims_worker.Prelude.{String, Option, none, some, List, map}
use o2_ims_worker.Prelude.Int.{ℤ}
use o2_ims_worker.Prelude.Exec.{pure, fatal, ◌>>◌}
use o2_ims_worker.World.{Host, Go}
use o2_ims_worker.Filedata.{populate}
use o2_ims_worker.Config.{DhcpConfig, Master, gather}
use o2_ims_worker.Tftp.{listen_addr}
use o2_ims_worker.Worker.{Flags, Service, tftp, dhcp, http, started}

-- What a service listens on: the address of TFTP and HTTP, and for DHCP the interface, the text
-- that `net.ParseIP` is given, and the port.
pub data Listener : Type 0 where
  tftp_on : (address : String) → Listener
  dhcp_on : (interface address : String) (port : ℤ) → Listener
  http_on : (address : String) → Listener

abbrev pub dhcp_listener : DhcpConfig → Listener
dhcp_listener c = dhcp_on c.bind_interface c.bind_addr c.bind_port

abbrev pub listener : Master → Service → Listener
listener c tftp = tftp_on (listen_addr c.tftp)
listener c dhcp = dhcp_listener c.dhcp
listener c http = http_on ":8033"

-- The errors of `NewWatcher` and of `Add`, where they have one.
pub record Watching : Type 0 where
  pub new_watcher : Option String
  pub add : Option String

-- `if err != nil { log.Fatal(err) }`
abbrev pub fatal_on : Option String → Go Unit
fatal_on none = pure tt
fatal_on (some message) = fatal message

-- `main`: what it has started when it waits for a signal. An event that the watcher reports before
-- the first load is a step of its own.
unfoldable pub main : Host → Watching → (getenv : String → String) → Flags → Go (List Listener)
main h watching getenv f = do
  fatal_on watching.new_watcher
  fatal_on watching.add
  populate h
  pure (map (listener (gather getenv)) (started f))
