-- ===== src/Lib.antt =====
-- o2-ims-worker provisions bare-metal machines over the network. It answers DHCP and TFTP, renders
-- boot entries and unattended-install files for the machines of inputs/clients.csv, and has an HTTP
-- interface that registers machines and that an installed machine calls back.
--
-- The parts, and the files that model them (paths from the repository's root):
-- Prelude: lists, maps, texts and Go's `int`. Prelude/Exec has the monad of the code: it passes the
--   process state on, and a computation returns, panics, ends the process by `log.Fatalf`, or waits
--   for ever; what was written before stays written. Prelude/Text has what the code uses of
--   `strings` and `bufio`; texts are walked by characters, and a line fits the scanner below 65536
--   of them, which is the buffer's size where every character is one byte. Prelude/Paths follows a
--   path as the operating system does where there are no symbolic links.
-- World: the process. Its globals are those of internal/inventory/inventory.go (`activeMachines`,
--   `activeInstalledMachines`, whose maps hold pointers into one heap) and internal/db/file.go
--   (`activePtr`), beside the files, each under its path with `.` and `..` followed. `Host` is a
--   parameter: it decides which file operations and templates succeed and what a template renders.
-- Seeds: internal/inventory/debian.go, `readSSHKey` and the three seed generators.
-- Inventory: internal/inventory/inventory.go, `Init`, `Generate`, `genPXEEntry`,
--   `LogInstalledMachine`, `FetchMachines`, `GetTemplate`. Inventory/View reads the tables through
--   their pointers and has their invariant; Inventory/Generated, Inventory/Installed,
--   Inventory/Entries, Inventory/Places and Inventory/Assets have what the operations do and which
--   files they write.
-- Filedata: internal/db/file.go, `Populate`, `Gather`, `AddItem`, `AddItemToFile`. Its children
--   treat a well-formed file (Loaded, Agreement, Clusters), a malformed one (Malformed), the
--   invariant (Invariant), registrations (Registration), what it leaves alone (Input), and a MAC
--   address that leads out of its folders (Overwritten).
-- Strconv and Config: internal/config/config.go, `Gather` as a function of the environment, over
--   `ParseBool`, `Atoi` and `Itoa`. `show` has fuel for 20 digits, as many as 64 bits need.
-- Tftp: internal/tftp/server.go, `readHandler`; the transfer is a parameter.
-- Dhcp: internal/dhcp/server.go, `isPXEClient`, `isLegacyPXEClient` and `handler` up to the reply
--   that it hands to the connection. The library dhcpv4 is a parameter (Dhcp/Interface), with the
--   law that a written field reads as written and the others as before.
-- Http: internal/http/server.go, the handlers of /pipeline, /callback, /inventories and /test.
--   Http/Boot puts a callback and the TFTP requests of the machine's next boot together.
-- Kubernetes: internal/kubernetes/kubernetes.go, `InitCluster`, `GetClusters` and what they read of a
--   cluster, with `PtrClusterMap` as a state of their own; client-go is a parameter. `GetClusters`
--   visits the entries in the order of the list, which stands for any order of a range over a map.
--   Kubernetes/Endpoint has the handler of /kubernetes of internal/http/server.go, and
--   Kubernetes/Order the order in which a loop calls `InitCluster`.
-- Ansible: internal/ansible/ansible.go, `extractCreds` and what `FetchToken` does with its results.
--   Ansible/Playbook has `writeTemp`, `FetchToken` and `Populate` whole, on the state of System.
--   `Runner` is a parameter: the ansible run, which may change any file and, as nothing limits its
--   time, may never end, the parsers of its output and of the credentials, the names of temporary
--   files, and the working directory. The modes of
--   the temporary files are not modelled. Ansible/Temps, Ansible/Tokens and Ansible/Install have
--   what the functions do. Http/Ansible has the handlers of /ansible and /ansible-token.
-- System: the state that these share, which is the process, the table of clusters and the
--   environment variables. System/Background has the goroutine that `Populate` of
--   internal/db/file.go starts, and those that it starts for the nodes: one turn is `InitCluster`
--   for one cluster, or a whole `FetchToken`; where its run of ansible never ends, its goroutine is
--   kept as stuck and the others go on. System/Reach puts these turns, the first load, the
--   watcher's events and the requests into one relation, in which a panic that nothing recovers and
--   `log.Fatalf` end the process. System/Frame, System/Fetched, System/Sound and System/Entries have
--   what the operations keep, and System/Registers what the background work leaves.
-- Worker: cmd/worker/main.go, the flags, the file watcher and the requests as a step relation. The
--   handlers are taken one after the other: the code has no locks, and its data races are not
--   modelled. A step whose code panics leaves the state that it had reached. Worker/Main has `main`
--   up to its wait for a signal, and Worker/Restart what a registration does to the next start.
-- Tests: runs on concrete inputs.
--
-- Not modelled: two goroutines inside one call of `FetchToken` or one loop over the clusters at a
-- time; the file server, the sockets and the signals; the stand-alone test programs
-- cmd/worker/clientDHCP.go and cmd/worker/clientTFTP.go; templates, scripts and deployment files;
-- logging.
pub mod Prelude
pub mod World
pub mod Seeds
pub mod Inventory
pub mod Filedata
pub mod Strconv
pub mod Config
pub mod Tftp
pub mod Dhcp
pub mod Http
pub mod Kubernetes
pub mod Ansible
pub mod System
pub mod Worker
pub mod Tests
