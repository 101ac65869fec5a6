-- ===== src/Filedata.antt =====
-- internal/db/file.go: the client table and the file inputs/clients.csv behind it.
pub mod Malformed
pub mod Loaded
pub mod Invariant
pub mod Input
pub mod Overwritten
pub mod Agreement
pub mod Clusters
pub mod Registration
use o2_ims_worker.Prelude.{
  ℕ, String, ◌<>◌, ◌==◌, Option, none, some, List, [], ◌∷◌, ◌++◌, Bool, false, if◌then◌else◌,
}
use o2_ims_worker.Prelude.Lists.{any}
use o2_ims_worker.Prelude.Dict.{Dict, lookup, insert}
use o2_ims_worker.Prelude.Exec.{pure, panic, gets, modify, ◌>>=◌, ◌>>◌}
use o2_ims_worker.Prelude.Text.{split_on, scan_lines}
use o2_ims_worker.Inventory.{init, generate}
use o2_ims_worker.World.{
  Host, World, Go, Client, Row, ClusterNode, MachineObject, nil, Appended, open_failed,
  print_failed, flush_failed, appended, write_file,
}

abbrev pub clients_csv : String
clients_csv = "inputs/clients.csv"

-- `read_lines[0]` to `read_lines[6]`, `none` where one of them is out of range. An empty cluster
-- name becomes "unclaimed".
unfoldable pub row_of : List String → Option Row
row_of (ip ∷ mac ∷ file_url ∷ os ∷ cluster ∷ template ∷ role ∷ rest) = some (record {
  ip = ip;
  mac = mac;
  file_url = file_url;
  os = os;
  cluster = if cluster == "" then "unclaimed" else cluster;
  template = template;
  role = role;
})
row_of _ = none

-- A line of the file as the loop of `Populate` takes it apart.
abbrev pub parse_line : String → Option Row
parse_line line = row_of (split_on b',' line)

-- `currClient`
abbrev pub client_of : Row → MachineObject → Client
client_of r object = record {
  offer_ip = r.ip;
  mac_address = r.mac;
  boot_file_url = r.file_url;
  os_type = r.os;
  machine_object = object;
}

abbrev pub node_of : Row → ClusterNode
node_of r = record { node = r.mac; role = r.role; os = r.os; ip = r.ip }

-- A missing key of `clustersMap` reads as the empty slice.
abbrev pub nodes_in : Option (List ClusterNode) → List ClusterNode
nodes_in none = []
nodes_in (some nodes) = nodes

-- `clustersMap[c] = append(clustersMap[c], node)`
unfoldable pub add_node : Row → Dict (List ClusterNode) → Dict (List ClusterNode)
add_node r clusters =
    insert r.cluster (nodes_in (lookup r.cluster clusters) ++ node_of r ∷ []) clusters

abbrev pub after_header : List String → List String
after_header [] = []
after_header (header ∷ lines) = lines

-- The lines after the first, none where the file could not be opened.
unfoldable pub data_lines : Option String → List String
unfolding scan_lines
data_lines none = []
data_lines (some text) = after_header (scan_lines text)

-- The two maps that the loop of `Populate` builds.
pub record Tables : Type 0 where
  pub clients : Dict Client
  pub clusters : Dict (List ClusterNode)

abbrev pub no_tables : Tables
no_tables = record { clients = []; clusters = [] }

abbrev pub add_row : Row → MachineObject → Tables → Tables
add_row r object t = record {
  clients = insert r.mac (client_of r object) t.clients;
  clusters = add_node r t.clusters;
}

-- `activePtr = &ptrClients{…}`, after the goroutine has been started.
abbrev pub publish : Tables → World → World
publish t w = record w { clients = some t.clients; background = w.background ++ t.clusters ∷ [] }

module _ (h : Host) where
  -- The call of `Generate` for a row.
  abbrev pub generate_row : Row → Go MachineObject
  generate_row r = generate h r.ip r.mac r.os r.cluster r.role r.template

  -- The loop of `Populate`.
  unfoldable pub populate_rows : List String → Tables → Go Tables
  populate_rows [] t = pure t
  populate_rows (line ∷ lines) t = elim (parse_line line) [
    | none ↦ panic "index out of range"
    | some r ↦ generate_row r >>= λ object. populate_rows lines (add_row r object t)
  ]

  -- `Populate`. The two clients that it declares are put into no map.
  unfoldable pub populate : Go Unit
  unfolding populate_rows data_lines init
  populate = do
    text ← gets (λ w. lookup clients_csv w.fs.files)
    init
    tables ← populate_rows (data_lines text) no_tables
    modify (publish tables)

-- `Gather().Clients`
unfoldable pub gather : Go (Dict Client)
gather w = elim w.clients [
  | none ↦ panic "nil pointer dereference" w
  | some clients ↦ pure clients w
]

-- Go's zero value of `MachineObject`.
abbrev pub zero_machine : MachineObject
zero_machine = record {
  ip = "";
  cluster = "";
  template = "";
  id = "";
  os_name = "";
  os_type = "";
  kernel = "";
  os_data = nil;
  installed = false;
  role = "";
}

abbrev pub new_client : (ip mac os_type : String) → Client
new_client ip mac os_type = record {
  offer_ip = ip;
  mac_address = mac;
  boot_file_url = "pxelinux.0";
  os_type = os_type;
  machine_object = zero_machine;
}

-- `AddItem`: the table alone is changed.
unfoldable pub add_item : (ip mac os_type : String) → Go Unit
unfolding gather
add_item ip mac os_type = do
  clients ← gather
  modify λ w. record w { clients = some (insert mac (new_client ip mac os_type) clients) }

-- What `Fprintf` is given.
abbrev pub new_line : (ip mac os_type : String) → String
new_line ip mac os_type = ip <> "," <> mac <> ",pxelinux.0," <> os_type <> "\n"

abbrev pub text_or_empty : Option String → String
text_or_empty none = ""
text_or_empty (some text) = text

-- Text put at the end of the file, which `O_CREATE` makes where it is missing.
abbrev pub append_text : String → Go Unit
append_text text w =
    write_file clients_csv (text_or_empty (lookup clients_csv w.fs.files) <> text) w

-- Another client has the address.
abbrev pub ip_taken : String → Dict Client → Bool
ip_taken ip clients = any (λ e. e.1.offer_ip == ip) clients

module _ (h : Host) where
  -- The part of `AddItemToFile` that opens the file, writes the line and populates again.
  unfoldable pub append_client : String → Appended → Go Unit
  append_client line open_failed = pure tt
  append_client line (print_failed written) = append_text written
  append_client line (flush_failed written) = do append_text written; populate h
  append_client line appended = do append_text line; populate h

  -- `AddItemToFile`
  unfoldable pub add_item_to_file : (ip mac os_type : String) → Go Unit
  unfolding gather append_client
  add_item_to_file ip mac os_type = do
    clients ← gather
    elim (lookup mac clients) [
      | some _ ↦ pure tt
      | none ↦ if ip_taken ip clients then pure tt else (do
        fate ← gets (λ w. h.append w.fs clients_csv (new_line ip mac os_type))
        append_client (new_line ip mac os_type) fate)
    ]
