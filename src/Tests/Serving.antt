-- ===== src/Tests/Serving.antt =====
-- A DHCP library made of concrete data, and DHCP and TFTP requests to a loaded process.
use o2_ims_worker.Prelude.{
  String, ◌≡◌, ◌≢◌, ◌⊎◌, ◌↔◌, refl, true, false, Option, none, some, List, [], ◌∷◌, ◌++◌, arith,
  eq_iff,
}
use o2_ims_worker.Prelude.Dict.{Dict, lookup}
use o2_ims_worker.Prelude.Exec.{returns}
use o2_ims_worker.Prelude.Text.{split_on}
use o2_ims_worker.World.{World, Client}
use o2_ims_worker.Filedata.{new_client}
use o2_ims_worker.Dhcp.{
  Library, IsLawful, MessageType, discover, offer, request, Field, flags, your_ip, server_ip_field,
  boot_file_name, option, opt_boot_file_name, opt_lease_time, opt_message_type, Value, broadcast,
  address, text, seconds, kind, server_ip, is_pxe_client, is_legacy_pxe_client, handler,
}
use o2_ims_worker.Dhcp.Answers.{handler-reply, handler-answers_iff}
use o2_ims_worker.Prelude.Paths.{enter, enter_all, resolve, file_name}
use o2_ims_worker.Tftp.{transferred, read_handler}
use o2_ims_worker.Tftp.Paths.{tftp_root, read_handler-IsUnder, read_handler_escapes}
use o2_ims_worker.Tests.World.{start}

-- A message that names its sender, its type and its class.
record Probe : Type 0 where
  mac : String
  type : MessageType
  class : Option String

Field-discrete : Discrete Field
Field-discrete = hlevel

abbrev chosen : {f g : Field} → Dec (f ≡ g) → Value → Option Value → Option Value
chosen (yes _) v before = some v
chosen (no _) v before = before

abbrev write : Field → Value → (Field → Option Value) → Field → Option Value
write f v reply g = chosen (Field-discrete f g) v (reply g)

-- A reply is what its fields hold, and every message can be answered.
abbrev library : Library
library = record {
  Message = Probe;
  Reply = Field → Option Value;
  hardware_address = λ m. m.mac;
  message_type = λ m. m.type;
  class_identifier = λ m. m.class;
  architecture = λ m. none;
  interface_identifier = λ m. none;
  client_ip_unspecified = λ m. true;
  is_broadcast = λ m. false;
  new_reply_from_request = λ m. some (λ f. none);
  assign = write;
  read = λ f reply. reply f;
}

chosen_self :
    (f : Field) (v : Value) (before : Option Value) (d : Dec (f ≡ f)) → chosen d v before ≡ some v
chosen_self f v before (yes e) = refl
chosen_self f v before (no n) = absurd (n refl)

chosen_other :
    (f g : Field) (v : Value) (before : Option Value) (d : Dec (f ≡ g))
    → (f ≡ g → ⊥)
    → chosen d v before ≡ before
chosen_other f g v before (yes e) n = absurd (n e)
chosen_other f g v before (no k) n = refl

library-IsLawful : IsLawful library
library-IsLawful = record {
  read-assign_self = λ f v r. chosen_self f v (r f) (Field-discrete f f);
  read-assign_ne = λ f g v r n. chosen_other f g v (r g) (Field-discrete f g) n;
}

abbrev client : Client
client = new_client "192.168.99.10" "aa:bb" "debian"

abbrev clients : Dict Client
clients = ("aa:bb", client) ∷ []

abbrev motd : String
motd = "welcome"

-- One file for TFTP and one outside its directory.
abbrev running : World
running = record start {
  fs = record { files = ("assets/tftp/bios/menu", motd) ∷ ("go.mod", "module o2") ∷ []; dirs = [] };
  clients = some clients;
}

abbrev probe : Probe
probe = record { mac = "aa:bb"; type = discover; class = some "PXEClient:Arch:00007:UNDI:003016" }

found : lookup "aa:bb" clients ≡ some client
unfolding lookup
found = refl

legacy_test : is_legacy_pxe_client library probe ≡ true
unfolding is_legacy_pxe_client
legacy_test = refl

pxe_test : is_pxe_client library probe ≡ false
unfolding is_pxe_client
pxe_test = refl

handler-answers_iff_example : (handler library probe running ≢ returns none) ↔ (
    (lookup "aa:bb" clients ≢ none)
    × (library.new_reply_from_request probe ≢ none)
    × ((probe.type ≡ discover) ⊎ (probe.type ≡ request)))
handler-answers_iff_example =
    handler-answers_iff library library-IsLawful probe running clients refl

handler-reply_example :
    (reply : Field → Option Value) × (handler library probe running ≡ returns (some reply))
    × (reply flags ≡ some (broadcast (is_legacy_pxe_client library probe)))
    × (reply your_ip ≡ some (address "192.168.99.10"))
    × (reply server_ip_field ≡ some (address server_ip))
    × (reply boot_file_name ≡ some (text "pxelinux.0"))
    × (reply (option opt_boot_file_name) ≡ some (text "pxelinux.0"))
    × (reply (option opt_lease_time) ≡ some (seconds 43200))
    × (reply (option opt_message_type) ≡ some (kind offer))
handler-reply_example =
    handler-reply library library-IsLawful probe running clients client (λ f. none) offer refl found
      refl refl

-- A transfer that never fails.
abbrev send : String → Option String
send content = none

menu_sent : read_handler send "/bios/menu" running ≡ returns (transferred motd none)
unfolding read_handler resolve enter_all enter split_on lookup
menu_sent = refl

read_handler-IsUnder_example :
    (inner : List String) × (lookup (file_name (inner ++ tftp_root)) running.fs.files ≡ some motd)
unfolding split_on
read_handler-IsUnder_example =
    read_handler-IsUnder send running "/bios/menu" motd none
      (ground (arith, eq_iff "" "..", eq_iff "bios" "..", eq_iff "menu" "..")) menu_sent

outside : lookup (file_name (resolve "go.mod")) running.fs.files ≡ some "module o2"
unfolding resolve enter_all enter split_on lookup
outside = refl

read_handler_escapes_example :
    read_handler send "/../../go.mod" running ≡ returns (transferred "module o2" none)
read_handler_escapes_example = read_handler_escapes send running "go.mod" "module o2" outside
