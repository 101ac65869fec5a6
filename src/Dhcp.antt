-- ===== src/Dhcp.antt =====
-- internal/dhcp/server.go: the answer to a DHCP message. The library dhcpv4 is a parameter.
mod Interface
pub mod Answers
pub use Interface.*
use o2_ims_worker.Prelude.{
  ℕ, String, ◌==◌, ◌&&◌, ◌||◌, Bool, true, false, Option, none, some, List, [], ◌∷◌, ltb, nat_eq,
  if◌then◌else◌,
}
use o2_ims_worker.Prelude.Lists.{any, length}
use o2_ims_worker.Prelude.Dict.{Dict, lookup}
use o2_ims_worker.Prelude.Exec.{Outcome, returns, panics}
use o2_ims_worker.Prelude.Text.{contains}
use o2_ims_worker.World.{World, Client}

abbrev pub server_ip : String
server_ip = "192.168.99.1"

abbrev pub is_some {ℓ} : {A : Type ℓ} → Option A → Bool
is_some none = false
is_some (some a) = true

abbrev legacy_patterns : List String
legacy_patterns = "PXEClient:Arch:00000" ∷ "PXEClient:Arch:00006" ∷ "PXEClient:Arch:00007" ∷ []

abbrev legacy_class : Option String → Bool
legacy_class none = false
legacy_class (some class) = any (contains class) legacy_patterns

-- `len(archType) >= 2 && archType[0] == 0 && archType[1] == 0`
abbrev bios_architecture : Option (List ℕ) → Bool
bios_architecture (some (a ∷ b ∷ rest)) = nat_eq a 0 && nat_eq b 0
bios_architecture _ = false

-- `reply.YourIPAddr = net.ParseIP(…)` and so on, `reply.UpdateOption(…)`: one entry for each.
abbrev pub Edits : Type 0
Edits = List (Field × Value)

abbrev pxe_class : Option String → Bool
pxe_class none = false
pxe_class (some class) = class == "PXEClient" || class == "PXEClient:Arch:00000:UNDI:002001"

-- The switch on the message type; `none` is the early return.
abbrev pub reply_type : MessageType → Option MessageType
reply_type discover = some offer
reply_type request = some ack
reply_type _ = none

module _ (lib : Library) where
  open lib use {Message, Reply}

  -- `isPXEClient`
  unfoldable pub is_pxe_client : Message → Bool
  is_pxe_client m =
      pxe_class (lib.class_identifier m)
      || is_some (lib.architecture m)
      || is_some (lib.interface_identifier m)

  -- `isLegacyPXEClient`
  unfoldable pub is_legacy_pxe_client : Message → Bool
  unfolding contains
  is_legacy_pxe_client m =
      legacy_class (lib.class_identifier m)
      || (lib.client_ip_unspecified m && lib.is_broadcast m)
      || bios_architecture (lib.architecture m)

  -- The edits of `handler` before the switch on the message type, in its order.
  abbrev pub base_edits : Message → Client → Edits
  base_edits m c =
      (flags, broadcast (is_legacy_pxe_client m))
      ∷ (your_ip, address c.offer_ip)
      ∷ (server_ip_field, address server_ip)
      ∷ (gateway_ip, address server_ip)
      ∷ (server_host_name, text server_ip)
      ∷ (boot_file_name, text c.boot_file_url)
      ∷ (option opt_server_identifier, address server_ip)
      ∷ (option opt_subnet_mask, bytes (255 ∷ 255 ∷ 255 ∷ 0 ∷ []))
      ∷ (option opt_router, address server_ip)
      ∷ (option opt_dns, bytes (8 ∷ 8 ∷ 8 ∷ 8 ∷ []))
      ∷ (option opt_tftp_server_name, text server_ip)
      ∷ (option opt_boot_file_name, text c.boot_file_url)
      ∷ (option opt_lease_time, seconds 43200)
      ∷ (option opt_lease_time, seconds 43200)
      ∷ []

  unfoldable pub edit_all : Edits → Reply → Reply
  edit_all [] r = r
  edit_all ((f, v) ∷ edits) r = edit_all edits (lib.assign f v r)

  abbrev finish : Option MessageType → Reply → Option Reply
  finish none r = none
  finish (some t) r = some (lib.assign (option opt_message_type) (kind t) r)

  abbrev answer_client : Message → Reply → Option Client → Option Reply
  answer_client m r none = none
  answer_client m r (some c) =
      finish (reply_type (lib.message_type m)) (edit_all (base_edits m c) r)

  abbrev answer_from : Message → Option Reply → Option (Dict Client) → Outcome (Option Reply)
  answer_from m none clients = returns none
  answer_from m (some r) none = panics "nil pointer dereference"
  answer_from m (some r) (some clients) =
      returns (answer_client m r (lookup (lib.hardware_address m) clients))

  -- `handler`: the reply that is handed to `conn.WriteTo`, `none` where it returns before.
  unfoldable pub handler : Message → World → Outcome (Option Reply)
  unfolding is_legacy_pxe_client edit_all
  handler m w = answer_from m (lib.new_reply_from_request m) w.clients
