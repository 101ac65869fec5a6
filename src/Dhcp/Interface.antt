-- ===== src/Dhcp/Interface.antt =====
-- What internal/dhcp uses of the library dhcpv4: reading a message, and building a reply.
use o2_ims_worker.Prelude.{ℕ, String, ◌≡◌, Bool, Option, some, List}

-- The message types of RFC 2131.
pub data MessageType : Type 0 where
  none_given discover offer request decline ack nak release inform : MessageType

-- The options that the handler sets, by their names in the library.
pub data OptionCode : Type 0 where
  opt_server_identifier opt_subnet_mask opt_router opt_dns opt_tftp_server_name : OptionCode
  opt_boot_file_name opt_lease_time opt_message_type : OptionCode

-- The parts of a reply that the handler writes.
pub data Field : Type 0 where
  flags your_ip server_ip_field gateway_ip server_host_name boot_file_name : Field
  option : OptionCode → Field

-- `address s` is what `net.ParseIP(s)` gives, which may be nil.
pub data Value : Type 0 where
  broadcast : Bool → Value
  address : String → Value
  text : String → Value
  bytes : List ℕ → Value
  seconds : ℕ → Value
  kind : MessageType → Value

-- The library. A missing option reads as `none`. `assign` writes a field of the reply's struct, or
-- calls `SetBroadcast`, `SetUnicast` or `UpdateOption`.
pub record Library : Type 1 where
  pub Message : Type 0
  pub Reply : Type 0
  pub hardware_address : Message → String
  pub message_type : Message → MessageType
  pub class_identifier : Message → Option String
  pub architecture : Message → Option (List ℕ)
  pub interface_identifier : Message → Option (List ℕ)
  pub client_ip_unspecified : Message → Bool
  pub is_broadcast : Message → Bool
  pub new_reply_from_request : Message → Option Reply
  pub assign : Field → Value → Reply → Reply
  pub read : Field → Reply → Option Value

-- What the library documents of replies: a field or an option that was written reads as written,
-- and the others as before.
pub record IsLawful (lib : Library) : Type 0 where
  pub read-assign_self :
      (f : Field) (v : Value) (r : lib.Reply) → lib.read f (lib.assign f v r) ≡ some v
  pub read-assign_ne :
      (f g : Field) (v : Value) (r : lib.Reply)
      → (f ≡ g → ⊥)
      → lib.read g (lib.assign f v r) ≡ lib.read g r
