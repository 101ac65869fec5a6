-- ===== src/Config.antt =====
-- internal/config/config.go: the settings of the two servers, from environment variables. The two
-- command-line flags that `Gather` defines are printed and not used.
pub mod Laws
pub mod Defaults
use o2_ims_worker.Prelude.{String, ◌==◌, Bool, true, Option, none, some, if◌then◌else◌}
use o2_ims_worker.Prelude.Int.{ℤ, pos}
use o2_ims_worker.Strconv.{parse_bool, atoi}

pub record TftpConfig : Type 0 where
  pub enabled : Bool
  pub bind_addr : String
  pub bind_port : ℤ
  pub block_size : ℤ

pub record DhcpConfig : Type 0 where
  pub enabled : Bool
  pub mode : String
  pub bind_addr : String
  pub bind_interface : String
  pub bind_port : ℤ
  pub tftp_ip : String
  pub tftp_port : ℤ
  pub next_server_ip : String
  pub boot_file_path : String

pub record Master : Type 0 where
  pub tftp : TftpConfig
  pub dhcp : DhcpConfig

abbrev pub default_tftp : TftpConfig
default_tftp = record {
  enabled = true;
  bind_addr = "0.0.0.0";
  bind_port = pos 69;
  block_size = pos 512;
}

abbrev pub default_dhcp : DhcpConfig
default_dhcp = record {
  enabled = true;
  mode = "";
  bind_addr = "0.0.0.0";
  bind_interface = "eth0";
  bind_port = pos 67;
  tftp_ip = "192.168.1.1";
  tftp_port = pos 69;
  next_server_ip = "192.168.1.1";
  boot_file_path = "pxelinux.0";
}

-- The value that was parsed, or the old one where there was an error.
abbrev pub or_old {ℓ} : {A : Type ℓ} → A → Option A → A
or_old old none = old
or_old old (some new) = new

-- `os.Getenv` gives the empty text for a variable that is not set.
module _ (getenv : String → String) where
  -- `if val := os.Getenv(key); val != "" { field = val }`
  unfoldable pub text_setting : String → String → String
  text_setting key old = if getenv key == "" then old else getenv key

  -- The same with `strconv.Atoi`.
  unfoldable pub int_setting : String → ℤ → ℤ
  int_setting key old = if getenv key == "" then old else or_old old (atoi (getenv key))

  -- The same with `strconv.ParseBool`.
  unfoldable pub bool_setting : String → Bool → Bool
  bool_setting key old = if getenv key == "" then old else or_old old (parse_bool (getenv key))

  unfoldable pub gather_tftp : TftpConfig
  gather_tftp = record {
    enabled = bool_setting "TFTP_ENABLE" default_tftp.enabled;
    bind_addr = text_setting "TFTP_BIND_ADDR" default_tftp.bind_addr;
    bind_port = int_setting "TFTP_BIND_PORT" default_tftp.bind_port;
    block_size = int_setting "TFTP_BLOCKSIZE" default_tftp.block_size;
  }

  unfoldable pub gather_dhcp : DhcpConfig
  gather_dhcp = record {
    enabled = bool_setting "DHCP_ENABLE" default_dhcp.enabled;
    mode = text_setting "DHCP_MODE" default_dhcp.mode;
    bind_addr = text_setting "DHCP_BIND_ADDRESS" default_dhcp.bind_addr;
    bind_interface = text_setting "DHCP_BIND_INTERFACE" default_dhcp.bind_interface;
    bind_port = int_setting "DHCP_BIND_PORT" default_dhcp.bind_port;
    tftp_ip = text_setting "DHCP_TFTP_IP" default_dhcp.tftp_ip;
    tftp_port = int_setting "DHCP_TFTP_PORT" default_dhcp.tftp_port;
    next_server_ip = text_setting "DHCP_NEXT_SERVER_IP" default_dhcp.next_server_ip;
    boot_file_path = text_setting "DHCP_BOOT_FILE" default_dhcp.boot_file_path;
  }

  -- `Gather`
  unfoldable pub gather : Master
  gather = record { tftp = gather_tftp; dhcp = gather_dhcp }
