-- ===== src/Config/Laws.antt =====
-- A decimal text sets a port exactly.
use o2_ims_worker.Prelude.{String, ◌≡◌, arith, eq_iff}
use o2_ims_worker.Prelude.Int.{ℤ, IsInt64}
use o2_ims_worker.Strconv.{itoa}
use o2_ims_worker.Strconv.Decimal.{atoi-itoa, itoa-ne-empty}
use o2_ims_worker.Config.{int_setting, gather_tftp, gather_dhcp, gather}

module _ (getenv : String → String) where
  int_setting-itoa :
      (key : String) (old z : ℤ) → IsInt64 z → getenv key ≡ itoa z → int_setting getenv key old ≡ z
  unfolding int_setting
  int_setting-itoa key old z h e =
      rw e (ground (arith, eq_iff (itoa z) "", itoa-ne-empty z, atoi-itoa z h))

  -- A port that a variable gives in decimal is the port that the server is given, and no other
  -- server's; this for each of the two servers.
  pub gather-bind_port :
      (p q : ℤ)
      → IsInt64 p
      → IsInt64 q
      → getenv "TFTP_BIND_PORT" ≡ itoa p
      → getenv "DHCP_BIND_PORT" ≡ itoa q
      → ((gather getenv).tftp.bind_port ≡ p) × ((gather getenv).dhcp.bind_port ≡ q)
  unfolding gather gather_tftp gather_dhcp
  gather-bind_port p q hp hq ep eq =
      (int_setting-itoa "TFTP_BIND_PORT" _ p hp ep, int_setting-itoa "DHCP_BIND_PORT" _ q hq eq)
